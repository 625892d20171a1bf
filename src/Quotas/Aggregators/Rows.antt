-- ===== src/Quotas/Aggregators/Rows.antt =====
-- Rows of the table of quotas that are inserted and deleted.
use waldur_core.Prelude.{
  ℕ, ◌≡◌, refl, false, not, none, some, [], ◌∷◌, ◌++◌, String, arith, filter, ◌==◌, ==_refl, ==_iff,
  eq_iff,
}
use waldur_core.Quotas.Table.{Quota, Table, get, is_at}

-- `quota.delete()`
unfoldable pub delete : ℕ → String → Table → Table
unfolding is_at
delete scope name qs = filter (λ q. not (is_at scope name q)) qs

pub get-append_found :
    (s : ℕ) (n : String) (c : Quota) (qs : Table) (q : Quota)
    → get s n qs ≡ some q
    → get s n (qs ++ c ∷ []) ≡ some q
unfolding get
get-append_found s n c [] q e = cc
get-append_found s n c (r ∷ qs) q e = ground (arith, e, get-append_found s n c qs q)

pub get-append_new :
    (c : Quota) (qs : Table)
    → get c.scope c.name qs ≡ none
    → get c.scope c.name (qs ++ c ∷ []) ≡ some c
unfolding get is_at
get-append_new c [] e = ground (arith, ==_refl c.scope, eq_iff c.name c.name)
get-append_new c (r ∷ qs) e = ground (arith, e, get-append_new c qs)

pub get-append_other :
    (s : ℕ) (n : String) (c : Quota)
    → (s == c.scope) ≡ false
    → (qs : Table) → get s n (qs ++ c ∷ []) ≡ get s n qs
unfolding get is_at
get-append_other s n c k [] = ground (arith, k)
get-append_other s n c k (r ∷ qs) = ground (arith, get-append_other s n c k qs)

pub get-delete_self : (s : ℕ) (n : String) (qs : Table) → get s n (delete s n qs) ≡ none
unfolding get delete filter
get-delete_self s n [] = refl
get-delete_self s n (r ∷ qs) = ground (arith, get-delete_self s n qs)

pub get-delete_other :
    (s s' : ℕ) (n n' : String)
    → (s == s') ≡ false
    → (qs : Table) → get s n (delete s' n' qs) ≡ get s n qs
unfolding get delete filter is_at
get-delete_other s s' n n' k [] = refl
get-delete_other s s' n n' k (r ∷ qs) =
    ground (arith, k, ==_iff s s', get-delete_other s s' n n' k qs)
