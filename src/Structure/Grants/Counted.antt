-- ===== src/Structure/Grants/Counted.antt =====
-- The quota of users of a customer while permissions are created and deleted.
use waldur_core.Structure.Grants.Users.{number-put_structure, quotas-put_structure}
use waldur_core.Prelude.{
  ℕ, ◌≡◌, refl, Bool, true, false, ◌||◌, some, String, arith, length, Bool-cases, inl, inr, ap, ◌∙◌,
  Outcome, returned, raised,
}
use waldur_core.Prelude.Int.{ℤ, pos, leb_ℤ, eqb_ℤ, eq_of_parts}
use waldur_core.Quotas.Table
use waldur_core.Quotas.Table.{
  Table, Quota, unlimited, get, write, set_quota_usage, with_quota, is_at,
}
use waldur_core.Quotas.Table.Laws.{get-write}
use waldur_core.Structure.Permissions.{Structure}
use waldur_core.Structure.Grants.{
  Scope, Scopes, GrantError, put_structure, get_users, with_quotas, change_customer_nc_users_quota,
}

-- A number of users that the limit allows.
unfoldable pub is_allowed : ℤ → ℕ → Bool
is_allowed limit n = eqb_ℤ limit unlimited || leb_ℤ (pos n) limit

-- The quota of users counts them, and they are not more than its limit.
pub record IsCounted (w : Scopes) : Type 0 where
  pub row : Quota
  pub found : get w.number "nc_user_count" w.quotas ≡ some row
  pub usage : row.usage ≡ pos (length (get_users w))
  pub allowed : is_allowed row.limit (length (get_users w)) ≡ true

eqb_ℤ-eq : (a b : ℤ) → eqb_ℤ a b ≡ true → a ≡ b
eqb_ℤ-eq a b h = eq_of_parts a b (ground arith)

same_place :
    (s : ℕ) (n : String) (usage : ℤ) (r : Quota)
    → is_at s n (record r { usage = usage }) ≡ is_at s n r
unfolding is_at
same_place s n usage r = refl

set_quota_usage-same :
    (scope : ℕ) (name : String) (usage : ℤ) (qs : Table) (q : Quota)
    → get scope name qs ≡ some q
    → eqb_ℤ q.usage usage ≡ true
    → set_quota_usage false scope name usage qs ≡ (returned tt, qs)
unfolding set_quota_usage with_quota
set_quota_usage-same scope name usage qs q found same =
    rw (found, same, set_quota_usage, with_quota) refl

set_quota_usage-other :
    (scope : ℕ) (name : String) (usage : ℤ) (qs : Table) (q : Quota)
    → get scope name qs ≡ some q
    → eqb_ℤ q.usage usage ≡ false
    → set_quota_usage false scope name usage qs
      ≡ (returned tt, write scope name (λ r. record r { usage = usage }) qs)
unfolding set_quota_usage with_quota
set_quota_usage-other scope name usage qs q found other =
    rw (found, other, set_quota_usage, with_quota) refl

get-set_quota_usage :
    (scope : ℕ) (name : String) (usage : ℤ) (qs : Table) (q : Quota)
    → get scope name qs ≡ some q
    → ((set_quota_usage false scope name usage qs).0 ≡ returned tt)
      × (get scope name (set_quota_usage false scope name usage qs).1
          ≡ some (record q { usage = usage }))
get-set_quota_usage scope name usage qs q found = elim (Bool-cases (eqb_ℤ q.usage usage)) [
  | inl same ↦
      rw (set_quota_usage-same scope name usage qs q found same)
        (refl, found ∙ ap (λ (u : ℤ). some (record q { usage = u })) (eqb_ℤ-eq q.usage usage same))
  | inr other ↦ rw (set_quota_usage-other scope name usage qs q found other) (
    refl,
    get-write scope name (λ r. record r { usage = usage }) (λ s n r. same_place s n usage r) qs q
        found,
  )
]

with_quotas-returned :
    (r : Outcome Table.Error (Unit {0}) × Table) (w : Scopes)
    → r.0 ≡ returned tt
    → with_quotas r w ≡ (returned tt, record w { quotas = r.1 })
unfolding with_quotas
with_quotas-returned (returned a, quotas) w h = refl
with_quotas-returned (raised e, quotas) w h = absurd (cc)

-- A result that is no exception, with the quota of users counted.
unfoldable pub CountedResult : Outcome GrantError (Unit {0}) × Scopes → Type 0
CountedResult r = (r.0 ≡ returned tt) × IsCounted r.1

pub change-CountedResult :
    (w : Scopes) (q : Quota)
    → get w.number "nc_user_count" w.quotas ≡ some q
    → is_allowed q.limit (length (get_users w)) ≡ true
    → CountedResult (change_customer_nc_users_quota w)
unfolding change_customer_nc_users_quota CountedResult
change-CountedResult w q found allowed =
    let n : ℕ = length (get_users w) in
    let (done, got) = get-set_quota_usage w.number "nc_user_count" (pos n) w.quotas q found in
    rw
      (with_quotas-returned (set_quota_usage false w.number "nc_user_count" (pos n) w.quotas) w
        done)
      (
        refl,
        record { row = record q { usage = pos n }; found = got; usage = refl; allowed = allowed },
      )

-- A structure that is put in place, if the limit allows the users that there are then.
pub put-CountedResult :
    (scope : Scope) (s : Structure) (w : Scopes) (q : Quota)
    → get w.number "nc_user_count" w.quotas ≡ some q
    → is_allowed q.limit (length (get_users (put_structure scope s w))) ≡ true
    → CountedResult (change_customer_nc_users_quota (put_structure scope s w))
put-CountedResult scope s w q found allowed =
    change-CountedResult (put_structure scope s w) q
      (rw (number-put_structure scope s w, quotas-put_structure scope s w) found) allowed
