-- ===== src/Quotas/Table/Laws.antt =====
-- The table of quotas after the methods of `QuotaModelMixin`: what they write, and what they leave.
use text.Mathlib.Text.{◌==◌ as str_eq}
use waldur_core.Prelude.{
  sym, ap, Option-cases, Outcome, ℕ, ◌≡◌, refl, sym, ap, Bool, all, true, false, ◌&&◌, none, some,
  [], ◌∷◌, String, arith, if◌then◌else◌, ◌==◌, eq_iff, returned, raised, Outcome, Bool-cases,
  Option-cases, inl, inr,
}
use waldur_core.Prelude.Int.{ℤ}
use waldur_core.Quotas.Table.{
  Error, Quota, Table, Error, does_not_exist, quota_validation, is_at, get, write, with_quota,
  is_exceeded, added, add_quota_usage,
}

module _ (scope : ℕ) (name : String) where
  -- A write that leaves the scope and the name.
  abbrev pub Keeps : (Quota → Quota) → Type 0
  Keeps f = (s : ℕ) (n : String) (q : Quota) → is_at s n (f q) ≡ is_at s n q

  pub get-write :
      (f : Quota → Quota)
      → Keeps f
      → (qs : Table) (q : Quota) → get scope name qs ≡ some q
      → get scope name (write scope name f qs) ≡ some (f q)
  unfolding get write
  get-write f k [] q e = cc
  get-write f k (r ∷ rs) q e = ground (arith, k scope name r, get-write f k rs q)

  is_at-other :
      (s : ℕ) (n : String)
      → (s == scope && str_eq n name) ≡ false
      → (q : Quota) → is_at scope name q ≡ true
      → is_at s n q ≡ false
  unfolding is_at
  is_at-other s n d q h = ground (arith, eq_iff q.name name, eq_iff q.name n, eq_iff n name)

  pub get-write_other :
      (f : Quota → Quota)
      → Keeps f
      → (s : ℕ) (n : String) → (s == scope && str_eq n name) ≡ false
      → (qs : Table) → get s n (write scope name f qs) ≡ get s n qs
  unfolding get write
  get-write_other f k s n d [] = refl
  get-write_other f k s n d (r ∷ rs) =
      ground (arith, k s n r, is_at-other s n d r, get-write_other f k s n d rs)

-- `add_quota_usage` on a quota that is there.
module _ (silently validate : Bool) (scope : ℕ) (name : String) (delta : ℤ) (qs : Table) (q : Quota)
    (found : get scope name qs ≡ some q) where
  pub add_quota_usage-refused :
      (validate && is_exceeded (some delta) none q) ≡ true
      → add_quota_usage silently validate scope name delta qs ≡ (raised quota_validation, qs)
  unfolding add_quota_usage with_quota
  add_quota_usage-refused over = rw (found, over, add_quota_usage, with_quota) refl

  pub add_quota_usage-made :
      (validate && is_exceeded (some delta) none q) ≡ false
      → add_quota_usage silently validate scope name delta qs
        ≡ (returned tt, write scope name (λ r. record r { usage = added q.usage delta }) qs)
  unfolding add_quota_usage with_quota
  add_quota_usage-made within = rw (found, within, add_quota_usage, with_quota) refl

-- A missing quota.
pub add_quota_usage-missing :
    (silently validate : Bool) (scope : ℕ) (name : String) (delta : ℤ) (qs : Table)
    → get scope name qs ≡ none
    → add_quota_usage silently validate scope name delta qs
      ≡ (if silently then (returned tt, qs) else (raised does_not_exist, qs))
unfolding add_quota_usage with_quota
add_quota_usage-missing true validate scope name delta qs e =
    rw (e, add_quota_usage, with_quota) refl
add_quota_usage-missing false validate scope name delta qs e =
    rw (e, add_quota_usage, with_quota) refl

module _ (p : Quota → Bool) (scope : ℕ) (name : String) where
  pub all-get : (qs : Table) (q : Quota) → get scope name qs ≡ some q → all p qs ≡ true → p q ≡ true
  unfolding get all
  all-get [] q e h = cc
  all-get (r ∷ rs) q e h = ground (arith, all-get rs q)

  pub all-write :
      (f : Quota → Quota) (qs : Table) (q : Quota)
      → get scope name qs ≡ some q
      → all p qs ≡ true
      → p (f q) ≡ true
      → all p (write scope name f qs) ≡ true
  unfolding get write all
  all-write f [] q e h k = refl
  all-write f (r ∷ rs) q e h k = ground (arith, all-write f rs q)

pub usage_kept :
    (u : ℤ) (s : ℕ) (n : String) (q : Quota) → is_at s n (record q { usage = u }) ≡ is_at s n q
unfolding is_at
usage_kept u s n q = refl

-- An addition to the usage of a quota leaves the quotas with another scope or name alone.
pub add_quota_usage-other :
    (silently validate : Bool) (scope : ℕ) (name : String) (delta : ℤ) (qs : Table) (s : ℕ)
    (n : String)
    → (s == scope && str_eq n name) ≡ false
    → get s n (add_quota_usage silently validate scope name delta qs).1 ≡ get s n qs
add_quota_usage-other silently validate scope name delta qs s n d =
    elim (Option-cases (get scope name qs)) [
      | inl missing ↦
          rw (add_quota_usage-missing silently validate scope name delta qs missing) (kept silently)
      | inr (q, found) ↦ elim (Bool-cases (validate && is_exceeded (some delta) none q)) [
        | inl over ↦
            rw (add_quota_usage-refused silently validate scope name delta qs q found over) refl
        | inr within ↦
            rw (add_quota_usage-made silently validate scope name delta qs q found within) (
              get-write_other scope name (λ r. record r { usage = added q.usage delta })
                (usage_kept _) s n d qs)
      ]
    ]
  where
    missing_result : Bool → Outcome Error (Unit {0}) × Table
    missing_result b = if b then (returned tt, qs) else (raised does_not_exist, qs)

    kept : (b : Bool) → get s n (missing_result b).1 ≡ get s n qs
    kept true = refl
    kept false = refl

-- What an addition that returned has written.
pub add_quota_usage-usage :
    (silently validate : Bool) (scope : ℕ) (name : String) (delta : ℤ) (qs qs' : Table) (q : Quota)
    → get scope name qs ≡ some q
    → add_quota_usage silently validate scope name delta qs ≡ (returned tt, qs')
    → get scope name qs' ≡ some (record q { usage = added q.usage delta })
add_quota_usage-usage silently validate scope name delta qs qs' q found e =
    elim (Bool-cases (validate && is_exceeded (some delta) none q)) [
      | inl over ↦
          ground (arith, add_quota_usage-refused silently validate scope name delta qs q found over)
      | inr within ↦
          rw
            (
              sym (ap (λ r. r.1) e),
              add_quota_usage-made silently validate scope name delta qs q found within,
            )
            (get-write scope name (λ r. record r { usage = added q.usage delta }) (usage_kept _) qs
              q found)
    ]
