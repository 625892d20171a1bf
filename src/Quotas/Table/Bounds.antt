-- ===== src/Quotas/Table/Bounds.antt =====
-- The bounds of usages in the table of quotas.
use waldur_core.Prelude.{
  ℕ, ◌≡◌, Bool, true, false, ◌&&◌, ◌||◌, none, some, List, [], ◌∷◌, String, arith, all, Outcome,
  returned, raised, if◌then◌else◌, Bool-cases, Option-cases, inl, inr,
}
use waldur_core.Prelude.Int.{ℤ, pos, eqb_ℤ, leb_ℤ, +ℤ_parts}
use waldur_core.Quotas.Table.{
  Quota, Table, Error, does_not_exist, get, is_exceeded, is_negative, added, add_quota_usage,
  unlimited,
}
use waldur_core.Quotas.Table.Laws.{
  add_quota_usage-refused, add_quota_usage-made, add_quota_usage-missing, all-get, all-write,
}

-- A usage that is not negative, and at most the limit, if there is one.
unfoldable pub is_sound : Quota → Bool
is_sound q = leb_ℤ (pos 0) q.usage && (eqb_ℤ q.limit unlimited || leb_ℤ q.usage q.limit)

abbrev pub with_added : ℤ → Quota → Quota
with_added delta q = record q { usage = added q.usage delta }

pub is_sound-added :
    (delta : ℤ) (q : Quota)
    → is_sound q ≡ true
    → is_exceeded (some delta) none q ≡ false
    → is_sound (with_added delta q) ≡ true
unfolding is_sound is_exceeded added is_negative
is_sound-added delta q h e = ground (arith, +ℤ_parts q.usage delta)

-- A validated addition leaves every quota sound, whether it is made or refused.
add_quota_usage-is_sound :
    (silently : Bool) (scope : ℕ) (name : String) (delta : ℤ) (qs : Table)
    → all is_sound qs ≡ true
    → all is_sound (add_quota_usage silently true scope name delta qs).1 ≡ true
add_quota_usage-is_sound silently scope name delta qs h = elim (Option-cases (get scope name qs)) [
  | inl missing ↦
      rw (add_quota_usage-missing silently true scope name delta qs missing) (go silently)
  | inr (q, found) ↦ elim (Bool-cases (is_exceeded (some delta) none q)) [
    | inl over ↦ rw (add_quota_usage-refused silently true scope name delta qs q found over) h
    | inr within ↦ rw (add_quota_usage-made silently true scope name delta qs q found within) (
        all-write is_sound scope name (λ r. record r { usage = added q.usage delta }) qs q found h
          (is_sound-added delta q (all-get is_sound scope name qs q found h) within))
  ]
]
  where
    missing_result : Bool → Outcome Error (Unit {0}) × Table
    missing_result b = if b then (returned tt, qs) else (raised does_not_exist, qs)

    go : (b : Bool) → all is_sound (missing_result b).1 ≡ true
    go true = h
    go false = h

pub record Addition : Type 0 where
  pub scope : ℕ
  pub name : String
  pub delta : ℤ

-- Additions one after another; the callers go on after an exception.
unfoldable pub add_each : Bool → List Addition → Table → Table
add_each validate [] qs = qs
add_each validate (a ∷ rest) qs =
    add_each validate rest (add_quota_usage false validate a.scope a.name a.delta qs).1

-- If all quotas are at most their limits and none is negative, this is so after any validated
-- additions, those that are refused included.
pub add_each-is_sound :
    (additions : List Addition) (qs : Table)
    → all is_sound qs ≡ true
    → all is_sound (add_each true additions qs) ≡ true
unfolding add_each
add_each-is_sound [] qs h = h
add_each-is_sound (a ∷ rest) qs h =
    add_each-is_sound rest _ (add_quota_usage-is_sound false a.scope a.name a.delta qs h)
