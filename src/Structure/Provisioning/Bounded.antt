-- ===== src/Structure/Provisioning/Bounded.antt =====
-- How many resources of the same settings are created at once.
use waldur_core.Prelude.{
  ℕ, suc, ◌+◌, ◌≤◌, ◌≡◌, refl, Bool, true, false, ◌&&◌, some, [], ◌∷◌, arith, count, find,
  if◌then◌else◌, ◌==◌, ==_iff, Bool-cases, inl, inr,
}
use waldur_core.Core.State.{State}
use waldur_core.Structure.Provisioning.{Resource, Resources, is_creating, get_usage, set_state}

-- One row for each number, and at most one more than the limit in creation.
pub record IsThrottled (limit : ℕ) (resources : Resources) : Type 0 where
  pub one_row : (id : ℕ) → count (λ r. r.id == id) resources ≤ 1
  pub bounded : (model settings : ℕ) → get_usage model settings resources ≤ suc limit

count-set_state :
    (id k : ℕ) (s : State) (rs : Resources)
    → count (λ r. r.id == k) (set_state id s rs) ≡ count (λ r. r.id == k) rs
unfolding count set_state
count-set_state id k s [] = refl
count-set_state id k s (r ∷ rs) = ground (arith, count-set_state id k s rs)

-- Only the changed rows can be new in creation.
usage-set_state :
    (id m k : ℕ) (s : State) (rs : Resources)
    → get_usage m k (set_state id s rs)
      ≤ get_usage m k rs
        + (if is_creating s
            then count (λ r. r.id == id && (r.model == m && r.settings == k)) rs
            else 0)
unfolding count set_state get_usage
usage-set_state id m k s [] = omega arith
usage-set_state id m k s (r ∷ rs) = ground (arith, usage-set_state id m k s rs)

count-own :
    (id m k : ℕ) (rs : Resources)
    → count (λ r. r.id == id && (r.model == m && r.settings == k)) rs ≤ count (λ r. r.id == id) rs
unfolding count
count-own id m k [] = omega arith
count-own id m k (r ∷ rs) = ground (arith, count-own id m k rs)

-- The row of a resource has its settings.
head_settings :
    (p : Resource → Bool) (x r : Resource) (rs : Resources)
    → find p (x ∷ rs) ≡ some r
    → p x ≡ true
    → (x.model ≡ r.model) × (x.settings ≡ r.settings)
unfolding find
head_settings p x r rs f h = ground (arith, f, h)

tail_find :
    (p : Resource → Bool) (x r : Resource) (rs : Resources)
    → find p (x ∷ rs) ≡ some r
    → p x ≡ false
    → find p rs ≡ some r
unfolding find
tail_find p x r rs f h = ground (arith, f, h)

tail_count :
    (p : Resource → Bool) (x : Resource) (rs : Resources) → count p (x ∷ rs) ≤ 1 → count p rs ≤ 1
unfolding count
tail_count p x rs c = ground (arith, c)

count-foreign :
    (id m k : ℕ) (r : Resource) (rs : Resources)
    → count (λ x. x.id == id) rs ≤ 1
    → find (λ x. x.id == id) rs ≡ some r
    → (r.model == m && r.settings == k) ≡ false
    → count (λ x. x.id == id && (x.model == m && x.settings == k)) rs ≡ 0
unfolding count find
count-foreign id m k r [] c f h = refl
count-foreign id m k r (x ∷ rs) c f h = ground (
  arith,
  c,
  h,
  count-own id m k rs,
  head_settings (λ x. x.id == id) x r rs f,
  count-foreign id m k r rs (tail_count (λ x. x.id == id) x rs c),
  tail_find (λ x. x.id == id) x r rs f,
)

-- The usage of settings after a change of one resource.
usage-changed :
    (r : Resource) (s : State) (m k limit : ℕ) (rs : Resources)
    → count (λ x. x.id == r.id) rs ≤ 1
    → find (λ x. x.id == r.id) rs ≡ some r
    → (is_creating s ≡ true → get_usage r.model r.settings rs ≤ limit)
    → get_usage m k rs ≤ suc limit
    → get_usage m k (set_state r.id s rs) ≤ suc limit
usage-changed r s m k limit rs c f room bounded =
    elim (Bool-cases (r.model == m && r.settings == k)) [
      | inl same ↦ ground (
        arith,
        c,
        same,
        usage-set_state r.id m k s rs,
        count-own r.id m k rs,
        bounded,
        room,
        ==_iff r.model m,
        ==_iff r.settings k,
      )
      | inr other ↦
          ground (
            arith,
            c,
            usage-set_state r.id m k s rs,
            count-foreign r.id m k r rs c f other,
            bounded,
          )
    ]

module _ (limit : ℕ) where
  pub IsThrottled-set_state :
      (r : Resource) (s : State) (rs : Resources)
      → find (λ x. x.id == r.id) rs ≡ some r
      → (is_creating s ≡ true → get_usage r.model r.settings rs ≤ limit)
      → IsThrottled limit rs
      → IsThrottled limit (set_state r.id s rs)
  IsThrottled-set_state r s rs f room t = record {
    one_row = λ id. omega (arith, count-set_state r.id id s rs, t.one_row id);
    bounded = λ m k. usage-changed r s m k limit rs (t.one_row r.id) f room (t.bounded m k);
  }
