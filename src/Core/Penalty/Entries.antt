-- ===== src/Core/Penalty/Entries.antt =====
-- The entries of the cache after a write, read by `get`.
use text.Mathlib.Text.{◌==◌ as str_eq}
use waldur_core.Prelude.{ℕ, ◌≡◌, refl, String, eq_refl, if◌then◌else◌, Bool-cases, inl, inr}
use waldur_core.Core.Penalty.{Cache, get, set, delete}

module _ (key j : String) (cache : Cache) where
  pub get-set :
      (entry : ℕ × ℕ) → get j (set key entry cache) ≡ (if str_eq j key then entry else get j cache)
  unfolding get set
  get-set entry = elim (Bool-cases (str_eq j key)) [
    | inl same ↦ rw (same, get) refl
    | inr other ↦ rw (other, get) refl
  ]

  pub get-delete : get j (delete key cache) ≡ (if str_eq j key then (0, 0) else get j cache)
  unfolding get delete
  get-delete = elim (Bool-cases (str_eq j key)) [
    | inl same ↦ rw (same, get) refl
    | inr other ↦ rw (other, get) refl
  ]

pub get-set_self :
    (key : String) (entry : ℕ × ℕ) (cache : Cache) → get key (set key entry cache) ≡ entry
get-set_self key entry cache = rw (get-set, eq_refl key) refl

pub get-delete_self : (key : String) (cache : Cache) → get key (delete key cache) ≡ (0, 0)
get-delete_self key cache = rw (get-delete, eq_refl key) refl
