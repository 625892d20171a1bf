-- ===== src/Core/State/Reach.antt =====
-- Which states of `StateMixin` lead to which, over any row of transitions.
use waldur_core.Prelude.{
  ◌≡◌, refl, sym, ◌⊎◌, inl, inr, Bool, true, false, some, List, [], ◌∷◌, arith, any, Bool-cases,
  Option-cases,
}
use mathlib.Core.Path.{subst}
use mathlib.Core.Option.{some-injective}
use waldur_core.Core.State.{
  State, Transition, code, fire, fire_all, set_erred, set_ok, recover, begin_updating,
  begin_creating,
}

unfoldable pub is_set_erred : Transition → Bool
is_set_erred set_erred = true
is_set_erred _ = false

-- The states from which nothing but a failure leads back to OK.
abbrev pub IsDeletion : State → Type 0
IsDeletion s = (s ≡ State.deletion_scheduled) ⊎ (s ≡ State.deleting)

IsDeletion-step :
    (t : Transition) (s s' : State)
    → IsDeletion s
    → fire t s ≡ some s'
    → is_set_erred t ≡ false
    → IsDeletion s'
unfolding fire is_set_erred
IsDeletion-step t s s' d e h = ground arith

-- Once a deletion is scheduled, any row of transitions that ends in a state other than "deletion
-- scheduled" and "deleting" contains a `set_erred`.
pub deletion_only_fails :
    (ts : List Transition) (s s' : State)
    → IsDeletion s
    → fire_all ts s ≡ some s'
    → ¬ IsDeletion s'
    → any is_set_erred ts ≡ true
unfolding fire_all any
deletion_only_fails [] s s' d e h = absurd (h (subst IsDeletion (some-injective _ _ e) d))
deletion_only_fails (t ∷ ts) s s' d e h = elim (Option-cases (fire t s)) [
  | inl stuck ↦ cc (rw (stuck, fire_all) at e)
  | inr (m, moved) ↦ elim (Bool-cases (is_set_erred t)) [
    | inl failed ↦ rw failed refl
    | inr other ↦ rw other (
        deletion_only_fails ts m s' (IsDeletion-step t s m d moved other)
          (rw (moved, fire_all) at e) h)
  ]
]

abbrev pub IsCreation : State → Type 0
IsCreation s = (s ≡ State.creation_scheduled) ⊎ (s ≡ State.creating)

IsCreation-step :
    (t : Transition) (s s' : State) → fire t s ≡ some s' → IsCreation s' → IsCreation s
unfolding fire
IsCreation-step t s s' e c = ground arith

-- A row of transitions that ends in "creation scheduled" or in "creating" began in one of these.
pub IsCreation-never_again :
    (ts : List Transition) (s s' : State) → fire_all ts s ≡ some s' → IsCreation s' → IsCreation s
unfolding fire_all
IsCreation-never_again [] s s' e c = subst IsCreation (sym (some-injective _ _ e)) c
IsCreation-never_again (t ∷ ts) s s' e c = elim (Option-cases (fire t s)) [
  | inl stuck ↦ cc (rw (stuck, fire_all) at e)
  | inr (m, moved) ↦
      IsCreation-step t s m moved (IsCreation-never_again ts m s' (rw (moved, fire_all) at e) c)
]

-- From each state, what ends in OK: through the steps of the work at hand, or through a recovery.
unfoldable pub way_to_ok : State → List Transition
way_to_ok State.creation_scheduled = begin_creating ∷ set_ok ∷ []
way_to_ok State.creating = set_ok ∷ []
way_to_ok State.update_scheduled = begin_updating ∷ set_ok ∷ []
way_to_ok State.updating = set_ok ∷ []
way_to_ok State.ok = []
way_to_ok State.erred = recover ∷ []
way_to_ok _ = set_erred ∷ recover ∷ []

way_to_ok_lem : (s : State) → fire_all (way_to_ok s) s ≡ some State.ok
unfolding way_to_ok fire_all
way_to_ok_lem State.ok = refl
way_to_ok_lem _ = refl

-- The integers in the database tell the states apart.
pub code-injective : (s t : State) → code s ≡ code t → s ≡ t
unfolding code
code-injective s t e = ground arith
