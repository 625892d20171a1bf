-- ===== src/Structure/Provisioning/History.antt =====
-- Resources over any schedulings, provisions and other transitions.
use waldur_core.Prelude.{
  ℕ, suc, ◌≤◌, ◌≡◌, refl, ◌∙◌, sym, ap, Bool, true, false, ◌&&◌, Option, none, some, List, [], ◌∷◌,
  ◌++◌, arith, any, all, count, find, if◌then◌else◌, leb, ◌==◌, Bool-cases, inl, inr, count-append,
  count-none,
}
use waldur_core.Core.State.{
  State, Transition, begin_creating, begin_updating, begin_deleting, schedule_updating,
  schedule_deleting, set_ok, set_erred, recover, fire, is_source, target,
}
use waldur_core.Structure.Provisioning.{
  Resource, Resources, is_creating, get_usage, is_available, make_transition, throttle,
  throttle_found, throttle_provision, save_target,
}
use mathlib.Core.Path.{subst}
use waldur_core.Structure.Provisioning.Bounded.{IsThrottled, IsThrottled-set_state}

-- A new resource, a run of the task, or another transition.
pub data Event : Type 0 where
  scheduled : ℕ → ℕ → ℕ → Event
  provisioned : ℕ → Event
  moved : Transition → ℕ → Event

-- A transition of the resource with a number.
unfoldable pub move_found : Transition → Option Resource → Resources → Resources
unfolding make_transition
move_found t none rs = rs
move_found t (some r) rs = (make_transition t r rs).1

unfoldable pub move : Transition → ℕ → Resources → Resources
unfolding move_found
move t id rs = move_found t (find (λ r. r.id == id) rs) rs

unfoldable pub step : ℕ → Event → Resources → Resources
unfolding move throttle_provision
step limit (scheduled id model settings) rs =
    if any (λ r. r.id == id) rs
    then rs
    else rs
      ++ record { id = id; model = model; settings = settings; state = State.creation_scheduled }
        ∷ []
step limit (provisioned id) rs = (throttle_provision limit id rs).1
step limit (moved t id) rs = move t id rs

unfoldable pub steps : ℕ → List Event → Resources → Resources
unfolding step
steps limit [] rs = rs
steps limit (e ∷ es) rs = steps limit es (step limit e rs)

-- Only the task begins a creation.
unfoldable pub is_throttled : Event → Bool
is_throttled (moved begin_creating id) = false
is_throttled _ = true

found_id : (id : ℕ) (r : Resource) (rs : Resources) → find (λ x. x.id == id) rs ≡ some r → id ≡ r.id
unfolding find
found_id id r [] f = cc
found_id id r (x ∷ rs) f = ground (arith, f, found_id id r rs)

own_row :
    (id : ℕ) (r : Resource) (rs : Resources)
    → find (λ x. x.id == id) rs ≡ some r
    → find (λ x. x.id == r.id) rs ≡ some r
own_row id r rs f = sym (ap (λ n. find (λ x. x.id == n) rs) (found_id id r rs f)) ∙ f

abbrev row_of : ℕ → ℕ → ℕ → Resource
row_of id model settings = record {
  id = id;
  model = model;
  settings = settings;
  state = State.creation_scheduled;
}

count-row :
    (id model settings k : ℕ)
    → count (λ r. r.id == k) (row_of id model settings ∷ []) ≡ (if id == k then 1 else 0)
unfolding count
count-row id model settings k = ground arith

usage_scheduled :
    (id model settings m k : ℕ) (rs : Resources)
    → get_usage m k (rs ++ row_of id model settings ∷ []) ≡ get_usage m k rs
unfolding get_usage count is_creating
usage_scheduled id model settings m k [] = ground arith
usage_scheduled id model settings m k (r ∷ rs) =
    ground (arith, usage_scheduled id model settings m k rs)

module _ (limit : ℕ) where
  IsThrottled-make_transition :
      (t : Transition) (r : Resource) (rs : Resources)
      → find (λ x. x.id == r.id) rs ≡ some r
      → (is_creating (target t) ≡ true → get_usage r.model r.settings rs ≤ limit)
      → IsThrottled limit rs
      → IsThrottled limit (make_transition t r rs).1
  unfolding make_transition fire save_target
  IsThrottled-make_transition t r rs f room h = elim (Bool-cases (is_source t r.state)) [
    | inl allowed ↦ rw (allowed) (IsThrottled-set_state limit r (target t) rs f room h)
    | inr refused ↦ rw (refused) h
  ]

  IsThrottled-throttle :
      (r : Resource) (rs : Resources)
      → find (λ x. x.id == r.id) rs ≡ some r
      → IsThrottled limit rs
      → IsThrottled limit (throttle limit r rs).1
  unfolding throttle is_available
  IsThrottled-throttle r rs f h = elim (Bool-cases (leb (get_usage r.model r.settings rs) limit)) [
    | inl free ↦
        rw (free) (IsThrottled-make_transition begin_creating r rs f (λ c. ground (arith, free)) h)
    | inr full ↦ rw (full) h
  ]

  IsThrottled-scheduled :
      (id model settings : ℕ) (rs : Resources)
      → IsThrottled limit rs
      → IsThrottled limit (step limit (scheduled id model settings) rs)
  unfolding step
  IsThrottled-scheduled id model settings rs h = elim (Bool-cases (any (λ r. r.id == id) rs)) [
    | inl there ↦ rw (there) h
    | inr new ↦ rw (new) (record {
      one_row = λ k. ground (
        arith,
        count-append (λ r. r.id == k) rs (row_of id model settings ∷ []),
        h.one_row k,
        count-row id model settings k,
        λ (e : id ≡ k). ap (λ (n : ℕ). any (λ r. r.id == n) rs) e,
        new,
        count-none (λ r. r.id == k) rs,
      );
      bounded = λ m k.
          subst (λ n. n ≤ suc limit) (sym (usage_scheduled id model settings m k rs))
            (h.bounded m k);
    })
  ]

  no_creation :
      (t : Transition) (id : ℕ) → is_throttled (moved t id) ≡ true → is_creating (target t) ≡ false
  unfolding is_throttled is_creating target
  no_creation begin_creating id h = cc
  no_creation begin_updating id h = refl
  no_creation begin_deleting id h = refl
  no_creation schedule_updating id h = refl
  no_creation schedule_deleting id h = refl
  no_creation set_ok id h = refl
  no_creation set_erred id h = refl
  no_creation recover id h = refl

  IsThrottled-move_found :
      (t : Transition) (id : ℕ) (o : Option Resource) (rs : Resources)
      → find (λ x. x.id == id) rs ≡ o
      → is_throttled (moved t id) ≡ true
      → IsThrottled limit rs
      → IsThrottled limit (move_found t o rs)
  unfolding move_found
  IsThrottled-move_found t id none rs f n h = h
  IsThrottled-move_found t id (some r) rs f n h =
      IsThrottled-make_transition t r rs (own_row id r rs f) (λ c. cc (no_creation t id n, c)) h

  IsThrottled-throttle_found :
      (id : ℕ) (o : Option Resource) (rs : Resources)
      → find (λ x. x.id == id) rs ≡ o
      → IsThrottled limit rs
      → IsThrottled limit (throttle_found limit o rs).1
  unfolding throttle_found
  IsThrottled-throttle_found id none rs f h = h
  IsThrottled-throttle_found id (some r) rs f h = IsThrottled-throttle r rs (own_row id r rs f) h

  IsThrottled-step :
      (e : Event) (rs : Resources)
      → is_throttled e ≡ true
      → IsThrottled limit rs
      → IsThrottled limit (step limit e rs)
  unfolding step move throttle_provision
  IsThrottled-step (scheduled id model settings) rs n h =
      IsThrottled-scheduled id model settings rs h
  IsThrottled-step (provisioned id) rs n h = IsThrottled-throttle_found id _ rs refl h
  IsThrottled-step (moved t id) rs n h = IsThrottled-move_found t id _ rs refl n h

  IsThrottled-steps_from :
      (es : List Event) (rs : Resources)
      → all is_throttled es ≡ true
      → IsThrottled limit rs
      → IsThrottled limit (steps limit es rs)
  unfolding steps all
  IsThrottled-steps_from [] rs n h = h
  IsThrottled-steps_from (e ∷ es) rs n h =
      IsThrottled-steps_from es (step limit e rs) (right (is_throttled e) _ n)
        (IsThrottled-step e rs (left (is_throttled e) _ n) h)
    where
      left : (a b : Bool) → (a && b) ≡ true → a ≡ true
      left a b e = ground (arith, e)

      right : (a b : Bool) → (a && b) ≡ true → b ≡ true
      right a b e = ground (arith, e)

-- If creations begin only by the throttling task, at most one more resource of the same model and
-- the same settings than the limit is in creation after any schedulings, runs of the task and
-- other transitions.
pub get_usage-steps :
    (limit model settings : ℕ) (es : List Event)
    → all is_throttled es ≡ true
    → get_usage model settings (steps limit es []) ≤ suc limit
unfolding count get_usage
get_usage-steps limit model settings es n =
    (IsThrottled-steps_from limit es [] n
        (record { one_row = λ id. omega arith; bounded = λ m k. omega arith })).bounded
      model settings
