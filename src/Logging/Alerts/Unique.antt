-- ===== src/Logging/Alerts/Unique.antt =====
-- At most one alert of a type is open for a scope.
use text.Mathlib.Text.{◌==◌ as str_eq}
use mathlib.Core.Path.{subst}
use waldur_core.Prelude.{
  ℕ, ◌≤◌, ◌≡◌, refl, Bool, true, false, not, ◌&&◌, ◌||◌, none, [], ◌∷◌, ◌++◌, String, arith, map,
  all, filter, count, is_some, if◌then◌else◌, ◌==◌, ◌⊎◌, ==_iff, Bool-cases, inl, inr, count-append,
  eq_iff,
}
use waldur_core.Logging.Alerts.{
  Alert, Alerts, is_about, is_open, is_open_about, save_where, close_alert, set_acknowledged,
}

-- An alert has the number of its closing exactly if it has a moment of closing.
unfoldable pub is_coherent : Alert → Bool
is_coherent a =
    (is_some a.is_closed && is_some a.closed)
    || (not (is_some a.is_closed) && not (is_some a.closed))

pub record IsUnique (alerts : Alerts) : Type 0 where
  pub at_most_one : (s : ℕ) (t : String) → count (is_open_about s t) alerts ≤ 1
  pub coherent : all is_coherent alerts ≡ true

pub and_left : (a b : Bool) → (a && b) ≡ true → a ≡ true
and_left a b h = ground (arith, h)

pub and_right : (a b : Bool) → (a && b) ≡ true → b ≡ true
and_right a b h = ground (arith, h)

module _ (p : Alert → Bool) where
  -- A change of some items after which no more of them fit.
  pub count-map_le :
      (f : Alert → Alert)
      → ((a : Alert) → p (f a) ≡ true → p a ≡ true)
      → (alerts : Alerts) → count p (map f alerts) ≤ count p alerts
  unfolding count
  count-map_le f h [] = omega arith
  count-map_le f h (a ∷ alerts) = ground (arith, count-map_le f h alerts, h a)

  pub count-filter_le :
      (q : Alert → Bool) (alerts : Alerts) → count p (filter q alerts) ≤ count p alerts
  unfolding count filter
  count-filter_le q [] = omega arith
  count-filter_le q (a ∷ alerts) = ground (arith, count-filter_le q alerts)

  pub count-filter_none : (alerts : Alerts) → filter p alerts ≡ [] → count p alerts ≡ 0
  unfolding count filter
  count-filter_none [] e = refl
  count-filter_none (a ∷ alerts) e = ground (arith, count-filter_none alerts)

  pub all-map :
      (f : Alert → Alert)
      → ((a : Alert) → p a ≡ true → p (f a) ≡ true)
      → (alerts : Alerts) → all p alerts ≡ true
      → all p (map f alerts) ≡ true
  unfolding all
  all-map f h [] e = refl
  all-map f h (a ∷ alerts) e = ground (arith, all-map f h alerts, h a)

  pub all-filter :
      (q : Alert → Bool) (alerts : Alerts) → all p alerts ≡ true → all p (filter q alerts) ≡ true
  unfolding all filter
  all-filter q [] e = refl
  all-filter q (a ∷ alerts) e = ground (arith, all-filter q alerts)

  pub all-snoc :
      (alerts : Alerts) (a : Alert)
      → all p alerts ≡ true
      → p a ≡ true
      → all p (alerts ++ a ∷ []) ≡ true
  unfolding all
  all-snoc [] a e h = ground (arith, h)
  all-snoc (b ∷ alerts) a e h = ground (arith, all-snoc alerts a, h)

-- A change of each row that opens none, and keeps rows coherent.
pub IsUnique-map :
    (f : Alert → Alert)
    → ((s : ℕ) (t : String) (a : Alert)
        → is_open_about s t (f a) ≡ true
        → is_open_about s t a ≡ true)
    → ((a : Alert) → is_coherent a ≡ true → is_coherent (f a) ≡ true)
    → (alerts : Alerts) → IsUnique alerts
    → IsUnique (map f alerts)
IsUnique-map f opens keeps alerts u = record {
  at_most_one = λ s t.
      omega (arith, count-map_le (is_open_about s t) f (opens s t) alerts, u.at_most_one s t);
  coherent = all-map is_coherent f keeps alerts u.coherent;
}

pub IsUnique-filter :
    (q : Alert → Bool) (alerts : Alerts) → IsUnique alerts → IsUnique (filter q alerts)
IsUnique-filter q alerts u = record {
  at_most_one =
      λ s t. omega (arith, count-filter_le (is_open_about s t) q alerts, u.at_most_one s t);
  coherent = all-filter is_coherent q alerts u.coherent;
}

-- The new alert of `update_or_create`.
abbrev pub opened : ℕ → String → ℕ → String → Alert
opened severity message scope alert_type = record {
  scope = scope;
  alert_type = alert_type;
  severity = severity;
  message = message;
  closed = none;
  is_closed = none;
  acknowledged = false;
}

count-opened :
    (severity : ℕ) (message : String) (scope : ℕ) (alert_type : String) (s : ℕ) (t : String)
    → count (is_open_about s t) (opened severity message scope alert_type ∷ [])
      ≡ (if scope == s && str_eq alert_type t then 1 else 0)
unfolding count is_open_about is_about is_open
count-opened severity message scope alert_type s t = ground arith

pub IsUnique-snoc :
    (severity : ℕ) (message : String) (scope : ℕ) (alert_type : String) (alerts : Alerts)
    → filter (is_open_about scope alert_type) alerts ≡ []
    → IsUnique alerts
    → IsUnique (alerts ++ opened severity message scope alert_type ∷ [])
unfolding is_coherent
IsUnique-snoc severity message scope alert_type alerts e u = record {
  at_most_one = λ s t. at_most s t (Bool-cases (scope == s && str_eq alert_type t));
  coherent = all-snoc is_coherent alerts (opened severity message scope alert_type) u.coherent refl;
}
  where
    none_open : count (is_open_about scope alert_type) alerts ≡ 0
    none_open = count-filter_none (is_open_about scope alert_type) alerts e

    none_there :
        (s : ℕ) (t : String)
        → (scope == s && str_eq alert_type t) ≡ true
        → count (is_open_about s t) alerts ≡ 0
    none_there s t same =
        subst (λ x. count (is_open_about x t) alerts ≡ 0)
          ((==_iff scope s).0 (and_left (scope == s) (str_eq alert_type t) same))
          (subst (λ y. count (is_open_about scope y) alerts ≡ 0)
            ((eq_iff alert_type t).0 (and_right (scope == s) (str_eq alert_type t) same)) none_open)

    at_most :
        (s : ℕ) (t : String)
        → ((scope == s && str_eq alert_type t) ≡ true)
          ⊎ ((scope == s && str_eq alert_type t) ≡ false)
        → count (is_open_about s t) (alerts ++ opened severity message scope alert_type ∷ []) ≤ 1
    at_most s t (inl same) = ground (
      arith,
      count-append (is_open_about s t) alerts (opened severity message scope alert_type ∷ []),
      count-opened severity message scope alert_type s t,
      none_there s t same,
    )
    at_most s t (inr other) = ground (
      arith,
      count-append (is_open_about s t) alerts (opened severity message scope alert_type ∷ []),
      count-opened severity message scope alert_type s t,
      u.at_most_one s t,
    )

pub if_opens :
    (p : Alert → Bool) (f : Alert → Alert) (b : Bool) (a : Alert)
    → (p (f a) ≡ true → p a ≡ true)
    → p (if b then f a else a) ≡ true
    → p a ≡ true
if_opens p f true a h e = h e
if_opens p f false a h e = e

pub if_keeps :
    (p : Alert → Bool) (f : Alert → Alert) (b : Bool) (a : Alert)
    → (p a ≡ true → p (f a) ≡ true)
    → p a ≡ true
    → p (if b then f a else a) ≡ true
if_keeps p f true a h e = h e
if_keeps p f false a h e = e

pub IsUnique-save_where :
    (p : Alert → Bool) (f : Alert → Alert)
    → ((s : ℕ) (t : String) (a : Alert)
        → is_open_about s t (f a) ≡ true
        → is_open_about s t a ≡ true)
    → ((a : Alert) → is_coherent a ≡ true → is_coherent (f a) ≡ true)
    → (alerts : Alerts) → IsUnique alerts
    → IsUnique (save_where p f alerts)
unfolding save_where
IsUnique-save_where p f opens keeps =
    IsUnique-map (λ a. if p a then f a else a)
      (λ s t a. if_opens (is_open_about s t) f (p a) a (opens s t a))
      (λ a. if_keeps is_coherent f (p a) a (keeps a))

-- Changes that leave an alert as open as it was.
pub same_opens :
    (severity : ℕ) (message : String) (s : ℕ) (t : String) (a : Alert)
    → is_open_about s t (record a { severity = severity; message = message }) ≡ true
    → is_open_about s t a ≡ true
unfolding is_open_about is_about is_open
same_opens severity message s t a h = h

pub same_coherent :
    (severity : ℕ) (message : String) (a : Alert)
    → is_coherent a ≡ true
    → is_coherent (record a { severity = severity; message = message }) ≡ true
unfolding is_coherent
same_coherent severity message a h = h

pub closed_opens :
    (moment uuid s : ℕ) (t : String) (a : Alert)
    → is_open_about s t (close_alert moment uuid a) ≡ true
    → is_open_about s t a ≡ true
unfolding is_open_about is_open close_alert
closed_opens moment uuid s t a h = ground arith

pub closed_coherent :
    (moment uuid : ℕ) (a : Alert)
    → is_coherent a ≡ true
    → is_coherent (close_alert moment uuid a) ≡ true
unfolding is_coherent close_alert
closed_coherent moment uuid a h = refl

pub acknowledged_opens :
    (b : Bool) (s : ℕ) (t : String) (a : Alert)
    → is_open_about s t (set_acknowledged b a) ≡ true
    → is_open_about s t a ≡ true
unfolding is_open_about is_about is_open set_acknowledged
acknowledged_opens b s t a h = h

pub acknowledged_coherent :
    (b : Bool) (a : Alert) → is_coherent a ≡ true → is_coherent (set_acknowledged b a) ≡ true
unfolding is_coherent set_acknowledged
acknowledged_coherent b a h = h
