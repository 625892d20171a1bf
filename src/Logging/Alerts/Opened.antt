-- ===== src/Logging/Alerts/Opened.antt =====
-- What `process` and `close` leave open, for each scope.
use mathlib.Core.Path.{subst}
use waldur_core.Prelude.{
  ℕ, ◌≤◌, ◌≡◌, refl, ap, Bool, true, false, not, ◌&&◌, ◌||◌, Option, [], ◌∷◌, String, arith, any,
  filter, count, length, if◌then◌else◌, ◌==◌, eq_iff, any-append, Bool-cases, ==_iff, ◌⊎◌, inl, inr,
  returned,
}
use waldur_core.Logging.Alerts.{
  Alert, Alerts, is_about, is_open, is_open_about, save_where, update_or_create, close_alert,
  close_found,
}
use waldur_core.Logging.Alerts.Unique.{IsUnique, opened}
use waldur_core.Logging.Alerts.Steps.{create-opened, update_or_create-found, is_news}

any-filter-none : (p : Alert → Bool) (alerts : Alerts) → filter p alerts ≡ [] → any p alerts ≡ false
unfolding any filter
any-filter-none p [] e = refl
any-filter-none p (a ∷ alerts) e = ground (arith, any-filter-none p alerts)

any_of_filtered :
    (p : Alert → Bool) (alerts : Alerts) (a : Alert) (found : Alerts)
    → filter p alerts ≡ a ∷ found
    → any p alerts ≡ true
unfolding any filter
any_of_filtered p [] a found e = cc
any_of_filtered p (b ∷ alerts) a found e = ground (arith, any_of_filtered p alerts a found)

any-write_same :
    (p q : Alert → Bool) (f : Alert → Alert)
    → ((a : Alert) → p (f a) ≡ p a)
    → (alerts : Alerts) → any p (save_where q f alerts) ≡ any p alerts
unfolding any save_where
any-write_same p q f h [] = refl
any-write_same p q f h (a ∷ alerts) = ground (arith, any-write_same p q f h alerts, h a)

count-length : (p : Alert → Bool) (alerts : Alerts) → count p alerts ≡ length (filter p alerts)
unfolding count filter
count-length p [] = refl
count-length p (a ∷ alerts) = ground (arith, count-length p alerts)

module _ (t : String) where
  any-closed :
      (moment uuid scope s : ℕ) (alerts : Alerts)
      → any
          (is_open_about s t)
          (save_where (is_open_about scope t) (close_alert moment uuid) alerts)
        ≡ (not (scope == s) && any (is_open_about s t) alerts)
  unfolding any save_where is_open_about is_about is_open close_alert
  any-closed moment uuid scope s [] = ground arith
  any-closed moment uuid scope s (a ∷ alerts) =
      ground (arith, any-closed moment uuid scope s alerts)

  any-opened :
      (severity : ℕ) (message : String) (scope s : ℕ)
      → any (is_open_about s t) (opened severity message scope t ∷ []) ≡ (scope == s)
  unfolding any is_open_about is_about is_open
  any-opened severity message scope s = ground (arith, eq_iff t t)

  -- At most one alert is found.
  two_found :
      (s : ℕ) (alerts : Alerts) (a b : Alert) (found : Alerts)
      → filter (is_open_about s t) alerts ≡ a ∷ (b ∷ found)
      → ¬ (count (is_open_about s t) alerts ≤ 1)
  two_found s alerts a b found e h =
      omega (arith, count-length (is_open_about s t) alerts, ap length e)

  any-rewritten :
      (severity : ℕ) (message : String) (scope s : ℕ) (alerts : Alerts)
      → any (is_open_about s t) (
          save_where
            (is_open_about scope t)
            (λ r. record r { severity = severity; message = message })
            alerts)
        ≡ any (is_open_about s t) alerts
  unfolding is_open_about is_about is_open
  any-rewritten severity message scope s alerts =
      any-write_same (is_open_about s t) (is_open_about scope t)
        (λ r. record r { severity = severity; message = message }) (λ a. refl) alerts

  pub any-create_found :
      (silently : Bool) (severity : ℕ) (message : String) (scope s : ℕ) (found alerts : Alerts)
      → filter (is_open_about scope t) alerts ≡ found
      → IsUnique alerts
      → (((r : Option Alert × Bool) × ((update_or_create silently severity message scope t found
                alerts).0
              ≡ returned r))
          × (any
                (is_open_about s t)
                (update_or_create silently severity message scope t found alerts).1
              ≡ (scope == s || any (is_open_about s t) alerts)))
  unfolding update_or_create
  any-create_found silently severity message scope s [] alerts e u =
      rw (create-opened silently severity message scope t alerts e u) (
        (_, refl),
        ground (
          arith,
          any-append (is_open_about s t) alerts (opened severity message scope t ∷ []),
          any-opened severity message scope s,
        ),
      )
  any-create_found silently severity message scope s (a ∷ []) alerts e u =
      rw (update_or_create-found silently severity message scope t alerts a)
        ((_, refl), any_found (Bool-cases (is_news severity message a)))
    where
      there : (scope == s) ≡ true → any (is_open_about s t) alerts ≡ true
      there same =
          subst (λ x. any (is_open_about x t) alerts ≡ true) ((==_iff scope s).0 same)
            (any_of_filtered (is_open_about scope t) alerts a [] e)

      any_found :
          ((is_news severity message a ≡ true) ⊎ (is_news severity message a ≡ false))
          → any (is_open_about s t) (
              if is_news severity message a
              then save_where
                  (is_open_about scope t)
                  (λ r. record r { severity = severity; message = message })
                  alerts
              else alerts)
            ≡ (scope == s || any (is_open_about s t) alerts)
      any_found (inl news) =
          rw (news) (ground (arith, there, any-rewritten severity message scope s alerts))
      any_found (inr known) = rw (known) (ground (arith, there))
  any-create_found silently severity message scope s (a ∷ (b ∷ found)) alerts e u =
      elim (two_found scope alerts a b found e (u.at_most_one scope t)) [ ]

  pub any-close_found :
      (moment uuid scope s : ℕ) (found alerts : Alerts)
      → filter (is_open_about scope t) alerts ≡ found
      → IsUnique alerts
      → ((close_found moment uuid scope t found alerts).0 ≡ returned tt)
        × (any (is_open_about s t) (close_found moment uuid scope t found alerts).1
            ≡ (not (scope == s) && any (is_open_about s t) alerts))
  unfolding close_found
  any-close_found moment uuid scope s [] alerts e u = (refl, ground (arith, absent))
    where
      absent : (scope == s) ≡ true → any (is_open_about s t) alerts ≡ false
      absent same =
          subst (λ x. any (is_open_about x t) alerts ≡ false) ((==_iff scope s).0 same)
            (any-filter-none (is_open_about scope t) alerts e)
  any-close_found moment uuid scope s (a ∷ []) alerts e u =
      (refl, any-closed moment uuid scope s alerts)
  any-close_found moment uuid scope s (a ∷ (b ∷ found)) alerts e u =
      elim (two_found scope alerts a b found e (u.at_most_one scope t)) [ ]
