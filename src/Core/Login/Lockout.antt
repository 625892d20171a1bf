-- ===== src/Core/Login/Lockout.antt =====
-- Failures to log in with one name from one address.
use waldur_core.Prelude.{
  ℕ, ◌+◌, ◌*◌, ◌≡◌, ◌≤◌, ◌<◌, refl, true, none, some, Option, List, [], ◌∷◌, ◌++◌, arith, leb,
  length, if◌then◌else◌, Bool-cases, inl, inr, ◌∙◌, ap,
}
use waldur_core.Prelude.Text.{Text}
use waldur_core.Core.Tokens.{User}
use waldur_core.Core.Login.{
  CacheOps, IsCache, Response, locked_out, invalid_password, user_disabled, token_given,
  method_disabled, invalid_request, Request, LoginSite, failure_key, failures_of, verified, attempt,
  post_valid, post, login_failed,
}

-- A login with some password at a moment.
pub record Try : Type 0 where
  pub moment : ℕ
  pub password : Text
  pub new_key : Text

-- The moments of some tries rise from one moment and stay before another.
abbrev pub InWindow : ℕ → ℕ → List Try → Type 0
InWindow from until [] = Unit
InWindow from until (a ∷ tries) =
    (from ≤ a.moment) × (a.moment < until) × InWindow a.moment until tries

module _ {C : Type 0} (ops : CacheOps C) (verify : Text → Text → Option User)
    (username address : Text) where
  abbrev pub request_of : Try → Request
  request_of a = record {
    local_signin = true;
    credentials = some (record { username = username; password = a.password });
    address = address;
  }

  abbrev pub post_try : Try → LoginSite C → Response × LoginSite C
  post_try a site = post ops verify (request_of a) a.new_key a.moment site

  abbrev one_if_verified : Response → ℕ
  one_if_verified locked_out = 0
  one_if_verified invalid_password = 1
  one_if_verified user_disabled = 1
  one_if_verified (token_given key) = 1
  one_if_verified method_disabled = 0
  one_if_verified invalid_request = 0

  -- The number of tries for which a password was verified.
  unfoldable pub verified_count : List Try → LoginSite C → ℕ
  verified_count [] site = 0
  verified_count (a ∷ tries) site =
      let (response, site') = post_try a site in
      one_if_verified response + verified_count tries site'

  -- The failures that the cache has at a moment.
  abbrev pub failures_at : ℕ → LoginSite C → ℕ
  failures_at t site = failures_of ops (failure_key username address) t site.cache

  abbrev FailsEach : List Try → Type 0
  FailsEach [] = Unit
  FailsEach (a ∷ tries) = (verify username a.password ≡ none) × FailsEach tries

  -- A try with a wrong password.
  abbrev failed : ℕ → Try → LoginSite C → LoginSite C
  failed n a site = record site {
    cache = ops.set (failure_key username address) (n + 1) (10 * 60) a.moment site.cache;
    events = site.events ++ login_failed username ∷ [];
  }

  pub post_try-failed :
      (a : Try) (site : LoginSite C)
      → verify username a.password ≡ none
      → post_try a site ≡ (
          if leb 4 (failures_at a.moment site)
          then (locked_out, site)
          else (invalid_password, failed (failures_at a.moment site) a site))
  unfolding post post_valid attempt verified
  post_try-failed a site h = rw h refl

  failures_at-failed :
      (n t : ℕ) (a : Try) (site : LoginSite C)
      → IsCache ops
      → a.moment ≤ t
      → t < a.moment + 600
      → failures_at t (failed n a site) ≡ n + 1
  unfolding failures_of
  failures_at-failed n t a site laws from until =
      rw (laws.get-set (failure_key username address) (n + 1) 600 a.moment t site.cache from until)
        refl

  verified_count-bound :
      (tries : List Try) (n from until : ℕ) (site : LoginSite C)
      → IsCache ops
      → FailsEach tries
      → InWindow from until tries
      → until ≤ from + 600
      → ((t : ℕ) → from ≤ t → t < until → n ≤ failures_at t site)
      → n ≤ 4
      → verified_count tries site + n ≤ 4
  unfolding verified_count
  verified_count-bound [] n from until site laws fails window short counted small = omega arith
  verified_count-bound (a ∷ tries) n from until site laws (wrong, fails) (above, below, window)
        short counted small =
      elim (Bool-cases (leb 4 (failures_at a.moment site))) [
        | inl full ↦
            let next =
              verified_count-bound tries n a.moment until site laws fails window (omega arith)
                (λ t h k. counted t (omega arith) k) small in
            rw (post_try-failed a site wrong, full) (omega arith)
        | inr free ↦
            let f : ℕ = failures_at a.moment site in
            let next =
              verified_count-bound tries (f + 1) a.moment until (failed f a site) laws fails window
                (omega arith)
                (λ t h k. rw (failures_at-failed f t a site laws h (omega arith)) (omega arith))
                (ground arith) in
            rw (post_try-failed a site wrong, free) (omega arith)
      ]

  -- Of the logins with wrong passwords for a name and an address in a window of 600 seconds at
  -- most four have their password verified.
  pub verified_count-window :
      (tries : List Try) (from : ℕ) (site : LoginSite C)
      → IsCache ops
      → FailsEach tries
      → InWindow from (from + 600) tries
      → verified_count tries site ≤ 4
  verified_count-window tries from site laws fails window = omega (
    arith,
    verified_count-bound tries 0 from (from + 600) site laws fails window (omega arith)
        (λ t h k. omega arith) (omega arith),
  )

  unfoldable pub post_each : List Try → LoginSite C → LoginSite C
  post_each [] site = site
  post_each (a ∷ tries) site = post_each tries (post_try a site).1

  post_each-failed :
      (a : Try) (tries : List Try) (site : LoginSite C)
      → verify username a.password ≡ none
      → post_each (a ∷ tries) site
        ≡ post_each tries (
            if leb 4 (failures_at a.moment site)
            then site
            else failed (failures_at a.moment site) a site)
  unfolding post_each
  post_each-failed a tries site h =
      ap (λ r. post_each tries r.1) (post_try-failed a site h)
      ∙ (elim (Bool-cases (leb 4 (failures_at a.moment site))) [
        | inl e ↦ rw e refl
        | inr e ↦ rw e refl
      ])

  failures_at-tries :
      (tries : List Try) (n from until : ℕ) (site : LoginSite C) (last : Try)
      → IsCache ops
      → FailsEach tries
      → InWindow from until (tries ++ last ∷ [])
      → until ≤ from + 600
      → ((t : ℕ) → from ≤ t → t < until → failures_at t site ≡ n)
      → 4 ≤ n + length tries
      → 4 ≤ failures_at last.moment (post_each tries site)
  unfolding post_each
  failures_at-tries [] n from until site last laws fails (above, below, window) short counted
        enough =
      omega (arith, counted last.moment above below)
  failures_at-tries (a ∷ tries) n from until site last laws (wrong, fails) (above, below, window)
        short counted enough =
      elim (Bool-cases (leb 4 (failures_at a.moment site))) [
        | inl full ↦
            let now = counted a.moment above below in
            rw (post_each-failed a tries site wrong, full)
              (failures_at-tries tries n a.moment until site last laws fails window (omega arith)
                (λ t h k. counted t (omega arith) k) (ground arith))
        | inr free ↦
            let f : ℕ = failures_at a.moment site in
            let now = counted a.moment above below in
            rw (post_each-failed a tries site wrong, free)
              (failures_at-tries tries (f + 1) a.moment until (failed f a site) last laws fails
                window (omega arith) (λ t h k. failures_at-failed f t a site laws h (omega arith))
                (omega arith))
      ]

  -- If the cache has no failures for a name and an address, then after four or more logins with
  -- wrong passwords in a window of 600 seconds a login in the window is refused whatever its
  -- password, and changes nothing.
  pub post_try-locked_out :
      (tries : List Try) (last : Try) (from : ℕ) (site : LoginSite C)
      → IsCache ops
      → FailsEach tries
      → InWindow from (from + 600) (tries ++ last ∷ [])
      → 4 ≤ length tries
      → ((t : ℕ) → failures_at t site ≡ 0)
      → post_try last (post_each tries site) ≡ (locked_out, post_each tries site)
  unfolding post post_valid attempt
  post_try-locked_out tries last from site laws fails window enough clean =
      let full : leb 4 (failures_at last.moment (post_each tries site)) ≡ true = ground (
        arith,
        failures_at-tries tries 0 from (from + 600) site last laws fails window (omega arith)
            (λ t h k. clean t) (omega arith),
      ) in
      rw full refl
