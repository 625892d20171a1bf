-- ===== src/Core/Login.antt =====
-- `ObtainAuthToken.post` of waldur_core/core/views.py: a login with a password, which is locked after four
-- failures. The credentials of a request are those that the serializer accepts, if it does;
-- `verify` stands for Django's `auth.authenticate`.
pub mod Lockout
pub mod Granted
use waldur_core.Prelude.{
  ℕ, ◌+◌, ◌*◌, Bool, true, false, not, Option, none, some, List, [], ◌∷◌, ◌++◌, if◌then◌else◌, leb,
  ◌≡◌, ◌≤◌, ◌<◌,
}
use waldur_core.Prelude.Text.{Text, codes, same_text}
use waldur_core.Core.Tokens.{User, Token, refresh_token}

-- Django's cache: `get` at a moment, and `set` with a timeout at a moment.
pub record CacheOps (C : Type 0) : Type 0 where
  pub get : Text → ℕ → C → Option ℕ
  pub set : Text → ℕ → ℕ → ℕ → C → C
  pub delete : Text → C → C

-- An entry lasts until its timeout, and keys do not touch one another.
pub record IsCache {C : Type 0} (ops : CacheOps C) : Type 0 where
  pub get-set :
      (key : Text) (value timeout now t : ℕ) (cache : C)
      → now ≤ t
      → t < now + timeout
      → ops.get key t (ops.set key value timeout now cache) ≡ some value
  pub get-set_other :
      (key other : Text) (value timeout now t : ℕ) (cache : C)
      → same_text key other ≡ false
      → ops.get other t (ops.set key value timeout now cache) ≡ ops.get other t cache
  pub get-delete : (key : Text) (t : ℕ) (cache : C) → ops.get key t (ops.delete key cache) ≡ none
  pub get-delete_other :
      (key other : Text) (t : ℕ) (cache : C)
      → same_text key other ≡ false
      → ops.get other t (ops.delete key cache) ≡ ops.get other t cache

pub record Credentials : Type 0 where
  pub username : Text
  pub password : Text

pub data Response : Type 0 where
  method_disabled invalid_request locked_out invalid_password user_disabled : Response
  token_given : Text → Response

-- The events that are logged.
pub data LoginEvent : Type 0 where
  login_failed : Text → LoginEvent
  logged_in : ℕ → LoginEvent

-- What `validate_authentication_method` and the view read of the request and the settings.
pub record Request : Type 0 where
  pub local_signin : Bool
  pub credentials : Option Credentials
  pub address : Text

abbrev pub lockout_time_in_mins : ℕ
lockout_time_in_mins = 10

-- 'LOGIN_FAILURES_OF_%s_AT_%s'
unfoldable pub failure_key : Text → Text → Text
failure_key username address = codes "LOGIN_FAILURES_OF_" ++ (username ++ (codes "_AT_" ++ address))

-- The tokens, the cache and the events of the site.
pub record LoginSite (C : Type 0) : Type 0 where
  pub tokens : List Token
  pub cache : C
  pub events : List LoginEvent

abbrev failures_or_zero : Option ℕ → ℕ
failures_or_zero none = 0
failures_or_zero (some n) = n

-- `cache.get(auth_failure_key) or 0`
unfoldable pub failures_of : {C : Type 0} → CacheOps C → Text → ℕ → C → ℕ
failures_of ops key now cache = failures_or_zero (ops.get key now cache)

module _ {C : Type 0} (ops : CacheOps C) (verify : Text → Text → Option User) where
  -- The end of `post` for a user whose password is right; the new key is an argument.
  unfoldable pub log_in : User → Text → ℕ → LoginSite C → Response × LoginSite C
  log_in user new_key now site =
      if not user.is_active
      then (user_disabled, site)
      else let (token, tokens) = refresh_token new_key user now site.tokens in
        (
          token_given token.key,
          record site { tokens = tokens; events = site.events ++ logged_in user.id ∷ [] },
        )

  -- What follows `auth.authenticate`, with the key and the number of failures.
  unfoldable pub verified :
      Option User → Text → Text → ℕ → Text → ℕ → LoginSite C → Response × LoginSite C
  unfolding log_in
  verified none username failure_key failures new_key now site = (
    invalid_password,
    record site {
      cache = ops.set failure_key (failures + 1) (lockout_time_in_mins * 60) now site.cache;
      events = site.events ++ login_failed username ∷ [];
    },
  )
  verified (some user) username failure_key failures new_key now site =
      log_in user new_key now (record site { cache = ops.delete failure_key site.cache })

  unfoldable pub attempt : Credentials → Text → Text → ℕ → LoginSite C → Response × LoginSite C
  unfolding failures_of failure_key verified
  attempt c address new_key now site =
      let key = failure_key c.username address in
      let failures = failures_of ops key now site.cache in
      if leb 4 failures
      then (locked_out, site)
      else verified (verify c.username c.password) c.username key failures new_key now site

  unfoldable pub post_valid :
      Option Credentials → Text → Text → ℕ → LoginSite C → Response × LoginSite C
  unfolding attempt
  post_valid none address new_key now site = (invalid_request, site)
  post_valid (some c) address new_key now site = attempt c address new_key now site

  -- `validate_authentication_method`
  abbrev pub validate_authentication_method :
      Bool → (LoginSite C → Response × LoginSite C) → LoginSite C → Response × LoginSite C
  validate_authentication_method enabled view site =
      if not enabled then (method_disabled, site) else view site

  -- `ObtainAuthToken.post`
  unfoldable pub post : Request → Text → ℕ → LoginSite C → Response × LoginSite C
  unfolding post_valid
  post request new_key now site =
      validate_authentication_method request.local_signin
        (post_valid request.credentials request.address new_key now) site
