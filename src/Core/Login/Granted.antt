-- ===== src/Core/Login/Granted.antt =====
-- Logins that give a token, and logins with other names or from other addresses.
use waldur_core.Prelude.{
  ℕ, ◌+◌, ◌≡◌, refl, true, false, none, some, Option, List, [], ◌∷◌, ◌++◌, arith, leb, ◌==◌, count,
  count-append, ap, sym, Bool-cases, inl, inr,
}
use waldur_core.Prelude.Text.{Text, codes, same_text, same_text_iff}
use waldur_core.Core.Tokens.{User, refresh_token}
use waldur_core.Core.Tokens.Header.{is_key}
use waldur_core.Core.Tokens.Sliding.{accepts_each, lasts_each}
use waldur_core.Core.Tokens.Table.{one_each}
use waldur_core.Core.Tokens.Refreshed.{has_key, distinct_keys, accepts_each-refresh_token}
use waldur_core.Core.Login.{
  CacheOps, IsCache, Credentials, token_given, Request, LoginSite, failure_key, failures_of,
  verified, attempt, post_valid, post, log_in, logged_in,
}

abbrev pub request_with : Credentials → Text → Request
request_with c address = record { local_signin = true; credentials = some c; address = address }

module _ {C : Type 0} (ops : CacheOps C) (verify : Text → Text → Option User) where
  post-granted :
      (c : Credentials) (user : User) (address new_key : Text) (now : ℕ) (site : LoginSite C)
      → verify c.username c.password ≡ some user
      → user.is_active ≡ true
      → leb 4 (failures_of ops (failure_key c.username address) now site.cache) ≡ false
      → post ops verify (request_with c address) new_key now site ≡ (
        token_given (refresh_token new_key user now site.tokens).0.key,
        record {
          tokens = (refresh_token new_key user now site.tokens).1;
          cache = ops.delete (failure_key c.username address) site.cache;
          events = site.events ++ logged_in user.id ∷ [];
        },
      )
  unfolding post post_valid attempt verified log_in
  post-granted c user address new_key now site h active free = rw (free, h, active) refl

  -- If each user and each key has at most one token, a login with the right password of an active
  -- user that is not locked out gives a key, with which requests are accepted exactly as long as
  -- each comes within the lifetime of the one before it.
  pub accepts_each-post :
      (users : ℕ → User) (c : Credentials) (user : User) (address new_key query : Text) (now : ℕ)
      (ms : List ℕ) (site : LoginSite C)
      → verify c.username c.password ≡ some user
      → user.is_active ≡ true
      → leb 4 (failures_of ops (failure_key c.username address) now site.cache) ≡ false
      → one_each site.tokens ≡ true
      → distinct_keys site.tokens ≡ true
      → has_key new_key site.tokens ≡ false
      → users user.id ≡ user
      → is_key (refresh_token new_key user now site.tokens).0.key ≡ true
      → ((key : Text) × ((post ops verify (request_with c address) new_key now site).0
            ≡ token_given key)
          × (accepts_each users key query ms (record {
            tokens = (post ops verify (request_with c address) new_key now site).1.tokens;
            current_user = none;
          })
              ≡ lasts_each user.token_lifetime now ms))
  accepts_each-post users c user address new_key query now ms site h active free one d k own valid =
      rw (post-granted c user address new_key now site h active free) (
        (refresh_token new_key user now site.tokens).0.key,
        refl,
        accepts_each-refresh_token users user new_key query now ms
            (record { tokens = site.tokens; current_user = none }) one d k own active valid,
      )

-- The number of underscores.
unfoldable pub underscores : Text → ℕ
underscores text = count (λ c. c == 95) text

tail_of_key : Text → Text
tail_of_key address = codes "_AT_" ++ address

underscores-tail :
    (address : Text) → underscores address ≡ 0 → underscores (tail_of_key address) ≡ 2
unfolding underscores tail_of_key count
underscores-tail address h = ground arith

longer :
    (c : ℕ) (cs address elsewhere : Text)
    → underscores address ≡ 0
    → underscores elsewhere ≡ 0
    → ¬ (tail_of_key address ≡ (c ∷ cs) ++ tail_of_key elsewhere)
unfolding underscores count tail_of_key
longer c cs address elsewhere h k e =
    let head : c ≡ 95 = cc in
    let counts = ap underscores e in
    ground (
      arith,
      underscores-tail address h,
      underscores-tail elsewhere k,
      count-append (λ (d : ℕ). d == 95) cs (tail_of_key elsewhere),
    )

ends_alike :
    (username other address elsewhere : Text)
    → underscores address ≡ 0
    → underscores elsewhere ≡ 0
    → username ++ tail_of_key address ≡ other ++ tail_of_key elsewhere
    → (username ≡ other) × (address ≡ elsewhere)
unfolding tail_of_key
ends_alike [] [] address elsewhere h k e = (refl, cc)
ends_alike [] (c ∷ cs) address elsewhere h k e = absurd (longer c cs address elsewhere h k e)
ends_alike (c ∷ cs) [] address elsewhere h k e = absurd (longer c cs elsewhere address k h (sym e))
ends_alike (c ∷ cs) (c' ∷ cs') address elsewhere h k e =
    let heads : c ≡ c' = cc in
    let tails : cs ++ tail_of_key address ≡ cs' ++ tail_of_key elsewhere = cc in
    let (names, addresses) = ends_alike cs cs' address elsewhere h k tails in (cc, addresses)

failure_key_inj :
    (username other address elsewhere : Text)
    → underscores address ≡ 0
    → underscores elsewhere ≡ 0
    → failure_key username address ≡ failure_key other elsewhere
    → (username ≡ other) × (address ≡ elsewhere)
unfolding failure_key tail_of_key
failure_key_inj username other address elsewhere h k e =
    ends_alike username other address elsewhere h k cc

-- The answer to a login is
failure_key-different :
    (username other address elsewhere : Text)
    → underscores address ≡ 0
    → underscores elsewhere ≡ 0
    → ¬ ((username ≡ other) × (address ≡ elsewhere))
    → same_text (failure_key username address) (failure_key other elsewhere) ≡ false
failure_key-different username other address elsewhere h k different =
    elim (Bool-cases (same_text (failure_key username address) (failure_key other elsewhere))) [
      | inl e ↦ absurd (
          different (
            failure_key_inj username other address elsewhere h k
              ((same_text_iff (failure_key username address) (failure_key other elsewhere)).0 e)))
      | inr e ↦ e
    ]

module _ {C : Type 0} (ops : CacheOps C) (laws : IsCache ops)
    (verify : Text → Text → Option User) where
  cache-log_in :
      (user : User) (new_key : Text) (now : ℕ) (site : LoginSite C)
      → (log_in ops verify user new_key now site).1.cache ≡ site.cache
  unfolding log_in
  cache-log_in user new_key now site = elim (Bool-cases user.is_active) [
    | inl e ↦ rw e refl
    | inr e ↦ rw e refl
  ]

  failures_of-verified :
      (found : Option User) (username key new_key other : Text) (n now t : ℕ) (site : LoginSite C)
      → same_text key other ≡ false
      → failures_of ops other t (verified ops verify found username key n new_key now site).1.cache
        ≡ failures_of ops other t site.cache
  unfolding failures_of verified
  failures_of-verified none username key new_key other n now t site h =
      rw (laws.get-set_other key other (n + 1) 600 now t site.cache h) refl
  failures_of-verified (some user) username key new_key other n now t site h =
      rw
        (
          cache-log_in user new_key now (record site { cache = ops.delete key site.cache }),
          laws.get-delete_other key other t site.cache h,
        )
        refl

  failures_of-attempt :
      (c : Credentials) (address new_key other : Text) (now t : ℕ) (site : LoginSite C)
      → same_text (failure_key c.username address) other ≡ false
      → failures_of ops other t (attempt ops verify c address new_key now site).1.cache
        ≡ failures_of ops other t site.cache
  unfolding attempt
  failures_of-attempt c address new_key other now t site h =
      elim (Bool-cases (leb 4 (failures_of ops (failure_key c.username address) now site.cache))) [
        | inl e ↦ rw e refl
        | inr e ↦ rw e (
            failures_of-verified (verify c.username c.password) c.username
              (failure_key c.username address) new_key other
              (failures_of ops (failure_key c.username address) now site.cache) now t site h)
      ]

  -- If addresses have no underscores, a login does not change the failures that count for another
  -- name or address.
  pub failures_of-post :
      (c : Credentials) (address other elsewhere new_key : Text) (now t : ℕ) (site : LoginSite C)
      → underscores address ≡ 0
      → underscores elsewhere ≡ 0
      → ¬ ((c.username ≡ other) × (address ≡ elsewhere))
      → failures_of ops
          (failure_key other elsewhere)
          t
          (post ops verify (request_with c address) new_key now site).1.cache
        ≡ failures_of ops (failure_key other elsewhere) t site.cache
  unfolding post post_valid
  failures_of-post c address other elsewhere new_key now t site h k different =
      failures_of-attempt c address new_key (failure_key other elsewhere) now t site
        (failure_key-different c.username other address elsewhere h k different)
