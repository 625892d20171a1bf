-- ===== src/Core/Tokens/Refreshed.antt =====
-- `refresh_token`: the token that it gives, and the table after it.
use waldur_core.Prelude.{
  ℕ, ◌≡◌, refl, Bool, true, false, not, ◌&&◌, ◌||◌, none, some, List, [], ◌∷◌, ◌++◌, arith, any,
  find, filter, ◌==◌, Bool-cases, Option-cases, inl, inr, ◌∙◌, sym, ap,
}
use waldur_core.Prelude.Text.{Text, same_text, same_text_iff}
use waldur_core.Core.Tokens.{
  User, Token, Db, has_expired, find_key, find_user, found_or_new, get_or_create_token,
  renew_expired, keep_alive, refresh_token,
}
use waldur_core.Core.Tokens.Header.{is_key}
use waldur_core.Core.Tokens.Sliding.{accepts_each, lasts_each, accepts_each-lasts_each}
use waldur_core.Core.Tokens.Table.{has_token, one_each, find_key-touch, one_each-touch}

unfoldable pub has_key : Text → List Token → Bool
has_key key tokens = any (λ t. same_text t.key key) tokens

-- A key is in one row.
unfoldable pub distinct_keys : List Token → Bool
unfolding has_key
distinct_keys [] = true
distinct_keys (t ∷ tokens) = not (has_key t.key tokens) && distinct_keys tokens

-- Rows without the one of a key.
abbrev pub without : Text → List Token → List Token
without key tokens = filter (λ t. not (same_text t.key key)) tokens

has_key-find_user :
    (user : ℕ) (tokens : List Token) (t : Token)
    → find_user user tokens ≡ some t
    → has_key t.key tokens ≡ true
unfolding find_user find has_key any
has_key-find_user user [] t h = cc
has_key-find_user user (s ∷ tokens) t h =
    ground (arith, has_key-find_user user tokens t, same_text_iff t.key t.key)

user-find_user :
    (user : ℕ) (tokens : List Token) (t : Token) → find_user user tokens ≡ some t → t.user ≡ user
unfolding find_user find
user-find_user user [] t h = cc
user-find_user user (s ∷ tokens) t h = ground (arith, user-find_user user tokens t)

find_key-find_user :
    (user : ℕ) (tokens : List Token) (t : Token)
    → find_user user tokens ≡ some t
    → distinct_keys tokens ≡ true
    → find_key t.key tokens ≡ some t
unfolding find_user find_key find distinct_keys
find_key-find_user user [] t h d = cc
find_key-find_user user (s ∷ tokens) t h d = ground (
  arith,
  find_key-find_user user tokens t,
  has_key-find_user user tokens t,
  same_text_iff s.key t.key,
)

has_token-none :
    (user : ℕ) (tokens : List Token) → find_user user tokens ≡ none → has_token user tokens ≡ false
unfolding find_user find has_token any
has_token-none user [] h = refl
has_token-none user (s ∷ tokens) h = ground (arith, has_token-none user tokens)

find_key-append :
    (key : Text) (tokens : List Token) (t : Token)
    → has_key key tokens ≡ false
    → t.key ≡ key
    → find_key key (tokens ++ t ∷ []) ≡ some t
unfolding has_key any find_key find
find_key-append key [] t h e = ground (arith, same_text_iff t.key key)
find_key-append key (s ∷ tokens) t h e = ground (arith, find_key-append key tokens t)

has_token-append :
    (user : ℕ) (tokens : List Token) (t : Token)
    → has_token user (tokens ++ t ∷ []) ≡ (has_token user tokens || t.user == user)
unfolding has_token any
has_token-append user [] t = ground arith
has_token-append user (s ∷ tokens) t = ground (arith, has_token-append user tokens t)

pub one_each-append :
    (tokens : List Token) (t : Token)
    → one_each tokens ≡ true
    → has_token t.user tokens ≡ false
    → one_each (tokens ++ t ∷ []) ≡ true
unfolding one_each has_token any
one_each-append [] t one h = refl
one_each-append (s ∷ tokens) t one h =
    ground (arith, one_each-append tokens t, has_token-append s.user tokens t)

has_token-without :
    (user : ℕ) (key : Text) (tokens : List Token)
    → has_token user tokens ≡ false
    → has_token user (without key tokens) ≡ false
unfolding has_token any filter
has_token-without user key [] h = refl
has_token-without user key (s ∷ tokens) h = ground (arith, has_token-without user key tokens)

one_each-without :
    (key : Text) (tokens : List Token)
    → one_each tokens ≡ true
    → one_each (without key tokens) ≡ true
unfolding one_each filter
one_each-without key [] h = refl
one_each-without key (s ∷ tokens) h =
    ground (arith, one_each-without key tokens, has_token-without s.user key tokens)

has_token-deleted :
    (user : ℕ) (tokens : List Token) (t : Token)
    → find_user user tokens ≡ some t
    → one_each tokens ≡ true
    → has_token user (without t.key tokens) ≡ false
unfolding find_user find one_each has_token any filter
has_token-deleted user [] t h one = cc
has_token-deleted user (s ∷ tokens) t h one = ground (
  arith,
  has_token-deleted user tokens t,
  has_token-without user t.key tokens,
  same_text_iff t.key t.key,
)

pub has_key-without :
    (key other : Text) (tokens : List Token)
    → has_key key tokens ≡ false
    → has_key key (without other tokens) ≡ false
unfolding has_key any filter
has_key-without key other [] h = refl
has_key-without key other (s ∷ tokens) h = ground (arith, has_key-without key other tokens)

-- The token of a user that is given at a moment, in a table with one token for each user.
pub record IsGiven (user : User) (now : ℕ) (r : Token × List Token) : Type 0 where
  pub stored : find_key r.0.key r.1 ≡ some r.0
  pub fresh : r.0.created ≡ now
  pub own : r.0.user ≡ user.id
  pub one : one_each r.1 ≡ true

abbrev pub new : Text → User → ℕ → Token
new key user now = record { key = key; user = user.id; created = now }

IsGiven-created :
    (key : Text) (user : User) (now : ℕ) (tokens : List Token)
    → has_key key tokens ≡ false
    → has_token user.id tokens ≡ false
    → one_each tokens ≡ true
    → IsGiven user now (new key user now, tokens ++ new key user now ∷ [])
IsGiven-created key user now tokens k u one = record {
  stored = find_key-append key tokens (new key user now) k refl;
  fresh = refl;
  own = refl;
  one = one_each-append tokens (new key user now) one u;
}

pub has_expired-new :
    (key : Text) (user : User) (now : ℕ) → has_expired user (new key user now) now ≡ false
unfolding has_expired
has_expired-new key user now = ground arith

-- If each user and each key has at most one row and the key that is made is of no row, then refresh_token gives
-- a token of the user that stands in the table and was created now, and each user has at most one row
-- after it.
pub refresh_token-IsGiven :
    (key : Text) (user : User) (now : ℕ) (tokens : List Token)
    → one_each tokens ≡ true
    → distinct_keys tokens ≡ true
    → has_key key tokens ≡ false
    → IsGiven user now (refresh_token key user now tokens)
unfolding refresh_token get_or_create_token found_or_new renew_expired keep_alive
refresh_token-IsGiven key user now tokens one d k = elim (Option-cases (find_user user.id tokens)) [
  | inl e ↦
      rw (e, has_expired-new key user now)
        (IsGiven-created key user now tokens k (has_token-none user.id tokens e) one)
  | inr (t, e) ↦ elim (Bool-cases (has_expired user t now)) [
    | inl old ↦
        rw (e, old)
          (IsGiven-created key user now (without t.key tokens) (has_key-without key t.key tokens k)
            (has_token-deleted user.id tokens t e one) (one_each-without t.key tokens one))
    | inr young ↦
        rw (e, young)
          (record {
            stored = find_key-touch t.key now tokens t (find_key-find_user user.id tokens t e d);
            fresh = refl;
            own = user-find_user user.id tokens t e;
            one = one_each-touch t.key now tokens ∙ one;
          })
  ]
]

-- Requests with the token that refresh_token has given are accepted as long as each is within a lifetime
-- of the one before it, the first of them within a lifetime of the refresh.
pub accepts_each-refresh_token :
    (users : ℕ → User) (user : User) (key query : Text) (now : ℕ) (ms : List ℕ) (db : Db)
    → one_each db.tokens ≡ true
    → distinct_keys db.tokens ≡ true
    → has_key key db.tokens ≡ false
    → users user.id ≡ user
    → user.is_active ≡ true
    → is_key (refresh_token key user now db.tokens).0.key ≡ true
    → accepts_each users
        (refresh_token key user now db.tokens).0.key
        query
        ms
        (record db { tokens = (refresh_token key user now db.tokens).1 })
      ≡ lasts_each user.token_lifetime now ms
accepts_each-refresh_token users user key query now ms db one d k own active valid =
    let given = refresh_token-IsGiven key user now db.tokens one d k in
    let r : Token × List Token = refresh_token key user now db.tokens in
    let same : users r.0.user ≡ user = ap users given.own ∙ own in
    accepts_each-lasts_each users r.0.key query ms (record db { tokens = r.1 }) r.0 valid
      given.stored given.one (ap (λ (u : User). u.id) same ∙ sym given.own)
      (ap (λ (u : User). u.is_active) same ∙ active)
    ∙ rw (same, given.fresh) refl
