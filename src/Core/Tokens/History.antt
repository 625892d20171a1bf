-- ===== src/Core/Tokens/History.antt =====
-- The table of tokens over any creations of users, refreshes and requests.
use waldur_core.Prelude.{
  ℕ, ◌≡◌, refl, Bool, true, false, not, ◌&&◌, ◌||◌, List, [], ◌∷◌, ◌++◌, arith, any, filter,
  Bool-cases, Option-cases, inl, inr, ◌∙◌,
}
use waldur_core.Prelude.Text.{Text, same_text, same_text_iff}
use waldur_core.Core.Tokens.{
  User, Token, Db, touch, find_user, has_expired, found_or_new, get_or_create_token, renew_expired,
  keep_alive, refresh_token, create_auth_token, capture, touch_found,
}
use waldur_core.Core.Tokens.Table.{has_token, one_each, one_each-touch}
use waldur_core.Core.Tokens.Refreshed.{
  has_key, distinct_keys, without, has_key-without, refresh_token-IsGiven, one_each-append,
  has_expired-new,
}

pub data Event : Type 0 where
  saved : Bool → User → Text → ℕ → Event
  refreshed requested : User → Text → ℕ → Event

-- A saved user, a refresh with the key that it makes if need be, and a request that was accepted.
unfoldable pub step : Event → Db → Db
unfolding create_auth_token refresh_token capture
step (saved created user key now) db = record db {
  tokens = create_auth_token created key user now db.tokens;
}
step (refreshed user key now) db = record db { tokens = (refresh_token key user now db.tokens).1 }
step (requested user key now) db = (capture user now db).1

unfoldable pub steps : List Event → Db → Db
unfolding step
steps [] db = db
steps (e ∷ es) db = steps es (step e db)

-- A key that is made is of no row, and a user that is created has no token yet.
abbrev pub is_fresh : Event → Db → Bool
is_fresh (saved created user key now) db =
    not created || (not (has_key key db.tokens) && not (has_token user.id db.tokens))
is_fresh (refreshed user key now) db = not (has_key key db.tokens)
is_fresh (requested user key now) db = true

unfoldable pub are_fresh : List Event → Db → Bool
are_fresh [] db = true
are_fresh (e ∷ es) db = is_fresh e db && are_fresh es (step e db)

-- Each user and each key has at most one row.
unfoldable pub is_table : List Token → Bool
is_table tokens = one_each tokens && distinct_keys tokens

has_key-touch :
    (other key : Text) (now : ℕ) (tokens : List Token)
    → has_key other (touch key now tokens) ≡ has_key other tokens
unfolding has_key any touch
has_key-touch other key now [] = refl
has_key-touch other key now (s ∷ tokens) = ground (arith, has_key-touch other key now tokens)

distinct_keys-touch :
    (key : Text) (now : ℕ) (tokens : List Token)
    → distinct_keys (touch key now tokens) ≡ distinct_keys tokens
unfolding distinct_keys touch
distinct_keys-touch key now [] = refl
distinct_keys-touch key now (s ∷ tokens) =
    ground (arith, distinct_keys-touch key now tokens, has_key-touch s.key key now tokens)

has_key-append :
    (key : Text) (tokens : List Token) (t : Token)
    → has_key key (tokens ++ t ∷ []) ≡ (has_key key tokens || same_text t.key key)
unfolding has_key any
has_key-append key [] t = ground arith
has_key-append key (s ∷ tokens) t = ground (arith, has_key-append key tokens t)

distinct_keys-append :
    (tokens : List Token) (t : Token)
    → distinct_keys tokens ≡ true
    → has_key t.key tokens ≡ false
    → distinct_keys (tokens ++ t ∷ []) ≡ true
unfolding distinct_keys has_key any
distinct_keys-append [] t d h = refl
distinct_keys-append (s ∷ tokens) t d h = ground (
  arith,
  distinct_keys-append tokens t,
  has_key-append s.key tokens t,
  same_text_iff s.key t.key,
  same_text_iff t.key s.key,
  same_text_iff s.key s.key,
)

distinct_keys-without :
    (key : Text) (tokens : List Token)
    → distinct_keys tokens ≡ true
    → distinct_keys (without key tokens) ≡ true
unfolding distinct_keys filter
distinct_keys-without key [] h = refl
distinct_keys-without key (s ∷ tokens) h =
    ground (arith, distinct_keys-without key tokens, has_key-without s.key key tokens)

distinct_keys-refresh_token :
    (key : Text) (user : User) (now : ℕ) (tokens : List Token)
    → distinct_keys tokens ≡ true
    → has_key key tokens ≡ false
    → distinct_keys (refresh_token key user now tokens).1 ≡ true
unfolding refresh_token get_or_create_token found_or_new renew_expired keep_alive
distinct_keys-refresh_token key user now tokens d k =
    let new : Token = record { key = key; user = user.id; created = now } in
    elim (Option-cases (find_user user.id tokens)) [
      | inl e ↦ rw (e, has_expired-new key user now) (distinct_keys-append tokens new d k)
      | inr (t, e) ↦ elim (Bool-cases (has_expired user t now)) [
        | inl old ↦
            rw (e, old)
              (distinct_keys-append (without t.key tokens) new
                (distinct_keys-without t.key tokens d) (has_key-without key t.key tokens k))
        | inr young ↦ rw (e, young) (distinct_keys-touch t.key now tokens ∙ d)
      ]
    ]

is_table-capture :
    (user : User) (now : ℕ) (db : Db)
    → is_table db.tokens ≡ true
    → is_table (capture user now db).1.tokens ≡ true
unfolding capture touch_found is_table
is_table-capture user now db h = elim (Option-cases (find_user user.id db.tokens)) [
  | inl e ↦ rw e h
  | inr (t, e) ↦
      rw (e, one_each-touch t.key now db.tokens, distinct_keys-touch t.key now db.tokens) h
]

is_table-create_auth_token :
    (created : Bool) (key : Text) (user : User) (now : ℕ) (tokens : List Token)
    → is_table tokens ≡ true
    → (not created || (not (has_key key tokens) && not (has_token user.id tokens))) ≡ true
    → is_table (create_auth_token created key user now tokens) ≡ true
unfolding create_auth_token is_table
is_table-create_auth_token false key user now tokens h f = h
is_table-create_auth_token true key user now tokens h f =
    let new : Token = record { key = key; user = user.id; created = now } in
    ground (arith, one_each-append tokens new, distinct_keys-append tokens new)

is_table-refresh_token :
    (key : Text) (user : User) (now : ℕ) (tokens : List Token)
    → is_table tokens ≡ true
    → has_key key tokens ≡ false
    → is_table (refresh_token key user now tokens).1 ≡ true
unfolding is_table
is_table-refresh_token key user now tokens h f =
    let one : one_each tokens ≡ true = ground arith in
    let d : distinct_keys tokens ≡ true = ground arith in
    rw
      (
        (refresh_token-IsGiven key user now tokens one d f).one,
        distinct_keys-refresh_token key user now tokens d f,
      )
      refl

is_table-step :
    (e : Event) (db : Db)
    → is_table db.tokens ≡ true
    → is_fresh e db ≡ true
    → is_table (step e db).tokens ≡ true
unfolding step
is_table-step (saved created user key now) db h f =
    is_table-create_auth_token created key user now db.tokens h f
is_table-step (refreshed user key now) db h f =
    is_table-refresh_token key user now db.tokens h (ground arith)
is_table-step (requested user key now) db h f = is_table-capture user now db h

-- If each key that is made is of no row and no user is created twice, each user and each key has
-- at most one token after any creations of users, refreshes of tokens and accepted requests.
pub is_table-steps :
    (es : List Event) (db : Db)
    → is_table db.tokens ≡ true
    → are_fresh es db ≡ true
    → is_table (steps es db).tokens ≡ true
unfolding steps are_fresh
is_table-steps [] db h f = h
is_table-steps (e ∷ es) db h f =
    is_table-steps es (step e db) (is_table-step e db h (ground arith)) (ground arith)
