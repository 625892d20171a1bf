-- ===== src/Core/Tokens/Sliding.antt =====
-- Requests with one token: each that is accepted starts its lifetime again.
use waldur_core.Prelude.{
  ℕ, ◌+◌, ◌≡◌, refl, Bool, true, false, not, ◌&&◌, ◌||◌, none, some, Option, List, [], ◌∷◌, arith,
  returned, raised, Outcome, Method, ◌==◌, leb, if◌then◌else◌, Bool-cases, inl, inr, ◌∙◌, sym,
}
use waldur_core.Prelude.Text.{Text}
use waldur_core.Core.Tokens.{
  User, Token, Db, AuthError, token_expired, has_expired, find_key, touch, check_token, check_found,
  authenticate_credentials, authenticate_key, authenticate, capture, touch_found, capture_result,
  capturing_authenticate,
}
use waldur_core.Core.Tokens.Header.{is_key, header_of, authenticate-header_of}
use waldur_core.Core.Tokens.Table.{
  one_each, find_user-find_key, key-find_key, find_key-touch, one_each-touch,
}

-- A request with the header of a key.
abbrev pub request : (ℕ → User) → Text → Text → ℕ → Method Db AuthError (Option (User × Token))
request users key query now =
    capturing_authenticate (authenticate users (header_of key) query now) now

unfoldable pub is_accepted : Outcome AuthError (Option (User × Token)) → Bool
is_accepted (returned (some found)) = true
is_accepted _ = false

-- Whether requests at some moments, one after another, are all accepted.
unfoldable pub accepts_each : (ℕ → User) → Text → Text → List ℕ → Db → Bool
unfolding is_accepted
accepts_each users key query [] db = true
accepts_each users key query (m ∷ ms) db =
    let (r, db') = request users key query m db in
    is_accepted r && accepts_each users key query ms db'

-- Each moment is within a lifetime of the one before it.
unfoldable pub lasts_each : Option ℕ → ℕ → List ℕ → Bool
lasts_each none created ms = true
lasts_each (some lifetime) created [] = true
lasts_each (some lifetime) created (m ∷ ms) =
    (lifetime == 0 || leb m (created + lifetime)) && lasts_each (some lifetime) m ms

lasts_each-nil : (lifetime : Option ℕ) (created : ℕ) → lasts_each lifetime created [] ≡ true
unfolding lasts_each
lasts_each-nil none created = refl
lasts_each-nil (some lifetime) created = refl

lasts_each-step :
    (user : User) (t : Token) (m : ℕ) (ms : List ℕ)
    → lasts_each user.token_lifetime t.created (m ∷ ms)
      ≡ (not (has_expired user t m) && lasts_each user.token_lifetime m ms)
unfolding lasts_each has_expired
lasts_each-step user t m ms = ground arith

authenticate-found :
    (users : ℕ → User) (key query : Text) (now : ℕ) (db : Db) (t : Token)
    → is_key key ≡ true
    → find_key key db.tokens ≡ some t
    → (users t.user).is_active ≡ true
    → authenticate users (header_of key) query now db ≡ (
        if has_expired (users t.user) t now
        then (raised token_expired, db)
        else (returned (some (users t.user, t)), db))
unfolding authenticate_key authenticate_credentials check_found check_token
authenticate-found users key query now db t k found active =
    authenticate-header_of users key query now db k ∙ rw (found, active) (ground arith)

-- The database after an accepted request.
abbrev pub touched : Text → ℕ → User → Db → Db
touched key now user db = record { tokens = touch key now db.tokens; current_user = some user }

capture-found :
    (user : User) (key : Text) (now : ℕ) (db : Db) (t : Token)
    → find_key key db.tokens ≡ some t
    → one_each db.tokens ≡ true
    → user.id ≡ t.user
    → capture user now db ≡ (returned tt, touched key now user db)
unfolding capture touch_found
capture-found user key now db t found one own =
    rw (own, find_user-find_key key db.tokens t found one, key-find_key key db.tokens t found) refl

request-found :
    (users : ℕ → User) (key query : Text) (now : ℕ) (db : Db) (t : Token)
    → is_key key ≡ true
    → find_key key db.tokens ≡ some t
    → one_each db.tokens ≡ true
    → (users t.user).id ≡ t.user
    → (users t.user).is_active ≡ true
    → request users key query now db ≡ (
        if has_expired (users t.user) t now
        then (raised token_expired, db)
        else (returned (some (users t.user, t)), touched key now (users t.user) db))
unfolding capturing_authenticate capture_result
request-found users key query now db t k found one own active =
    rw (authenticate-found users key query now db t k found active)
      (elim (Bool-cases (has_expired (users t.user) t now)) [
        | inl e ↦ rw e refl
        | inr e ↦ rw (e, capture-found (users t.user) key now db t found one own) refl
      ])

-- If each user has at most one token, requests with the token of an active user are all accepted
-- exactly if each comes within the lifetime of the one before it and the first within that of the
-- last use of the token.
pub accepts_each-lasts_each :
    (users : ℕ → User) (key query : Text) (ms : List ℕ) (db : Db) (t : Token)
    → is_key key ≡ true
    → find_key key db.tokens ≡ some t
    → one_each db.tokens ≡ true
    → (users t.user).id ≡ t.user
    → (users t.user).is_active ≡ true
    → accepts_each users key query ms db ≡ lasts_each (users t.user).token_lifetime t.created ms
unfolding accepts_each is_accepted
accepts_each-lasts_each users key query [] db t k found one own active =
    sym (lasts_each-nil (users t.user).token_lifetime t.created)
accepts_each-lasts_each users key query (m ∷ ms) db t k found one own active =
    rw
      (
        request-found users key query m db t k found one own active,
        lasts_each-step (users t.user) t m ms,
      )
      (elim (Bool-cases (has_expired (users t.user) t m)) [
        | inl e ↦ rw e refl
        | inr e ↦ rw e (
            accepts_each-lasts_each users key query ms (touched key m (users t.user) db)
              (record t { created = m }) k (find_key-touch key m db.tokens t found)
              (one_each-touch key m db.tokens ∙ one) own active)
      ])
