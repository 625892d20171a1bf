-- ===== src/Core/Tokens.antt =====
-- Authentication by tokens: `TokenAuthentication` and `user_capturing_auth` of
-- waldur_core/core/authentication.py, and `RefreshTokenMixin` of core/views.py. The table of tokens is the
-- state; moments and lifetimes are seconds, and the moment of a call is an argument. The key that
-- `Token.objects.create` makes is an argument too.
pub mod Header
pub mod Table
pub mod Sliding
pub mod Refreshed
pub mod History
use waldur_core.Prelude.{
  ℕ, ◌+◌, Bool, true, false, not, ◌&&◌, ◌||◌, Option, none, some, List, [], ◌∷◌, ◌++◌, map, all,
  filter, find, if◌then◌else◌, ltb, leb, ◌==◌, Method, pure, raise, raise_if, modify, ◌>>=◌, ◌>>◌,
}
use waldur_core.Prelude.Text.{Text, codes, same_text}

-- The words_of of a user that the code reads.
pub record User : Type 0 where
  pub id : ℕ
  pub is_active : Bool
  pub is_staff : Bool
  pub is_support : Bool
  pub token_lifetime : Option ℕ

pub record Token : Type 0 where
  pub key : Text
  pub user : ℕ
  pub created : ℕ

-- The table of tokens, and the current user of the middleware.
pub record Db : Type 0 where
  pub tokens : List Token
  pub current_user : Option User

pub data AuthError : Type 0 where
  invalid_token inactive_user token_expired no_credentials key_with_spaces : AuthError
  invalid_characters no_auth_token : AuthError

-- `can_access_admin_site`
unfoldable pub can_access_admin_site : User → Bool
can_access_admin_site user = user.is_active && (user.is_staff || user.is_support)

-- A lifetime of null or 0 is none; otherwise `token.created < timezone.now() - lifetime`.
unfoldable pub has_expired : User → Token → ℕ → Bool
has_expired user token now = elim user.token_lifetime [
  | none ↦ false
  | some lifetime ↦ not (lifetime == 0) && ltb (token.created + lifetime) now
]

-- `objects.get(key=key)`
unfoldable pub find_key : Text → List Token → Option Token
find_key key tokens = find (λ t. same_text t.key key) tokens

-- `user.auth_token`
unfoldable pub find_user : ℕ → List Token → Option Token
find_user user tokens = find (λ t. t.user == user) tokens

-- `token.created = timezone.now()` and `token.save()`, on the row of the key.
unfoldable pub touch : Text → ℕ → List Token → List Token
touch key now tokens =
    map (λ t. if same_text t.key key then record t { created = now } else t) tokens

-- The tests of `authenticate_credentials` on the token that was found.
unfoldable pub check_token : User → Token → ℕ → Method Db AuthError (User × Token)
unfolding has_expired
check_token user token now =
    raise_if (not user.is_active) inactive_user
    >> (raise_if (has_expired user token now) token_expired >> pure (user, token))

unfoldable pub check_found : (ℕ → User) → Option Token → ℕ → Method Db AuthError (User × Token)
unfolding check_token
check_found users none now = raise invalid_token
check_found users (some token) now = check_token (users token.user) token now

-- `TokenAuthentication.authenticate_credentials`
unfoldable pub authenticate_credentials : (ℕ → User) → Text → ℕ → Method Db AuthError (User × Token)
unfolding check_found find_key
authenticate_credentials users key now db = check_found users (find_key key db.tokens) now db

-- The ASCII spaces of `split_words`.
unfoldable pub is_space : ℕ → Bool
is_space c = c == 32 || (leb 9 c && leb c 13)

-- Puts a code point before the first of some words.
unfoldable pub push_char : ℕ → List Text → List Text
push_char c [] = (c ∷ []) ∷ []
push_char c (word ∷ words) = (c ∷ word) ∷ words

-- The words between single spaces, empty ones included.
unfoldable pub words_of : Text → List Text
unfolding push_char is_space
words_of [] = [] ∷ []
words_of (c ∷ cs) = let rest = words_of cs in if is_space c then [] ∷ rest else push_char c rest

unfoldable pub is_filled : Text → Bool
is_filled [] = false
is_filled (c ∷ cs) = true

-- `text.split()`
unfoldable pub split_words : Text → List Text
unfolding words_of is_filled
split_words text = filter is_filled (words_of text)

-- `text.lower()` on ASCII
unfoldable pub lower : Text → Text
lower text = map (λ c. if leb 65 c && leb c 90 then c + 32 else c) text

unfoldable pub is_ascii : Text → Bool
is_ascii text = all (λ c. ltb c 128) text

-- What follows the scheme: `decode` of Python 2 refuses what is not ASCII.
unfoldable pub header_key : List Text → Method Db AuthError (Option Text)
unfolding is_ascii
header_key [] = raise no_credentials
header_key (key ∷ []) = if is_ascii key then pure (some key) else raise invalid_characters
header_key (key ∷ other ∷ more) = raise key_with_spaces

-- The tests of `authenticate` on the parts of the header.
unfoldable pub check_parts : List Text → Method Db AuthError (Option Text)
unfolding lower header_key
check_parts [] = pure none
check_parts (scheme ∷ rest) =
    if same_text (lower scheme) (codes "token") then header_key rest else pure none

unfoldable pub authenticate_key :
    (ℕ → User) → ℕ → Option Text → Method Db AuthError (Option (User × Token))
unfolding authenticate_credentials
authenticate_key users now none = pure none
authenticate_key users now (some key) =
    authenticate_credentials users key now >>= λ found. pure (some found)

-- `get_authorization_value`: the header, or else the parameter of the query.
unfoldable pub get_authorization_value : Text → Text → Text
get_authorization_value [] query = query
get_authorization_value (c ∷ header) query = c ∷ header

-- `TokenAuthentication.authenticate`
unfoldable pub authenticate :
    (ℕ → User) → Text → Text → ℕ → Method Db AuthError (Option (User × Token))
unfolding get_authorization_value split_words check_parts authenticate_key
authenticate users header query now =
    check_parts (split_words (get_authorization_value header query)) >>= λ key.
    authenticate_key users now key

-- `token = user.auth_token`, which raises if there is none, and its update.
unfoldable pub touch_found : Option Token → ℕ → Method Db AuthError (Unit {0})
unfolding touch
touch_found none now = raise no_auth_token
touch_found (some token) now = modify (λ db. record db { tokens = touch token.key now db.tokens })

-- `set_current_user` and the update of the token of the user.
unfoldable pub capture : User → ℕ → Method Db AuthError (Unit {0})
unfolding find_user touch_found
capture user now db =
    touch_found (find_user user.id db.tokens) now (record db { current_user = some user })

unfoldable pub capture_result :
    {A : Type 0} → ℕ → Option (User × A) → Method Db AuthError (Option (User × A))
unfolding capture
capture_result now none = pure none
capture_result now (some (user, a)) = capture user now >> pure (some (user, a))

-- `user_capturing_auth(auth).authenticate`, for any class of authentication.
unfoldable pub capturing_authenticate :
    {A : Type 0}
    → Method Db AuthError (Option (User × A))
    → ℕ
    → Method Db AuthError (Option (User × A))
unfolding capture_result
capturing_authenticate auth now = auth >>= capture_result now

-- The row that `get_or_create_token` finds, or a new one.
unfoldable pub found_or_new :
    Text → User → ℕ → Option Token → List Token → (Token × Bool) × List Token
found_or_new key user now (some token) tokens = ((token, false), tokens)
found_or_new key user now none tokens =
    let token : Token = record { key = key; user = user.id; created = now } in
    ((token, true), tokens ++ token ∷ [])

-- `Token.objects.get_or_create(user=user)`
unfoldable pub get_or_create_token : Text → User → ℕ → List Token → (Token × Bool) × List Token
unfolding found_or_new find_user
get_or_create_token key user now tokens =
    found_or_new key user now (find_user user.id tokens) tokens

-- `token.delete()` and `Token.objects.create(user=user)`, if the lifetime is over.
unfoldable pub renew_expired :
    Text → User → ℕ → (Token × Bool) × List Token → (Token × Bool) × List Token
unfolding has_expired
renew_expired key user now ((token, created), tokens) =
    if has_expired user token now
    then (let next : Token = record { key = key; user = user.id; created = now } in
        ((next, true), filter (λ t. not (same_text t.key token.key)) tokens ++ next ∷ []))
    else ((token, created), tokens)

-- `if not created`
unfoldable pub keep_alive : ℕ → (Token × Bool) × List Token → Token × List Token
unfolding touch
keep_alive now ((token, true), tokens) = (token, tokens)
keep_alive now ((token, false), tokens) =
    (record token { created = now }, touch token.key now tokens)

-- `RefreshTokenMixin.refresh_token`
unfoldable pub refresh_token : Text → User → ℕ → List Token → Token × List Token
unfolding get_or_create_token renew_expired keep_alive
refresh_token key user now tokens =
    keep_alive now (renew_expired key user now (get_or_create_token key user now tokens))

-- The handler `create_auth_token` of core/handlers.py, for a user that was created or saved.
unfoldable pub create_auth_token : Bool → Text → User → ℕ → List Token → List Token
create_auth_token created key user now tokens =
    let token : Token = record { key = key; user = user.id; created = now } in
    if created then tokens ++ token ∷ [] else tokens
