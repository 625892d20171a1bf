-- ===== src/Core/Tokens/Table.antt =====
-- The table of tokens: at most one token for each user, and lookups after an update.
use waldur_core.Prelude.{
  ℕ, ◌≡◌, refl, Bool, true, not, ◌&&◌, some, List, [], ◌∷◌, any, find, arith, ◌==◌,
}
use waldur_core.Prelude.Text.{Text, same_text_iff}
use waldur_core.Core.Tokens.{Token, find_key, find_user, touch}

-- Another token of the same user.
unfoldable pub has_token : ℕ → List Token → Bool
has_token user tokens = any (λ t. t.user == user) tokens

unfoldable pub one_each : List Token → Bool
unfolding has_token
one_each [] = true
one_each (t ∷ tokens) = not (has_token t.user tokens) && one_each tokens

pub has_token-find_key :
    (key : Text) (tokens : List Token) (t : Token)
    → find_key key tokens ≡ some t
    → has_token t.user tokens ≡ true
unfolding find_key find has_token any
has_token-find_key key [] t h = cc
has_token-find_key key (s ∷ tokens) t h = ground (arith, has_token-find_key key tokens t)

pub find_user-find_key :
    (key : Text) (tokens : List Token) (t : Token)
    → find_key key tokens ≡ some t
    → one_each tokens ≡ true
    → find_user t.user tokens ≡ some t
unfolding find_key find_user find one_each
find_user-find_key key [] t h one = cc
find_user-find_key key (s ∷ tokens) t h one =
    ground (arith, find_user-find_key key tokens t, has_token-find_key key tokens t)

pub key-find_key :
    (key : Text) (tokens : List Token) (t : Token) → find_key key tokens ≡ some t → t.key ≡ key
unfolding find_key find
key-find_key key [] t h = cc
key-find_key key (s ∷ tokens) t h =
    ground (arith, key-find_key key tokens t, same_text_iff s.key key)

pub find_key-touch :
    (key : Text) (now : ℕ) (tokens : List Token) (t : Token)
    → find_key key tokens ≡ some t
    → find_key key (touch key now tokens) ≡ some (record t { created = now })
unfolding find_key find touch
find_key-touch key now [] t h = cc
find_key-touch key now (s ∷ tokens) t h = ground (arith, find_key-touch key now tokens t)

pub has_token-touch :
    (user now : ℕ) (key : Text) (tokens : List Token)
    → has_token user (touch key now tokens) ≡ has_token user tokens
unfolding has_token any touch
has_token-touch user now key [] = refl
has_token-touch user now key (s ∷ tokens) = ground (arith, has_token-touch user now key tokens)

pub one_each-touch :
    (key : Text) (now : ℕ) (tokens : List Token) → one_each (touch key now tokens) ≡ one_each tokens
unfolding one_each touch
one_each-touch key now [] = refl
one_each-touch key now (s ∷ tokens) =
    ground (arith, one_each-touch key now tokens, has_token-touch s.user now key tokens)
