-- ===== src/Core/Tokens/Header.antt =====
-- Headers of the form "Token <key>".
use waldur_core.Prelude.{
  ◌≡◌, refl, Bool, true, not, ◌&&◌, some, [], ◌∷◌, ◌++◌, all, arith, filter, pure, ℕ,
}
use waldur_core.Prelude.Text.{Text, codes, same_text}
use waldur_core.Core.Tokens.{
  User, Db, is_space, push_char, words_of, is_filled, split_words, lower, is_ascii, header_key,
  check_parts, get_authorization_value, authenticate_key, authenticate,
}

has_no_space : Text → Bool
has_no_space key = all (λ c. not (is_space c)) key

fields_of_word : (word : Text) → has_no_space word ≡ true → words_of word ≡ word ∷ []
unfolding has_no_space all words_of push_char
fields_of_word [] h = refl
fields_of_word (c ∷ cs) h = ground (arith, fields_of_word cs)

-- The texts that can stand as a key in a header.
unfoldable pub is_key : Text → Bool
unfolding has_no_space
is_key key = is_filled key && (has_no_space key && is_ascii key)

abbrev pub header_of : Text → Text
header_of key = codes "Token " ++ key

split_words-header_of :
    (key : Text)
    → is_filled key ≡ true
    → has_no_space key ≡ true
    → split_words (header_of key) ≡ codes "Token" ∷ key ∷ []
unfolding split_words words_of push_char is_space filter is_filled
split_words-header_of key filled h = rw (fields_of_word key h) (ground arith)

check_parts-header_of :
    (key : Text) (db : Db)
    → is_ascii key ≡ true
    → check_parts (codes "Token" ∷ key ∷ []) db ≡ pure (some key) db
unfolding check_parts lower same_text header_key
check_parts-header_of key db h = rw h refl

-- A header of the scheme and a key is read as the key.
pub authenticate-header_of :
    (users : ℕ → User) (key query : Text) (now : ℕ) (db : Db)
    → is_key key ≡ true
    → authenticate users (header_of key) query now db ≡ authenticate_key users now (some key) db
unfolding authenticate get_authorization_value is_key
authenticate-header_of users key query now db h =
    let filled : is_filled key ≡ true = ground arith in
    let spaces : has_no_space key ≡ true = ground arith in
    let ascii : is_ascii key ≡ true = ground arith in
    rw (split_words-header_of key filled spaces, check_parts-header_of key db ascii) refl
