-- ===== src/Tests/LoginTests.antt =====
-- Tokens and logins at concrete inputs.
use waldur_core.Prelude.{
  ℕ, ◌+◌, ◌≡◌, refl, true, false, none, some, Option, List, [], ◌∷◌, ltb, if◌then◌else◌, arith, ◌≤◌,
  any, all, find,
}
use waldur_core.Prelude.Text.{Text, codes, same_text, same_text_iff}
use waldur_core.Core.Tokens.{User, Db, refresh_token, is_filled, is_space, is_ascii, find_key}
use waldur_core.Core.Tokens.Header.{is_key}
use waldur_core.Core.Tokens.Table.{one_each}
use waldur_core.Core.Tokens.Refreshed.{distinct_keys}
use waldur_core.Core.Tokens.Sliding.{accepts_each, lasts_each, accepts_each-lasts_each}
use waldur_core.Core.Tokens.History.{
  saved, refreshed, requested, step, steps, are_fresh, is_table, is_table-steps,
}
use waldur_core.Core.Login.{
  CacheOps, IsCache, Credentials, LoginSite, token_given, locked_out, post, failures_of,
}
use waldur_core.Core.Login.Lockout.{
  Try, verified_count, verified_count-window, post_try, post_each, post_try-locked_out,
}
use waldur_core.Core.Login.Granted.{request_with, accepts_each-post}

abbrev alice : User
alice = record {
  id = 4;
  is_active = true;
  is_staff = false;
  is_support = false;
  token_lifetime = some 3600;
}

abbrev all_alice : ℕ → User
all_alice id = alice

abbrev site_db : Db
site_db = record {
  tokens = record { key = codes "c84d"; user = 4; created = 100 } ∷ [];
  current_user = none;
}

accepts_each-lasts_each_example :
    accepts_each all_alice (codes "c84d") [] (200 ∷ 3700 ∷ 8000 ∷ []) site_db
    ≡ lasts_each (some 3600) 100 (200 ∷ 3700 ∷ 8000 ∷ [])
unfolding is_key is_filled all is_space is_ascii find_key find same_text one_each any
accepts_each-lasts_each_example =
    accepts_each-lasts_each all_alice (codes "c84d") [] (200 ∷ 3700 ∷ 8000 ∷ []) site_db
      (record { key = codes "c84d"; user = 4; created = 100 }) refl refl refl refl refl

is_table-steps_example :
    is_table
      (steps
        (saved true alice (codes "ab") 5
          ∷ requested alice [] 50
          ∷ refreshed alice (codes "cd") 9000
          ∷ [])
        (record { tokens = []; current_user = none })).tokens
    ≡ true
unfolding is_table one_each distinct_keys are_fresh any step find same_text
is_table-steps_example =
    is_table-steps
      (saved true alice (codes "ab") 5
        ∷ requested alice [] 50
        ∷ refreshed alice (codes "cd") 9000
        ∷ [])
      (record { tokens = []; current_user = none }) refl refl

-- A cache as a function of the key and the moment.
abbrev Entries : Type 0
Entries = Text → ℕ → Option ℕ

abbrev entries : CacheOps Entries
entries = record {
  get = λ key t cache. cache key t;
  set = λ key value timeout now cache other t.
      if same_text key other
      then (if ltb t (now + timeout) then some value else none)
      else cache other t;
  delete = λ key cache other t. if same_text key other then none else cache other t;
}

same_text_self : (key : Text) → same_text key key ≡ true
same_text_self key = (same_text_iff key key).1 refl

entries-IsCache : IsCache entries
entries-IsCache = record {
  get-set = λ key value timeout now t cache from until. rw (same_text_self key) (ground arith);
  get-set_other = λ key other value timeout now t cache h. rw h refl;
  get-delete = λ key t cache. rw (same_text_self key) refl;
  get-delete_other = λ key other t cache h. rw h refl;
}

abbrev verify : Text → Text → Option User
verify username password = if same_text password (codes "secret") then some alice else none

abbrev site : LoginSite Entries
site = record { tokens = site_db.tokens; cache = λ key t. none; events = [] }

abbrev guess : ℕ → Try
guess t = record { moment = t; password = codes "guess"; new_key = codes "k" }

abbrev guesses : List Try
guesses = guess 10 ∷ guess 20 ∷ guess 30 ∷ guess 40 ∷ []

verified_count-window_example :
    verified_count entries verify (codes "alice") (codes "::1") (guess 5 ∷ guesses) site ≤ 4
unfolding same_text
verified_count-window_example =
    verified_count-window entries verify (codes "alice") (codes "::1") (guess 5 ∷ guesses) 0 site
      entries-IsCache (refl, (refl, (refl, (refl, (refl, tt))))) (omega arith)

abbrev right : Try
right = record { moment = 600; password = codes "secret"; new_key = codes "k" }

post_try-locked_out_example :
    post_try entries verify
      (codes "alice")
      (codes "::1")
      right
      (post_each entries verify (codes "alice") (codes "::1") guesses site)
    ≡ (locked_out, post_each entries verify (codes "alice") (codes "::1") guesses site)
unfolding same_text failures_of
post_try-locked_out_example =
    post_try-locked_out entries verify (codes "alice") (codes "::1") guesses right 5 site
      entries-IsCache (refl, (refl, (refl, (refl, tt)))) (omega arith) (omega arith) (λ t. refl)

abbrev good : Credentials
good = record { username = codes "alice"; password = codes "secret" }

accepts_each-post_example :
    (key : Text) × ((post entries verify (request_with good (codes "::1")) (codes "k") 9000 site).0
      ≡ token_given key)
    × (accepts_each all_alice key [] (12000 ∷ 15000 ∷ []) (record {
      tokens =
          (post entries verify (request_with good (codes "::1")) (codes "k") 9000 site).1.tokens;
      current_user = none;
    })
        ≡ lasts_each (some 3600) 9000 (12000 ∷ 15000 ∷ []))
unfolding same_text failures_of one_each any distinct_keys is_key is_filled refresh_token find all
    is_space is_ascii
accepts_each-post_example =
    accepts_each-post entries verify all_alice good alice (codes "::1") (codes "k") [] 9000
      (12000 ∷ 15000 ∷ []) site refl refl refl refl refl refl refl refl
