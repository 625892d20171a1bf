-- ===== src/Prelude/Text.antt =====
-- Texts that the program walks or joins, as lists of code points.
use Prim.Native.Char.{code}
use Prim.Native.Nat.{ℕ}
use Prim.Native.String.{String}
use mathlib.Core.Path.{◌≡◌, refl}
use mathlib.Core.Logic.{◌↔◌}
use mathlib.Core.Bool.{Bool, true, false, ◌&&◌, ◌||◌}
use mathlib.Core.List.{List, [], ◌∷◌, ◌++◌, append-nil}
use native.Mathlib.Omega.{arith}
use waldur_core.Prelude.Tests.{◌==◌}

abbrev pub Text : Type 0
Text = List ℕ

abbrev pub codes : String → Text
codes String.[] = []
codes (String.◌∷◌ c s) = code c ∷ codes s

-- `a == b`
unfoldable pub same_text : Text → Text → Bool
same_text [] [] = true
same_text (a ∷ as') (b ∷ bs) = a == b && same_text as' bs
same_text _ _ = false

pub same_text_iff : (a b : Text) → (same_text a b ≡ true) ↔ (a ≡ b)
unfolding same_text
same_text_iff [] [] = (λ h. refl, λ h. refl)
same_text_iff [] (b ∷ bs) = (λ h. cc, λ h. cc)
same_text_iff (a ∷ as') [] = (λ h. cc, λ h. cc)
same_text_iff (a ∷ as') (b ∷ bs) = ground (arith, same_text_iff as' bs)

-- `text.startswith(prefix)`
unfoldable pub starts_with : Text → Text → Bool
starts_with [] text = true
starts_with (p ∷ ps) [] = false
starts_with (p ∷ ps) (c ∷ cs) = p == c && starts_with ps cs

-- `part in text`
unfoldable pub contains : Text → Text → Bool
contains part [] = starts_with part []
contains part (c ∷ cs) = starts_with part (c ∷ cs) || contains part cs

pub starts_with-append : (p q : Text) → starts_with p (p ++ q) ≡ true
unfolding starts_with
starts_with-append [] q = refl
starts_with-append (c ∷ p) q = ground (arith, starts_with-append p q)

contains_of_starts : (p t : Text) → starts_with p t ≡ true → contains p t ≡ true
unfolding contains
contains_of_starts p [] h = h
contains_of_starts p (c ∷ cs) h = ground arith

-- A text that stands between two others is found there.
pub contains-append : (part before after : Text) → contains part (before ++ (part ++ after)) ≡ true
unfolding contains
contains-append part [] after =
    contains_of_starts part (part ++ after) (starts_with-append part after)
contains-append part (c ∷ before) after = ground (arith, contains-append part before after)

pub contains_self : (part : Text) → contains part part ≡ true
contains_self part = rw append-nil at (contains-append part [] [])
