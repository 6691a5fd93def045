-- ===== src/Base/Texts.antt =====
-- Texts as lists of code points, compared as Python compares `str` values.
use Prim.Native.Char.{code}
use Prim.Native.String.{String}
use Prim.Native.Nat.{ℕ}
use mathlib.Core.Path.{◌≡◌, refl}
use mathlib.Core.Bool.{Bool, true, false, ◌&&◌}
use mathlib.Core.List.{List, [], ◌∷◌}
use native.Mathlib.Omega.{arith}
use cadencia_platform.Base.Tests.{ltb, ◌==◌, if◌then◌else◌}

abbrev pub Text : Type 0
Text = List ℕ

-- The code points of a text literal.
abbrev pub codes : String → Text
codes String.[] = []
codes (String.◌∷◌ c s) = code c ∷ codes s

unfoldable pub text_eq : Text → Text → Bool
text_eq [] [] = true
text_eq [] (d ∷ u) = false
text_eq (c ∷ t) [] = false
text_eq (c ∷ t) (d ∷ u) = c == d && text_eq t u

-- `t < u`, by the first code points that differ.
unfoldable pub text_lt : Text → Text → Bool
text_lt t [] = false
text_lt [] (d ∷ u) = true
text_lt (c ∷ t) (d ∷ u) = if c == d then text_lt t u else ltb c d

pub text_eq→eq : (t u : Text) → text_eq t u ≡ true → t ≡ u
unfolding text_eq
text_eq→eq [] [] h = refl
text_eq→eq [] (d ∷ u) h = cc
text_eq→eq (c ∷ t) [] h = cc
text_eq→eq (c ∷ t) (d ∷ u) h = ground (arith, text_eq→eq t u)

pub text_eq_self : (t : Text) → text_eq t t ≡ true
unfolding text_eq
text_eq_self [] = refl
text_eq_self (c ∷ t) = ground (arith, text_eq_self t)

-- Of two different texts one is the smaller, and never both.
pub text_lt_flip : (t u : Text) → text_lt t u ≡ false → text_lt u t ≡ false → t ≡ u
unfolding text_lt
text_lt_flip [] [] h k = refl
text_lt_flip [] (d ∷ u) h k = cc
text_lt_flip (c ∷ t) [] h k = cc
text_lt_flip (c ∷ t) (d ∷ u) h k = ground (arith, text_lt_flip t u)

pub text_lt_asym : (t u : Text) → text_lt t u ≡ true → text_lt u t ≡ false
unfolding text_lt
text_lt_asym [] [] h = cc
text_lt_asym [] (d ∷ u) h = refl
text_lt_asym (c ∷ t) [] h = cc
text_lt_asym (c ∷ t) (d ∷ u) h = ground (arith, text_lt_asym t u)
