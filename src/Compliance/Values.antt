-- ===== src/Compliance/Values.antt =====
-- The formats of compliance/domain/value_objects.py. Texts are ASCII: a digit is one of 0 to 9, and
-- `strip` and `upper` treat the ASCII white space and letters.
use cadencia_platform.Base.{
  ℕ, ◌-◌, Bool, true, false, ◌&&◌, ◌||◌, List, [], ◌∷◌, ◌++◌, map, reverse, if◌then◌else◌, leb,
  ◌==◌, length, Text, Result, ok, err, validation_error, ℤ, pos, ltb_ℤ,
}

abbrev pub CharClass : Type 0
CharClass = ℕ → Bool

abbrev pub upper : CharClass
upper c = leb 65 c && leb c 90

abbrev pub digit : CharClass
digit c = leb 48 c && leb c 57

abbrev pub alphanumeric : CharClass
alphanumeric c = upper c || digit c

abbrev pub only : ℕ → CharClass
only d c = c == d

-- `fullmatch` of a sequence of character classes.
unfoldable pub matches : List CharClass → Text → Bool
matches [] [] = true
matches [] (c ∷ t) = false
matches (p ∷ ps) [] = false
matches (p ∷ ps) (c ∷ t) = p c && matches ps t

-- The pattern of PANNumber, `[A-Z]{5}[0-9]{4}[A-Z]`.
abbrev pub pan_pattern : List CharClass
pan_pattern = upper ∷ upper ∷ upper ∷ upper ∷ upper ∷ digit ∷ digit ∷ digit ∷ digit ∷ upper ∷ []

-- The pattern of GSTIN, `\d{2}[A-Z]{5}\d{4}[A-Z]\d[Z][0-9A-Z]`.
abbrev pub gstin_pattern : List CharClass
gstin_pattern = digit ∷ digit ∷ pan_pattern ++ digit ∷ only 90 ∷ alphanumeric ∷ []

unfoldable pub is_space : ℕ → Bool
is_space c = c == 32 || (leb 9 c && leb c 13) || (leb 28 c && leb c 31)

unfoldable pub strip_left : Text → Text
unfolding is_space
strip_left [] = []
strip_left (c ∷ t) = if is_space c then strip_left t else c ∷ t

unfoldable pub strip : Text → Text
unfolding strip_left
strip t = reverse (strip_left (reverse (strip_left t)))

abbrev to_upper : ℕ → ℕ
to_upper c = if leb 97 c && leb c 122 then c - 32 else c

-- `value.strip().upper()`.
unfoldable pub cleaned : Text → Text
unfolding strip
cleaned t = map to_upper (strip t)

abbrev accept : Bool → Text → Result Text
accept b t = if b then ok t else err validation_error

-- `PANNumber(value=...)`. After `strip` no line feed is left for the `$` of the pattern.
unfoldable pub pan_number : Text → Result Text
unfolding cleaned matches
pan_number t = accept (matches pan_pattern (cleaned t)) (cleaned t)

-- `GSTIN(value=...)`.
unfoldable pub gstin : Text → Result Text
unfolding cleaned matches
gstin t = accept (matches gstin_pattern (cleaned t)) (cleaned t)

-- `GSTIN.state_code`.
unfoldable pub state_code : Text → Text
state_code [] = []
state_code (c ∷ []) = c ∷ []
state_code (c ∷ d ∷ t) = c ∷ d ∷ []

unfoldable pub all_digits : Text → Bool
all_digits [] = true
all_digits (c ∷ t) = digit c && all_digits t

-- `HSNCode(value=...)`.
unfoldable pub hsn_code : Text → Result Text
unfolding strip all_digits
hsn_code t = let s = strip t in accept (all_digits s && leb 4 (length s) && leb (length s) 8) s

-- `PurposeCode(value=...)`.
unfoldable pub purpose_code : Text → Result Text
unfolding cleaned matches
purpose_code t =
    accept (matches (only 80 ∷ digit ∷ digit ∷ digit ∷ digit ∷ []) (cleaned t)) (cleaned t)

-- `INRAmount(value=...)`.
unfoldable pub inr_amount : ℤ → Result ℤ
inr_amount a = if ltb_ℤ a (pos 0) then err validation_error else ok a
