-- ===== src/Identity/Values.antt =====
-- The formats of identity/domain/value_objects.py, on ASCII texts. `match` with a final `$` lets a line feed
-- follow.
use cadencia_platform.Base.{
  ℕ, zero, suc, Bool, true, false, ◌&&◌, ◌||◌, List, [], ◌∷◌, ◌++◌, if◌then◌else◌, leb, ◌==◌, Text,
  Result, ok, err, validation_error,
}
use cadencia_platform.Compliance.Values.{CharClass, upper, digit, alphanumeric, only, pan_pattern}

-- The pattern, at the end of the text or before a final line feed.
unfoldable pub matches_line : List CharClass → Text → Bool
matches_line [] [] = true
matches_line [] (c ∷ []) = c == 10
matches_line [] (c ∷ d ∷ t) = false
matches_line (p ∷ ps) [] = false
matches_line (p ∷ ps) (c ∷ t) = p c && matches_line ps t

abbrev accept : Bool → Text → Result Text
accept b t = if b then ok t else err validation_error

-- `PAN(value=...)`.
unfoldable pub pan : Text → Result Text
unfolding matches_line
pan t = accept (matches_line pan_pattern t) t

-- The pattern of GSTIN, `\d{2}[A-Z]{5}\d{4}[A-Z]{1}[A-Z\d]{1}Z[A-Z\d]{1}`.
abbrev pub identity_gstin_pattern : List CharClass
identity_gstin_pattern = digit ∷ digit ∷ pan_pattern ++ alphanumeric ∷ only 90 ∷ alphanumeric ∷ []

-- `GSTIN(value=...)`.
unfoldable pub gstin : Text → Result Text
unfolding matches_line
gstin t = accept (matches_line identity_gstin_pattern t) t

abbrev base32 : CharClass
base32 c = upper c || (leb 50 c && leb c 55)

abbrev repeated : ℕ → CharClass → List CharClass
repeated zero p = []
repeated (suc n) p = p ∷ repeated n p

-- `AlgorandAddress(value=...)`.
unfoldable pub algorand_address : Text → Result Text
unfolding matches_line
algorand_address t = accept (matches_line (repeated 58 base32) t) t
