-- ===== src/Settlement/Values.antt =====
-- Value objects of settlement/domain/value_objects.py. A text is the list of its code points.
pub mod Formats
use cadencia_platform.Base.{
  ℕ, zero, suc, ◌+◌, ◌≤◌, ◌≡◌, refl, ◌⊎◌, inl, inr, Bool, true, false, ◌&&◌, ◌||◌, List, [], ◌∷◌,
  ◌++◌, Text, leb, ◌==◌, if◌then◌else◌, length, All, ℤ, pos, negsuc, leb_ℤ, ltb_ℤ, Result, ok, err,
  validation_error, Bool-cases, pos_part,
}

-- One character of the class `[A-Z2-7]`.
unfoldable pub is_base32 : ℕ → Bool
is_base32 c = (leb b'A' c && leb c b'Z') || (leb b'2' c && leb c b'7')

-- The anchor `$` of a Python pattern: the end of the text, or a line feed that ends it.
at_end : Text → Bool
at_end [] = true
at_end (c ∷ []) = c == 10
at_end (c ∷ d ∷ t) = false

-- `re.match(r"^[A-Z2-7]{n}$", t)`.
unfoldable pub matches_base32 : ℕ → Text → Bool
unfolding is_base32 at_end
matches_base32 zero t = at_end t
matches_base32 (suc n) [] = false
matches_base32 (suc n) (c ∷ t) = is_base32 c && matches_base32 n t

-- `TxId(value=t)`.
unfoldable pub tx_id : Text → Result Text
tx_id t = if matches_base32 52 t then ok t else err validation_error

-- `AlgoAppAddress(value=t)`.
unfoldable pub algo_app_address : Text → Result Text
algo_app_address t = if matches_base32 58 t then ok t else err validation_error

-- `AlgoAppId(value=n)`.
unfoldable pub algo_app_id : ℤ → Result ℕ
algo_app_id n = if leb_ℤ n (pos 0) then err validation_error else ok (pos_part n)

-- `MicroAlgo(value=n)`.
unfoldable pub micro_algo : ℤ → Result ℕ
micro_algo n = if ltb_ℤ n (pos 0) then err validation_error else ok (pos_part n)

-- `EscrowAmount(value=m)`.
unfoldable pub escrow_amount : ℕ → Result ℕ
escrow_amount m = if m == 0 then err validation_error else ok m

-- `int(t, 16)` over ASCII texts: where the scan stands between two characters.
pub data Scan : Type 0 where
  start digits underscore trailing refused : Scan

is_space : ℕ → Bool
is_space c = c == 32 || (leb 9 c && leb c 13)

is_hex : ℕ → Bool
is_hex c = (leb b'0' c && leb c b'9') || (leb b'a' c && leb c b'f') || (leb b'A' c && leb c b'F')

-- Digits with single underscores between them, then white space.
scan_char : Scan → ℕ → Scan
unfolding is_space is_hex
scan_char Scan.start c = if is_hex c then Scan.digits else Scan.refused
scan_char Scan.digits c =
    if is_hex c
    then Scan.digits
    else if c == b'_'
    then Scan.underscore
    else if is_space c
    then Scan.trailing
    else Scan.refused
scan_char Scan.underscore c = if is_hex c then Scan.digits else Scan.refused
scan_char Scan.trailing c = if is_space c then Scan.trailing else Scan.refused
scan_char Scan.refused c = Scan.refused

scan_text : Scan → Text → Scan
unfolding scan_char
scan_text s [] = s
scan_text s (c ∷ t) = scan_text (scan_char s c) t

is_number : Scan → Bool
is_number Scan.digits = true
is_number Scan.trailing = true
is_number _ = false

skip_spaces : Text → Text
unfolding is_space
skip_spaces [] = []
skip_spaces (c ∷ t) = if is_space c then skip_spaces t else c ∷ t

skip_sign : Text → Text
skip_sign [] = []
skip_sign (c ∷ t) = if c == b'+' || c == b'-' then t else c ∷ t

skip_underscore : Text → Text
skip_underscore [] = []
skip_underscore (c ∷ t) = if c == b'_' then t else c ∷ t

-- The prefix `0x`, which an underscore may follow.
skip_prefix : Text → Text
unfolding skip_underscore
skip_prefix [] = []
skip_prefix (c ∷ []) = c ∷ []
skip_prefix (c ∷ d ∷ t) =
    if c == b'0' && (d == b'x' || d == b'X') then skip_underscore t else c ∷ d ∷ t

parses_hex : Text → Bool
unfolding skip_spaces skip_sign skip_prefix scan_text is_number
parses_hex t = is_number (scan_text Scan.start (skip_prefix (skip_sign (skip_spaces t))))

-- `MerkleRoot(value=t)`.
unfoldable pub merkle_root : Text → Result Text
unfolding parses_hex
merkle_root t =
    if length t == 64
    then if parses_hex t then ok t else err validation_error
    else err validation_error
