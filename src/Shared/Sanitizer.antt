-- ===== src/Shared/Sanitizer.antt =====
-- shared/api/llm_sanitizer.py, on ASCII texts. What json.loads makes of an answer is an argument.
pub mod Clean
pub mod Driver
use cadencia_platform.Base.{
  ℕ, zero, suc, ◌+◌, Bool, true, false, not, ◌&&◌, ◌||◌, Option, none, some, List, [], ◌∷◌, map,
  if◌then◌else◌, leb, ◌==◌, ℤ, pos, leb_ℤ, Result, ok, err, validation_error, Text, codes, text_eq,
}
use cadencia_platform.Compliance.Values.{is_space, strip_left, strip}

abbrev pub max_input_length : ℕ
max_input_length = 8000

-- A pattern is a sequence of characters in any case and of `\s+`.
pub data Piece : Type 0 where
  char : ℕ → Piece
  spaces : Piece

abbrev to_lower : ℕ → ℕ
to_lower c = if leb 65 c && leb c 90 then c + 32 else c

unfoldable pub literal : Text → List Piece
literal [] = []
literal (c ∷ t) = char c ∷ literal t

unfoldable pub spaced : Text → List Piece → List Piece
spaced [] ps = spaces ∷ ps
spaced (c ∷ t) ps = char c ∷ spaced t ps

-- A match at the start. No pattern has white space after `\s+`, so that it takes all there is.
unfoldable pub match_at : List Piece → Text → Bool
unfolding is_space strip_left
match_at [] t = true
match_at (p ∷ ps) [] = false
match_at (char c ∷ ps) (d ∷ t) = to_lower c == to_lower d && match_at ps t
match_at (spaces ∷ ps) (d ∷ t) = is_space d && match_at ps (strip_left t)

unfoldable pub search_in : List Piece → Text → Bool
unfolding match_at
search_in p [] = match_at p []
search_in p (c ∷ t) = match_at p (c ∷ t) || search_in p t

-- `<\|.*?\|>`: a `|>` somewhere after a `<|`.
unfoldable pub has_marker : Text → Bool
unfolding search_in literal
has_marker [] = false
has_marker (c ∷ []) = false
has_marker (c ∷ d ∷ t) =
    (c == b'<' && d == b'|' && search_in (literal (codes "|>")) t) || has_marker (d ∷ t)

unfoldable pub any_pattern : List (List Piece) → Text → Bool
unfolding search_in
any_pattern [] t = false
any_pattern (p ∷ ps) t = search_in p t || any_pattern ps t

-- `_INJECTION_PATTERNS`, but for the marker.
unfoldable pub injection_patterns : List (List Piece)
unfolding literal spaced
injection_patterns =
    spaced (codes "ignore") (spaced (codes "previous") (literal (codes "instructions")))
    ∷ spaced (codes "system") (literal (codes "prompt"))
    ∷ literal (codes "jailbreak")
    ∷ literal (b'\\' ∷ b'n' ∷ b'\\' ∷ b'n' ∷ codes "Human:")
    ∷ literal (codes "[INST]")
    ∷ spaced (codes "###") (literal (codes "Instruction"))
    ∷ []

unfoldable pub is_injection : Text → Bool
unfolding any_pattern injection_patterns has_marker
is_injection t = any_pattern injection_patterns t || has_marker t

-- `[\x00-\x08\x0b\x0c\x0e-\x1f\x7f]`.
abbrev pub is_control : ℕ → Bool
is_control c = leb c 8 || c == 11 || c == 12 || (leb 14 c && leb c 31) || c == 127

unfoldable pub strip_control : Text → Text
strip_control [] = []
strip_control (c ∷ t) = let rest = strip_control t in if is_control c then rest else c ∷ rest

-- `text[:n]`.
unfoldable pub take : ℕ → Text → Text
take zero t = []
take (suc n) [] = []
take (suc n) (c ∷ t) = c ∷ take n t

unfoldable pub sanitize_llm_input : Text → Result Text
unfolding strip_control
sanitize_llm_input t =
    if is_injection t then err validation_error else ok (strip_control (take max_input_length t))

-- The field `price` of an answer, after `float`. A NaN is not below or equal to 0.
pub data Price : Type 0 where
  missing not_numeric nan : Price
  number : ℤ → Price

-- A JSON object by the fields that are read: a text that is no string is none.
pub record AgentFields : Type 0 where
  pub action : Option Text
  pub price : Price
  pub reasoning : Option Text

pub data Json : Type 0 where
  fields : AgentFields → Json
  other : Json

pub record AgentOutput : Type 0 where
  pub action : Text
  pub price : Price
  pub reasoning : Text

unfoldable pub is_valid_action : Text → Bool
unfolding text_eq
is_valid_action t =
    text_eq t (codes "OFFER")
    || text_eq t (codes "ACCEPT")
    || text_eq t (codes "REJECT")
    || text_eq t (codes "COUNTER")

abbrev pub is_payable : Price → Bool
is_payable missing = false
is_payable not_numeric = false
is_payable nan = true
is_payable (number p) = not (leb_ℤ p (pos 0))

abbrev is_empty : Text → Bool
is_empty [] = true
is_empty (c ∷ t) = false

unfoldable pub validate_fields : AgentFields → Result AgentOutput
unfolding is_valid_action strip
validate_fields f = elim f.action [
  | none ↦ err validation_error
  | some a ↦
      if not (is_valid_action a) || not (is_payable f.price)
      then err validation_error
      else elim f.reasoning [
        | none ↦ err validation_error
        | some t ↦
            if is_empty (strip t)
            then err validation_error
            else ok (record { action = a; price = f.price; reasoning = strip t })
      ]
]

-- `validate_agent_output`; `none` is a JSONDecodeError.
unfoldable pub validate_agent_output : (loads : Text → Option Json) → Text → Result AgentOutput
unfolding validate_fields
validate_agent_output loads raw = elim (loads raw) [
  | none ↦ err validation_error
  | some other ↦ err validation_error
  | some (fields f) ↦ validate_fields f
]
