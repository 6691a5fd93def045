-- ===== src/Shared/Payments.antt =====
-- shared/api/x402_handler.py, on ASCII texts. The environment, the clock and HMAC-SHA256 are arguments; the
-- bodies and headers of the 402 response are left out.
pub mod Proofs
use cadencia_platform.Base.{
  ℕ, zero, suc, ◌+◌, ◌-◌, ◌*◌, Bool, true, false, not, ◌&&◌, ◌||◌, Option, none, some, List, [],
  ◌∷◌, ◌++◌, map, if◌then◌else◌, leb, ◌==◌, ℤ, pos, ◌-ℤ◌, ◌+ℤ◌, ltb_ℤ, Result, ok, err,
  internal_error, policy_violation, validation_error, Text, codes, text_eq,
}
use cadencia_platform.Compliance.Values.{digit, strip}

-- `text.startswith(prefix)`.
unfoldable pub starts_with : (prefix text : Text) → Bool
starts_with [] t = true
starts_with (c ∷ cs) [] = false
starts_with (c ∷ cs) (d ∷ t) = c == d && starts_with cs t

abbrev pub to_lower : ℕ → ℕ
to_lower c = if leb 65 c && leb c 90 then c + 32 else c

-- `_is_simulation_mode_allowed`, of X402_SIMULATION_MODE.
unfoldable pub is_simulation_mode_allowed : Option Text → Bool
unfolding text_eq
is_simulation_mode_allowed none = false
is_simulation_mode_allowed (some t) = text_eq (map to_lower t) (codes "true")

unfoldable pub reject_sim_tokens : (allowed : Bool) → Text → Result (Unit {0})
unfolding starts_with
reject_sim_tokens allowed t =
    if starts_with (codes "SIM-") t && not allowed then err policy_violation else ok tt

-- A RuntimeError, which stops the startup.
unfoldable pub enforce_no_simulation_mode_at_startup :
    (mode : Option Text) → (app_env : Text) → Result (Unit {0})
unfolding is_simulation_mode_allowed text_eq
enforce_no_simulation_mode_at_startup mode app_env =
    if is_simulation_mode_allowed mode && text_eq app_env (codes "production")
    then err internal_error
    else ok tt

-- `int(text)`: digits with single underscores between them, after a sign and white space.
unfoldable pub digits_from : (after_digit : Bool) → (value : ℕ) → Text → Option ℕ
digits_from after n [] = if after then some n else none
digits_from after n (c ∷ t) =
    let next = digits_from true (n * 10 + (c - 48)) t in
    let skipped = digits_from false n t in
    if digit c then next else if after && c == b'_' then skipped else none

abbrev negated : Option ℕ → Option ℤ
negated none = none
negated (some n) = some (pos 0 -ℤ pos n)

abbrev positive : Option ℕ → Option ℤ
positive none = none
positive (some n) = some (pos n)

unfoldable pub signed_digits : Text → Option ℤ
unfolding digits_from
signed_digits [] = none
signed_digits (c ∷ t) =
    if c == b'-'
    then negated (digits_from false 0 t)
    else if c == b'+'
    then positive (digits_from false 0 t)
    else positive (digits_from false 0 (c ∷ t))

-- `int` of a text, of any length: the 4300 digits at which Python stops are left out.
unfoldable pub int_of : Text → Option ℤ
unfolding signed_digits strip
int_of t = signed_digits (strip t)

-- `text.split("|")`, as its first field and the others.
unfoldable pub split : Text → Text × List Text
split [] = ([], [])
split (c ∷ t) = let (f, fs) = split t in if c == b'|' then ([], f ∷ fs) else (c ∷ f, fs)

pub record PaymentProof : Type 0 where
  pub tx_id : Text
  pub session_id : Text
  pub amount : ℤ
  pub timestamp : ℤ

abbrev pub bar : Text
bar = b'|' ∷ []

-- What the signature is over.
abbrev pub signed_text : (tx_id session_id amount timestamp : Text) → Text
signed_text tx_id session_id amount timestamp =
    tx_id ++ bar ++ session_id ++ bar ++ amount ++ bar ++ timestamp

-- The environment and the expectations of `verify_payment_header`.
pub record Gate : Type 0 where
  pub sim_allowed : Bool
  pub secret : Text
  pub expected_session_id : Text
  pub expected_amount_microalgo : ℤ

abbrev pub is_empty : Text → Bool
is_empty [] = true
is_empty (c ∷ t) = false

module _ (hmac : (secret text : Text) → Text) where
  -- The last check: the age of the proof and its signature.
  unfoldable pub verify_stamp :
      Gate
      → (now : ℕ) → (tx_id session_id amount_text stamp_text signature : Text)
      → (amount timestamp : ℤ) → Result PaymentProof
  verify_stamp g now tx_id session_id amount_text stamp_text signature amount timestamp =
      if ltb_ℤ (timestamp +ℤ pos 300) (pos now)
      then err validation_error
      else if is_empty g.secret
          || text_eq signature (hmac g.secret (signed_text tx_id session_id amount_text stamp_text))
      then ok (record {
        tx_id = tx_id;
        session_id = session_id;
        amount = amount;
        timestamp = timestamp;
      })
      else err validation_error

  unfoldable pub verify_fields :
      Gate
      → (now : ℕ) → (tx_id session_id amount_text stamp_text signature : Text) → Result PaymentProof
  unfolding verify_stamp
  verify_fields g now tx_id session_id amount_text stamp_text signature =
      elim (reject_sim_tokens g.sim_allowed tx_id) [
        | err x ↦ err x
        | ok u ↦
            if not (text_eq session_id g.expected_session_id)
            then err validation_error
            else elim (int_of amount_text) [
              | none ↦ err validation_error
              | some amount ↦
                  if ltb_ℤ amount g.expected_amount_microalgo
                  then err policy_violation
                  else elim (int_of stamp_text) [
                    | none ↦ err validation_error
                    | some timestamp ↦
                        verify_stamp g now tx_id session_id amount_text stamp_text signature amount
                          timestamp
                  ]
            ]
      ]

  unfoldable pub verify_parts : Gate → (now : ℕ) → Text × List Text → Result PaymentProof
  unfolding verify_fields
  verify_parts g now (a, b ∷ c ∷ d ∷ e ∷ []) = verify_fields g now a b c d e
  verify_parts g now _ = err validation_error

  unfoldable pub verify_payment_header : Gate → (now : ℕ) → Option Text → Result PaymentProof
  unfolding split verify_parts
  verify_payment_header g now none = err validation_error
  verify_payment_header g now (some header) =
      if is_empty header then err validation_error else verify_parts g now (split header)
