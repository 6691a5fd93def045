-- ===== src/Shared/GateTests.antt =====
-- Concrete payment proofs and answers of a model, on which the theorems on shared/api/x402_handler.py and
-- negotiation/infrastructure/llm_agent_driver.py apply.
use cadencia_platform.Base.{
  ℕ, ◌≡◌, ◌<◌, refl, false, none, some, Option, [], ◌∷◌, ◌++◌, pos, ok, err, validation_error,
  llm_exhausted, Result, Text, codes, text_eq, arith, ◌==◌, if◌then◌else◌, ◌+ℤ◌,
}
use cadencia_platform.Compliance.Values.{strip}
use cadencia_platform.Shared.Payments.{
  Gate, PaymentProof, bar, is_empty, int_of, signed_digits, split, starts_with, reject_sim_tokens,
  verify_stamp, verify_fields, verify_parts, verify_payment_header, digits_from,
}
use cadencia_platform.Shared.Payments.Proofs.{
  Meets, join, verify_payment_header_sound, verify_payment_header-join,
}
use cadencia_platform.Shared.Sanitizer.{
  Json, fields, number, AgentOutput, sanitize_llm_input, is_injection,
}
use cadencia_platform.Shared.Sanitizer.Driver.{attempt, generate_offer, generate_offer_retries}

-- A stand-in for the HMAC: it gives back the secret.
abbrev hmac : (secret text : Text) → Text
hmac secret text = secret

abbrev gate : Gate
gate = record {
  sim_allowed = false;
  secret = codes "k";
  expected_session_id = codes "s";
  expected_amount_microalgo = pos 5;
}

abbrev proof : PaymentProof
proof = record { tx_id = codes "T"; session_id = codes "s"; amount = pos 6; timestamp = pos 90 }

verify_payment_header_sound_example :
    Meets gate 100 proof
    × (is_empty gate.secret ≡ false
        → (body : Text) × (codes "T|s|6|90|k" ≡ body ++ bar ++ hmac gate.secret body))
unfolding verify_payment_header verify_parts verify_fields verify_stamp reject_sim_tokens
    starts_with int_of signed_digits digits_from strip split text_eq ◌+ℤ◌
verify_payment_header_sound_example =
    verify_payment_header_sound hmac gate 100 (codes "T|s|6|90|k") {p = proof} refl

verify_payment_header-join_example :
    verify_payment_header hmac gate 100
      (some (join (codes "T", codes "s" ∷ codes "6" ∷ codes "90" ∷ codes "k" ∷ [])))
    ≡ ok proof
unfolding reject_sim_tokens starts_with int_of signed_digits digits_from strip ◌+ℤ◌
verify_payment_header-join_example =
    verify_payment_header-join hmac gate 100 (codes "T") (codes "s") (codes "6") (codes "90")
      (codes "k") (pos 6) (pos 90)
      ((refl, tt), ((refl, tt), ((refl, tt), ((refl, (refl, tt)), ((refl, tt), tt))))) refl refl
      refl (refl, omega arith, omega arith, refl)

abbrev loads : Text → Option Json
loads [] = none
loads (c ∷ t) = some (
    fields (record {
      action = some (codes "OFFER");
      price = number (pos 5);
      reasoning = some (codes "ok");
    }))

-- The first call fails and each later one is answered.
abbrev answers : ℕ → Result Text
answers i = if i == 0 then err validation_error else ok (codes "x")

generate_offer_retries_example :
    let one : ℕ = 1 in
    let o = generate_offer loads answers (codes "You buy.") (codes "Next") in
    ((r : AgentOutput) → 1 < 4 → attempt loads answers 1 ≡ ok r → (o.result ≡ ok r) × (o.calls ≡ 2))
    × (one ≡ 4 → (o.result ≡ err llm_exhausted) × (o.calls ≡ 4) × (o.slept ≡ 7))
unfolding sanitize_llm_input is_injection attempt
generate_offer_retries_example =
    generate_offer_retries loads answers (codes "You buy.") (codes "Next") 1 refl refl (refl, tt)
