-- ===== src/Shared/Sanitizer/Driver.antt =====
-- `LLMAgentDriver.generate_offer` of negotiation/infrastructure/llm_agent_driver.py. The contents of the
-- prompts and what each call of the model answers, or raises, are arguments.
use cadencia_platform.Base.{
  ℕ, zero, suc, ◌+◌, ◌<◌, ◌≡◌, refl, true, false, Option, List, [], ◌∷◌, length, Result, ok, err,
  is_ok, llm_exhausted, arith, Text, ap, subst,
}
use cadencia_platform.Shared.Sanitizer.{
  Json, AgentOutput, sanitize_llm_input, validate_agent_output,
}

-- What a call came to: its outcome, how often the model was called, and the seconds slept.
pub record Outcome : Type 0 where
  pub result : Result AgentOutput
  pub calls : ℕ
  pub slept : ℕ

-- `[0.0] + RETRY_DELAYS`.
abbrev pub delays : List ℕ
delays = 0 ∷ 1 ∷ 2 ∷ 4 ∷ []

abbrev total : List ℕ → ℕ
total [] = 0
total (d ∷ ds) = total ds + d

module _ (loads : Text → Option Json) (answers : ℕ → Result Text) where
  -- One attempt: an exception of the client and an answer that is no valid output are failures alike.
  unfoldable pub attempt : ℕ → Result AgentOutput
  attempt i = elim (answers i) [ err x ↦ err x | ok raw ↦ validate_agent_output loads raw ]

  unfoldable pub attempts : (delays : List ℕ) → (i : ℕ) → Outcome
  attempts [] i = record { result = err llm_exhausted; calls = 0; slept = 0 }
  attempts (d ∷ ds) i =
      let rest = attempts ds (i + 1) in
      elim (attempt i) [
        | ok r ↦ record { result = ok r; calls = 1; slept = d }
        | err x ↦ record { result = rest.result; calls = rest.calls + 1; slept = rest.slept + d }
      ]

  unfoldable pub generate_offer : (system_prompt user_content : Text) → Outcome
  unfolding sanitize_llm_input attempts
  generate_offer system_prompt user_content = elim (sanitize_llm_input system_prompt) [
    | err x ↦ record { result = err x; calls = 0; slept = 0 }
    | ok prompt ↦ elim (sanitize_llm_input user_content) [
      | err x ↦ record { result = err x; calls = 0; slept = 0 }
      | ok content ↦ attempts delays 0
    ]
  ]

  -- The attempts from the `i`-th on, up to the `n`-th of them, have failed.
  abbrev pub AllFail : (i n : ℕ) → Type 0
  AllFail i zero = Unit
  AllFail i (suc n) = (is_ok (attempt i) ≡ false) × AllFail (i + 1) n

  attempts_first :
      (ds : List ℕ) (i n j : ℕ) (r : AgentOutput)
      → n < length ds
      → AllFail i n
      → i + n ≡ j
      → attempt j ≡ ok r
      → ((attempts ds i).result ≡ ok r) × ((attempts ds i).calls ≡ n + 1)
  unfolding attempts
  attempts_first [] i n j r h k at e = absurd (omega arith)
  attempts_first (d ∷ ds) i zero j r h k at e =
      let same : attempt i ≡ attempt j = ap attempt (omega arith) in ground (arith, same)
  attempts_first (d ∷ ds) i (suc n) j r h k at e =
      let later = attempts_first ds (i + 1) n j r (omega arith) k.1 (omega arith) e in
      ground (arith, later, k.0)

  attempts_exhausted :
      (ds : List ℕ) (i : ℕ)
      → AllFail i (length ds)
      → ((attempts ds i).result ≡ err llm_exhausted)
        × ((attempts ds i).calls ≡ length ds)
        × ((attempts ds i).slept ≡ total ds)
  unfolding attempts
  attempts_exhausted [] i h = (refl, refl, refl)
  attempts_exhausted (d ∷ ds) i h = ground (arith, attempts_exhausted ds (i + 1) h.1)

  -- With prompts that the sanitizer lets through, the model is called until it answers with a valid output,
  -- which is returned, and at most four times: after four failures, and seven seconds of sleep, the
  -- driver gives up.
  pub generate_offer_retries :
      (system_prompt user_content : Text) (n : ℕ)
      → is_ok (sanitize_llm_input system_prompt) ≡ true
      → is_ok (sanitize_llm_input user_content) ≡ true
      → AllFail 0 n
      → let o = generate_offer system_prompt user_content in
        ((r : AgentOutput) → n < 4 → attempt n ≡ ok r → (o.result ≡ ok r) × (o.calls ≡ n + 1))
        × (n ≡ 4 → (o.result ≡ err llm_exhausted) × (o.calls ≡ 4) × (o.slept ≡ 7))
  unfolding generate_offer
  generate_offer_retries system_prompt user_content n p c fail = (
    λ r h e.
        let first = attempts_first delays 0 n n r h fail (omega arith) e in ground (arith, first),
    λ h. let out = attempts_exhausted delays 0 (subst (AllFail 0) h fail) in ground (arith, out),
  )
