-- ===== src/Negotiation/Engine.antt =====
-- One turn of `NeutralEngine.process_turn` in negotiation/infrastructure/neutral_engine.py. What the
-- other layers supply is an argument: the reservation price of the valuation, the price that the
-- strategy suggests, and the answer of the language model. Prices are in paise, so `Decimal("1")` is
-- 100. Belief caches, metrics and server-sent events are left out.
pub mod Safety
use cadencia_platform.Base.{
  ℕ, ◌+◌, ◌*◌, Bool, true, false, not, ◌&&◌, ◌||◌, Option, none, some, List, [], ◌∷◌, ◌++◌, leb,
  if◌then◌else◌, ℤ, pos, pos_part, ◌-ℤ◌, leb_ℤ, ltb_ℤ, Result, ok, err, DomainError, llm_exhausted,
  Action, ◌>>=◌, ◌>>◌, pure, gets, lift, raise, or_raise, Text, codes,
}
use cadencia_platform.Negotiation.Offers.{ProposerRole, is_buyer, Offer, create_agent_offer}
use cadencia_platform.Negotiation.History.{get_last_offer, prices_of, next_proposer}
use cadencia_platform.Negotiation.Concessions.{track_concession}
use cadencia_platform.Negotiation.Policies.{
  check_budget_guard, check_stall, check_convergence, check_turn_order, distance,
}
use cadencia_platform.Negotiation.Guardrails.{
  EnvelopeAction, ActionEnvelope, action_envelope, validate_envelope,
}
use cadencia_platform.Negotiation.Session.{
  Session, record_schema_failure, record_no_concession, reset_stall_counter, is_expired,
}

-- The action token of the model, in upper case; `other` is any token but the four.
pub data AgentAction : Type 0 where
  offer counter accept reject other : AgentAction

-- The model's answer, with `price` absent when the key is.
pub record Advice : Type 0 where
  pub action : AgentAction
  pub price : Option ℤ
  pub confidence : ℤ
  pub reasoning : Text

-- What the engine reads of an `AgentProfile`; the margin floor is in hundredths of a percent.
pub record Profile : Type 0 where
  pub budget_ceiling : ℤ
  pub margin_floor : ℤ
  pub stall_threshold : ℕ

-- What the turn is given from outside: the clock, the fresh identifier of the offer, the other layers
-- and the model, which may be exhausted.
pub record Turn : Type 0 where
  pub now : ℕ
  pub offer_id : ℕ
  pub reservation_price : ℤ
  pub suggested_price : ℤ
  pub advice : Option Advice

-- `GuardrailEngine.min_confidence`, 0.10.
abbrev pub min_confidence : ℤ
min_confidence = pos 100

abbrev is_proposal : AgentAction → Bool
is_proposal AgentAction.offer = true
is_proposal AgentAction.counter = true
is_proposal _ = false

abbrev envelope_action : AgentAction → EnvelopeAction
envelope_action AgentAction.offer = EnvelopeAction.offer
envelope_action a = EnvelopeAction.counter

-- `_create_timeout_offer` and `_create_policy_breach_offer`, by their role and their reasoning.
unfoldable pub placeholder_offer : Turn → Session → ProposerRole → Text → Result Offer
placeholder_offer turn s role reasoning =
    create_agent_offer turn.offer_id s.id (s.round_count + 1) role (pos 100) (codes "INR")
      (codes "{}") (pos 0) reasoning

abbrev pub timeout_text : Text
timeout_text = codes "TIMEOUT: Session TTL expired."

abbrev pub breach_text : Text
breach_text = codes "POLICY_BREACH: Schema validation failed 3 times."

price_of : Option Offer → Option ℤ
price_of none = none
price_of (some o) = some o.price.amount

-- The ceiling for a buyer and the margin floor for a seller, as `validate_envelope` is given them. No
-- cost basis is given.
abbrev budget_for : ProposerRole → Profile → Option ℤ
budget_for ProposerRole.buyer p = some p.budget_ceiling
budget_for ProposerRole.seller p = none

abbrev margin_for : ProposerRole → Profile → Option ℤ
margin_for ProposerRole.buyer p = none
margin_for ProposerRole.seller p = some p.margin_floor

-- The budget guard of a buyer: `min(price, ceiling)` where `check_budget_guard` raises.
unfoldable pub clamp_budget : ProposerRole → Profile → ℤ → ℤ
clamp_budget ProposerRole.seller p price = price
clamp_budget ProposerRole.buyer p price = elim (check_budget_guard price p.budget_ceiling) [
  | ok u ↦ price
  | err x ↦ if ltb_ℤ p.budget_ceiling price then p.budget_ceiling else price
]

-- What the fourth layer makes of the advice: the third schema failure ends the turn at once.
pub data Decision : Type 0 where
  breached : Decision
  decided : AgentAction → (price : ℤ) (reasoning : Text) (is_terminal : Bool) → Decision

abbrev or_else : Option ℤ → ℤ → ℤ
or_else none d = d
or_else (some p) d = p

-- The branch of OFFER and COUNTER: the envelope is validated, and a violation replaces the model's
-- price by the suggested one and counts as a schema failure.
unfoldable pub decide_proposal :
    Turn → Profile → ProposerRole → Advice → ℤ → Action Session Decision
unfolding clamp_budget record_schema_failure validate_envelope action_envelope
decide_proposal turn profile role advice llm_price = do
  s ← gets (λ s. s)
  envelope ← lift (
      action_envelope (record {
        agent_role = role;
        round = pos (s.round_count + 1);
        action = envelope_action advice.action;
        offer_value = llm_price;
        confidence = advice.confidence;
      }))
  elim (validate_envelope min_confidence envelope turn.reservation_price (budget_for role profile)
      none (margin_for role profile)) [
        | [] ↦
            pure
              (decided advice.action (clamp_budget role profile llm_price) advice.reasoning false)
        | v ∷ vs ↦ do
          failed ← record_schema_failure turn.now
          pure (
              if failed
              then breached
              else decided advice.action (clamp_budget role profile turn.suggested_price)
                  (codes "Guardrail override: " ++ advice.reasoning) false)
      ]

abbrev opponent : ProposerRole → ProposerRole
opponent ProposerRole.buyer = ProposerRole.seller
opponent ProposerRole.seller = ProposerRole.buyer

decide_by : AgentAction → Turn → Profile → ProposerRole → Advice → ℤ → Action Session Decision
unfolding decide_proposal price_of get_last_offer
decide_by AgentAction.offer turn profile role advice price =
    decide_proposal turn profile role advice price
decide_by AgentAction.counter turn profile role advice price =
    decide_proposal turn profile role advice price
decide_by AgentAction.accept turn profile role advice price = do
  offers ← gets (λ s. s.offers)
  pure (
      decided AgentAction.accept (or_else (price_of (get_last_offer (opponent role) offers)) price)
        advice.reasoning true)
decide_by AgentAction.reject turn profile role advice price = pure (
    decided AgentAction.reject (if ltb_ℤ (pos 0) price then price else pos 100) advice.reasoning
      true)
decide_by AgentAction.other turn profile role advice price =
    pure (decided AgentAction.counter price advice.reasoning false)

unfoldable pub decide : Turn → Profile → ProposerRole → Advice → Action Session Decision
unfolding decide_by
decide turn profile role advice =
    decide_by advice.action turn profile role advice (or_else advice.price turn.suggested_price)

-- `f"{action}: {reasoning}" if action == "REJECT" else reasoning`.
abbrev pub labelled : AgentAction → Text → Text
labelled AgentAction.reject reasoning = codes "REJECT: " ++ reasoning
labelled action reasoning = reasoning

-- The prices that `check_convergence` compares, with the new offer's for its own side.
abbrev buyer_price : ProposerRole → ℤ → Option Offer → Option ℤ
buyer_price ProposerRole.buyer price last = some price
buyer_price ProposerRole.seller price last = price_of last

abbrev seller_price : ProposerRole → ℤ → Option Offer → Option ℤ
seller_price ProposerRole.seller price last = some price
seller_price ProposerRole.buyer price last = price_of last

unfoldable pub converges : ProposerRole → ℤ → List Offer → Bool
unfolding price_of get_last_offer
converges role price offers =
    check_convergence (buyer_price role price (get_last_offer ProposerRole.buyer offers))
      (seller_price role price (get_last_offer ProposerRole.seller offers))

-- From the new offer on: concessions, convergence and the stall threshold, for a turn that is not yet
-- terminal. Then its action is OFFER or COUNTER.
unfoldable pub conclude :
    Turn → Profile → ProposerRole → (confidence : ℤ) → Decision → Action Session (Offer × Bool)
conclude turn profile role c breached = do
  s ← gets (λ s. s)
  o ← lift (placeholder_offer turn s role breach_text)
  pure (o, true)
conclude turn profile role c (decided action price reasoning terminal) = do
  s ← gets (λ s. s)
  o ← lift (
      create_agent_offer turn.offer_id s.id (s.round_count + 1) role price (codes "INR")
        (codes "{}") c (labelled action reasoning))
  if terminal then pure tt else track_concession role price turn.now >> pure tt
  pure (
    o,
    terminal
        || converges role price s.offers
        || check_stall (s.round_count + 1) profile.stall_threshold,
  )

unfoldable pub expire_turn : Turn → Action Session (Offer × Bool)
expire_turn turn = do
  s ← gets (λ s. s)
  o ← lift (placeholder_offer turn s (next_proposer s.offers) timeout_text)
  pure (o, true)

unfoldable pub advise : Turn → Profile → ProposerRole → Advice → Action Session (Offer × Bool)
advise turn profile role advice =
    decide turn profile role advice >>= conclude turn profile role advice.confidence

unfoldable pub propose : Turn → Profile → ProposerRole → Action Session (Offer × Bool)
propose turn profile role = do
  lift (check_turn_order (← gets (λ s. s.offers)) role)
  advice ← or_raise turn.advice llm_exhausted
  advise turn profile role advice

-- `process_turn`, where the exhausted model raises `llm_exhausted`.
unfoldable pub process_turn : Turn → (buyer seller : Profile) → Action Session (Offer × Bool)
process_turn turn buyer seller s =
    if is_expired turn.now s
    then expire_turn turn s
    else propose turn (if is_buyer (next_proposer s.offers) then buyer else seller)
        (next_proposer s.offers) s
