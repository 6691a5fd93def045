-- ===== src/Negotiation/Engine/Safety.antt =====
-- What a turn of negotiation/infrastructure/neutral_engine.py offers, and where its guardrails stop.
use cadencia_platform.Base.{
  ◌+◌, ◌≡◌, ◌⊎◌, inl, inr, Bool, true, false, some, arith, ℤ, pos, ltb_ℤ, ◌++◌, ◌≤ℤ◌, ok, codes,
  if◌then◌else◌, Text, Option-cases, >>=-eq-ok,
}
use cadencia_platform.Negotiation.Offers.{
  ProposerRole, is_buyer, Offer, create_agent_offer, offer_value,
}
use cadencia_platform.Negotiation.History.{next_proposer}
use cadencia_platform.Negotiation.Policies.{check_budget_guard}
use cadencia_platform.Negotiation.Session.{Session, is_expired}
use cadencia_platform.Negotiation.Engine.{
  AgentAction, Advice, Profile, Turn, Decision, breached, decided, breach_text, timeout_text,
  expire_turn, decide, conclude, advise, propose, process_turn, placeholder_offer,
}

-- A decision on a buyer's proposal is within the ceiling, or a breach.
decide_within_budget :
    (turn : Turn) (p : Profile) (advice : Advice) (s s' : Session) (a : AgentAction) (price : ℤ)
    (t : Text) (b : Bool)
    → (advice.action ≡ AgentAction.offer) ⊎ (advice.action ≡ AgentAction.counter)
    → decide turn p ProposerRole.buyer advice s ≡ (ok (decided a price t b), s')
    → price ≤ℤ p.budget_ceiling
unfolding decide check_budget_guard
decide_within_budget turn p advice s s' a price t b h e = ground arith

-- The offer of a decision carries its price, and the proposer's turn.
conclude_offer :
    (turn : Turn) (p : Profile) (role : ProposerRole) (c : ℤ) (d : Decision) (s s' : Session)
    (o : Offer) (t : Bool)
    → conclude turn p role c d s ≡ (ok (o, t), s')
    → (o.proposer_role ≡ role) × (o.session_id ≡ s.id) × (o.round_number ≡ s.round_count + 1)
unfolding conclude create_agent_offer placeholder_offer
conclude_offer turn p role c breached s s' o t h = ground arith
conclude_offer turn p role c (decided a price r b) s s' o t h = ground arith

conclude_price :
    (turn : Turn) (p : Profile) (role : ProposerRole) (c : ℤ) (a : AgentAction) (price : ℤ)
    (r : Text) (b : Bool) (s s' : Session) (o : Offer) (t : Bool)
    → conclude turn p role c (decided a price r b) s ≡ (ok (o, t), s')
    → o.price.amount ≡ price
unfolding conclude create_agent_offer offer_value
conclude_price turn p role c a price r b s s' o t h = ground arith

conclude_breach :
    (turn : Turn) (p : Profile) (role : ProposerRole) (c : ℤ) (s s' : Session) (o : Offer)
    (t : Bool)
    → conclude turn p role c breached s ≡ (ok (o, t), s')
    → (o.agent_reasoning ≡ some breach_text) × (t ≡ true)
unfolding conclude create_agent_offer placeholder_offer
conclude_breach turn p role c s s' o t h = ground arith

-- `decide` writes nothing but the counters.
decide_keeps :
    (turn : Turn) (p : Profile) (role : ProposerRole) (advice : Advice) (s : Session)
    → let s' = (decide turn p role advice s).1 in
      (s'.id ≡ s.id)
      × (s'.round_count ≡ s.round_count)
      × (s'.offers ≡ s.offers)
      × (s'.status ≡ s.status)
unfolding decide
decide_keeps turn p role advice s = ground arith

expire_turn_offer :
    (turn : Turn) (s s' : Session) (o : Offer) (t : Bool)
    → expire_turn turn s ≡ (ok (o, t), s')
    → (o.proposer_role ≡ next_proposer s.offers)
      × (o.session_id ≡ s.id)
      × (o.round_number ≡ s.round_count + 1)
      × (o.agent_reasoning ≡ some timeout_text)
unfolding expire_turn create_agent_offer placeholder_offer
expire_turn_offer turn s s' o t h = ground arith

advise_offer :
    (turn : Turn) (p : Profile) (role : ProposerRole) (a : Advice) (s s' : Session) (o : Offer)
    (t : Bool)
    → advise turn p role a s ≡ (ok (o, t), s')
    → (o.proposer_role ≡ role) × (o.session_id ≡ s.id) × (o.round_number ≡ s.round_count + 1)
unfolding advise
advise_offer turn p role a s s' o t h =
    let (d, m, e, k) =
      >>=-eq-ok (decide turn p role a) (conclude turn p role a.confidence) s s' h in
    ground
      (arith, conclude_offer turn p role a.confidence d m s' o t k, decide_keeps turn p role a s, e)

propose_asks :
    (turn : Turn) (p : Profile) (role : ProposerRole) (s s' : Session) (o : Offer) (t : Bool)
    → propose turn p role s ≡ (ok (o, t), s')
    → (a : Advice) × (turn.advice ≡ some a) × (advise turn p role a s ≡ (ok (o, t), s'))
unfolding propose
propose_asks turn p role s s' o t h = elim (Option-cases turn.advice) [
  | inl e ↦ absurd (ground arith)
  | inr (a, e) ↦ (a, e, ground arith)
]

propose_offer :
    (turn : Turn) (p : Profile) (role : ProposerRole) (s s' : Session) (o : Offer) (t : Bool)
    → propose turn p role s ≡ (ok (o, t), s')
    → (o.proposer_role ≡ role) × (o.session_id ≡ s.id) × (o.round_number ≡ s.round_count + 1)
propose_offer turn p role s s' o t h =
    let (a, e, k) = propose_asks turn p role s s' o t h in advise_offer turn p role a s s' o t k

-- Whatever the model answers, the offer of a turn is made for the role that is next, in the session
-- itself and with the next round number.
process_turn_offer :
    (turn : Turn) (buyer seller : Profile) (s s' : Session) (o : Offer) (t : Bool)
    → process_turn turn buyer seller s ≡ (ok (o, t), s')
    → (o.proposer_role ≡ next_proposer s.offers)
      × (o.session_id ≡ s.id)
      × (o.round_number ≡ s.round_count + 1)
unfolding process_turn
process_turn_offer turn buyer seller s s' o t h = ground (
  arith,
  expire_turn_offer turn s s' o t,
  propose_offer turn (if is_buyer (next_proposer s.offers) then buyer else seller)
      (next_proposer s.offers) s s' o t,
)

advise_within_budget :
    (turn : Turn) (p : Profile) (a : Advice) (s s' : Session) (o : Offer) (t : Bool)
    → (a.action ≡ AgentAction.offer) ⊎ (a.action ≡ AgentAction.counter)
    → advise turn p ProposerRole.buyer a s ≡ (ok (o, t), s')
    → (o.price.amount ≤ℤ p.budget_ceiling) ⊎ (o.agent_reasoning ≡ some breach_text)
unfolding advise
advise_within_budget turn p a s s' o t proposal h =
    let (d, m, e, k) =
      >>=-eq-ok (decide turn p ProposerRole.buyer a)
        (conclude turn p ProposerRole.buyer a.confidence) s s' h in
    by_decision d m e k
  where
    by_decision :
        (d : Decision) (m : Session)
        → decide turn p ProposerRole.buyer a s ≡ (ok d, m)
        → conclude turn p ProposerRole.buyer a.confidence d m ≡ (ok (o, t), s')
        → (o.price.amount ≤ℤ p.budget_ceiling) ⊎ (o.agent_reasoning ≡ some breach_text)
    by_decision breached m e k =
        inr (conclude_breach turn p ProposerRole.buyer a.confidence m s' o t k).0
    by_decision (decided x price r b) m e k = inl (
        rw (conclude_price turn p ProposerRole.buyer a.confidence x price r b m s' o t k)
          (decide_within_budget turn p a s m x price r b proposal e))

-- When the model proposes for the buyer, by OFFER or COUNTER, in a session that has not expired, the price
-- that the turn offers is within the buyer's budget ceiling, unless the offer is the placeholder of a policy
-- breach.
pub process_turn_within_budget :
    (turn : Turn) (buyer seller : Profile) (a : Advice) (s s' : Session) (o : Offer) (t : Bool)
    → turn.advice ≡ some a
    → (a.action ≡ AgentAction.offer) ⊎ (a.action ≡ AgentAction.counter)
    → is_expired turn.now s ≡ false
    → next_proposer s.offers ≡ ProposerRole.buyer
    → process_turn turn buyer seller s ≡ (ok (o, t), s')
    → (o.price.amount ≤ℤ buyer.budget_ceiling) ⊎ (o.agent_reasoning ≡ some breach_text)
unfolding process_turn
process_turn_within_budget turn buyer seller a s s' o t given proposal live role h =
    let (a', given', k) = propose_asks turn buyer ProposerRole.buyer s s' o t (ground arith) in
    advise_within_budget turn buyer a s s' o t proposal (ground (arith, k))

decide_unknown :
    (turn : Turn) (p : Profile) (role : ProposerRole) (a : Advice) (price : ℤ) (s : Session)
    → a.action ≡ AgentAction.other
    → a.price ≡ some price
    → decide turn p role a s ≡ (ok (decided AgentAction.counter price a.reasoning false), s)
unfolding decide
decide_unknown turn p role a price s unknown priced = rw (unknown, priced)

advise_unknown :
    (turn : Turn) (p : Profile) (role : ProposerRole) (a : Advice) (price : ℤ) (s s' : Session)
    (o : Offer) (t : Bool)
    → a.action ≡ AgentAction.other
    → a.price ≡ some price
    → advise turn p role a s ≡ (ok (o, t), s')
    → o.price.amount ≡ price
unfolding advise
advise_unknown turn p role a price s s' o t unknown priced h =
    let (d, m, e, k) =
      >>=-eq-ok (decide turn p role a) (conclude turn p role a.confidence) s s' h in
    conclude_price turn p role a.confidence AgentAction.counter price a.reasoning false m s' o t
      (ground (arith, k, e, decide_unknown turn p role a price s unknown priced))

-- An answer whose action token is none of the four known ones is offered at the price it names: no
-- guardrail is asked, and for a buyer the budget ceiling does not bound the price.
unknown_action_unguarded :
    (turn : Turn) (buyer seller : Profile) (a : Advice) (price : ℤ) (s s' : Session) (o : Offer)
    (t : Bool)
    → turn.advice ≡ some a
    → a.action ≡ AgentAction.other
    → a.price ≡ some price
    → is_expired turn.now s ≡ false
    → process_turn turn buyer seller s ≡ (ok (o, t), s')
    → o.price.amount ≡ price
unfolding process_turn
unknown_action_unguarded turn buyer seller a price s s' o t given unknown priced live h =
    let role = next_proposer s.offers in
    let profile = if is_buyer role then buyer else seller in
    let (a', given', k) = propose_asks turn profile role s s' o t (ground arith) in
    advise_unknown turn profile role a price s s' o t unknown priced (ground (arith, k))

advise-reject :
    (turn : Turn) (p : Profile) (role : ProposerRole) (a : Advice) (s s' : Session) (o : Offer)
    (t : Bool)
    → a.action ≡ AgentAction.reject
    → advise turn p role a s ≡ (ok (o, t), s')
    → (t ≡ true)
      × (o.agent_reasoning ≡ some (codes "REJECT: " ++ a.reasoning))
      × (ltb_ℤ (pos 0) o.price.amount ≡ true)
unfolding advise decide conclude create_agent_offer offer_value
advise-reject turn p role a s s' o t rejected h = ground arith

pub process_turn-reject :
    (turn : Turn) (buyer seller : Profile) (a : Advice) (s s' : Session) (o : Offer) (t : Bool)
    → turn.advice ≡ some a
    → a.action ≡ AgentAction.reject
    → is_expired turn.now s ≡ false
    → process_turn turn buyer seller s ≡ (ok (o, t), s')
    → (t ≡ true)
      × (o.agent_reasoning ≡ some (codes "REJECT: " ++ a.reasoning))
      × (ltb_ℤ (pos 0) o.price.amount ≡ true)
unfolding process_turn
process_turn-reject turn buyer seller a s s' o t given rejected live h =
    let role = next_proposer s.offers in
    let profile = if is_buyer role then buyer else seller in
    let (a', given', k) = propose_asks turn profile role s s' o t (ground arith) in
    advise-reject turn profile role a s s' o t rejected (ground (arith, k))
