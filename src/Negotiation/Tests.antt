-- ===== src/Negotiation/Tests.antt =====
-- Concrete sessions, envelopes and turns on which the theorems on negotiation/ apply.
use cadencia_platform.Base.{
  ◌≡◌, ◌⊎◌, refl, inl, false, none, some, List, [], ◌∷◌, pos, ◌≤ℤ◌, ok, codes,
}
use cadencia_platform.Negotiation.Offers.{
  ProposerRole, Offer, offer_value, confidence, create_agent_offer,
}
use cadencia_platform.Negotiation.History.{next_proposer, prices_of}
use cadencia_platform.Negotiation.Policies.{
  check_budget_guard, check_convergence, check_stall, check_turn_order,
}
use cadencia_platform.Negotiation.Session.{Session, SessionStatus, is_expired}
use cadencia_platform.Negotiation.Session.Calls.{Call, perform, run}
use cadencia_platform.Negotiation.Session.Invariant.{IsValid, run_fresh-IsValid}
use cadencia_platform.Negotiation.Session.Progress.{◌⟶◌, perform-⟶, run_terminal}
use cadencia_platform.Negotiation.Concessions.{track_concession}
use cadencia_platform.Negotiation.Engine.{
  AgentAction, Advice, Profile, Turn, breach_text, converges, conclude, decide, advise, propose,
  process_turn,
}
use cadencia_platform.Negotiation.Engine.Safety.{process_turn_within_budget}

abbrev pub fresh_session : Session
fresh_session = record {
  id = 1;
  updated_at = 0;
  rfq_id = 2;
  match_id = 3;
  buyer_enterprise_id = 4;
  seller_enterprise_id = 5;
  status = SessionStatus.init;
  agreed_price = none;
  agreed_terms = none;
  round_count = 0;
  offers = [];
  completed_at = none;
  expires_at = 100;
  schema_failure_count = 0;
  stall_counter = 0;
}

-- The session once activated: the buyer is next.
abbrev pub session : Session
session = record fresh_session { status = SessionStatus.buyer_anchor }

-- The buyer's offer of 1000 in the first round.
abbrev pub buyer_offer : Offer
buyer_offer = record {
  id = 3;
  session_id = 1;
  round_number = 1;
  proposer_role = ProposerRole.buyer;
  price = record { amount = pos 1000; currency = codes "INR" };
  terms = codes "{}";
  confidence = some (pos 500);
  agent_reasoning = some (codes "opening");
  is_human_override = false;
}

abbrev calls : List Call
calls =
    Call.activates 1
    ∷ Call.offers buyer_offer 2 2
    ∷ Call.resumes 3
    ∷ Call.agrees (record { amount = pos 1000; currency = codes "INR" }) (codes "{}") 4 4
    ∷ Call.fails (codes "late") 5 5
    ∷ []

run_fresh-IsValid_example : IsValid (run calls fresh_session)
run_fresh-IsValid_example = run_fresh-IsValid calls fresh_session (record {
  status = refl;
  offers = refl;
  round_count = refl;
  agreed_price = refl;
  completed_at = refl;
})

perform-⟶_example :
    SessionStatus.buyer_anchor ⟶ (perform (Call.offers buyer_offer 2 2) session).1.status
unfolding perform
perform-⟶_example = perform-⟶ (Call.offers buyer_offer 2 2) session refl

abbrev agreed_session : Session
agreed_session = record session { status = SessionStatus.agreed; completed_at = some 4 }

run_terminal_example :
    ((run calls agreed_session).status ≡ SessionStatus.agreed)
    × ((run calls agreed_session).offers ≡ agreed_session.offers)
    × ((run calls agreed_session).agreed_price ≡ agreed_session.agreed_price)
run_terminal_example = run_terminal calls agreed_session refl

abbrev opening_advice : Advice
opening_advice = record {
  action = AgentAction.offer;
  price = some (pos 1000);
  confidence = pos 500;
  reasoning = codes "opening";
}

-- The same price under a token that the engine does not know, and far above the ceiling.
abbrev unknown_advice : Advice
unknown_advice = record opening_advice { action = AgentAction.other; price = some (pos 5000) }

abbrev pub profile : Profile
profile = record { budget_ceiling = pos 1200; margin_floor = pos 1000; stall_threshold = 10 }

abbrev pub turn : Turn
turn = record {
  now = 10;
  offer_id = 3;
  reservation_price = pos 900;
  suggested_price = pos 950;
  advice = some opening_advice;
}

abbrev unknown_turn : Turn
unknown_turn = record turn { advice = some unknown_advice }

-- The session after a turn: the concession counter has been reset.
abbrev turned_session : Session
turned_session = record session { updated_at = 10 }

abbrev unguarded_offer : Offer
unguarded_offer = record buyer_offer {
  price = record { amount = pos 5000; currency = codes "INR" };
}

turn_made : process_turn turn profile profile session ≡ (ok (buyer_offer, false), turned_session)
unfolding process_turn is_expired propose check_turn_order next_proposer advise decide conclude
    create_agent_offer offer_value check_budget_guard confidence track_concession prices_of
    converges check_convergence check_stall
turn_made = refl

unknown_turn_made :
    process_turn unknown_turn profile profile session
    ≡ (ok (unguarded_offer, false), turned_session)
unfolding process_turn is_expired propose check_turn_order next_proposer advise decide conclude
    create_agent_offer offer_value check_budget_guard confidence track_concession prices_of
    converges check_convergence check_stall
unknown_turn_made = refl

process_turn_within_budget_example :
    (buyer_offer.price.amount ≤ℤ profile.budget_ceiling)
    ⊎ (buyer_offer.agent_reasoning ≡ some breach_text)
unfolding next_proposer is_expired
process_turn_within_budget_example =
    process_turn_within_budget turn profile profile opening_advice session turned_session
      buyer_offer false refl (inl refl) refl refl turn_made
