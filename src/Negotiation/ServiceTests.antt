-- ===== src/Negotiation/ServiceTests.antt =====
-- A concrete desk on which the theorems on negotiation/application/services.py and
-- negotiation/infrastructure/repositories.py apply.
use cadencia_platform.Base.{
  ◌≡◌, refl, arith, true, false, none, some, [], ◌∷◌, map, pos, ok, err, conflict, codes,
}
use cadencia_platform.Negotiation.Offers.{Offer, offer_value, confidence, create_agent_offer}
use cadencia_platform.Negotiation.History.{next_proposer}
use cadencia_platform.Negotiation.Policies.{check_turn_order}
use cadencia_platform.Negotiation.Session.{Session, SessionStatus, is_expired}
use cadencia_platform.Negotiation.Tables.{
  SessionRow, Tables, offer_to_model, update_sessions, find_row, get_by_id,
}
use cadencia_platform.Negotiation.Tables.Restore.{get_by_id-update}
use cadencia_platform.Negotiation.Engine.{
  AgentAction, Advice, Turn, propose, advise, decide, conclude, process_turn,
}
use cadencia_platform.Negotiation.Service.{Desk, run_agent_turn}
use cadencia_platform.Negotiation.Service.Commits.{run_agent_turn_stale}
use cadencia_platform.Negotiation.Tests.{session, buyer_offer, profile, turn}

-- The session in its second round, with the buyer's offer stored.
abbrev answering : Session
answering = record session {
  status = SessionStatus.seller_response;
  round_count = 1;
  offers = buyer_offer ∷ [];
}

abbrev row : SessionRow
row = record {
  id = 1;
  rfq_id = 2;
  match_id = 3;
  buyer_enterprise_id = 4;
  seller_enterprise_id = 5;
  status = SessionStatus.buyer_anchor;
  current_round = 0;
  agreed_price = none;
  agreed_terms_json = none;
  completed_at = none;
  schema_failure_count = 0;
  stall_counter = 0;
  created_at = 0;
  updated_at = 0;
}

abbrev stored : Tables
stored = record { sessions = row ∷ []; offers = [] }

-- As the service is given its unit of work: not entered.
abbrev desk : Desk
desk = record { entered = false; tables = stored; durable = stored; published = [] }

get_by_id-update_example :
    (s' : Session) × (get_by_id 1 (record {
      sessions = update_sessions 9 answering (row ∷ []);
      offers = map offer_to_model (buyer_offer ∷ []);
    })
      ≡ some s')
    × (s'.status ≡ SessionStatus.seller_response)
    × (s'.offers ≡ buyer_offer ∷ [])
    × (s'.round_count ≡ 1)
    × (s'.agreed_price ≡ none)
    × (s'.agreed_terms ≡ none)
    × (s'.completed_at ≡ none)
    × (s'.schema_failure_count ≡ 0)
    × (s'.stall_counter ≡ 0)
    × (s'.expires_at ≡ 0)
unfolding find_row
get_by_id-update_example =
    get_by_id-update 9 answering row (row ∷ []) 1 refl refl ((refl, refl), tt) (refl, tt) tt

run_agent_turn_stale_example :
    ((run_agent_turn 1 turn profile profile desk).0 ≡ err conflict)
    × ((run_agent_turn 1 turn profile profile desk).1.durable ≡ stored)
unfolding find_row
run_agent_turn_stale_example =
    run_agent_turn_stale 1 turn profile profile desk row refl (omega arith)

abbrev rejection : Advice
rejection = record {
  action = AgentAction.reject;
  price = none;
  confidence = pos 500;
  reasoning = codes "too dear";
}

abbrev rejecting_turn : Turn
rejecting_turn = record turn { advice = some rejection }

abbrev rejecting_offer : Offer
rejecting_offer = record buyer_offer {
  price = record { amount = pos 950; currency = codes "INR" };
  agent_reasoning = some (codes "REJECT: too dear");
}

rejecting_turn_made :
    process_turn rejecting_turn profile profile session ≡ (ok (rejecting_offer, true), session)
unfolding process_turn is_expired propose check_turn_order next_proposer advise decide conclude
    create_agent_offer offer_value confidence
rejecting_turn_made = refl
