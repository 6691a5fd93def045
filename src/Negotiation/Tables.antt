-- ===== src/Negotiation/Tables.antt =====
-- The tables of negotiation/infrastructure/models.py and the mapping of
-- negotiation/infrastructure/repositories.py between their rows and the aggregates. Prices keep
-- their value, the agreed terms are the text of their JSON, and a stored status is one of the enum.
pub mod Restore
use cadencia_platform.Base.{
  ℕ, Bool, true, false, Option, none, some, List, [], ◌∷◌, ◌++◌, map, leb, ◌==◌, if◌then◌else◌, ℤ,
  Text, codes,
}
use cadencia_platform.Negotiation.Offers.{ProposerRole, OfferValue, Offer}
use cadencia_platform.Negotiation.Session.{Session, SessionStatus}

-- `NegotiationSessionModel`: the columns that the repository writes or reads.
pub record SessionRow : Type 0 where
  pub id : ℕ
  pub rfq_id : ℕ
  pub match_id : ℕ
  pub buyer_enterprise_id : ℕ
  pub seller_enterprise_id : ℕ
  pub status : SessionStatus
  pub current_round : ℕ
  pub agreed_price : Option ℤ
  pub agreed_terms_json : Option Text
  pub completed_at : Option ℕ
  pub schema_failure_count : ℕ
  pub stall_counter : ℕ
  pub created_at : ℕ
  pub updated_at : ℕ

-- `OfferModel`.
pub record OfferRow : Type 0 where
  pub id : ℕ
  pub session_id : ℕ
  pub round_number : ℕ
  pub proposer_role : ProposerRole
  pub price : ℤ
  pub confidence : Option ℤ
  pub reasoning : Option Text
  pub is_human_override : Bool
  pub raw_llm_output : Text

pub record Tables : Type 0 where
  pub sessions : List SessionRow
  pub offers : List OfferRow

-- `_offer_model_to_domain`.
unfoldable pub offer_model_to_domain : OfferRow → Offer
offer_model_to_domain m = record {
  id = m.id;
  session_id = m.session_id;
  round_number = m.round_number;
  proposer_role = m.proposer_role;
  price = record { amount = m.price; currency = codes "INR" };
  terms = m.raw_llm_output;
  confidence = m.confidence;
  agent_reasoning = m.reasoning;
  is_human_override = m.is_human_override;
}

-- `PostgresOfferRepository.save`, up to the row.
unfoldable pub offer_to_model : Offer → OfferRow
offer_to_model o = record {
  id = o.id;
  session_id = o.session_id;
  round_number = o.round_number;
  proposer_role = o.proposer_role;
  price = o.price.amount;
  confidence = o.confidence;
  reasoning = o.agent_reasoning;
  is_human_override = o.is_human_override;
  raw_llm_output = o.terms;
}

-- `sorted(..., key=round_number)`, a stable sort.
unfoldable pub insert_by_round : Offer → List Offer → List Offer
insert_by_round o [] = o ∷ []
insert_by_round o (p ∷ ps) =
    if leb o.round_number p.round_number then o ∷ p ∷ ps else p ∷ insert_by_round o ps

unfoldable pub sort_by_round : List Offer → List Offer
unfolding insert_by_round
sort_by_round [] = []
sort_by_round (o ∷ os) = insert_by_round o (sort_by_round os)

-- `m.offers`: the rows of the session, in the table's order.
unfoldable pub offers_of : ℕ → List OfferRow → List Offer
unfolding offer_model_to_domain
offers_of s [] = []
offers_of s (m ∷ ms) =
    if m.session_id == s then offer_model_to_domain m ∷ offers_of s ms else offers_of s ms

unfoldable pub in_rupees : Option ℤ → Option OfferValue
in_rupees none = none
in_rupees (some p) = some (record { amount = p; currency = codes "INR" })

unfoldable pub amount_of : Option OfferValue → Option ℤ
amount_of none = none
amount_of (some v) = some v.amount

-- `_session_model_to_domain`.
unfoldable pub session_model_to_domain : List OfferRow → SessionRow → Session
unfolding in_rupees sort_by_round offers_of
session_model_to_domain rows m = record {
  id = m.id;
  updated_at = m.updated_at;
  rfq_id = m.rfq_id;
  match_id = m.match_id;
  buyer_enterprise_id = m.buyer_enterprise_id;
  seller_enterprise_id = m.seller_enterprise_id;
  status = m.status;
  agreed_price = in_rupees m.agreed_price;
  agreed_terms = m.agreed_terms_json;
  round_count = m.current_round;
  offers = sort_by_round (offers_of m.id rows);
  completed_at = m.completed_at;
  expires_at = m.created_at;
  schema_failure_count = m.schema_failure_count;
  stall_counter = m.stall_counter;
}

-- `PostgresSessionRepository.save`, up to the row; `now` is the database's clock.
unfoldable pub session_to_model : ℕ → Session → SessionRow
unfolding amount_of
session_to_model now s = record {
  id = s.id;
  rfq_id = s.rfq_id;
  match_id = s.match_id;
  buyer_enterprise_id = s.buyer_enterprise_id;
  seller_enterprise_id = s.seller_enterprise_id;
  status = s.status;
  current_round = s.round_count;
  agreed_price = amount_of s.agreed_price;
  agreed_terms_json = s.agreed_terms;
  completed_at = s.completed_at;
  schema_failure_count = s.schema_failure_count;
  stall_counter = s.stall_counter;
  created_at = now;
  updated_at = now;
}

-- The columns that `PostgresSessionRepository.update` sets.
unfoldable pub updated_row : ℕ → Session → SessionRow → SessionRow
unfolding amount_of
updated_row now s m = record m {
  status = s.status;
  current_round = s.round_count;
  agreed_price = amount_of s.agreed_price;
  agreed_terms_json = s.agreed_terms;
  completed_at = s.completed_at;
  schema_failure_count = s.schema_failure_count;
  stall_counter = s.stall_counter;
  updated_at = now;
}

unfoldable pub update_sessions : ℕ → Session → List SessionRow → List SessionRow
unfolding updated_row
update_sessions now s [] = []
update_sessions now s (m ∷ ms) =
    (if m.id == s.id then updated_row now s m else m) ∷ update_sessions now s ms

unfoldable pub find_row : ℕ → List SessionRow → Option SessionRow
find_row i [] = none
find_row i (m ∷ ms) = if m.id == i then some m else find_row i ms

unfoldable pub find_match : ℕ → List SessionRow → Option SessionRow
find_match i [] = none
find_match i (m ∷ ms) = if m.match_id == i then some m else find_match i ms

-- `get_by_id` and `get_by_match_id`.
unfoldable pub get_by_id : ℕ → Tables → Option Session
unfolding find_row
get_by_id i t = elim (find_row i t.sessions) [
  | none ↦ none
  | some m ↦ some (session_model_to_domain t.offers m)
]

unfoldable pub get_by_match_id : ℕ → Tables → Option Session
unfolding find_match
get_by_match_id i t = elim (find_match i t.sessions) [
  | none ↦ none
  | some m ↦ some (session_model_to_domain t.offers m)
]
