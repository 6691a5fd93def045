-- ===== src/Negotiation/Service.antt =====
-- `NegotiationService` of negotiation/application/services.py on the unit of work of
-- shared/infrastructure/db/uow.py. The profiles of the two sides and the readings of the clocks are
-- arguments. The default profiles that `create_session` adds, the learning of the profiles after an
-- agreement, the metrics and the server-sent events are left out.
pub mod Commits
pub mod Outcomes
use cadencia_platform.Base.{
  ℕ, ◌+◌, ◌/◌, ◌%◌, Bool, true, false, not, ◌&&◌, ◌||◌, Option, none, some, is_none, List, [], ◌∷◌,
  ◌++◌, ltb, leb, ◌==◌, if◌then◌else◌, ℤ, Result, ok, err, DomainError, internal_error, not_found,
  conflict, Action, ◌>>=◌, ◌>>◌, pure, raise, gets, lift, or_raise, raise_if, modify, Text, codes,
}
use cadencia_platform.Negotiation.Offers.{
  ProposerRole, OfferValue, offer_value, Offer, create_human_offer,
}
use cadencia_platform.Negotiation.Session.{
  Session, SessionStatus, SessionEvent, is_active, is_human_review, stall_rounds, activate,
  add_offer, mark_agreed, mark_walk_away, mark_failed, mark_stalled, escalate_to_human_review,
  resume_from_human_review, mark_timeout, mark_expired, mark_policy_breach, is_expired,
}
use cadencia_platform.Negotiation.Tables.{
  Tables, SessionRow, OfferRow, offer_to_model, session_to_model, update_sessions, get_by_id,
  get_by_match_id, session_model_to_domain,
}
use cadencia_platform.Negotiation.Engine.{Profile, Turn, process_turn}

-- The unit of work: whether it has been entered, what its database session sees, and what is committed;
-- and the published events, oldest first.
pub record Desk : Type 0 where
  pub entered : Bool
  pub tables : Tables
  pub durable : Tables
  pub published : List SessionEvent

-- `SqlAlchemyUnitOfWork.commit`.
unfoldable pub commit : Action Desk (Unit {0})
commit = do
  raise_if (not (← gets (λ d. d.entered))) internal_error
  modify λ d. record d { durable = d.tables }

-- A method of the aggregate in memory; what it changes is stored by a later `update`.
unfoldable pub on_session : {A : Type 0} → Action Session A → Session → Action Desk (A × Session)
on_session m s d = let (r, s') = m s in elim r [ ok a ↦ (ok (a, s'), d) | err x ↦ (err x, d) ]

unfoldable pub update : ℕ → Session → Action Desk (Unit {0})
update now s = modify λ d. record d {
  tables = record (d.tables) { sessions = update_sessions now s d.tables.sessions };
}

unfoldable pub save : ℕ → Session → Action Desk (Unit {0})
save now s = modify λ d. record d {
  tables = record (d.tables) { sessions = d.tables.sessions ++ session_to_model now s ∷ [] };
}

unfoldable pub save_offer : Offer → Action Desk (Unit {0})
save_offer o = modify λ d. record d {
  tables = record (d.tables) { offers = d.tables.offers ++ offer_to_model o ∷ [] };
}

unfoldable pub publish : SessionEvent → Action Desk (Unit {0})
publish v = modify λ d. record d { published = d.published ++ v ∷ [] }

-- A method that closes or moves a session, then `update` and `publish`: the shape of every handler.
unfoldable pub handle : ℕ → Action Session SessionEvent → Session → Action Desk Session
unfolding on_session update publish
handle now m s = do done ← on_session m s; update now done.1; publish done.0; pure done.1

-- `needle in text`.
starts_with : Text → Text → Bool
starts_with [] t = true
starts_with (c ∷ cs) [] = false
starts_with (c ∷ cs) (d ∷ ds) = c == d && starts_with cs ds

unfoldable pub contains : Text → Text → Bool
unfolding starts_with
contains needle [] = starts_with needle []
contains needle (c ∷ cs) = starts_with needle (c ∷ cs) || contains needle cs

-- The digits of a round, of which there are at most two.
abbrev pub digits : ℕ → Text
digits n = if ltb n 10 then (48 + n) ∷ [] else (48 + n / 10) ∷ (48 + n % 10) ∷ []

abbrev or_empty : Option Text → Text
or_empty none = []
or_empty (some t) = t

-- `_handle_stall`: two moves, and the second one's event.
unfoldable pub handle_stall : ℕ → Session → Action Desk Session
unfolding handle
handle_stall now s = do
  stalled ← on_session (mark_stalled now) s
  handle now (escalate_to_human_review now) stalled.1

-- `_handle_agreement`, up to the learning of the profiles.
unfoldable pub handle_agreement : ℕ → Session → Offer → Action Desk Session
unfolding handle
handle_agreement now s o = do
  price ← lift (offer_value o.price.amount (codes "INR"))
  handle now (mark_agreed price (codes "{}") now now) s

-- What `run_agent_turn` makes of a terminal turn, by the text of the offer's reasoning.
unfoldable pub close_turn : ℕ → Session → Offer → Action Desk Session
unfolding handle_stall handle_agreement handle contains
close_turn now s o =
    let reasoning = or_empty o.agent_reasoning in
    if contains (codes "REJECTED") reasoning || contains (codes "WALK_AWAY") reasoning
    then handle now
        (mark_walk_away (codes "Agent rejected at round " ++ digits s.round_count) now now) s
    else if contains (codes "POLICY_BREACH") reasoning
    then handle now (mark_policy_breach (codes "Schema validation failed 3x") now now) s
    else if contains (codes "TIMEOUT") reasoning
    then handle now (mark_timeout now now) s
    else if leb stall_rounds s.stall_counter
    then handle_stall now s
    else handle_agreement now s o

-- The end of `run_agent_turn`: what the turn made is stored and, if it is terminal, closes the session.
unfoldable pub store_turn :
    ℕ → SessionEvent → Session → Offer → (is_terminal : Bool) → Action Desk Offer
unfolding close_turn save_offer update publish commit
store_turn now event s o is_terminal = do
  save_offer o
  update now s
  publish event
  if is_terminal then close_turn now s o >> pure tt else pure tt
  commit
  pure o

-- From the engine on: the part of `run_agent_turn` for a live session.
unfoldable pub take_turn : Turn → (buyer seller : Profile) → Session → Action Desk Offer
unfolding store_turn on_session
take_turn turn buyer seller s = do
  made ← on_session (process_turn turn buyer seller) s
  added ← on_session (add_offer made.0.0 turn.now turn.now) made.1
  store_turn turn.now added.0 added.1 made.0.0 made.0.1

unfoldable pub run_agent_turn : ℕ → Turn → (buyer seller : Profile) → Action Desk Offer
unfolding take_turn handle
run_agent_turn id turn buyer seller = do
  s ← or_raise (get_by_id id (← gets (λ d. d.tables))) not_found
  raise_if (not (is_active s.status)) conflict
  if is_expired turn.now s
      then handle turn.now (mark_timeout turn.now turn.now) s >> raise conflict
      else take_turn turn buyer seller s

pub record CreateSessionCommand : Type 0 where
  pub match_id : ℕ
  pub rfq_id : ℕ
  pub buyer_enterprise_id : ℕ
  pub seller_enterprise_id : ℕ

-- `NegotiationSession(...)` of `create_session`, with the time to live of 24 hours in seconds.
abbrev pub new_session : (id now : ℕ) → CreateSessionCommand → Session
new_session id now cmd = record {
  id = id;
  updated_at = now;
  rfq_id = cmd.rfq_id;
  match_id = cmd.match_id;
  buyer_enterprise_id = cmd.buyer_enterprise_id;
  seller_enterprise_id = cmd.seller_enterprise_id;
  status = SessionStatus.init;
  agreed_price = none;
  agreed_terms = none;
  round_count = 0;
  offers = [];
  completed_at = none;
  expires_at = now + 86400;
  schema_failure_count = 0;
  stall_counter = 0;
}

unfoldable pub create_session : (id now : ℕ) → CreateSessionCommand → Action Desk Session
unfolding on_session save publish commit
create_session id now cmd = do
  raise_if (not (is_none (get_by_match_id cmd.match_id (← gets (λ d. d.tables))))) conflict
  activated ← on_session (activate now) (new_session id now cmd)
  save now activated.1
  commit
  publish activated.0
  pure activated.1

pub record HumanOverrideCommand : Type 0 where
  pub session_id : ℕ
  pub price : ℤ
  pub currency : Text
  pub terms : Text

abbrev is_stalled : SessionStatus → Bool
is_stalled SessionStatus.stalled = true
is_stalled _ = false

-- The first part of `apply_human_override`: a session under review, or stalled, is resumed.
unfoldable pub reopen : ℕ → Session → Action Desk Session
unfolding on_session
reopen now s =
    if is_human_review s.status || is_stalled s.status
    then on_session (resume_from_human_review now) s >>= (λ r. pure r.1)
    else if is_active s.status
    then pure s
    else raise conflict

unfoldable pub apply_human_override : (offer_id now : ℕ) → HumanOverrideCommand → Action Desk Offer
unfolding reopen on_session save_offer update publish commit
apply_human_override offer_id now cmd = do
  s ← or_raise (get_by_id cmd.session_id (← gets (λ d. d.tables))) not_found
  live ← reopen now s
  o ← lift (
      create_human_offer offer_id live.id (live.round_count + 1) ProposerRole.buyer cmd.price
        cmd.currency cmd.terms)
  added ← on_session (add_offer o now now) live
  save_offer o
  update now added.1
  commit
  publish added.0
  pure o

unfoldable pub terminate_session : (id now : ℕ) → Text → Action Desk (Unit {0})
unfolding on_session update publish commit
terminate_session id now reason = do
  s ← or_raise (get_by_id id (← gets (λ d. d.tables))) not_found
  failed ← on_session (mark_failed reason now now) s
  update now failed.1
  commit
  publish failed.0
