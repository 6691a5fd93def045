-- ===== src/Negotiation/Service/Outcomes.antt =====
-- How a turn of negotiation/application/services.py ends a session, and what a human may resume.
use cadencia_platform.Base.{
  ℕ, ◌≡◌, Bool, true, false, ℤ, leb, ◌||◌, some, arith, ok, err, conflict, Text, codes, ltb, ltb_ℤ,
  pos, if◌then◌else◌, ◌++◌,
}
use cadencia_platform.Negotiation.Offers.{Offer, offer_value}
use cadencia_platform.Negotiation.Session.{
  Session, SessionStatus, is_active, is_expired, stall_rounds, mark_agreed, mark_walk_away,
  mark_stalled, escalate_to_human_review, mark_policy_breach, mark_timeout,
  resume_from_human_review,
}
use cadencia_platform.Negotiation.Tables.{SessionRow, find_row, session_model_to_domain}
use cadencia_platform.Negotiation.Tables.Restore.{get_by_id_found}
use cadencia_platform.Negotiation.Engine.{AgentAction, Advice, Profile, Turn, process_turn}
use cadencia_platform.Negotiation.Engine.Safety.{process_turn-reject}
use cadencia_platform.Negotiation.Service.{
  Desk, HumanOverrideCommand, contains, close_turn, handle, handle_stall, handle_agreement,
  on_session, update, publish, reopen, apply_human_override,
}

-- No word that `run_agent_turn` looks for stands in the text.
abbrev pub IsUnmarked : Text → Type 0
IsUnmarked t =
    (contains (codes "REJECTED") t ≡ false)
    × (contains (codes "WALK_AWAY") t ≡ false)
    × (contains (codes "POLICY_BREACH") t ≡ false)
    × (contains (codes "TIMEOUT") t ≡ false)

-- The session that an agreement leaves.
abbrev pub agreed_at : ℕ → ℤ → Session → Session
agreed_at now price s = record s {
  status = SessionStatus.agreed;
  agreed_price = some (record { amount = price; currency = codes "INR" });
  agreed_terms = some (codes "{}");
  completed_at = some now;
  updated_at = now;
}

close_turn_agrees :
    (now : ℕ) (d : Desk) (s : Session) (o : Offer) (r : Text)
    → o.agent_reasoning ≡ some r
    → IsUnmarked r
    → ltb_ℤ (pos 0) o.price.amount ≡ true
    → is_active s.status ≡ true
    → ltb s.stall_counter stall_rounds ≡ true
    → (close_turn now s o d).0 ≡ ok (agreed_at now o.price.amount s)
unfolding close_turn handle_agreement handle on_session update publish mark_agreed offer_value
close_turn_agrees now d s o r reasoning (a, b, c, e) positive active fresh = ground arith

-- A model that rejects ends the turn with an offer after which the session is closed as an
-- agreement, at the price of that offer: so for every active session without a stall, unless
-- the model's own words contain one of the markers that the service looks for.
rejection_agrees :
    (turn : Turn) (buyer seller : Profile) (a : Advice) (s s' t : Session) (o : Offer)
    (is_last : Bool) (d : Desk)
    → turn.advice ≡ some a
    → a.action ≡ AgentAction.reject
    → is_expired turn.now s ≡ false
    → process_turn turn buyer seller s ≡ (ok (o, is_last), s')
    → IsUnmarked (codes "REJECT: " ++ a.reasoning)
    → is_active t.status ≡ true
    → ltb t.stall_counter stall_rounds ≡ true
    → (is_last ≡ true) × ((close_turn turn.now t o d).0 ≡ ok (agreed_at turn.now o.price.amount t))
rejection_agrees turn buyer seller a s s' t o is_last d given rejected live h unmarked active
      fresh =
    let (e, k, l) = process_turn-reject turn buyer seller a s s' o is_last given rejected live h in
    (
      e,
      close_turn_agrees turn.now d t o (codes "REJECT: " ++ a.reasoning) k unmarked l active fresh,
    )

-- When closing a terminal turn of an active session returns, the status is what the reasoning
-- of the offer says: walked away on either word for it, else breached, else timed out, else
-- under review after three rounds without a concession, else agreed.
close_turn_status :
    (now : ℕ) (d d' : Desk) (s s' : Session) (o : Offer) (r : Text)
    → o.agent_reasoning ≡ some r
    → is_active s.status ≡ true
    → close_turn now s o d ≡ (ok s', d')
    → s'.status ≡ (
        if contains (codes "REJECTED") r || contains (codes "WALK_AWAY") r
        then SessionStatus.walk_away
        else if contains (codes "POLICY_BREACH") r
        then SessionStatus.policy_breach
        else if contains (codes "TIMEOUT") r
        then SessionStatus.timeout
        else if leb stall_rounds s.stall_counter
        then SessionStatus.human_review
        else SessionStatus.agreed)
unfolding close_turn handle_agreement handle handle_stall on_session update publish mark_agreed
    offer_value mark_walk_away mark_policy_breach mark_timeout mark_stalled escalate_to_human_review
close_turn_status now d d' s s' o r reasoning active h = ground arith

-- The human's override of a stalled session raises and changes nothing, though the service
-- means to resume it: a session is resumed from the review only.
stalled_not_overridden :
    (offer_id now : ℕ) (cmd : HumanOverrideCommand) (d : Desk) (m : SessionRow)
    → find_row cmd.session_id d.tables.sessions ≡ some m
    → m.status ≡ SessionStatus.stalled
    → apply_human_override offer_id now cmd d ≡ (err conflict, d)
unfolding apply_human_override reopen on_session resume_from_human_review session_model_to_domain
stalled_not_overridden offer_id now cmd d m found stalled =
    ground (arith, get_by_id_found cmd.session_id d.tables m found)
