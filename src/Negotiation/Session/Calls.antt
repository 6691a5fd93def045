-- ===== src/Negotiation/Session/Calls.antt =====
-- The methods of negotiation/domain/session.py that change a session, as one type of calls.
use cadencia_platform.Base.{
  ℕ, Option, none, some, List, [], ◌∷◌, DomainError, Result, ok, err, Text, true, ◌≡◌, arith,
}
use cadencia_platform.Negotiation.Offers.{OfferValue, Offer}
use cadencia_platform.Negotiation.Session.{
  Session, activate, add_offer, mark_agreed, mark_walk_away, mark_failed, mark_stalled,
  escalate_to_human_review, resume_from_human_review, mark_timeout, mark_expired,
  mark_policy_breach, record_schema_failure, record_no_concession, reset_stall_counter, is_terminal,
}

-- `transition` has no constructor of its own: it runs within `add_offer`, which is its only caller.
pub data Call : Type 0 where
  activates stalls escalates resumes fails_schema concedes_not concedes : (now : ℕ) → Call
  offers : Offer → (moved now : ℕ) → Call
  agrees : OfferValue → (terms : Text) (completed now : ℕ) → Call
  walks_away fails breaches : (reason : Text) (completed now : ℕ) → Call
  times_out expires : (completed now : ℕ) → Call

-- How a call ended: its exception, if it raised.
abbrev raised : {A : Type 0} → Result A × Session → Option DomainError × Session
raised (ok a, s) = (none, s)
raised (err x, s) = (some x, s)

unfoldable pub perform : Call → Session → Option DomainError × Session
unfolding activate add_offer mark_agreed mark_walk_away mark_failed mark_stalled
    escalate_to_human_review resume_from_human_review mark_timeout mark_expired mark_policy_breach
    record_schema_failure record_no_concession reset_stall_counter
perform (activates now) s = raised (activate now s)
perform (stalls now) s = raised (mark_stalled now s)
perform (escalates now) s = raised (escalate_to_human_review now s)
perform (resumes now) s = raised (resume_from_human_review now s)
perform (fails_schema now) s = raised (record_schema_failure now s)
perform (concedes_not now) s = raised (record_no_concession now s)
perform (concedes now) s = raised (reset_stall_counter now s)
perform (offers o moved now) s = raised (add_offer o moved now s)
perform (agrees price terms completed now) s = raised (mark_agreed price terms completed now s)
perform (walks_away reason completed now) s = raised (mark_walk_away reason completed now s)
perform (fails reason completed now) s = raised (mark_failed reason completed now s)
perform (breaches reason completed now) s = raised (mark_policy_breach reason completed now s)
perform (times_out completed now) s = raised (mark_timeout completed now s)
perform (expires completed now) s = raised (mark_expired completed now s)

-- A history of calls, whose exceptions the callers have handled.
unfoldable pub run : List Call → Session → Session
run [] s = s
run (c ∷ cs) s = run cs (perform c s).1

-- A call that raises has written nothing.
perform_error_unchanged :
    (c : Call) (s : Session) (x : DomainError) → (perform c s).0 ≡ some x → (perform c s).1 ≡ s
unfolding perform
perform_error_unchanged c s x h = ground arith

-- A finished session is final: whatever is called on it, its status, its offers, the agreed price
-- and the time of completion stay. Only the counters move, and they close nothing.
pub perform_terminal :
    (c : Call) (s : Session)
    → is_terminal s.status ≡ true
    → let s' = (perform c s).1 in
      (s'.status ≡ s.status)
      × (s'.offers ≡ s.offers)
      × (s'.agreed_price ≡ s.agreed_price)
      × (s'.completed_at ≡ s.completed_at)
unfolding perform
perform_terminal c s h = ground arith
