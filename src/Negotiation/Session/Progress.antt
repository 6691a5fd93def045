-- ===== src/Negotiation/Session/Progress.antt =====
-- Which statuses of negotiation/domain/session.py can follow which, over whole histories.
use cadencia_platform.Base.{◌≡◌, refl, true, false, none, List, [], ◌∷◌, arith, ◌∙◌}
use cadencia_platform.Negotiation.Session.{
  Session, SessionStatus, is_active, is_terminal, can_escalate,
}
use cadencia_platform.Negotiation.Session.Calls.{Call, perform, run, perform_terminal}

-- The transitions that the docstring of `SessionStatus` lists, one for one.
pub data Documented : SessionStatus → SessionStatus → Type 0 where
  create_session : Documented SessionStatus.init SessionStatus.buyer_anchor
  valid_anchor : Documented SessionStatus.buyer_anchor SessionStatus.seller_response
  first_counter : Documented SessionStatus.seller_response SessionStatus.round_loop
  counter : Documented SessionStatus.round_loop SessionStatus.round_loop
  gap_closed : Documented SessionStatus.round_loop SessionStatus.agreed
  no_concession : Documented SessionStatus.round_loop SessionStatus.stalled
  reject : Documented SessionStatus.round_loop SessionStatus.walk_away
  ttl_expired : Documented SessionStatus.round_loop SessionStatus.timeout
  schema_failure : Documented SessionStatus.round_loop SessionStatus.policy_breach
  escalate_stalled : Documented SessionStatus.stalled SessionStatus.human_review
  admin_resumes : Documented SessionStatus.human_review SessionStatus.active

-- The transitions that the methods make beyond that list, by what the methods ask of the status.
pub data Undocumented : SessionStatus → SessionStatus → Type 0 where
  reactivate : Undocumented SessionStatus.active SessionStatus.buyer_anchor
  rejoin : Undocumented SessionStatus.active SessionStatus.seller_response
  reloop : Undocumented SessionStatus.active SessionStatus.round_loop
  agree : {s : SessionStatus} → is_active s ≡ true → Undocumented s SessionStatus.agreed
  stall : {s : SessionStatus} → is_active s ≡ true → Undocumented s SessionStatus.stalled
  walk_away : {s : SessionStatus} → is_active s ≡ true → Undocumented s SessionStatus.walk_away
  fail : {s : SessionStatus} → is_active s ≡ true → Undocumented s SessionStatus.failed
  reject_review : Undocumented SessionStatus.human_review SessionStatus.walk_away
  fail_review : Undocumented SessionStatus.human_review SessionStatus.failed
  escalate : {s : SessionStatus} → can_escalate s ≡ true → Undocumented s SessionStatus.human_review
  resume_loop : Undocumented SessionStatus.human_review SessionStatus.round_loop
  time_out : {s : SessionStatus} → is_terminal s ≡ false → Undocumented s SessionStatus.timeout
  expire : {s : SessionStatus} → is_terminal s ≡ false → Undocumented s SessionStatus.expired
  breach : {s : SessionStatus} → is_terminal s ≡ false → Undocumented s SessionStatus.policy_breach

infix 40 ◌⟶◌
pub data ◌⟶◌ : SessionStatus → SessionStatus → Type 0 where
  stay : {s : SessionStatus} → s ⟶ s
  documented : {s t : SessionStatus} → Documented s t → s ⟶ t
  undocumented : {s t : SessionStatus} → Undocumented s t → s ⟶ t

ruleset edges = (
  stay, documented, undocumented, create_session, valid_anchor, first_counter, reactivate, rejoin,
  reloop, agree, stall, walk_away, fail, reject_review, fail_review, escalate, admin_resumes,
  resume_loop, time_out, expire, breach,
)

-- A call that returns moves the status along a transition that the docstring of `SessionStatus` lists, along
-- one of these, which it does not list, or not at all: an agreement, a stall, a walk-away or a failure from
-- any status that accepts offers; a walk-away, a failure or a return to ROUND_LOOP from HUMAN_REVIEW; an
-- escalation from any status that accepts offers but INIT; from the legacy ACTIVE, the steps that open a
-- session; a timeout, an expiry or a breach from any status that is not final.
pub perform-⟶ :
    (c : Call) (s : Session) → (perform c s).0 ≡ none → s.status ⟶ (perform c s).1.status
unfolding perform
perform-⟶ (Call.activates now) s h = grind (arith, edges)
perform-⟶ (Call.stalls now) s h = grind (arith, edges)
perform-⟶ (Call.escalates now) s h = grind (arith, edges)
perform-⟶ (Call.resumes now) s h = grind (arith, edges)
perform-⟶ (Call.fails_schema now) s h = stay
perform-⟶ (Call.concedes_not now) s h = stay
perform-⟶ (Call.concedes now) s h = stay
perform-⟶ (Call.offers o moved now) s h = grind (arith, edges)
perform-⟶ (Call.agrees price terms completed now) s h = grind (arith, edges)
perform-⟶ (Call.walks_away reason completed now) s h = grind (arith, edges)
perform-⟶ (Call.fails reason completed now) s h = grind (arith, edges)
perform-⟶ (Call.breaches reason completed now) s h = grind (arith, edges)
perform-⟶ (Call.times_out completed now) s h = grind (arith, edges)
perform-⟶ (Call.expires completed now) s h = grind (arith, edges)

-- Once a session has finished, no history of calls changes its outcome or its offers.
pub run_terminal :
    (cs : List Call) (s : Session)
    → is_terminal s.status ≡ true
    → ((run cs s).status ≡ s.status)
      × ((run cs s).offers ≡ s.offers)
      × ((run cs s).agreed_price ≡ s.agreed_price)
unfolding run
run_terminal [] s h = (refl, refl, refl)
run_terminal (c ∷ cs) s h =
    let (status, offers, price, completed) = perform_terminal c s h in
    let (status', offers', price') = run_terminal cs (perform c s).1 (rw status h) in
    (status' ∙ status, offers' ∙ offers, price' ∙ price)
