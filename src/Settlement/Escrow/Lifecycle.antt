-- ===== src/Settlement/Escrow/Lifecycle.antt =====
-- What the calls of settlement/domain/escrow.py keep true of an escrow, and the one way in which
-- they let its status part from what happened to the money.
use cadencia_platform.Base.{
  ℕ, suc, ◌+◌, ◌≡◌, refl, true, none, is_some, List, [], ◌∷◌, arith, DomainError, Result, ok, err,
  conflict, Text,
}
use cadencia_platform.Settlement.Escrow.{
  EscrowStatus, Escrow, EscrowEvent, escrow_released, escrow_refunded, is_frozen_status, Call,
  deploys, funds, releases, refunds, freezes, unfreezes, call,
}

-- The freeze flag agrees with the status, and a settled escrow names the transaction that settled
-- it.
pub record IsWellFormed (e : Escrow) : Type 0 where
  pub flag : e.is_frozen ≡ is_frozen_status e.status
  pub released :
      e.status ≡ EscrowStatus.released
      → (is_some e.release_tx_id ≡ true) × (is_some e.merkle_root ≡ true)
  pub refunded : e.status ≡ EscrowStatus.refunded → is_some e.refund_tx_id ≡ true

-- Every method, whether it returns or raises, keeps an escrow well-formed.
call-IsWellFormed : (c : Call) (e : Escrow) → IsWellFormed e → IsWellFormed (call c e).1
unfolding call
call-IsWellFormed (deploys app address tx now) e h = ground arith
call-IsWellFormed (funds tx now) e h = ground arith
call-IsWellFormed (releases tx root settled now) e h = ground arith
call-IsWellFormed (refunds tx settled now) e h = ground arith
call-IsWellFormed (freezes now) e h = ground arith
call-IsWellFormed (unfreezes now) e h = ground arith

-- A method that raises has written nothing.
call_error_unchanged :
    (c : Call) (e : Escrow) {x : DomainError} → (call c e).0 ≡ err x → (call c e).1 ≡ e
unfolding call
call_error_unchanged c e h = ground arith

-- The diagram of escrow states, by the call that moves along each edge. A deployment leaves the
-- status alone; a freeze hides it, and an unfreeze always goes to `funded`.
pub data Edge : Call → EscrowStatus → EscrowStatus → Type 0 where
  record_app : {n now : ℕ} {a tx : Text} {s : EscrowStatus} → Edge (deploys n a tx now) s s
  fund : {tx : Text} {now : ℕ} → Edge (funds tx now) EscrowStatus.deployed EscrowStatus.funded
  release :
      {tx r : Text} {d now : ℕ}
      → Edge (releases tx r d now) EscrowStatus.funded EscrowStatus.released
  refund :
      {tx : Text} {d now : ℕ} → Edge (refunds tx d now) EscrowStatus.funded EscrowStatus.refunded
  refund_frozen :
      {tx : Text} {d now : ℕ} → Edge (refunds tx d now) EscrowStatus.frozen EscrowStatus.refunded
  freeze_deployed : {now : ℕ} → Edge (freezes now) EscrowStatus.deployed EscrowStatus.frozen
  freeze_funded : {now : ℕ} → Edge (freezes now) EscrowStatus.funded EscrowStatus.frozen
  unfreeze : {now : ℕ} → Edge (unfreezes now) EscrowStatus.frozen EscrowStatus.funded

ruleset edges =
    (record_app, fund, release, refund, refund_frozen, freeze_deployed, freeze_funded, unfreeze)

-- A call on a well-formed escrow that returns has moved along an edge of the diagram.
call-Edge :
    (c : Call) (e : Escrow) {v : EscrowEvent}
    → IsWellFormed e
    → (call c e).0 ≡ ok v
    → Edge c e.status (call c e).1.status
unfolding call
call-Edge (deploys app address tx now) e h r = grind (arith, edges)
call-Edge (funds tx now) e h r = grind (arith, edges)
call-Edge (releases tx root settled now) e h r = grind (arith, edges)
call-Edge (refunds tx settled now) e h r = grind (arith, edges)
call-Edge (freezes now) e h r = grind (arith, edges)
call-Edge (unfreezes now) e h r = grind (arith, edges)

collect : Result EscrowEvent → List EscrowEvent × Escrow → List EscrowEvent × Escrow
collect (ok v) (vs, e) = (v ∷ vs, e)
collect (err x) rest = rest

-- The events of a history of calls, whose errors the caller has swallowed.
pub run : List Call → Escrow → List EscrowEvent × Escrow
unfolding collect
run [] e = ([], e)
run (c ∷ cs) e = let (r, e') = call c e in collect r (run cs e')

-- How often the events say that the money left the escrow.
abbrev pub payouts : List EscrowEvent → ℕ
payouts [] = 0
payouts (escrow_released i s n tx root ∷ vs) = suc (payouts vs)
payouts (escrow_refunded i s n tx reason ∷ vs) = suc (payouts vs)
payouts (v ∷ vs) = payouts vs

abbrev pub spent : EscrowStatus → ℕ
spent EscrowStatus.released = 1
spent EscrowStatus.refunded = 1
spent _ = 0

abbrev paid : Result EscrowEvent → ℕ
paid (ok v) = payouts (v ∷ [])
paid (err x) = 0

call-spent :
    (c : Call) (e : Escrow)
    → IsWellFormed e
    → paid (call c e).0 + spent e.status ≡ spent (call c e).1.status
unfolding call
call-spent (deploys app address tx now) e h = ground arith
call-spent (funds tx now) e h = ground arith
call-spent (releases tx root settled now) e h = ground arith
call-spent (refunds tx settled now) e h = ground arith
call-spent (freezes now) e h = ground arith
call-spent (unfreezes now) e h = ground arith

payouts-collect :
    (r : Result EscrowEvent) (rest : List EscrowEvent × Escrow)
    → payouts (collect r rest).0 ≡ paid r + payouts rest.0
unfolding collect
payouts-collect (ok (escrow_released i s n tx root)) rest = omega arith
payouts-collect (ok (escrow_refunded i s n tx reason)) rest = omega arith
payouts-collect (ok v) rest = omega arith
payouts-collect (err x) rest = omega arith

collect_state :
    (r : Result EscrowEvent) (rest : List EscrowEvent × Escrow) → (collect r rest).1 ≡ rest.1
unfolding collect
collect_state (ok v) rest = refl
collect_state (err x) rest = refl

-- However an escrow is driven from a well-formed state, the money leaves it at most once, and it
-- has left exactly when the status has become RELEASED or REFUNDED.
pub payouts-run :
    (cs : List Call) (e : Escrow)
    → IsWellFormed e
    → payouts (run cs e).0 + spent e.status ≡ spent (run cs e).1.status
unfolding run
payouts-run [] e h = omega arith
payouts-run (c ∷ cs) e h = rw (collect_state (call c e).0 (run cs (call c e).1)) (
    omega (
      arith,
      payouts-collect (call c e).0 (run cs (call c e).1),
      call-spent c e h,
      payouts-run cs (call c e).1 (call-IsWellFormed c e h),
    ))

-- An escrow that was never funded is taken for funded once it has been frozen and unfrozen: both
-- calls and the release after them return, and no funding transaction was ever recorded.
unfreeze_unfunded :
    (e : Escrow) (t₁ t₂ : ℕ) (tx root : Text) (settled now : ℕ)
    → IsWellFormed e
    → e.status ≡ EscrowStatus.deployed
    → e.fund_tx_id ≡ none
    → let thawed = (call (unfreezes t₂) (call (freezes t₁) e).1).1 in
      (thawed.status ≡ EscrowStatus.funded)
      × (thawed.fund_tx_id ≡ none)
      × ((call (funds tx now) thawed).0 ≡ err conflict)
      × ((call (releases tx root settled now) thawed).1.status ≡ EscrowStatus.released)
unfolding call
unfreeze_unfunded e t₁ t₂ tx root settled now h d n = ground arith
