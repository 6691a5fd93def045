-- ===== src/Settlement/Mirror.antt =====
-- The escrow of settlement/domain/escrow.py beside the contract of contracts/escrow_contract.py,
-- driven in the order of settlement/application/services.py: the chain first, and the aggregate
-- only when the chain has accepted.
use cadencia_platform.Base.{
  ℕ, ◌≡◌, ◌≢◌, ◌⊎◌, Option, none, some, List, arith, DomainError, err, Text,
}
use cadencia_platform.Settlement.Escrow.{EscrowStatus, Escrow, EscrowEvent, call}
use cadencia_platform.Settlement.Escrow
use cadencia_platform.Settlement.Contract.{Contract, Outcome, Transaction, execute}
use cadencia_platform.Settlement.Contract

-- One service call. The platform's key sends all but the funding, whose payment goes to the
-- application's address; `tx`, `root` and the times are what the ports answered.
pub data Op : Type 0 where
  fund : (sender : ℕ) (tx : Text) (now : ℕ) → Op
  release : (root tx : Text) (settled now : ℕ) → Op
  refund : (reason tx : Text) (settled now : ℕ) → Op
  freeze unfreeze : (now : ℕ) → Op

-- The transaction that the gateway sends.
unfoldable pub on_chain : Op → Contract → Escrow → Transaction
on_chain (Op.fund sender tx now) c e = Transaction.funds sender c.address e.amount
on_chain (Op.release root tx settled now) c e = Transaction.releases c.creator root
on_chain (Op.refund reason tx settled now) c e = Transaction.refunds c.creator reason
on_chain (Op.freeze now) c e = Transaction.freezes c.creator
on_chain (Op.unfreeze now) c e = Transaction.unfreezes c.creator

-- The method of the aggregate that follows it.
unfoldable pub on_aggregate : Op → Escrow.Call
on_aggregate (Op.fund sender tx now) = Escrow.Call.funds tx now
on_aggregate (Op.release root tx settled now) = Escrow.Call.releases tx root settled now
on_aggregate (Op.refund reason tx settled now) = Escrow.Call.refunds tx settled now
on_aggregate (Op.freeze now) = Escrow.Call.freezes now
on_aggregate (Op.unfreeze now) = Escrow.Call.unfreezes now

follow : Op → Contract → Escrow → Outcome → Contract × Escrow
unfolding on_aggregate
follow op c e none = (c, e)
follow op c e (some (c', payments)) = (c', (call (on_aggregate op) e).1)

pub lockstep : Op → Contract → Escrow → Contract × Escrow
unfolding on_chain follow
lockstep op c e = follow op c e (execute (on_chain op c e) c)

-- The aggregate tells the truth about the contract. A freeze hides whether the contract was funded,
-- which the funding transaction then tells; once the money has left, the freeze flag is immaterial.
abbrev pub Agrees : EscrowStatus → Option Text → Contract → Type 0
Agrees EscrowStatus.deployed fund_tx c = (c.status ≡ 0) × (c.frozen ≡ 0) × (fund_tx ≡ none)
Agrees EscrowStatus.funded fund_tx c = (c.status ≡ 1) × (c.frozen ≡ 0) × (fund_tx ≢ none)
Agrees EscrowStatus.released fund_tx c = c.status ≡ 2
Agrees EscrowStatus.refunded fund_tx c = c.status ≡ 3
Agrees EscrowStatus.frozen fund_tx c =
    (c.frozen ≡ 1) × (((c.status ≡ 0) × (fund_tx ≡ none)) ⊎ ((c.status ≡ 1) × (fund_tx ≢ none)))

pub record Mirrors (c : Contract) (e : Escrow) : Type 0 where
  pub amounts : c.amount ≡ e.amount
  pub status : Agrees e.status e.fund_tx_id c
  pub flag : e.is_frozen ≡ Escrow.is_frozen_status e.status

-- The one call that breaks the mirror: an unfreeze before any funding.
abbrev pub ThawsUnfunded : Op → Escrow → Type 0
ThawsUnfunded (Op.unfreeze now) e = (e.status ≡ EscrowStatus.frozen) × (e.fund_tx_id ≡ none)
ThawsUnfunded op e = ⊥

pub lockstep-Mirrors :
    (op : Op) (c : Contract) (e : Escrow)
    → Mirrors c e
    → ¬ ThawsUnfunded op e
    → Mirrors (lockstep op c e).0 (lockstep op c e).1
unfolding lockstep execute call
lockstep-Mirrors (Op.fund sender tx now) c e h k = ground arith
lockstep-Mirrors (Op.release root tx settled now) c e h k = ground arith
lockstep-Mirrors (Op.refund reason tx settled now) c e h k = ground arith
lockstep-Mirrors (Op.freeze now) c e h k = ground arith
lockstep-Mirrors (Op.unfreeze now) c e h k = ground arith

-- The calls that move the money.
abbrev pub MovesMoney : Op → Type 0
MovesMoney (Op.freeze now) = ⊥
MovesMoney (Op.unfreeze now) = ⊥
MovesMoney op = Unit

-- When the aggregate mirrors the contract and the contract has accepted a funding, a release or a
-- refund, the aggregate does not raise, so the money never moves without the database.
aggregate_accepts :
    (op : Op) (c : Contract) (e : Escrow) (r : Contract × List Contract.Payment)
    → Mirrors c e
    → MovesMoney op
    → execute (on_chain op c e) c ≡ some r
    → (x : DomainError) → (call (on_aggregate op) e).0 ≢ err x
unfolding on_chain on_aggregate execute call
aggregate_accepts (Op.fund sender tx now) c e r h k a x = ground arith
aggregate_accepts (Op.release root tx settled now) c e r h k a x = ground arith
aggregate_accepts (Op.refund reason tx settled now) c e r h k a x = ground arith
aggregate_accepts (Op.freeze now) c e r h k a x = absurd k
aggregate_accepts (Op.unfreeze now) c e r h k a x = absurd k

-- Unfreezing an escrow that was frozen before any funding always breaks the mirror: the aggregate
-- says FUNDED, the contract still waits for its funding, and refuses both release and refund.
pub thaw_breaks_mirror :
    (now : ℕ) (c : Contract) (e : Escrow)
    → Mirrors c e
    → ThawsUnfunded (Op.unfreeze now) e
    → let (c', e') = lockstep (Op.unfreeze now) c e in
      (e'.status ≡ EscrowStatus.funded)
      × (c'.status ≡ 0)
      × ¬ Mirrors c' e'
      × ((t : Text) → execute (Transaction.releases c'.creator t) c' ≡ none)
      × ((t : Text) → execute (Transaction.refunds c'.creator t) c' ≡ none)
unfolding lockstep execute call
thaw_breaks_mirror now c e h k = ground arith

-- A refund of a frozen escrow changes neither side, since the contract rejects it, although the
-- aggregate alone would have taken it.
frozen_refund_rejected :
    (reason tx : Text) (settled now : ℕ) (c : Contract) (e : Escrow)
    → Mirrors c e
    → e.status ≡ EscrowStatus.frozen
    → (lockstep (Op.refund reason tx settled now) c e ≡ (c, e))
      × ((call (on_aggregate (Op.refund reason tx settled now)) e).1.status ≡ EscrowStatus.refunded)
unfolding lockstep on_aggregate execute call
frozen_refund_rejected reason tx settled now c e h k = ground arith
