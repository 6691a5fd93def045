-- ===== src/Settlement/Escrow.antt =====
-- The escrow aggregate of settlement/domain/escrow.py, method by method. Identifiers are numbers
-- that are only compared, and each reading of the clock is an argument of the method that makes it.
pub mod Lifecycle
use cadencia_platform.Base.{
  ℕ, Bool, true, false, not, ◌&&◌, ◌||◌, Option, none, some, is_some, Action, ◌>>=◌, ◌>>◌, gets,
  modify, raise_if, conflict, policy_violation, Text, codes,
}

pub data EscrowStatus : Type 0 where
  deployed funded released refunded frozen : EscrowStatus

-- `amount` is an `EscrowAmount`, positive once built; the other value objects are their values.
pub record Escrow : Type 0 where
  pub id : ℕ
  pub created_at : ℕ
  pub updated_at : ℕ
  pub session_id : ℕ
  pub buyer_address : Text
  pub seller_address : Text
  pub amount : ℕ
  pub status : EscrowStatus
  pub algo_app_id : Option ℕ
  pub algo_app_address : Option Text
  pub deploy_tx_id : Option Text
  pub fund_tx_id : Option Text
  pub release_tx_id : Option Text
  pub refund_tx_id : Option Text
  pub merkle_root : Option Text
  pub is_frozen : Bool
  pub settled_at : Option ℕ

-- The events that the methods return, with their payloads in the order of the source.
pub data EscrowEvent : Type 0 where
  escrow_deployed : (escrow session app : ℕ) (tx : Text) → EscrowEvent
  escrow_funded : (escrow session amount : ℕ) (tx : Text) → EscrowEvent
  escrow_released : (escrow session amount : ℕ) (tx root : Text) → EscrowEvent
  escrow_refunded : (escrow session amount : ℕ) (tx reason : Text) → EscrowEvent
  escrow_frozen : (escrow session : ℕ) (frozen_by : Text) → EscrowEvent
  escrow_unfrozen : (escrow session : ℕ) → EscrowEvent

abbrev pub is_deployed : EscrowStatus → Bool
is_deployed EscrowStatus.deployed = true
is_deployed _ = false

abbrev pub is_funded : EscrowStatus → Bool
is_funded EscrowStatus.funded = true
is_funded _ = false

abbrev pub is_frozen_status : EscrowStatus → Bool
is_frozen_status EscrowStatus.frozen = true
is_frozen_status _ = false

-- `status in (RELEASED, REFUNDED)`.
abbrev pub is_terminal : EscrowStatus → Bool
is_terminal EscrowStatus.released = true
is_terminal EscrowStatus.refunded = true
is_terminal _ = false

unfoldable pub record_deployment : ℕ → Text → Text → ℕ → Action Escrow EscrowEvent
record_deployment app address tx now = do
  raise_if (is_some (← gets (λ e. e.algo_app_id))) conflict
  modify λ e. record e {
    algo_app_id = some app;
    algo_app_address = some address;
    deploy_tx_id = some tx;
    updated_at = now;
  }
  gets λ e. escrow_deployed e.id e.session_id app tx

unfoldable pub record_funding : Text → ℕ → Action Escrow EscrowEvent
record_funding tx now = do
  raise_if (← gets (λ e. e.is_frozen)) policy_violation
  raise_if (not (is_deployed (← gets (λ e. e.status)))) conflict
  modify λ e. record e { status = EscrowStatus.funded; fund_tx_id = some tx; updated_at = now }
  gets λ e. escrow_funded e.id e.session_id e.amount tx

unfoldable pub record_release : Text → Text → ℕ → ℕ → Action Escrow EscrowEvent
record_release tx root settled now = do
  raise_if (← gets (λ e. e.is_frozen)) policy_violation
  raise_if (not (is_funded (← gets (λ e. e.status)))) conflict
  modify λ e. record e {
    status = EscrowStatus.released;
    release_tx_id = some tx;
    merkle_root = some root;
    settled_at = some settled;
    updated_at = now;
  }
  gets λ e. escrow_released e.id e.session_id e.amount tx root

unfoldable pub record_refund : Text → ℕ → ℕ → Action Escrow EscrowEvent
record_refund tx settled now = do
  status ← gets (λ e. e.status)
  raise_if (not (is_funded status) && not (is_frozen_status status)) conflict
  modify λ e. record e {
    status = EscrowStatus.refunded;
    is_frozen = false;
    refund_tx_id = some tx;
    settled_at = some settled;
    updated_at = now;
  }
  gets λ e. escrow_refunded e.id e.session_id e.amount tx (codes "")

unfoldable pub freeze : ℕ → Action Escrow EscrowEvent
freeze now = do
  raise_if (is_terminal (← gets (λ e. e.status))) conflict
  raise_if (← gets (λ e. e.is_frozen)) conflict
  modify λ e. record e { is_frozen = true; status = EscrowStatus.frozen; updated_at = now }
  gets λ e. escrow_frozen e.id e.session_id (codes "ADMIN")

unfoldable pub unfreeze : ℕ → Action Escrow EscrowEvent
unfreeze now = do
  raise_if (not (← gets (λ e. e.is_frozen))) conflict
  modify λ e. record e { is_frozen = false; status = EscrowStatus.funded; updated_at = now }
  gets λ e. escrow_unfrozen e.id e.session_id

-- A call of one of the six methods, with its arguments.
pub data Call : Type 0 where
  deploys : (app : ℕ) (address tx : Text) (now : ℕ) → Call
  funds : (tx : Text) (now : ℕ) → Call
  releases : (tx root : Text) (settled now : ℕ) → Call
  refunds : (tx : Text) (settled now : ℕ) → Call
  freezes unfreezes : (now : ℕ) → Call

unfoldable pub call : Call → Action Escrow EscrowEvent
unfolding record_deployment record_funding record_release record_refund freeze unfreeze
call (deploys app address tx now) = record_deployment app address tx now
call (funds tx now) = record_funding tx now
call (releases tx root settled now) = record_release tx root settled now
call (refunds tx settled now) = record_refund tx settled now
call (freezes now) = freeze now
call (unfreezes now) = unfreeze now
