-- ===== src/Settlement/Service.antt =====
-- `SettlementService` of settlement/application/services.py. Its ports are parameters: the gateway
-- to the chain, the anchor, the audit trail and the Merkle service. A commit succeeds, and
-- publishing an event adds it to the list of published events, since a failing handler does not
-- propagate. Metrics and logs are left out.
pub mod Deploy
pub mod Atomic
use cadencia_platform.Base.{
  ℕ, Bool, Option, none, some, is_none, ◌||◌, List, [], ◌∷◌, ◌++◌, ℤ, Result, ok, err, Action,
  ◌>>=◌, ◌>>◌, pure, raise, gets, lift, or_raise, raise_if, modify, not_found, policy_violation,
  Text,
}
use cadencia_platform.Settlement.Values.{
  tx_id, algo_app_address, algo_app_id, micro_algo, escrow_amount, merkle_root,
}
use cadencia_platform.Settlement.Escrow.{
  EscrowStatus, Escrow, EscrowEvent, escrow_deployed, escrow_funded, escrow_released,
  escrow_refunded, escrow_frozen, escrow_unfrozen, record_deployment, record_funding,
  record_release, record_refund, freeze, unfreeze,
}
use cadencia_platform.Settlement.Store.{Repository, find, find_session, put}

-- `Settlement` of settlement/domain/settlement.py.
pub record Settlement : Type 0 where
  pub escrow_id : ℕ
  pub milestone_index : ℕ
  pub amount : ℕ
  pub tx_id : Text
  pub settled_at : Option ℕ

-- The database, the published events (oldest first) and the chain behind the gateway.
pub record World (W : Type 0) : Type 0 where
  pub escrows : Repository
  pub settlements : List Settlement
  pub published : List EscrowEvent
  pub chain : W

-- `IBlockchainGateway` and `IAnchorService`: each call may raise, and may have moved the chain.
pub record Gateway (W : Type 0) : Type 0 where
  pub deploy : (buyer seller : Text) (amount : ℤ) (session : ℕ) → Action W (ℤ × Text × Text)
  pub fund : (app : ℕ) (address : Text) (amount : ℕ) (funder_sk : Text) → Action W Text
  pub release : (app : ℕ) (root : Text) → Action W Text
  pub refund : (app : ℕ) (reason : Text) → Action W Text
  pub freeze : (app : ℕ) → Action W (Unit {0})
  pub unfreeze : (app : ℕ) → Action W (Unit {0})
  pub anchor : (root : Text) (session : ℕ) → Action W Text

pub record DeployCommand : Type 0 where
  pub session_id : ℕ
  pub buyer_algo_address : Text
  pub seller_algo_address : Text
  pub agreed_price_microalgo : ℤ

pub record DeployReply : Type 0 where
  pub escrow_id : ℕ
  pub algo_app_id : Option ℕ
  pub algo_app_address : Option Text
  pub status : EscrowStatus
  pub tx_id : Option Text

-- What `deploy_escrow` answers about an escrow.
unfoldable pub reply : Escrow → DeployReply
reply e = record {
  escrow_id = e.id;
  algo_app_id = e.algo_app_id;
  algo_app_address = e.algo_app_address;
  status = e.status;
  tx_id = e.deploy_tx_id;
}

-- `Escrow(...)` of `deploy_escrow`; one reading of the clock stands for both of its times.
unfoldable pub new_escrow : ℕ → ℕ → DeployCommand → ℕ → Escrow
new_escrow id now cmd amount = record {
  id = id;
  created_at = now;
  updated_at = now;
  session_id = cmd.session_id;
  buyer_address = cmd.buyer_algo_address;
  seller_address = cmd.seller_algo_address;
  amount = amount;
  status = EscrowStatus.deployed;
  algo_app_id = none;
  algo_app_address = none;
  deploy_tx_id = none;
  fund_tx_id = none;
  release_tx_id = none;
  refund_tx_id = none;
  merkle_root = none;
  is_frozen = Bool.false;
  settled_at = none;
}

-- `EscrowRefunded(... reason=cmd.reason)` and `EscrowFrozen(... frozen_by=cmd.frozen_by_role)`.
abbrev with_reason : Text → EscrowEvent → EscrowEvent
with_reason reason (escrow_refunded i s n tx r) = escrow_refunded i s n tx reason
with_reason reason v = v

abbrev with_role : Text → EscrowEvent → EscrowEvent
with_role role (escrow_frozen i s by) = escrow_frozen i s role
with_role role v = v

module _ {W : Type 0} where
  -- A call of the gateway, on the chain alone.
  unfoldable pub on_chain : {A : Type 0} → Action W A → Action (World W) A
  on_chain m w = let (r, c) = m w.chain in (r, record w { chain = c })

  -- A method of the aggregate in memory; what it changes is stored by a later `store`.
  unfoldable pub on_escrow : {A : Type 0} → Action Escrow A → Escrow → Action (World W) (A × Escrow)
  on_escrow m e w = let (r, e') = m e in elim r [ ok a ↦ (ok (a, e'), w) | err x ↦ (err x, w) ]

  -- `save` or `update`, and the commit.
  unfoldable pub store : Escrow → Action (World W) (Unit {0})
  store e = modify λ w. record w { escrows = put e w.escrows }

  unfoldable pub publish : EscrowEvent → Action (World W) (Unit {0})
  publish v = modify λ w. record w { published = w.published ++ v ∷ [] }

  unfoldable pub load : ℕ → Action (World W) Escrow
  load i = do or_raise (← gets (λ w. find i w.escrows)) not_found

module _ {W : Type 0} (g : Gateway W) where
  -- Steps 2 to 7 of `deploy_escrow`; `id` is the fresh identifier of the new escrow.
  deploy_new : (id created now : ℕ) → DeployCommand → Action (World W) DeployReply
  unfolding on_chain on_escrow store publish
  deploy_new id created now cmd = do
    micro ← lift (micro_algo cmd.agreed_price_microalgo)
    amount ← lift (escrow_amount micro)
    store (new_escrow id created cmd amount)
    raw ← on_chain (
        g.deploy cmd.buyer_algo_address cmd.seller_algo_address cmd.agreed_price_microalgo
          cmd.session_id)
    app ← lift (algo_app_id raw.0)
    address ← lift (algo_app_address raw.1)
    tx ← lift (tx_id raw.2)
    deployed ← on_escrow (record_deployment app address tx now) (new_escrow id created cmd amount)
    store deployed.1
    publish deployed.0
    pure (reply deployed.1)

  unfoldable pub deploy_escrow : (id created now : ℕ) → DeployCommand → Action (World W) DeployReply
  unfolding deploy_new
  deploy_escrow id created now cmd w = elim (find_session cmd.session_id w.escrows) [
    | none ↦ deploy_new id created now cmd w
    | some e ↦ (ok (reply e), w)
  ]

  unfoldable pub fund_escrow :
      (id : ℕ) (funder_sk : Text) (now : ℕ) → Action (World W) (ℕ × EscrowStatus × Text)
  unfolding load on_chain on_escrow store publish
  fund_escrow id funder_sk now = do
    e ← load id
    app ← or_raise e.algo_app_id policy_violation
    address ← or_raise e.algo_app_address policy_violation
    raw ← on_chain (g.fund app address e.amount funder_sk)
    tx ← lift (tx_id raw)
    funded ← on_escrow (record_funding tx now) e
    store funded.1
    publish funded.0
    pure (e.id, funded.1.status, raw)

  unfoldable pub refund_escrow :
      (id : ℕ) (reason : Text) (settled now : ℕ) → Action (World W) (ℕ × EscrowStatus × Text × Text)
  unfolding load on_chain on_escrow store publish
  refund_escrow id reason settled now = do
    e ← load id
    app ← or_raise e.algo_app_id policy_violation
    raw ← on_chain (g.refund app reason)
    tx ← lift (tx_id raw)
    refunded ← on_escrow (record_refund tx settled now) e
    store refunded.1
    publish (with_reason reason refunded.0)
    pure (e.id, refunded.1.status, raw, reason)

  unfoldable pub freeze_escrow :
      (id : ℕ) (frozen_by_role : Text) (now : ℕ) → Action (World W) (ℕ × EscrowStatus)
  unfolding load on_chain on_escrow store publish
  freeze_escrow id frozen_by_role now = do
    e ← load id
    app ← or_raise e.algo_app_id policy_violation
    on_chain (g.freeze app)
    frozen ← on_escrow (freeze now) e
    store frozen.1
    publish (with_role frozen_by_role frozen.0)
    pure (e.id, frozen.1.status)

  unfoldable pub unfreeze_escrow : (id : ℕ) (now : ℕ) → Action (World W) (ℕ × EscrowStatus)
  unfolding load on_chain on_escrow store publish
  unfreeze_escrow id now = do
    e ← load id
    app ← or_raise e.algo_app_id policy_violation
    on_chain (g.unfreeze app)
    unfrozen ← on_escrow (unfreeze now) e
    store unfrozen.1
    publish unfrozen.0
    pure (e.id, unfrozen.1.status)

-- `release_escrow` also asks the audit trail for its entries and the Merkle service for their root.
module _ {W : Type 0} (g : Gateway W) (audit_entries : Escrow → List Text)
    (compute_root : List Text → Result Text) where
  unfoldable pub release_escrow :
      (id : ℕ) (settled now : ℕ) → Action (World W) (ℕ × EscrowStatus × Text × Text × Text)
  unfolding load on_chain on_escrow store publish
  release_escrow id settled now = do
    e ← load id
    app ← or_raise e.algo_app_id policy_violation
    root_text ← lift (compute_root (audit_entries e))
    root ← lift (merkle_root root_text)
    raw ← on_chain (g.release app root)
    anchor_tx ← on_chain (g.anchor root e.session_id)
    tx ← lift (tx_id raw)
    released ← on_escrow (record_release tx root settled now) e
    store released.1
    modify λ w. record w {
      settlements =
          w.settlements
          ++ record {
            escrow_id = e.id;
            milestone_index = 0;
            amount = e.amount;
            tx_id = tx;
            settled_at = released.1.settled_at;
          }
            ∷ [];
    }
    publish released.0
    pure (e.id, released.1.status, raw, root, anchor_tx)
