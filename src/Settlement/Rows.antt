-- ===== src/Settlement/Rows.antt =====
-- The mapping between an escrow and its row, of settlement/infrastructure/repositories.py. The
-- address of an application comes from the Algorand SDK, and is a parameter of the section.
use cadencia_platform.Base.{
  ℕ, ◌<◌, ◌≡◌, Bool, true, Option, none, some, [], ◌∷◌, arith, ◌==◌, if◌then◌else◌, ℤ, pos, Result,
  ok, err, Text,
}
use cadencia_platform.Settlement.Values.{micro_algo, escrow_amount}
use cadencia_platform.Settlement.Escrow.{EscrowStatus, Escrow, is_frozen_status}

-- `EscrowContractModel`: it has no column for the settlement time.
pub record Row : Type 0 where
  pub id : ℕ
  pub session_id : ℕ
  pub algo_app_id : Option ℕ
  pub amount_microalgo : ℤ
  pub buyer_algorand_address : Text
  pub seller_algorand_address : Text
  pub status : EscrowStatus
  pub is_frozen : Bool
  pub deploy_tx_id : Option Text
  pub fund_tx_id : Option Text
  pub release_tx_id : Option Text
  pub refund_tx_id : Option Text
  pub merkle_root : Option Text
  pub created_at : ℕ
  pub updated_at : ℕ

-- `x if x else None` for a text and for a number: an empty text and a zero count as absent.
abbrev pub truthy_text : Option Text → Option Text
truthy_text none = none
truthy_text (some []) = none
truthy_text (some (c ∷ t)) = some (c ∷ t)

-- `AlgoAppId(value=n) if n else None`.
abbrev pub app_of : Option ℕ → Option ℕ
app_of none = none
app_of (some n) = if n == 0 then none else some n

-- `_escrow_to_model`, which writes neither of the two times: the database stamps both.
unfoldable pub escrow_to_model : (created updated : ℕ) → Escrow → Row
escrow_to_model created updated e = record {
  id = e.id;
  session_id = e.session_id;
  algo_app_id = e.algo_app_id;
  amount_microalgo = pos e.amount;
  buyer_algorand_address = e.buyer_address;
  seller_algorand_address = e.seller_address;
  status = if is_frozen_status e.status then EscrowStatus.funded else e.status;
  is_frozen = if is_frozen_status e.status then true else e.is_frozen;
  deploy_tx_id = e.deploy_tx_id;
  fund_tx_id = e.fund_tx_id;
  release_tx_id = e.release_tx_id;
  refund_tx_id = e.refund_tx_id;
  merkle_root = e.merkle_root;
  created_at = created;
  updated_at = updated;
}

module _ (address_of : ℕ → Text) where
  abbrev pub address_for : Option ℕ → Option Text
  address_for none = none
  address_for (some n) = some (address_of n)

  unfoldable pub load_row : Row → ℕ → Escrow
  load_row row amount = record {
    id = row.id;
    created_at = row.created_at;
    updated_at = row.updated_at;
    session_id = row.session_id;
    buyer_address = row.buyer_algorand_address;
    seller_address = row.seller_algorand_address;
    amount = amount;
    status = if row.is_frozen then EscrowStatus.frozen else row.status;
    algo_app_id = app_of row.algo_app_id;
    algo_app_address = address_for row.algo_app_id;
    deploy_tx_id = truthy_text row.deploy_tx_id;
    fund_tx_id = truthy_text row.fund_tx_id;
    release_tx_id = truthy_text row.release_tx_id;
    refund_tx_id = truthy_text row.refund_tx_id;
    merkle_root = truthy_text row.merkle_root;
    is_frozen = row.is_frozen;
    settled_at = none;
  }

  -- `_model_to_escrow`.
  pub model_to_escrow : Row → Result Escrow
  unfolding load_row micro_algo escrow_amount
  model_to_escrow row = elim (micro_algo row.amount_microalgo) [
    | err x ↦ err x
    | ok m ↦ elim (escrow_amount m) [ err x ↦ err x | ok n ↦ ok (load_row row n) ]
  ]

  -- What the value objects guarantee of an escrow: a positive amount, a positive application with
  -- its own address, and no empty transaction identifier or Merkle root.
  pub record IsStorable (e : Escrow) : Type 0 where
    pub positive : 0 < e.amount
    pub app : app_of e.algo_app_id ≡ e.algo_app_id
    pub address : address_for e.algo_app_id ≡ e.algo_app_address
    pub deploy_tx : truthy_text e.deploy_tx_id ≡ e.deploy_tx_id
    pub fund_tx : truthy_text e.fund_tx_id ≡ e.fund_tx_id
    pub release_tx : truthy_text e.release_tx_id ≡ e.release_tx_id
    pub refund_tx : truthy_text e.refund_tx_id ≡ e.refund_tx_id
    pub root : truthy_text e.merkle_root ≡ e.merkle_root

  pub model_to_escrow-escrow_to_model :
      (created updated : ℕ) (e : Escrow)
      → IsStorable e
      → e.is_frozen ≡ is_frozen_status e.status
      → model_to_escrow (escrow_to_model created updated e)
        ≡ ok (record e { settled_at = none; created_at = created; updated_at = updated })
  unfolding model_to_escrow escrow_to_model
  model_to_escrow-escrow_to_model created updated e h f = ground arith
