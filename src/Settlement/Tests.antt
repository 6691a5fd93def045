-- ===== src/Settlement/Tests.antt =====
-- Concrete escrows, contracts and services on which the theorems on settlement/ and contracts/ apply.
use cadencia_platform.Base.{
  ◌≡◌, ◌⊎◌, ◌+◌, refl, arith, true, false, none, some, List, [], ◌∷◌, Text, codes,
}
use cadencia_platform.Settlement.Escrow.{EscrowStatus, Escrow, call}
use cadencia_platform.Settlement.Escrow
use cadencia_platform.Settlement.Escrow.Lifecycle.{IsWellFormed, Edge, payouts-run, payouts, spent}
use cadencia_platform.Settlement.Escrow.Lifecycle
use cadencia_platform.Settlement.Contract.{Contract, Payment, Transaction, execute}
use cadencia_platform.Settlement.Contract.Ledger.{opened, Located, funds-Located}
use cadencia_platform.Settlement.Contract.Ledger
use cadencia_platform.Settlement.Contract.Access.{sender, payout_authorised}
use cadencia_platform.Settlement.Mirror.{
  Op, lockstep, Mirrors, lockstep-Mirrors, thaw_breaks_mirror,
}

abbrev deployed_escrow : Escrow
deployed_escrow = record {
  id = 1;
  created_at = 0;
  updated_at = 0;
  session_id = 2;
  buyer_address = codes "B";
  seller_address = codes "S";
  amount = 5;
  status = EscrowStatus.deployed;
  algo_app_id = some 7;
  algo_app_address = some (codes "A");
  deploy_tx_id = some (codes "D");
  fund_tx_id = none;
  release_tx_id = none;
  refund_tx_id = none;
  merkle_root = none;
  is_frozen = false;
  settled_at = none;
}

abbrev frozen_escrow : Escrow
frozen_escrow = record deployed_escrow { status = EscrowStatus.frozen; is_frozen = true }

abbrev funded_escrow : Escrow
funded_escrow = record deployed_escrow {
  status = EscrowStatus.funded;
  fund_tx_id = some (codes "F");
}

deployed-IsWellFormed : IsWellFormed deployed_escrow
deployed-IsWellFormed = ground arith

funded-IsWellFormed : IsWellFormed funded_escrow
funded-IsWellFormed = ground arith

abbrev history : List Escrow.Call
history =
    Escrow.Call.funds (codes "F") 1
    ∷ Escrow.Call.releases (codes "R") (codes "M") 2 2
    ∷ Escrow.Call.refunds (codes "X") 3 3
    ∷ []

payouts-run_example :
    payouts (Lifecycle.run history deployed_escrow).0 + 0
    ≡ spent (Lifecycle.run history deployed_escrow).1.status
payouts-run_example = payouts-run history deployed_escrow deployed-IsWellFormed

abbrev transactions : List Transaction
transactions =
    Transaction.funds 3 9 5
    ∷ Transaction.freezes 3
    ∷ Transaction.releases 1 (codes "M")
    ∷ Transaction.unfreezes 1
    ∷ Transaction.releases 1 (codes "M")
    ∷ Transaction.refunds 1 (codes "X")
    ∷ []

funds-Located_example :
    let l = Ledger.run (opened 1 9 3 4 5 (codes "S")) transactions in
    Located l.contract.status 5 l.received l.to_seller l.to_buyer
funds-Located_example = funds-Located 1 9 3 4 5 (codes "S") transactions (λ h. absurd (omega arith))

abbrev contract : Contract
contract = record {
  creator = 1;
  address = 9;
  buyer = 3;
  seller = 4;
  amount = 5;
  session_id = codes "S";
  status = 1;
  frozen = 0;
}

abbrev frozen_contract : Contract
frozen_contract = record contract { status = 0; frozen = 1 }

abbrev payment : Payment
payment = record { receiver = 4; amount = 5; note = codes "M" }

abbrev no_payments : List Payment
no_payments = []

abbrev released_contract : Contract
released_contract = record contract { status = 2 }

payout_authorised_example :
    (sender (Transaction.releases 1 (codes "M")) ≡ contract.creator)
    × (contract.status ≡ 1)
    × (contract.frozen ≡ 0)
    × (no_payments ≡ [])
    × (payment.amount ≡ contract.amount)
    × ((payment.receiver ≡ contract.seller) ⊎ (payment.receiver ≡ contract.buyer))
unfolding execute
payout_authorised_example =
    payout_authorised (Transaction.releases 1 (codes "M")) contract released_contract payment
      no_payments refl

mirror_funded : Mirrors contract funded_escrow
mirror_funded = ground arith

mirror_frozen : Mirrors frozen_contract frozen_escrow
mirror_frozen = ground arith

abbrev release : Op
release = Op.release (codes "M") (codes "R") 4 4

lockstep-Mirrors_example :
    Mirrors (lockstep release contract funded_escrow).0 (lockstep release contract funded_escrow).1
lockstep-Mirrors_example = lockstep-Mirrors release contract funded_escrow mirror_funded (λ h. h)

thaw_breaks_mirror_example :
    let (c', e') = lockstep (Op.unfreeze 4) frozen_contract frozen_escrow in
    (e'.status ≡ EscrowStatus.funded)
    × (c'.status ≡ 0)
    × ¬ Mirrors c' e'
    × ((t : Text) → execute (Transaction.releases c'.creator t) c' ≡ none)
    × ((t : Text) → execute (Transaction.refunds c'.creator t) c' ≡ none)
thaw_breaks_mirror_example =
    thaw_breaks_mirror 4 frozen_contract frozen_escrow mirror_frozen (refl, refl)
