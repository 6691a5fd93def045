-- ===== src/Settlement/ChainTests.antt =====
-- A node, an environment and an escrow on which the theorems on settlement/infrastructure/algorand_gateway.py and the
-- wallet's route of settlement/api/router.py apply.
use cadencia_platform.Base.{List, ℕ, ◌≡◌, refl, none, some, [], ◌∷◌, pos, ok, Text, codes, false}
use cadencia_platform.Settlement.Values.{merkle_root}
use cadencia_platform.Settlement.Escrow.{EscrowStatus, Escrow}
use cadencia_platform.Settlement.Rows.{load_row, escrow_to_model}
use cadencia_platform.Settlement.Store.{find, row_by_id, read, row_of}
use cadencia_platform.Settlement.Service.{
  World, Gateway, fund_escrow, release_escrow, refund_escrow, freeze_escrow, unfreeze_escrow,
}
use cadencia_platform.Settlement.Algorand.{Node, Receipt, Environment, is_on, is_rejected, gateway}
use cadencia_platform.Settlement.Algorand.DryRuns.{Held, services-rejected}
use cadencia_platform.Settlement.Algorand.Wallet
use cadencia_platform.Settlement.Algorand.Wallet.{Attempt, wallet_funding_stuck}

abbrev receipt : Receipt
receipt = record { tx_id = some (codes "T"); txid = none }

-- A node that counts its calls and rejects every application's dry run.
abbrev node : Node ℕ
node = record {
  app_dryrun = λ a c. (ok ((codes "logic REJECT" ∷ []) ∷ []), ℕ.suc c);
  group_dryrun = λ t c. (ok ((codes "reject" ∷ []) ∷ []), ℕ.suc c);
  anchor_params = λ c. (ok tt, c);
  anchor_dryrun = λ n c. (ok [], c);
  deploy = λ b s a i c. (ok (pos 7, receipt), ℕ.suc c);
  fund = λ a f n c. (ok receipt, ℕ.suc c);
  release = λ a r c. (ok receipt, ℕ.suc c);
  refund = λ a r c. (ok receipt, ℕ.suc c);
  freeze = λ a c. (ok receipt, ℕ.suc c);
  unfreeze = λ a c. (ok receipt, ℕ.suc c);
  send_note = λ n c. (ok (codes "T"), ℕ.suc c);
  send_raw_transaction = λ t c. (ok (codes "T"), ℕ.suc c);
  wait_for_confirmation = λ t n c. (ok 5, c);
}

abbrev environment : Environment
environment = record {
  escrow_dry_run_enabled = some (codes "True");
  x402_simulation_mode = none;
  anchor_service_enabled = none;
}

abbrev escrow : Escrow
escrow = record {
  id = 1;
  created_at = 0;
  updated_at = 0;
  session_id = 2;
  buyer_address = codes "B";
  seller_address = codes "S";
  amount = 5;
  status = EscrowStatus.deployed;
  algo_app_id = some 7;
  algo_app_address = some (codes "A");
  deploy_tx_id = none;
  fund_tx_id = none;
  release_tx_id = none;
  refund_tx_id = none;
  merkle_root = none;
  is_frozen = false;
  settled_at = none;
}

abbrev world : World ℕ
world = record {
  escrows = record { get_application_address = λ n. codes "A"; rows = row_of escrow ∷ [] };
  settlements = [];
  published = [];
  chain = 3;
}

abbrev root : Text
root = codes "00000000000000000000000000000000ffffffffffffffffffffffffffffffff"

-- The two adapters over the node.
abbrev port : Gateway ℕ
port = gateway environment node (λ a. codes "A") (λ k. ok (codes "F")) (λ s. codes "2")

services-rejected_example :
    Held world 4 (fund_escrow port 1 (codes "K") 9 world)
    × Held world 4 (release_escrow port (λ e. []) (λ es. ok root) 1 8 9 world)
    × Held world 4 (refund_escrow port 1 (codes "K") 8 9 world)
    × Held world 4 (freeze_escrow port 1 (codes "K") 9 world)
    × Held world 4 (unfreeze_escrow port 1 9 world)
unfolding find row_by_id read row_of load_row escrow_to_model merkle_root is_on is_rejected
services-rejected_example =
    services-rejected environment node (λ a. codes "A") (λ k. ok (codes "F")) (λ s. codes "2")
      (λ e. []) (λ es. ok root) 1 7 8 9 (codes "K") root root world 4 escrow
      ((codes "logic REJECT" ∷ []) ∷ []) refl refl refl refl refl refl refl refl

abbrev attempts : List Attempt
attempts = Attempt.release 8 9 ∷ Attempt.refund (codes "R") 8 9 ∷ Attempt.release 10 11 ∷ []

wallet_funding_stuck_example :
    let w' = (Wallet.submit_signed_fund environment node ok 1 (codes "X" ∷ []) world).1 in
    let (returned, w'') =
      Wallet.payouts environment node ok port (λ e. []) (λ es. ok root) 1 attempts w' in
    (w'.escrows ≡ world.escrows)
    × (returned ≡ false)
    × (w''.escrows ≡ world.escrows)
    × (w''.settlements ≡ world.settlements)
unfolding find row_by_id read row_of load_row escrow_to_model
wallet_funding_stuck_example =
    wallet_funding_stuck environment node ok port (λ e. []) (λ es. ok root) 1 (codes "X" ∷ [])
      attempts world escrow refl refl
