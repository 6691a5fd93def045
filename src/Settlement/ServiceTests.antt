-- ===== src/Settlement/ServiceTests.antt =====
-- A concrete chain, wallet and escrow table on which the theorems on settlement/application/services.py
-- and settlement/infrastructure/repositories.py apply.
use cadencia_platform.Base.{
  ℕ, ◌≡◌, refl, arith, true, none, some, [], ◌∷◌, pos, ok, err, policy_violation,
  blockchain_simulation, Text, codes,
}
use cadencia_platform.Settlement.Escrow.{EscrowStatus, Escrow, record_deployment}
use cadencia_platform.Settlement.Values.{
  micro_algo, escrow_amount, algo_app_id, algo_app_address, tx_id, matches_base32,
}
use cadencia_platform.Settlement.Store.{find, find_session, row_by_id, row_by_session, read, put}
use cadencia_platform.Settlement.Rows.{
  escrow_to_model, model_to_escrow, model_to_escrow-escrow_to_model,
}
use cadencia_platform.Settlement.Service.{
  World, Gateway, DeployCommand, DeployReply, reply, new_escrow, deploy_escrow, fund_escrow,
  refund_escrow, freeze_escrow, unfreeze_escrow, release_escrow,
}
use cadencia_platform.Settlement.Service.Atomic.{Atomic, services-Atomic}
use cadencia_platform.Settlement.Service.Deploy.{deploy_escrow-again, deploy_escrow_stuck}

-- A transaction identifier and an address of the lengths that the formats ask for.
abbrev token : Text
token = codes "ABCDEFGHIJKLMNOPQRSTUVWXYZABCDEFGHIJKLMNOPQRSTUVWXYZ"

abbrev address : Text
address = codes "ABCDEFGHIJKLMNOPQRSTUVWXYZABCDEFGHIJKLMNOPQRSTUVWXYZABCDEF"

-- A chain that counts its calls and accepts them all, and one that refuses a deployment.
abbrev accepting : Gateway ℕ
accepting = record {
  deploy = λ b s a i c. (ok (pos 7, address, token), ℕ.suc c);
  fund = λ a t n k c. (ok token, ℕ.suc c);
  release = λ a r c. (ok token, ℕ.suc c);
  refund = λ a r c. (ok token, ℕ.suc c);
  freeze = λ a c. (ok tt, ℕ.suc c);
  unfreeze = λ a c. (ok tt, ℕ.suc c);
  anchor = λ r i c. (ok token, ℕ.suc c);
}

abbrev refusing : Gateway ℕ
refusing = record accepting { deploy = λ b s a i c. (err blockchain_simulation, c) }

abbrev command : DeployCommand
command = record {
  session_id = 2;
  buyer_algo_address = codes "B";
  seller_algo_address = codes "S";
  agreed_price_microalgo = pos 5;
}

abbrev empty_world : World ℕ
empty_world = record {
  escrows = record { get_application_address = λ n. address; rows = [] };
  settlements = [];
  published = [];
  chain = 0;
}

abbrev deployed_reply : DeployReply
deployed_reply = record {
  escrow_id = 1;
  algo_app_id = some 7;
  algo_app_address = some address;
  status = EscrowStatus.deployed;
  tx_id = some token;
}

deploy_escrow-again_example :
    let w' = (deploy_escrow accepting 1 0 1 command empty_world).1 in
    deploy_escrow accepting 9 5 6 command w' ≡ (ok deployed_reply, w')
unfolding deploy_escrow find find_session put new_escrow reply micro_algo escrow_amount algo_app_id
    algo_app_address matches_base32 tx_id record_deployment
deploy_escrow-again_example =
    deploy_escrow-again accepting 1 0 1 9 5 6 command command empty_world {r = deployed_reply} refl
      refl refl refl

deploy_escrow_stuck_example :
    let w' = (deploy_escrow refusing 1 0 1 command empty_world).1 in
    ((deploy_escrow refusing 1 0 1 command empty_world).0 ≡ err blockchain_simulation)
    × (deploy_escrow refusing 9 5 6 command w' ≡ (ok (reply (new_escrow 1 0 command 5)), w'))
    × ((reply (new_escrow 1 0 command 5)).algo_app_id ≡ none)
    × (fund_escrow refusing 1 (codes "K") 8 w' ≡ (err policy_violation, w'))
unfolding find find_session row_by_id row_by_session read
deploy_escrow_stuck_example =
    deploy_escrow_stuck refusing 1 0 1 9 5 6 command command empty_world 5 refl refl refl
      (omega arith) refl refl (codes "K") 8

-- The world after a deployment: its escrow waits for its funding.
abbrev deployed_world : World ℕ
deployed_world = (deploy_escrow accepting 1 0 1 command empty_world).1

services-Atomic_example :
    Atomic 3 deployed_world (fund_escrow accepting 1 (codes "K") 1 deployed_world)
    × Atomic 3 deployed_world
        (release_escrow accepting (λ e. token ∷ []) (λ es. ok token) 1 1 1 deployed_world)
    × Atomic 3 deployed_world (refund_escrow accepting 1 (codes "K") 1 1 deployed_world)
    × Atomic 3 deployed_world (freeze_escrow accepting 1 (codes "K") 1 deployed_world)
    × Atomic 3 deployed_world (unfreeze_escrow accepting 1 1 deployed_world)
services-Atomic_example =
    services-Atomic accepting (λ e. token ∷ []) (λ es. ok token) 1 3 (codes "K") 1 1 deployed_world
      (λ h. absurd (omega arith))

abbrev stored_escrow : Escrow
stored_escrow = record {
  id = 1;
  created_at = 0;
  updated_at = 0;
  session_id = 2;
  buyer_address = codes "B";
  seller_address = codes "S";
  amount = 5;
  status = EscrowStatus.frozen;
  algo_app_id = some 7;
  algo_app_address = some address;
  deploy_tx_id = some token;
  fund_tx_id = none;
  release_tx_id = none;
  refund_tx_id = none;
  merkle_root = none;
  is_frozen = true;
  settled_at = some 3;
}

model_to_escrow-escrow_to_model_example :
    model_to_escrow (λ n. address) (escrow_to_model 7 8 stored_escrow)
    ≡ ok (record stored_escrow { settled_at = none; created_at = 7; updated_at = 8 })
model_to_escrow-escrow_to_model_example =
    model_to_escrow-escrow_to_model (λ n. address) 7 8 stored_escrow
      (record {
        positive = omega arith;
        app = refl;
        address = refl;
        deploy_tx = refl;
        fund_tx = refl;
        release_tx = refl;
        refund_tx = refl;
        root = refl;
      })
      refl
