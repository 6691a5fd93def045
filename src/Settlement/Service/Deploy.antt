-- ===== src/Settlement/Service/Deploy.antt =====
-- `deploy_escrow` of settlement/application/services.py under retries.
use cadencia_platform.Base.{
  ℕ, ◌≡◌, refl, false, none, some, [], ◌∷◌, ℤ, arith, pos, ok, err, DomainError, policy_violation,
  Text, ◌<◌, ap, ◌∙◌, Result-cases, Option-cases, inl, inr,
}
use cadencia_platform.Settlement.Values.{
  micro_algo, escrow_amount, algo_app_id, algo_app_address, tx_id, matches_base32,
}
use cadencia_platform.Settlement.Rows.{load_row, escrow_to_model, truthy_text, app_of, address_for}
use cadencia_platform.Settlement.Escrow.{Escrow, record_deployment}
use cadencia_platform.Settlement.Store.{
  Repository, find, find_session, put, find-put, put-put, find_session-put_new, read, row_of,
}
use cadencia_platform.Settlement.Service.{
  World, DeployReply, Gateway, DeployCommand, reply, new_escrow, deploy_escrow, fund_escrow,
}

no_base32 : matches_base32 52 [] ≡ false
unfolding matches_base32
no_base32 = refl

tx_id_kept : (t x : Text) → tx_id t ≡ ok x → truthy_text (some x) ≡ some x
unfolding tx_id
tx_id_kept [] x h = let wrong = no_base32 in absurd (ground arith)
tx_id_kept (c ∷ t) x h = ground arith

algo_app_id_kept : (n : ℤ) (a : ℕ) → algo_app_id n ≡ ok a → app_of (some a) ≡ some a
unfolding algo_app_id
algo_app_id_kept n a h = ground arith

as_deployed : (id created now : ℕ) → DeployCommand → (n app : ℕ) → (address tx : Text) → Escrow
as_deployed id created now cmd n app address tx = record (new_escrow id created cmd n) {
  algo_app_id = some app;
  algo_app_address = some address;
  deploy_tx_id = some tx;
  updated_at = now;
}

-- A deployed escrow is the one found for its session, and its answer is read back.
found_again :
    (id created now : ℕ) (cmd : DeployCommand) (r : Repository) (n app : ℕ) (address tx t : Text)
    (a : ℤ)
    → find id r ≡ none
    → find_session cmd.session_id r ≡ none
    → algo_app_id a ≡ ok app
    → tx_id t ≡ ok tx
    → address ≡ r.get_application_address app
    → let e = as_deployed id created now cmd n app address tx in
      (e' : Escrow) × (find_session cmd.session_id (put e (put (new_escrow id created cmd n) r))
        ≡ some e')
      × (reply e' ≡ reply e)
unfolding as_deployed new_escrow reply read row_of load_row escrow_to_model
found_again id created now cmd r n app address tx t a fresh first apps txs own =
    let e = as_deployed id created now cmd n app address tx in
    let once = put-put (new_escrow id created cmd n) e r refl in
    let stored = find_session-put_new e r fresh first in
    let kept = algo_app_id_kept a app apps in
    let kept' = tx_id_kept t tx txs in
    (
      load_row r.get_application_address (row_of e) n,
      ap (find_session cmd.session_id) once ∙ stored,
      ground arith,
    )

module _ {W : Type 0} (g : Gateway W) where
  deployed_again :
      (id created now id' created' now' : ℕ) (cmd cmd' : DeployCommand) (w : World W)
      {r : DeployReply} (m n app : ℕ) (address tx : Text) (p : ℤ × Text × Text)
      → find id w.escrows ≡ none
      → find_session cmd.session_id w.escrows ≡ none
      → cmd'.session_id ≡ cmd.session_id
      → micro_algo cmd.agreed_price_microalgo ≡ ok m
      → escrow_amount m ≡ ok n
      → (g.deploy cmd.buyer_algo_address cmd.seller_algo_address cmd.agreed_price_microalgo
          cmd.session_id w.chain).0
        ≡ ok p
      → algo_app_id p.0 ≡ ok app
      → algo_app_address p.1 ≡ ok address
      → tx_id p.2 ≡ ok tx
      → (deploy_escrow g id created now cmd w).0 ≡ ok r
      → r.algo_app_address ≡ address_for w.escrows.get_application_address r.algo_app_id
      → let w' = (deploy_escrow g id created now cmd w).1 in
        deploy_escrow g id' created' now' cmd' w' ≡ (ok r, w')
  unfolding deploy_escrow record_deployment new_escrow reply as_deployed
  deployed_again id created now id' created' now' cmd cmd' w m n app address tx p fresh first same
        hm hn hp ha hd ht h own =
      let (e', stored, kept) =
        found_again id created now cmd w.escrows n app address tx p.2 p.0 fresh first ha ht
          (ground arith) in
      ground arith

  -- Once a deployment has returned, with the own address of its application in its answer, repeating it for
  -- the session, with whatever other terms, reads the same answer from the database and changes nothing:
  -- neither the chain nor the database is touched.
  pub deploy_escrow-again :
      (id created now id' created' now' : ℕ) (cmd cmd' : DeployCommand) (w : World W)
      {r : DeployReply}
      → find id w.escrows ≡ none
      → cmd'.session_id ≡ cmd.session_id
      → (deploy_escrow g id created now cmd w).0 ≡ ok r
      → r.algo_app_address ≡ address_for w.escrows.get_application_address r.algo_app_id
      → let w' = (deploy_escrow g id created now cmd w).1 in
        deploy_escrow g id' created' now' cmd' w' ≡ (ok r, w')
  unfolding deploy_escrow record_deployment new_escrow
  deploy_escrow-again id created now id' created' now' cmd cmd' w {r} fresh same h own =
      elim (Option-cases (find_session cmd.session_id w.escrows)) [
        | inr (e, found) ↦ ground arith
        | inl first ↦ elim (Result-cases (micro_algo cmd.agreed_price_microalgo)) [
          | inr (x, f) ↦ absurd (ground arith)
          | inl (m, hm) ↦ elim (Result-cases (escrow_amount m)) [
            | inr (x, f) ↦ absurd (ground arith)
            | inl (n, hn) ↦
                elim (Result-cases
                  (g.deploy cmd.buyer_algo_address cmd.seller_algo_address
                    cmd.agreed_price_microalgo cmd.session_id w.chain).0) [
                      | inr (x, f) ↦ absurd (ground arith)
                      | inl (p, hp) ↦ elim (Result-cases (algo_app_id p.0)) [
                        | inr (x, f) ↦ absurd (ground arith)
                        | inl (app, ha) ↦ elim (Result-cases (algo_app_address p.1)) [
                          | inr (x, f) ↦ absurd (ground arith)
                          | inl (address, hd) ↦ elim (Result-cases (tx_id p.2)) [
                            | inr (x, f) ↦ absurd (ground arith)
                            | inl (tx, ht) ↦
                                deployed_again id created now id' created' now' cmd cmd' w m n app
                                  address tx p fresh first same hm hn hp ha hd ht h own
                          ]
                        ]
                      ]
                    ]
          ]
        ]
      ]

  -- When the gateway refuses the first deployment, the escrow has been stored without an
  -- application. Every retry for the session then returns without calling the gateway, with no
  -- application in its answer, and the escrow can never be funded.
  pub deploy_escrow_stuck :
      (id created now id' created' now' : ℕ) (cmd cmd' : DeployCommand) (w : World W) (n : ℕ)
      {x : DomainError}
      → find id w.escrows ≡ none
      → find_session cmd.session_id w.escrows ≡ none
      → cmd.agreed_price_microalgo ≡ pos n
      → 0 < n
      → (g.deploy cmd.buyer_algo_address cmd.seller_algo_address (pos n) cmd.session_id w.chain).0
        ≡ err x
      → cmd'.session_id ≡ cmd.session_id
      → (sk : Text) (later : ℕ)
      → let w' = (deploy_escrow g id created now cmd w).1 in
        ((deploy_escrow g id created now cmd w).0 ≡ err x)
        × (deploy_escrow g id' created' now' cmd' w'
            ≡ (ok (reply (new_escrow id created cmd n)), w'))
        × ((reply (new_escrow id created cmd n)).algo_app_id ≡ none)
        × (fund_escrow g id sk later w' ≡ (err policy_violation, w'))
  unfolding deploy_escrow fund_escrow new_escrow reply micro_algo escrow_amount read row_of load_row
      escrow_to_model
  deploy_escrow_stuck id created now id' created' now' cmd cmd' w n fresh first price positive
        refused same sk later =
      grind (arith, find_session-put_new, find-put)
