-- ===== src/Settlement/Algorand/Wallet.antt =====
-- `submit_signed_fund` of settlement/api/router.py, and what the service makes of an escrow funded through it.
-- The answer of a 409 is a conflict.
use cadencia_platform.Base.{
  ℕ, ◌≡◌, refl, Bool, false, not, ◌||◌, some, List, [], ◌∷◌, Result, is_ok, not_found, conflict,
  Action, ◌>>=◌, ◌>>◌, gets, or_raise, raise_if, Text, arith, ap, ◌∙◌,
}
use cadencia_platform.Settlement.Escrow.{
  EscrowStatus, Escrow, is_deployed, record_release, record_refund,
}
use cadencia_platform.Settlement.Store.{find}
use cadencia_platform.Settlement.Service.{
  World, Gateway, release_escrow, refund_escrow, load, on_chain, on_escrow,
}
use cadencia_platform.Settlement.Algorand
use cadencia_platform.Settlement.Algorand.{Node, Environment}

-- `release_escrow` and `refund_escrow`, with the reason and the readings of the clock.
pub data Attempt : Type 0 where
  release : (settled now : ℕ) → Attempt
  refund : (reason : Text) (settled now : ℕ) → Attempt

module _ {W : Type 0} (env : Environment) (node : Node W) (b64decode : Text → Result Text) where
  -- The adapter acts on the chain alone.
  on_node : {A : Type 0} → Action W A → Action (World W) A
  on_node m w = let (r, c) = m w.chain in (r, record w { chain = c })

  -- The route: the escrow is read for its status only, by any user.
  pub submit_signed_fund : (escrow_id : ℕ) → List Text → Action (World W) (Text × ℕ)
  unfolding on_node Algorand.submit_signed_fund
  submit_signed_fund escrow_id signed = do
    e ← or_raise (← gets (λ w. find escrow_id w.escrows)) not_found
    raise_if (not (is_deployed e.status)) conflict
    on_node (Algorand.submit_signed_fund env node b64decode signed)

  module _ (g : Gateway W) (audit_entries : Escrow → List Text)
      (compute_root : List Text → Result Text) where
    -- A release or a refund that is attempted, and whether it returns.
    payout : (id : ℕ) → Attempt → World W → Bool × World W
    payout id (Attempt.release settled now) w =
        let (r, w') = release_escrow g audit_entries compute_root id settled now w in (is_ok r, w')
    payout id (Attempt.refund reason settled now) w =
        let (r, w') = refund_escrow g id reason settled now w in (is_ok r, w')

    payout_refused :
        (id : ℕ) (a : Attempt) (w : World W) (e : Escrow)
        → find id w.escrows ≡ some e
        → e.status ≡ EscrowStatus.deployed
        → let (returned, w') = payout id a w in
          (returned ≡ false) × (w'.escrows ≡ w.escrows) × (w'.settlements ≡ w.settlements)
    unfolding payout load on_chain on_escrow release_escrow refund_escrow record_release
        record_refund
    payout_refused id (Attempt.release settled now) w e found fresh = ground arith
    payout_refused id (Attempt.refund reason settled now) w e found fresh = ground arith

    -- The attempts in their order, and whether any of them returns.
    pub payouts : (id : ℕ) → List Attempt → World W → Bool × World W
    unfolding payout
    payouts id [] w = (false, w)
    payouts id (a ∷ later) w =
        let (first, w') = payout id a w in
        let (others, w'') = payouts id later w' in (first || others, w'')

    payouts_refused :
        (id : ℕ) (later : List Attempt) (w : World W) (e : Escrow)
        → find id w.escrows ≡ some e
        → e.status ≡ EscrowStatus.deployed
        → let (returned, w') = payouts id later w in
          (returned ≡ false) × (w'.escrows ≡ w.escrows) × (w'.settlements ≡ w.settlements)
    unfolding payouts
    payouts_refused id [] w e found fresh = (refl, refl, refl)
    payouts_refused id (a ∷ later) w e found fresh =
        let w' = (payout id a w).1 in
        let (refused, same, settled) = payout_refused id a w e found fresh in
        let (rest, same', settled') =
          payouts_refused id later w' e (ap (find id) same ∙ found) fresh in
        (ground arith, same' ∙ same, settled' ∙ settled)

    -- After an escrow that is stored as DEPLOYED has been funded through the wallet's route, whatever the
    -- chain has done, no release and no refund of any series of them returns or changes an escrow or a
    -- settlement, whatever the gateway, the anchor and the Merkle service answer.
    pub wallet_funding_stuck :
        (id : ℕ) (signed : List Text) (later : List Attempt) (w : World W) (e : Escrow)
        → find id w.escrows ≡ some e
        → e.status ≡ EscrowStatus.deployed
        → let w' = (submit_signed_fund id signed w).1 in
          let (returned, w'') = payouts id later w' in
          (w'.escrows ≡ w.escrows)
          × (returned ≡ false)
          × (w''.escrows ≡ w.escrows)
          × (w''.settlements ≡ w.settlements)
    unfolding on_node submit_signed_fund
    wallet_funding_stuck id signed later w e found fresh =
        let w' = (submit_signed_fund id signed w).1 in
        let same : w'.escrows ≡ w.escrows = ground arith in
        let settled : w'.settlements ≡ w.settlements = ground arith in
        let (refused, same', settled') =
          payouts_refused id later w' e (ap (find id) same ∙ found) fresh in
        (same, refused, same' ∙ same, settled' ∙ settled)
