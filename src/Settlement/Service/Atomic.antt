-- ===== src/Settlement/Service/Atomic.antt =====
-- A service call of settlement/application/services.py that raises leaves the database and the
-- published events as they were. Only the chain may have moved.
use cadencia_platform.Base.{
  ℕ, ◌≡◌, List, suc, ◌≢◌, arith, length, length-append, Result, ok, err, Text,
}
use cadencia_platform.Settlement.Escrow.{
  Escrow, record_funding, record_release, record_refund, freeze, unfreeze,
}
use cadencia_platform.Settlement.Store.{find, find_id, find-put}
use cadencia_platform.Settlement.Service.{
  World, Gateway, fund_escrow, release_escrow, refund_escrow, freeze_escrow, unfreeze_escrow,
}

-- What a call about the escrow `i` may do to a world, as another escrow `j` sees it: if it raises,
-- nothing but move the chain; if it returns, leave `j` alone and publish one event.
abbrev pub Atomic : {W A : Type 0} → ℕ → World W → Result A × World W → Type 0
Atomic j w (err x, w') =
    (w'.escrows ≡ w.escrows) × (w'.settlements ≡ w.settlements) × (w'.published ≡ w.published)
Atomic j w (ok a, w') =
    (find j w'.escrows ≡ find j w.escrows) × (length w'.published ≡ suc (length w.published))

module _ {W : Type 0} (g : Gateway W) where
  fund_escrow-Atomic :
      (id j : ℕ) (sk : Text) (now : ℕ) (w : World W)
      → j ≢ id
      → Atomic j w (fund_escrow g id sk now w)
  unfolding fund_escrow record_funding
  fund_escrow-Atomic id j sk now w ne = grind (arith, find_id, find-put, length-append)

  refund_escrow-Atomic :
      (id j : ℕ) (reason : Text) (settled now : ℕ) (w : World W)
      → j ≢ id
      → Atomic j w (refund_escrow g id reason settled now w)
  unfolding refund_escrow record_refund
  refund_escrow-Atomic id j reason settled now w ne =
      grind (arith, find_id, find-put, length-append)

  freeze_escrow-Atomic :
      (id j : ℕ) (role : Text) (now : ℕ) (w : World W)
      → j ≢ id
      → Atomic j w (freeze_escrow g id role now w)
  unfolding freeze_escrow freeze
  freeze_escrow-Atomic id j role now w ne = grind (arith, find_id, find-put, length-append)

  unfreeze_escrow-Atomic :
      (id j now : ℕ) (w : World W) → j ≢ id → Atomic j w (unfreeze_escrow g id now w)
  unfolding unfreeze_escrow unfreeze
  unfreeze_escrow-Atomic id j now w ne = grind (arith, find_id, find-put, length-append)

module _ {W : Type 0} (g : Gateway W) (audit_entries : Escrow → List Text)
    (compute_root : List Text → Result Text) where
  release_escrow-Atomic :
      (id j settled now : ℕ) (w : World W)
      → j ≢ id
      → Atomic j w (release_escrow g audit_entries compute_root id settled now w)
  unfolding release_escrow record_release
  release_escrow-Atomic id j settled now w ne = grind (arith, find_id, find-put, length-append)

  -- Funding, releasing, refunding, freezing and unfreezing are all or nothing on the database: a
  -- call that raises changes no escrow, no settlement and no published event, whatever the chain
  -- and the other ports did before; one that returns leaves every other escrow alone and publishes
  -- exactly one event.
  pub services-Atomic :
      (id j : ℕ) (t : Text) (settled now : ℕ) (w : World W)
      → j ≢ id
      → Atomic j w (fund_escrow g id t now w)
        × Atomic j w (release_escrow g audit_entries compute_root id settled now w)
        × Atomic j w (refund_escrow g id t settled now w)
        × Atomic j w (freeze_escrow g id t now w)
        × Atomic j w (unfreeze_escrow g id now w)
  services-Atomic id j t settled now w ne = (
    fund_escrow-Atomic g id j t now w ne,
    release_escrow-Atomic id j settled now w ne,
    refund_escrow-Atomic g id j t settled now w ne,
    freeze_escrow-Atomic g id j t now w ne,
    unfreeze_escrow-Atomic g id j now w ne,
  )
