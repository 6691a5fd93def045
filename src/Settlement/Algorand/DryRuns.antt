-- ===== src/Settlement/Algorand/DryRuns.antt =====
-- The dry runs of settlement/infrastructure/algorand_gateway.py, and what the service's calls come to behind them.
use cadencia_platform.Base.{
  ℕ, ◌≡◌, true, false, some, List, map, ℤ, Result, ok, err, DomainError, blockchain_simulation,
  Action, ◌>>=◌, pure, Text, arith, ap, resume, is_some,
}
use cadencia_platform.Settlement.Values.{merkle_root}
use cadencia_platform.Settlement.Escrow.{Escrow}
use cadencia_platform.Settlement.Store.{find}
use cadencia_platform.Settlement.Service.{
  World, fund_escrow, release_escrow, refund_escrow, freeze_escrow, unfreeze_escrow, load, on_chain,
}
use cadencia_platform.Settlement.Algorand
use cadencia_platform.Settlement.Algorand.{
  Node, Environment, is_on, is_rejected, is_simulation_error, judge, simulate_app_call, simulated,
  gateway, decode_all, joined, to_upper, simulate_group, submit_signed_fund,
}

-- What a call of the service leaves when the node moved to `c` and nothing else happened.
abbrev pub Held : {W A : Type 0} → World W → W → Result A × World W → Type 0
Held w c out = (out.0 ≡ err blockchain_simulation) × (out.1 ≡ record w { chain = c })

module _ {W : Type 0} (env : Environment) (node : Node W) where
  simulate_app_call_rejected :
      (app : ℕ) (w c : W) (txns : List (List Text))
      → is_on env.escrow_dry_run_enabled ≡ true
      → node.app_dryrun app w ≡ (ok txns, c)
      → is_rejected txns ≡ true
      → simulate_app_call env node app w ≡ (err blockchain_simulation, c)
  unfolding simulate_app_call judge
  simulate_app_call_rejected app w c txns on asked bad = ground arith

  simulate_app_call_unavailable :
      (app : ℕ) (w c : W) (x : DomainError)
      → is_on env.escrow_dry_run_enabled ≡ true
      → node.app_dryrun app w ≡ (err x, c)
      → is_simulation_error x ≡ false
      → simulate_app_call env node app w ≡ (ok tt, c)
  unfolding simulate_app_call judge
  simulate_app_call_unavailable app w c x on asked other = ground arith

  simulate_app_call_off :
      (app : ℕ) (w : W)
      → is_on env.escrow_dry_run_enabled ≡ false
      → simulate_app_call env node app w ≡ (ok tt, w)
  unfolding simulate_app_call
  simulate_app_call_off app w off = ground arith

  -- A dry run that fails for any other reason than a rejection, an unreachable node say, does not hold the call
  -- back, and neither does one that is switched off: the client's call is made all the same.
  pub simulated_unavailable :
      {A : Type 0} (app : ℕ) (call : Action W A) (w c : W) (x : DomainError)
      → node.app_dryrun app w ≡ (err x, c)
      → is_simulation_error x ≡ false
      → (is_on env.escrow_dry_run_enabled ≡ true → simulated env node app call w ≡ call c)
        × (is_on env.escrow_dry_run_enabled ≡ false → simulated env node app call w ≡ call w)
  unfolding simulated
  simulated_unavailable app call w c x asked other = (
    λ h. ap (resume (λ _. call)) (simulate_app_call_unavailable app w c x h asked other),
    λ h. ap (resume (λ _. call)) (simulate_app_call_off app w h),
  )

module _ {W : Type 0} (env : Environment) (node : Node W) (get_application_address : ℤ → Text)
    (address_from_private_key : Text → Result Text) (session_bytes : ℕ → Text)
    (audit_entries : Escrow → List Text) (compute_root : List Text → Result Text) where
  -- When dry runs are enabled and the one of a stored escrow's application is rejected, funding,
  -- releasing, refunding, freezing and unfreezing the escrow through the gateway each raise the
  -- simulation error, and nothing but that dry run has happened: the client is not called, and no
  -- escrow, settlement or event changes. The escrow has its application and address, and the
  -- release a valid Merkle root.
  pub services-rejected :
      (id app settled now : ℕ) (t root root' : Text) (w : World W) (c : W) (e : Escrow)
      (txns : List (List Text))
      → find id w.escrows ≡ some e
      → e.algo_app_id ≡ some app
      → is_some e.algo_app_address ≡ true
      → compute_root (audit_entries e) ≡ ok root
      → merkle_root root ≡ ok root'
      → is_on env.escrow_dry_run_enabled ≡ true
      → node.app_dryrun app w.chain ≡ (ok txns, c)
      → is_rejected txns ≡ true
      → let g = gateway env node get_application_address address_from_private_key session_bytes in
        Held w c (fund_escrow g id t now w)
        × Held w c (release_escrow g audit_entries compute_root id settled now w)
        × Held w c (refund_escrow g id t settled now w)
        × Held w c (freeze_escrow g id t now w)
        × Held w c (unfreeze_escrow g id now w)
  unfolding load on_chain fund_escrow release_escrow refund_escrow freeze_escrow unfreeze_escrow
      gateway Algorand.fund_escrow Algorand.release_escrow Algorand.refund_escrow
      Algorand.freeze_escrow Algorand.unfreeze_escrow simulated
  services-rejected id app settled now t root root' w c e txns found deployed at rooted valid on
        asked bad =
      let held = simulate_app_call_rejected env node app w.chain c txns on asked bad in ground arith

module _ {W : Type 0} (env : Environment) (node : Node W) (b64decode : Text → Result Text) where
  -- Outside simulation mode a signed group is sent only after a dry run that answers without a rejection: any
  -- failure of the dry run, and a rejection in any case of letters, raises the simulation error from the
  -- dry run's state. In simulation mode, which an unset variable stands for, the group is sent with no dry run.
  submit_signed_fund_guarded :
      (signed txns : List Text) (w c : W) (r : Result (List (List Text)))
      → decode_all b64decode signed ≡ ok txns
      → node.group_dryrun txns w ≡ (r, c)
      → let sent : Action W (Text × ℕ) = node.send_raw_transaction (joined txns) >>= λ tx.
          node.wait_for_confirmation tx 10 >>= λ round. pure (tx, round) in
        let out = submit_signed_fund env node b64decode signed w in
        (is_on env.x402_simulation_mode ≡ false
          → ((x : DomainError) → r ≡ err x → out ≡ (err blockchain_simulation, c))
            × ((msgs : List (List Text))
                → r ≡ ok msgs
                → (is_rejected (map (map (map to_upper)) msgs) ≡ true
                    → out ≡ (err blockchain_simulation, c))
                  × (is_rejected (map (map (map to_upper)) msgs) ≡ false → out ≡ sent c)))
        × (is_on env.x402_simulation_mode ≡ true → out ≡ sent w)
  unfolding submit_signed_fund simulate_group
  submit_signed_fund_guarded signed txns w c r decoded asked = (
    λ off. (λ x h. ground arith, λ msgs h. (λ b. ground arith, λ b. ground arith)),
    λ on. ground arith,
  )
