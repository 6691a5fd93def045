-- ===== src/Settlement/Algorand.antt =====
-- settlement/infrastructure/algorand_gateway.py and anchor_service.py. The Algorand libraries, the node and the
-- generated client of artifacts/ are arguments; a text is its list of ASCII codes. The environment's
-- variables are read as the texts that they hold; logs and the assembly of unsigned transactions
-- are left out.
pub mod DryRuns
pub mod Wallet
use cadencia_platform.Base.{
  ℕ, ◌-◌, Bool, true, false, ◌&&◌, ◌||◌, Option, none, some, List, [], ◌∷◌, ◌++◌, map,
  if◌then◌else◌, leb, ℤ, Result, ok, err, DomainError, blockchain_simulation, internal_error,
  Action, ◌>>=◌, ◌>>◌, pure, raise, lift, Text, codes, text_eq,
}
use cadencia_platform.Shared.Payments.{starts_with, to_lower}
use cadencia_platform.Settlement.Values.{tx_id, algo_app_id}
use cadencia_platform.Settlement.Service.{Gateway}

-- `part in text`.
unfoldable pub is_in : (part text : Text) → Bool
unfolding starts_with
is_in part [] = starts_with part []
is_in part (c ∷ t) = starts_with part (c ∷ t) || is_in part t

abbrev pub to_upper : ℕ → ℕ
to_upper c = if leb b'a' c && leb c b'z' then c - 32 else c

-- `any("REJECT" in msg for msg in messages)`, over every transaction of the answer.
unfoldable pub any_reject : List Text → Bool
unfolding is_in
any_reject [] = false
any_reject (m ∷ ms) = is_in (codes "REJECT") m || any_reject ms

unfoldable pub is_rejected : List (List Text) → Bool
unfolding any_reject
is_rejected [] = false
is_rejected (ms ∷ txns) = any_reject ms || is_rejected txns

-- What a call of the client answers: the two attributes that may name its transaction.
pub record Receipt : Type 0 where
  pub tx_id : Option Text
  pub txid : Option Text

-- `str(getattr(result, "tx_id", None) or getattr(result, "txid", ""))`.
pub receipt_id : Receipt → Text
receipt_id r = elim r.tx_id [
  | none ↦ elim r.txid [ none ↦ [] | some t ↦ t ]
  | some [] ↦ elim r.txid [ none ↦ [] | some t ↦ t ]
  | some (c ∷ t) ↦ c ∷ t
]

-- The node and the client: each call may raise and may change the node's state. `app_dryrun` builds, signs
-- and dry-runs the empty call of an application and gives the messages of each transaction.
pub record Node (W : Type 0) : Type 0 where
  pub app_dryrun : (app : ℕ) → Action W (List (List Text))
  pub group_dryrun : (txns : List Text) → Action W (List (List Text))
  pub anchor_params : Action W (Unit {0})
  pub anchor_dryrun : (note : Text) → Action W (List (List Text))
  pub deploy : (buyer seller : Text) (amount : ℤ) (session : ℕ) → Action W (ℤ × Receipt)
  pub fund : (app : ℕ) (funder : Text) (amount : ℕ) → Action W Receipt
  pub release : (app : ℕ) (root : Text) → Action W Receipt
  pub refund : (app : ℕ) (reason : Text) → Action W Receipt
  pub freeze : (app : ℕ) → Action W Receipt
  pub unfreeze : (app : ℕ) → Action W Receipt
  pub send_note : (note : Text) → Action W Text
  pub send_raw_transaction : Text → Action W Text
  pub wait_for_confirmation : (tx : Text) (rounds : ℕ) → Action W ℕ

-- The environment, with the values that stand where a variable is not set.
pub record Environment : Type 0 where
  pub escrow_dry_run_enabled : Option Text
  pub x402_simulation_mode : Option Text
  pub anchor_service_enabled : Option Text

-- `os.environ.get(name, "true").lower() == "true"`.
unfoldable pub is_on : Option Text → Bool
unfolding text_eq
is_on none = true
is_on (some t) = text_eq (map to_lower t) (codes "true")

abbrev pub is_simulation_error : DomainError → Bool
is_simulation_error blockchain_simulation = true
is_simulation_error x = false

-- What both dry runs make of an answer: a rejection is raised, any other failure only logged.
unfoldable pub judge : {W : Type 0} → Action W (List (List Text)) → Action W (Unit {0})
unfolding is_rejected
judge ask w =
    let (r, w') = ask w in
    elim r [
      | ok txns ↦ (if is_rejected txns then err blockchain_simulation else ok tt, w')
      | err x ↦ (if is_simulation_error x then err x else ok tt, w')
    ]

module _ {W : Type 0} (env : Environment) (node : Node W) where
  -- `_simulate_app_call`.
  unfoldable pub simulate_app_call : (app : ℕ) → Action W (Unit {0})
  unfolding is_on judge
  simulate_app_call app w =
      if is_on env.escrow_dry_run_enabled then judge (node.app_dryrun app) w else (ok tt, w)

  -- A call of the client after its dry run.
  unfoldable pub simulated : {A : Type 0} → (app : ℕ) → Action W A → Action W A
  simulated app call = simulate_app_call app >> call

  -- `_simulate_payment_txn` of anchor_service.py.
  unfoldable pub simulate_payment_txn : (note : Text) → Action W (Unit {0})
  unfolding is_on judge
  simulate_payment_txn note w =
      if is_on env.escrow_dry_run_enabled then judge (node.anchor_dryrun note) w else (ok tt, w)

module _ {W : Type 0} (env : Environment) (node : Node W) (get_application_address : ℤ → Text)
    (address_from_private_key : Text → Result Text) (session_bytes : ℕ → Text) where
  pub deploy_escrow : (buyer seller : Text) (amount : ℤ) (session : ℕ) → Action W (ℤ × Text × Text)
  deploy_escrow buyer seller amount session = do
    (app, receipt) ← node.deploy buyer seller amount session
    pure (app, get_application_address app, receipt_id receipt)

  unfoldable pub fund_escrow :
      (app : ℕ) (address : Text) (amount : ℕ) (funder_sk : Text) → Action W Text
  fund_escrow app address amount funder_sk = do
    simulate_app_call env node app
    funder ← lift (address_from_private_key funder_sk)
    receipt ← node.fund app funder amount
    pure (receipt_id receipt)

  unfoldable pub release_escrow : (app : ℕ) (root : Text) → Action W Text
  release_escrow app root = do
    receipt ← simulated env node app (node.release app root)
    pure (receipt_id receipt)

  unfoldable pub refund_escrow : (app : ℕ) (reason : Text) → Action W Text
  refund_escrow app reason = do
    receipt ← simulated env node app (node.refund app reason)
    pure (receipt_id receipt)

  unfoldable pub freeze_escrow : (app : ℕ) → Action W (Unit {0})
  freeze_escrow app = do simulated env node app (node.freeze app); pure tt

  unfoldable pub unfreeze_escrow : (app : ℕ) → Action W (Unit {0})
  unfreeze_escrow app = do simulated env node app (node.unfreeze app); pure tt

  -- `AnchorService.anchor_root`; the RuntimeError of a disabled service is an internal error.
  unfoldable pub anchor_root : (root : Text) (session : ℕ) → Action W Text
  unfolding is_on simulate_payment_txn tx_id
  anchor_root root session w =
      let note = codes "cadencia:merkle:" ++ session_bytes session ++ root in
      let anchored = (do
        node.anchor_params
        simulate_payment_txn env node note
        tx ← node.send_note note
        node.wait_for_confirmation tx 5
        lift (tx_id tx)) in
      if is_on env.anchor_service_enabled then anchored w else (err internal_error, w)

  -- The two adapters as the ports of `SettlementService`.
  unfoldable pub gateway : Gateway W
  gateway = record {
    deploy = deploy_escrow;
    fund = fund_escrow;
    release = release_escrow;
    refund = refund_escrow;
    freeze = freeze_escrow;
    unfreeze = unfreeze_escrow;
    anchor = anchor_root;
  }

-- `b64decode` of each transaction, in order.
unfoldable pub decode_all : (b64decode : Text → Result Text) → List Text → Result (List Text)
decode_all b64decode [] = ok []
decode_all b64decode (t ∷ ts) = elim (b64decode t) [
  | err x ↦ err x
  | ok raw ↦ elim (decode_all b64decode ts) [ err x ↦ err x | ok raws ↦ ok (raw ∷ raws) ]
]

pub joined : List Text → Text
joined [] = []
joined (t ∷ ts) = t ++ joined ts

module _ {W : Type 0} (env : Environment) (node : Node W) (b64decode : Text → Result Text) where
  -- The dry run of `submit_signed_fund`: here every failure is raised, and messages count in any case.
  unfoldable pub simulate_group : List Text → Action W (Unit {0})
  unfolding is_on is_rejected
  simulate_group txns w =
      let (r, w') = node.group_dryrun txns w in
      if is_on env.x402_simulation_mode then (ok tt, w) else elim r [
        | ok txns' ↦ (
          if is_rejected (map (map (map to_upper)) txns') then err blockchain_simulation else ok tt,
          w',
        )
        | err x ↦ (err blockchain_simulation, w')
      ]

  unfoldable pub submit_signed_fund : List Text → Action W (Text × ℕ)
  unfolding decode_all simulate_group joined
  submit_signed_fund signed = do
    txns ← lift (decode_all b64decode signed)
    simulate_group txns
    tx ← node.send_raw_transaction (joined txns)
    round ← node.wait_for_confirmation tx 10
    pure (tx, round)
