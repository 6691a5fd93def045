-- ===== src/Events/Compliance.antt =====
-- What the compliance handlers of shared/infrastructure/events/handlers.py do with the events of an escrow.
use cadencia_platform.Base.{
  ℕ, ◌≡◌, refl, true, Option, none, List, [], ◌∷◌, ◌++◌, pos, ok, err, Action, Text, codes, ap, sym,
  ◌∙◌, pure, modify, ◌>>◌,
}
use cadencia_platform.Settlement.Escrow.{
  EscrowEvent, escrow_deployed, escrow_funded, escrow_released, escrow_refunded, escrow_frozen,
  escrow_unfrozen,
}
use cadencia_platform.Compliance.Audit.{
  AuditEntry, AppendAuditEventCommand, append_audit_event, append_all, verify_audit_chain,
}
use cadencia_platform.Compliance.Audit.Chain.{verify_audit_chain-append_all}
use cadencia_platform.Compliance.Records.Service.{
  Records, GenerateCommand, Snapshot, generate_compliance_records,
}
use cadencia_platform.Shared.Publisher.{publish, publish_many}
use cadencia_platform.Events.{Handler, startup}

-- The audit log and the tables of the records.
pub record Ledger : Type 0 where
  pub audit : List AuditEntry
  pub records : Records

-- `event_type` of an event, the name of its class.
unfoldable pub type_of : EscrowEvent → Text
type_of (escrow_deployed e s app tx) = codes "EscrowDeployed"
type_of (escrow_funded e s amount tx) = codes "EscrowFunded"
type_of (escrow_released e s amount tx root) = codes "EscrowReleased"
type_of (escrow_refunded e s amount tx reason) = codes "EscrowRefunded"
type_of (escrow_frozen e s by) = codes "EscrowFrozen"
type_of (escrow_unfrozen e s) = codes "EscrowUnfrozen"

abbrev pub escrow_of : EscrowEvent → ℕ
escrow_of (escrow_deployed e s app tx) = e
escrow_of (escrow_funded e s amount tx) = e
escrow_of (escrow_released e s amount tx root) = e
escrow_of (escrow_refunded e s amount tx reason) = e
escrow_of (escrow_frozen e s by) = e
escrow_of (escrow_unfrozen e s) = e

-- The command that `handle_escrow_released_compliance` sends: the event names neither party, and the
-- command's rate and HSN code have their defaults.
unfoldable pub release_command : (escrow amount : ℕ) → (root : Text) → GenerateCommand
release_command escrow amount root = record {
  escrow_id = escrow;
  amount_microalgo = pos amount;
  merkle_root = root;
  buyer_enterprise_id = none;
  seller_enterprise_id = none;
  fx_rate_inr_per_algo = none;
  hsn_code = codes "8471";
}

module _ (sha256 : Text → Text) (payload_json : EscrowEvent → Text)
    (reader : ℕ → Option Snapshot) where
  -- The audit entry of a handler.
  unfoldable pub append : EscrowEvent → Action Ledger (Unit {0})
  unfolding append_audit_event type_of
  append v = modify λ l. record l {
    audit =
        append_audit_event sha256
          (record { escrow_id = escrow_of v; event_type = type_of v; payload = payload_json v })
          l.audit;
  }

  unfoldable pub generate : GenerateCommand → Action Ledger (Unit {0})
  unfolding generate_compliance_records
  generate cmd l =
      let (r, t) = generate_compliance_records reader cmd l.records in
      (elim r [ ok p ↦ ok tt | err x ↦ err x ], record l { records = t })

  -- The second step of `handle_escrow_released_compliance`.
  unfoldable pub generate_released : EscrowEvent → Action Ledger (Unit {0})
  unfolding generate release_command
  generate_released (escrow_released e s amount tx root) = generate (release_command e amount root)
  generate_released v = pure tt

  -- A handler, on the event that it is called with.
  unfoldable pub handle : Handler → EscrowEvent → Action Ledger (Unit {0})
  unfolding append generate_released
  handle Handler.funded_compliance v = append v
  handle Handler.released_compliance v = append v >> generate_released v
  handle Handler.refunded_compliance v = append v
  handle Handler.frozen_compliance v = append v
  handle Handler.deployed_compliance v = append v
  handle _ v = pure tt

  -- The settlement service publishes one event after the other.
  unfoldable pub publish_all : List EscrowEvent → Ledger → Ledger
  unfolding publish_many handle type_of startup
  publish_all vs l = publish_many handle type_of startup vs l

  -- What an event adds to the log: nothing when the escrow was unfrozen, and else one entry.
  unfoldable pub audited : EscrowEvent → List AppendAuditEventCommand
  unfolding type_of
  audited (escrow_unfrozen e s) = []
  audited v =
      record { escrow_id = escrow_of v; event_type = type_of v; payload = payload_json v } ∷ []

  publish_audit :
      (v : EscrowEvent) (l : Ledger)
      → (publish handle type_of startup v l).1.audit ≡ append_all sha256 (audited v) l.audit
  unfolding publish startup handle append audited append_all
  publish_audit (escrow_deployed e s app tx) l = refl
  publish_audit (escrow_funded e s amount tx) l = refl
  publish_audit (escrow_released e s amount tx root) l = refl
  publish_audit (escrow_refunded e s amount tx reason) l = refl
  publish_audit (escrow_frozen e s by) l = refl
  publish_audit (escrow_unfrozen e s) l = refl

append_all-++ :
    (sha256 : Text → Text) (xs ys : List AppendAuditEventCommand) (table : List AuditEntry)
    → append_all sha256 (xs ++ ys) table ≡ append_all sha256 ys (append_all sha256 xs table)
unfolding append_all
append_all-++ sha256 [] ys table = refl
append_all-++ sha256 (x ∷ xs) ys table =
    append_all-++ sha256 xs ys (append_audit_event sha256 x table)

module _ (sha256 : Text → Text) (payload_json : EscrowEvent → Text)
    (reader : ℕ → Option Snapshot) where
  abbrev pub audit_trail : List EscrowEvent → List AppendAuditEventCommand
  audit_trail [] = []
  audit_trail (v ∷ vs) = audited sha256 payload_json reader v ++ audit_trail vs

  publish_all_audit :
      (vs : List EscrowEvent) (l : Ledger)
      → (publish_all sha256 payload_json reader vs l).audit
        ≡ append_all sha256 (audit_trail vs) l.audit
  unfolding publish_all publish_many append_all
  publish_all_audit [] l = refl
  publish_all_audit (v ∷ vs) l =
      let l' = (publish (handle sha256 payload_json reader) type_of startup v l).1 in
      publish_all_audit vs l'
      ∙ ap (append_all sha256 (audit_trail vs)) (publish_audit sha256 payload_json reader v l)
      ∙ sym (append_all-++ sha256 (audited sha256 payload_json reader v) (audit_trail vs) l.audit)

  -- Whatever events of whatever escrows are published after the startup, and whatever the generation of
  -- records raises on the way, the log gets one entry for each event but an unfreeze, in the order of the
  -- events, and the chain of every escrow verifies.
  pub publish_all-verified :
      (vs : List EscrowEvent) (records : Records) (i : ℕ)
      → let log =
          (publish_all sha256 payload_json reader vs
            (record { audit = []; records = records })).audit in
        (log ≡ append_all sha256 (audit_trail vs) [])
        × (verify_audit_chain sha256 i log ≡ (true, none))
  publish_all-verified vs records i =
      let start : Ledger = record { audit = []; records = records } in
      let trail = publish_all_audit vs start in
      (
        trail,
        ap (verify_audit_chain sha256 i) trail
            ∙ verify_audit_chain-append_all sha256 (audit_trail vs) i,
      )

-- The records of a released escrow do not depend on its parties: with whatever reader of the enterprises, the
-- tables are those of a reader that knows nobody.
released_anonymous :
    (sha256 : Text → Text) (payload_json : EscrowEvent → Text) (reader : ℕ → Option Snapshot)
    (e s amount : ℕ) (tx root : Text) (l : Ledger)
    → (publish_all sha256 payload_json reader (escrow_released e s amount tx root ∷ []) l).records
      ≡ (generate_compliance_records (λ i. none) (release_command e amount root) l.records).1
unfolding publish_all publish_many publish startup handle append generate generate_released
    release_command generate_compliance_records
released_anonymous sha256 payload_json reader e s amount tx root l = refl
