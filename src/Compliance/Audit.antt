-- ===== src/Compliance/Audit.antt =====
-- The audit log: the hasher, the entries and the chain verifier of compliance/domain/audit_log.py, the
-- table behind compliance/infrastructure/repositories.py, and `append_audit_event` of
-- compliance/application/services.py, which runs alone under its advisory lock. The payload is the
-- text of its JSON, and the hexadecimal SHA-256 of a text is an argument: its results are hash values.
pub mod Chain
pub mod Gaps
use cadencia_platform.Base.{
  ℕ, zero, suc, ◌+◌, Bool, true, false, Option, none, some, List, [], ◌∷◌, ◌++◌, leb, ltb, ◌==◌,
  if◌then◌else◌, Text, codes, text_eq,
}

-- `GENESIS_HASH`, 64 zeros.
abbrev zeros : ℕ → Text
zeros zero = []
zeros (suc n) = 48 ∷ zeros n

abbrev pub genesis_hash : Text
genesis_hash = zeros 64

pub record AuditEntry : Type 0 where
  pub escrow_id : ℕ
  pub sequence_no : ℕ
  pub event_type : Text
  pub payload_json : Text
  pub prev_hash : Text
  pub entry_hash : Text

pub record AppendAuditEventCommand : Type 0 where
  pub escrow_id : ℕ
  pub event_type : Text
  pub payload : Text

-- `SEPARATOR.join([prev_hash, event_type, payload_json])`.
unfoldable pub content : (prev_hash event_type payload_json : Text) → Text
content prev_hash event_type payload_json =
    prev_hash ++ (124 ∷ (event_type ++ (124 ∷ payload_json)))

-- The entries of an escrow, in the table's order.
unfoldable pub entries_of : ℕ → List AuditEntry → List AuditEntry
entries_of i [] = []
entries_of i (e ∷ es) = if e.escrow_id == i then e ∷ entries_of i es else entries_of i es

-- `order_by(sequence_no.asc())`, and `sorted(..., key=sequence_no)`.
unfoldable pub insert_by_sequence : AuditEntry → List AuditEntry → List AuditEntry
insert_by_sequence e [] = e ∷ []
insert_by_sequence e (f ∷ fs) =
    if leb e.sequence_no f.sequence_no then e ∷ f ∷ fs else f ∷ insert_by_sequence e fs

unfoldable pub sort_by_sequence : List AuditEntry → List AuditEntry
unfolding insert_by_sequence
sort_by_sequence [] = []
sort_by_sequence (e ∷ es) = insert_by_sequence e (sort_by_sequence es)

-- `order_by(sequence_no.desc()).limit(1)`.
unfoldable pub later : AuditEntry → Option AuditEntry → AuditEntry
later e none = e
later e (some f) = if leb e.sequence_no f.sequence_no then f else e

unfoldable pub latest : List AuditEntry → Option AuditEntry
unfolding later
latest [] = none
latest (e ∷ es) = some (later e (latest es))

unfoldable pub get_latest : ℕ → List AuditEntry → Option AuditEntry
unfolding entries_of latest
get_latest i table = latest (entries_of i table)

unfoldable pub list_all_entries : ℕ → List AuditEntry → List AuditEntry
unfolding entries_of sort_by_sequence
list_all_entries i table = sort_by_sequence (entries_of i table)

module _ (sha256 : Text → Text) where
  -- `AuditHasher.compute`.
  unfoldable pub compute : (prev_hash event_type payload_json : Text) → Text
  unfolding content
  compute prev_hash event_type payload_json = sha256 (content prev_hash event_type payload_json)

  -- `AuditEntry.create`.
  unfoldable pub create_entry :
      (escrow_id sequence_no : ℕ) → (event_type payload prev_hash : Text) → AuditEntry
  unfolding compute
  create_entry escrow_id sequence_no event_type payload prev_hash = record {
    escrow_id = escrow_id;
    sequence_no = sequence_no;
    event_type = event_type;
    payload_json = payload;
    prev_hash = prev_hash;
    entry_hash = compute prev_hash event_type payload;
  }

  -- `AuditHasher.verify`.
  unfoldable pub verify_entry : AuditEntry → Bool
  unfolding compute text_eq
  verify_entry e = text_eq e.entry_hash (compute e.prev_hash e.event_type e.payload_json)

  -- The loop of `AuditChainVerifier.verify`.
  unfoldable pub verify_from : (expected_prev : Text) → List AuditEntry → Bool × Option ℕ
  unfolding verify_entry text_eq
  verify_from expected_prev [] = (true, none)
  verify_from expected_prev (e ∷ es) =
      let rest = verify_from e.entry_hash es in
      if verify_entry e
      then if text_eq e.prev_hash expected_prev then rest else (false, some e.sequence_no)
      else (false, some e.sequence_no)

  unfoldable pub verify_chain : List AuditEntry → Bool × Option ℕ
  unfolding verify_from sort_by_sequence
  verify_chain entries = verify_from genesis_hash (sort_by_sequence entries)

  -- The entry that `append_audit_event` creates after the latest one.
  abbrev next_entry : AppendAuditEventCommand → Option AuditEntry → AuditEntry
  next_entry cmd none = create_entry cmd.escrow_id 0 cmd.event_type cmd.payload genesis_hash
  next_entry cmd (some e) =
      create_entry cmd.escrow_id (e.sequence_no + 1) cmd.event_type cmd.payload e.entry_hash

  -- `append_audit_event`, on the table.
  unfoldable pub append_audit_event : AppendAuditEventCommand → List AuditEntry → List AuditEntry
  unfolding create_entry get_latest
  append_audit_event cmd table = table ++ next_entry cmd (get_latest cmd.escrow_id table) ∷ []

  -- A history of appends for any escrows, in the order in which their locks were granted.
  unfoldable pub append_all : List AppendAuditEventCommand → List AuditEntry → List AuditEntry
  unfolding append_audit_event
  append_all [] table = table
  append_all (cmd ∷ cmds) table = append_all cmds (append_audit_event cmd table)

  unfoldable pub verify_audit_chain : ℕ → List AuditEntry → Bool × Option ℕ
  unfolding verify_chain list_all_entries
  verify_audit_chain i table = verify_chain (list_all_entries i table)
