-- ===== src/Compliance/Audit/Gaps.antt =====
-- What the hash of compliance/domain/audit_log.py does not bind.
use cadencia_platform.Base.{ℕ, ◌≡◌, refl, ap, true, none, List, [], ◌∷◌, ◌++◌, arith, Text, text_eq}
use cadencia_platform.Compliance.Audit.{AuditEntry, content, compute, verify_entry, verify_from}

append_assoc : (t u v : Text) → (t ++ u) ++ v ≡ t ++ (u ++ v)
append_assoc [] u v = refl
append_assoc (c ∷ t) u v = ap (λ w. c ∷ w) (append_assoc t u v)

module _ (sha256 : Text → Text) where
  -- The separator may stand in the fields: what follows it in the event type can be moved to
  -- the payload, and the entry verifies as before. So with the escrow and the sequence number,
  -- which are not hashed.
  verify_entry_moved :
      (i j m n : ℕ) (t u payload prev hash : Text)
      → verify_entry sha256 (record {
        escrow_id = i;
        sequence_no = m;
        event_type = t ++ 124 ∷ u;
        payload_json = payload;
        prev_hash = prev;
        entry_hash = hash;
      })
        ≡ verify_entry sha256 (record {
          escrow_id = j;
          sequence_no = n;
          event_type = t;
          payload_json = u ++ 124 ∷ payload;
          prev_hash = prev;
          entry_hash = hash;
        })
  unfolding verify_entry compute content
  verify_entry_moved i j m n t u payload prev hash =
      ap (λ w. text_eq hash (sha256 (prev ++ 124 ∷ w))) (append_assoc t (124 ∷ u) (124 ∷ payload))

  -- A chain that verifies still does when its latest entries are removed.
  verify_from_truncated :
      (p : Text) (es fs : List AuditEntry)
      → verify_from sha256 p (es ++ fs) ≡ (true, none)
      → verify_from sha256 p es ≡ (true, none)
  unfolding verify_from
  verify_from_truncated p [] fs h = refl
  verify_from_truncated p (e ∷ es) fs h = ground (arith, verify_from_truncated e.entry_hash es fs)
