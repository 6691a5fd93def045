-- ===== src/Compliance/Tests.antt =====
-- Concrete audit logs on which the theorems on compliance/ apply. The hash of a text is the text itself.
use cadencia_platform.Base.{◌≡◌, true, none, List, [], ◌∷◌, Text, codes}
use cadencia_platform.Compliance.Audit.{AppendAuditEventCommand, append_all, verify_audit_chain}
use cadencia_platform.Compliance.Audit.Chain.{verify_audit_chain-append_all}

abbrev identity : Text → Text
identity t = t

-- Two escrows, appended to in turns.
abbrev commands : List AppendAuditEventCommand
commands =
    record { escrow_id = 1; event_type = codes "EscrowFunded"; payload = codes "{}" }
    ∷ record { escrow_id = 2; event_type = codes "EscrowFunded"; payload = codes "{}" }
    ∷ record { escrow_id = 1; event_type = codes "EscrowReleased"; payload = codes "{}" }
    ∷ []

verify_audit_chain-append_all_example :
    verify_audit_chain identity 1 (append_all identity commands []) ≡ (true, none)
verify_audit_chain-append_all_example = verify_audit_chain-append_all identity commands 1
