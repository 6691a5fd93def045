-- ===== src/Events/Tests.antt =====
-- Events of two escrows and an agreed session, on which the theorems on the cross-domain handlers apply.
use cadencia_platform.Base.{
  ℕ, ◌≡◌, true, none, some, Option, List, [], ◌∷◌, Text, codes, ok, err, internal_error,
}
use cadencia_platform.Settlement.Escrow.{
  EscrowEvent, escrow_funded, escrow_released, escrow_unfrozen, escrow_frozen,
}
use cadencia_platform.Settlement.Service.{World, Gateway}
use cadencia_platform.Compliance.Audit.{append_all, verify_audit_chain}
use cadencia_platform.Compliance.Records.Service.{Records, Snapshot}
use cadencia_platform.Events.Compliance.{publish_all, audit_trail, publish_all-verified}
use cadencia_platform.Events.Agreed.{
  handle_session_agreed_deploy, handle_session_agreed_deploy-unchanged,
}

abbrev identity : Text → Text
identity t = t

abbrev no_payload : EscrowEvent → Text
no_payload v = codes "{}"

abbrev parties : ℕ → Option Snapshot
parties e = some (record { pan = codes "ABCDE1234F"; gstin = codes "27ABCDE1234F1Z5" })

abbrev events : List EscrowEvent
events =
    escrow_funded 1 11 500 (codes "tx")
    ∷ escrow_frozen 2 12 (codes "ADMIN")
    ∷ escrow_unfrozen 2 12
    ∷ escrow_released 1 11 500 (codes "tx") (codes "root")
    ∷ []

abbrev empty : Records
empty = record { fema = []; gst = [] }

publish_all-verified_example :
    let log =
      (publish_all identity no_payload parties events
        (record { audit = []; records = empty })).audit in
    (log ≡ append_all identity (audit_trail identity no_payload parties events) [])
    × (verify_audit_chain identity 2 log ≡ (true, none))
publish_all-verified_example = publish_all-verified identity no_payload parties events empty 2

abbrev gateway : Gateway (Unit {0})
gateway = record {
  deploy = λ buyer seller amount session c. (err internal_error, c);
  fund = λ app address amount sk c. (err internal_error, c);
  release = λ app root c. (err internal_error, c);
  refund = λ app reason c. (err internal_error, c);
  freeze = λ app c. (ok tt, c);
  unfreeze = λ app c. (ok tt, c);
  anchor = λ root session c. (err internal_error, c);
}

abbrev world : World (Unit {0})
world = record {
  escrows = record { get_application_address = λ n. codes "A"; rows = [] };
  settlements = [];
  published = [];
  chain = tt;
}

handle_session_agreed_deploy-unchanged_example :
    handle_session_agreed_deploy gateway
      (λ e. some (codes "ADDRESS"))
      1
      10
      11
      3
      7
      8
      250_000
      (ok 1_200_000)
      world
    ≡ world
handle_session_agreed_deploy-unchanged_example =
    handle_session_agreed_deploy-unchanged gateway (λ e. some (codes "ADDRESS")) 1 10 11 3 7 8
      250_000 (ok 1_200_000) world
