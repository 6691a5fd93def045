-- ===== src/Events.antt =====
-- The cross-domain handlers of shared/infrastructure/events/handlers.py and their registration. A handler
-- opens a database session of its own and swallows what it raises. The JSON of a payload and the
-- reader of the enterprises are parameters; the webhooks, which call other services, and the
-- handlers that only write to the log do nothing here.
pub mod Compliance
pub mod Agreed
mod Tests
use cadencia_platform.Base.{
  ℕ, ◌≡◌, refl, Bool, true, false, List, [], ◌∷◌, if◌then◌else◌, ◌==◌, Text, codes, text_eq, arith,
}
use cadencia_platform.Shared.Publisher.{Registry, no_handlers, subscribe, unsubscribe, remove}

-- The handler functions, the webhook notifiers among them.
pub data Handler : Type 0 where
  funded_stub released_stub agreed_stub : Handler
  funded_compliance released_compliance refunded_compliance frozen_compliance : Handler
  deployed_compliance : Handler
  notify_funded notify_released notify_refunded notify_frozen : Handler
  agreed_deploy agreed_audit offer_audit override_audit failed_audit : Handler
  rfq_confirmed rfq_parsed_audit rfq_matched_audit : Handler

-- Functions are equal when they are the same one; `unsubscribe` is only called for stubs.
abbrev pub same : Handler → Handler → Bool
same Handler.funded_stub Handler.funded_stub = true
same Handler.released_stub Handler.released_stub = true
same Handler.agreed_stub Handler.agreed_stub = true
same _ _ = false

unfoldable pub register_phase_two_handlers : Registry Handler → Registry Handler
unfolding subscribe
register_phase_two_handlers table =
    let a = subscribe (codes "EscrowFunded") Handler.funded_stub table in
    let b = subscribe (codes "EscrowReleased") Handler.released_stub a in
    subscribe (codes "SessionAgreedStub") Handler.agreed_stub b

unfoldable pub register_phase_three_handlers : Registry Handler → Registry Handler
unfolding subscribe unsubscribe
register_phase_three_handlers table =
    let a = unsubscribe same (codes "EscrowFunded") Handler.funded_stub table in
    let b = subscribe (codes "EscrowFunded") Handler.funded_compliance a in
    let c = unsubscribe same (codes "EscrowReleased") Handler.released_stub b in
    let d = subscribe (codes "EscrowReleased") Handler.released_compliance c in
    let e = subscribe (codes "EscrowRefunded") Handler.refunded_compliance d in
    let f = subscribe (codes "EscrowFrozen") Handler.frozen_compliance e in
    let g = subscribe (codes "EscrowDeployed") Handler.deployed_compliance f in
    let h = subscribe (codes "EscrowFunded") Handler.notify_funded g in
    let i = subscribe (codes "EscrowReleased") Handler.notify_released h in
    let j = subscribe (codes "EscrowRefunded") Handler.notify_refunded i in
    subscribe (codes "EscrowFrozen") Handler.notify_frozen j

unfoldable pub register_phase_four_handlers : Registry Handler → Registry Handler
unfolding subscribe unsubscribe
register_phase_four_handlers table =
    let a = unsubscribe same (codes "SessionAgreedStub") Handler.agreed_stub table in
    let b = subscribe (codes "SessionAgreed") Handler.agreed_deploy a in
    let c = subscribe (codes "SessionAgreed") Handler.agreed_audit b in
    let d = subscribe (codes "OfferSubmitted") Handler.offer_audit c in
    let e = subscribe (codes "HumanOverrideApplied") Handler.override_audit d in
    subscribe (codes "SessionFailed") Handler.failed_audit e

unfoldable pub register_phase_five_handlers : Registry Handler → Registry Handler
unfolding subscribe
register_phase_five_handlers table =
    let a = subscribe (codes "RFQConfirmed") Handler.rfq_confirmed table in
    let b = subscribe (codes "RFQParsed") Handler.rfq_parsed_audit a in
    subscribe (codes "RFQMatched") Handler.rfq_matched_audit b

-- The registry after the startup, which registers the phases in their order.
unfoldable pub startup : Registry Handler
unfolding register_phase_two_handlers register_phase_three_handlers register_phase_four_handlers
    register_phase_five_handlers
startup = register_phase_five_handlers (
    register_phase_four_handlers
      (register_phase_three_handlers (register_phase_two_handlers no_handlers)))
