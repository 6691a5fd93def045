-- ===== src/Identity.antt =====
-- The enterprise and the user of identity/domain/enterprise.py and user.py, method by method. Order values are
-- whole numbers of paise. The time of the last change, which every method moves, is left out.
pub mod Values
pub mod Service
pub mod Access
pub mod Registration
pub mod Wallets
pub mod Requests
mod Tests
mod WalletTests
use cadencia_platform.Base.{
  ℕ, Bool, true, false, not, Option, none, some, is_some, List, [], if◌then◌else◌, ℤ, ltb_ℤ, ok,
  err, conflict, policy_violation, validation_error, Action, Text,
}

pub data KycStatus : Type 0 where
  pending kyc_submitted verified active : KycStatus

pub data TradeRole : Type 0 where
  buyer seller both : TradeRole

pub record Enterprise : Type 0 where
  pub id : ℕ
  pub legal_name : Text
  pub pan : Text
  pub gstin : Text
  pub kyc_status : KycStatus
  pub trade_role : TradeRole
  pub algorand_wallet : Option Text
  pub industry_vertical : Option Text
  pub geography : Text
  pub min_order_value : Option ℤ
  pub max_order_value : Option ℤ
  pub commodities : List Text
  pub kyc_documents : Option Text
  pub agent_config : Option Text

abbrev pub is_pending : KycStatus → Bool
is_pending KycStatus.pending = true
is_pending _ = false

abbrev pub is_submitted : KycStatus → Bool
is_submitted KycStatus.kyc_submitted = true
is_submitted _ = false

abbrev pub is_verified : KycStatus → Bool
is_verified KycStatus.verified = true
is_verified _ = false

pub data EnterpriseEvent : Type 0 where
  kyc_submission kyc_verification activation : (enterprise : ℕ) → EnterpriseEvent

unfoldable pub submit_kyc : (documents : Text) → Action Enterprise EnterpriseEvent
submit_kyc documents e = if not (is_pending e.kyc_status) then (err conflict, e) else (
  ok (kyc_submission e.id),
  record e { kyc_status = KycStatus.kyc_submitted; kyc_documents = some documents },
)

unfoldable pub verify_kyc : Action Enterprise EnterpriseEvent
verify_kyc e =
    if not (is_submitted e.kyc_status)
    then (err conflict, e)
    else (ok (kyc_verification e.id), record e { kyc_status = KycStatus.verified })

unfoldable pub activate : Action Enterprise EnterpriseEvent
activate e =
    if not (is_verified e.kyc_status)
    then (err policy_violation, e)
    else (ok (activation e.id), record e { kyc_status = KycStatus.active })

-- The keys of a configuration that the method reads, where they are given.
pub record AgentConfig : Type 0 where
  pub min_order_value : Option ℤ
  pub max_order_value : Option ℤ
  pub industry_vertical : Option (Option Text)
  pub commodities : Option (List Text)
  pub geography : Option Text

abbrev given : {A : Type 0} → Option A → Option A → Option A
given none old = old
given (some a) old = some a

abbrev given_or : {A : Type 0} → Option A → A → A
given_or none old = old
given_or (some a) old = a

abbrev pub exceeds : Option ℤ → Option ℤ → Bool
exceeds (some low) (some high) = ltb_ℤ high low
exceeds _ _ = false

-- The bounds are written before they are compared.
unfoldable pub update_agent_config : AgentConfig → Action Enterprise (Unit {0})
update_agent_config c e =
    let e' = record e {
      min_order_value = given c.min_order_value e.min_order_value;
      max_order_value = given c.max_order_value e.max_order_value;
    } in
    if exceeds e'.min_order_value e'.max_order_value then (err validation_error, e') else (
      ok tt,
      record e' {
        industry_vertical = given_or c.industry_vertical e.industry_vertical;
        commodities = given_or c.commodities e.commodities;
        geography = given_or c.geography e.geography;
      },
    )

unfoldable pub link_algorand_wallet : (address : Text) → Action Enterprise (Unit {0})
link_algorand_wallet address e =
    if is_some e.algorand_wallet
    then (err conflict, e)
    else (ok tt, record e { algorand_wallet = some address })

pub data UserRole : Type 0 where
  admin treasury_manager compliance_officer auditor : UserRole

abbrev pub is_admin : UserRole → Bool
is_admin UserRole.admin = true
is_admin _ = false

pub record User : Type 0 where
  pub id : ℕ
  pub enterprise_id : ℕ
  pub email : Text
  pub password : Text
  pub role : UserRole
  pub last_login : Option ℕ
  pub is_active : Bool

-- `HashedPassword.verify` is bcrypt's, given as `verify`.
unfoldable pub authenticate :
    (verify : (hash plaintext : Text) → Bool) → (plaintext : Text) → Action User Bool
authenticate verify plaintext u =
    if not u.is_active then (err policy_violation, u) else (ok (verify u.password plaintext), u)

unfoldable pub record_login : (now : ℕ) → User → User
record_login now u = record u { last_login = some now }

unfoldable pub deactivate : User → User
deactivate u = record u { is_active = false }
