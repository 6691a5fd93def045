-- ===== src/Identity/Service.antt =====
-- `IdentityService` of identity/application/services.py. The tables hold the aggregates as they were
-- stored; of their mapping to rows only the loss of the geography is modelled. The KYC provider,
-- bcrypt, the tokens' decoder and the hash of an API key are given by what they answer; the tokens are
-- given by what they claim. A commit succeeds.
use cadencia_platform.Base.{
  ℕ, ◌+◌, Bool, true, false, not, ◌&&◌, ◌||◌, Option, none, some, is_some, List, [], ◌∷◌, ◌++◌, map,
  if◌then◌else◌, leb, ◌==◌, Result, ok, err, internal_error, not_found, policy_violation,
  validation_error, conflict, Action, ◌>>=◌, ◌>>◌, pure, raise, raise_if, gets, lift, or_raise,
  modify, Text, codes, text_eq,
}
use cadencia_platform.Identity.{
  KycStatus, Enterprise, EnterpriseEvent, AgentConfig, UserRole, User, is_admin, submit_kyc,
  verify_kyc, activate, update_agent_config, link_algorand_wallet, authenticate, record_login,
}
use cadencia_platform.Identity.Values.{algorand_address}
use cadencia_platform.Compliance.Values.{strip}

pub record ApiKey : Type 0 where
  pub id : ℕ
  pub enterprise_id : ℕ
  pub name : Text
  pub key_hash : Text
  pub is_active : Bool

pub data IdentityEvent : Type 0 where
  enterprise_registered user_logged_in : (id enterprise : ℕ) → IdentityEvent
  kyc : EnterpriseEvent → IdentityEvent
  api_key_created api_key_revoked : (enterprise key : ℕ) → IdentityEvent

pub record Office : Type 0 where
  pub enterprises : List Enterprise
  pub users : List User
  pub keys : List ApiKey
  pub published : List IdentityEvent

-- `_enterprise_to_domain` of what was stored: a geography has no column and is read back as IN. That the
-- order limits are stored as floats among the documents is left out.
unfoldable pub enterprise_to_domain : Enterprise → Enterprise
enterprise_to_domain e = record e { geography = codes "IN" }

-- `get_by_id` of the enterprises and the users, and `get_by_email`.
unfoldable pub enterprise_of : ℕ → List Enterprise → Option Enterprise
unfolding enterprise_to_domain
enterprise_of i [] = none
enterprise_of i (e ∷ es) = if e.id == i then some (enterprise_to_domain e) else enterprise_of i es

unfoldable pub user_of : ℕ → List User → Option User
user_of i [] = none
user_of i (u ∷ us) = if u.id == i then some u else user_of i us

unfoldable pub user_by_email : Text → List User → Option User
unfolding text_eq
user_by_email t [] = none
user_by_email t (u ∷ us) = if text_eq u.email t then some u else user_by_email t us

-- `update` of an enterprise and of a user.
unfoldable pub put_enterprise : Enterprise → List Enterprise → List Enterprise
put_enterprise e [] = []
put_enterprise e (k ∷ ks) = (if k.id == e.id then e else k) ∷ put_enterprise e ks

unfoldable pub put_user : User → List User → List User
put_user u [] = []
put_user u (k ∷ ks) = (if k.id == u.id then u else k) ∷ put_user u ks

unfoldable pub publish : IdentityEvent → Action Office (Unit {0})
publish v = modify λ o. record o { published = o.published ++ v ∷ [] }

unfoldable pub update_enterprise : Enterprise → Action Office (Unit {0})
unfolding put_enterprise
update_enterprise e = modify λ o. record o { enterprises = put_enterprise e o.enterprises }

-- A method of an aggregate in memory; what it changes is stored by a later `update`.
unfoldable pub on_entity : {A E : Type 0} → Action E A → E → Action Office (A × E)
on_entity m e o = let (r, e') = m e in elim r [ ok a ↦ (ok (a, e'), o) | err x ↦ (err x, o) ]

-- `user is None or user.enterprise_id != enterprise_id`.
unfoldable pub belongs : ℕ → Option User → Bool
belongs e none = false
belongs e (some u) = u.enterprise_id == e

unfoldable pub has_admin_role : Option User → Bool
has_admin_role none = false
has_admin_role (some u) = is_admin u.role

-- The first lines of `submit_kyc`, `update_agent_config`, `link_wallet` and `unlink_wallet`.
unfoldable pub as_admin : (enterprise user : ℕ) → Action Office Enterprise
unfolding enterprise_of user_of belongs has_admin_role
as_admin enterprise user = do
  e ← or_raise (enterprise_of enterprise (← gets (λ o. o.enterprises))) not_found
  u ← gets λ o. user_of user o.users
  raise_if (not (belongs e.id u)) policy_violation
  raise_if (not (has_admin_role u)) policy_violation
  pure e

-- `submit_kyc`; the provider merges its answer into the documents.
unfoldable pub submit_documents : (enterprise user : ℕ) → Result Text → Action Office KycStatus
unfolding as_admin on_entity submit_kyc update_enterprise publish
submit_documents enterprise user answer = do
  e ← as_admin enterprise user
  documents ← lift answer
  done ← on_entity (submit_kyc documents) e
  update_enterprise done.1
  publish (kyc done.0)
  pure done.1.kyc_status

-- `verify_kyc`; the requesting user of the command is not read.
unfoldable pub verify_enterprise : (enterprise user : ℕ) → Result Bool → Action Office KycStatus
unfolding enterprise_of update_enterprise publish
verify_enterprise enterprise user answer = do
  e ← or_raise (enterprise_of enterprise (← gets (λ o. o.enterprises))) not_found
  verified ← lift answer
  raise_if (not verified) policy_violation
  first ← on_entity verify_kyc e
  second ← on_entity activate first.1
  update_enterprise second.1
  publish (kyc first.0)
  publish (kyc second.0)
  pure second.1.kyc_status

-- The two modes of a configuration.
pub data Config : Type 0 where
  negotiation : (agent_config : Text) → Config
  fields : AgentConfig → Config

unfoldable pub configure : Config → Action Enterprise (Unit {0})
unfolding update_agent_config
configure (negotiation c) e = (ok tt, record e { agent_config = some c })
configure (fields c) e = update_agent_config c e

unfoldable pub update_config : (enterprise user : ℕ) → Config → Action Office Enterprise
unfolding as_admin on_entity configure update_enterprise
update_config enterprise user c = do
  e ← as_admin enterprise user
  done ← on_entity (configure c) e
  update_enterprise done.1
  pure done.1

unfoldable pub link_wallet : (enterprise user : ℕ) → (address : Text) → Action Office Enterprise
unfolding as_admin algorand_address on_entity link_algorand_wallet update_enterprise
link_wallet enterprise user address = do
  e ← as_admin enterprise user
  a ← lift (algorand_address address)
  done ← on_entity (link_algorand_wallet a) e
  update_enterprise done.1
  pure done.1

-- `unlink_wallet` calls a method that `Enterprise` does not have: an `AttributeError`.
unfoldable pub unlink_wallet : (enterprise user : ℕ) → Action Office Enterprise
unfolding as_admin
unlink_wallet enterprise user = do
  e ← as_admin enterprise user
  raise_if (not (is_some e.algorand_wallet)) conflict
  raise internal_error

-- What an access token claims.
pub record Claims : Type 0 where
  pub subject : ℕ
  pub enterprise_id : ℕ
  pub role : UserRole

abbrev to_lower : ℕ → ℕ
to_lower c = if leb 65 c && leb c 90 then c + 32 else c

-- `email.strip().lower()`.
unfoldable pub normal_email : Text → Text
unfolding strip
normal_email t = map to_lower (strip t)

unfoldable pub login :
    (verify : (hash plaintext : Text) → Bool)
    → (now : ℕ) → (email password : Text) → Action Office Claims
unfolding normal_email user_by_email record_login put_user publish
login verify now email password = do
  u ← or_raise (user_by_email (normal_email email) (← gets (λ o. o.users))) not_found
  checked ← on_entity (authenticate verify password) u
  raise_if (not checked.0) policy_violation
  let v = record_login now u
  modify λ o. record o { users = put_user v o.users }
  publish (user_logged_in v.id v.enterprise_id)
  pure (record { subject = v.id; enterprise_id = v.enterprise_id; role = v.role })

-- The claims of a decoded refresh token are the identifier of the user.
unfoldable pub refresh_token : (decoded : Result ℕ) → Action Office Claims
unfolding user_of
refresh_token decoded = do
  i ← lift (elim decoded [ ok i ↦ ok i | err x ↦ err validation_error ])
  u ← or_raise (user_of i (← gets (λ o. o.users))) policy_violation
  raise_if (not u.is_active) policy_violation
  pure (record { subject = u.id; enterprise_id = u.enterprise_id; role = u.role })

-- The check of `create_api_key`, `revoke_api_key` and `list_api_keys`.
unfoldable pub as_member : (enterprise user : ℕ) → Action Office (Unit {0})
unfolding user_of belongs
as_member enterprise user = do
  u ← gets λ o. user_of user o.users
  raise_if (not (belongs enterprise u)) policy_violation

unfoldable pub create_api_key :
    (key enterprise user : ℕ) → (label : Option Text) → (key_hash : Text) → Action Office ℕ
unfolding as_member publish
create_api_key key enterprise user label key_hash = do
  as_member enterprise user
  let k : ApiKey = record {
    id = key;
    enterprise_id = enterprise;
    name = elim label [ none ↦ codes "API Key" | some [] ↦ codes "API Key" | some (c ∷ t) ↦ c ∷ t ];
    key_hash = key_hash;
    is_active = true;
  }
  modify λ o. record o { keys = o.keys ++ k ∷ [] }
  publish (api_key_created enterprise key)
  pure key

unfoldable pub has_key : (key enterprise : ℕ) → List ApiKey → Bool
has_key key enterprise [] = false
has_key key enterprise (k ∷ ks) =
    (k.id == key && k.enterprise_id == enterprise) || has_key key enterprise ks

unfoldable pub deactivate_key : (key enterprise : ℕ) → List ApiKey → List ApiKey
deactivate_key key enterprise [] = []
deactivate_key key enterprise (k ∷ ks) =
    (if k.id == key && k.enterprise_id == enterprise then record k { is_active = false } else k)
    ∷ deactivate_key key enterprise ks

unfoldable pub revoke_api_key : (key enterprise user : ℕ) → Action Office (Unit {0})
unfolding as_member has_key deactivate_key publish
revoke_api_key key enterprise user = do
  as_member enterprise user
  raise_if (not (has_key key enterprise (← gets (λ o. o.keys)))) not_found
  modify λ o. record o { keys = deactivate_key key enterprise o.keys }
  publish (api_key_revoked enterprise key)

-- `get_by_hash`: a revoked key is not found.
unfoldable pub get_by_hash : Text → List ApiKey → Option ApiKey
unfolding text_eq
get_by_hash t [] = none
get_by_hash t (k ∷ ks) = if text_eq k.key_hash t && k.is_active then some k else get_by_hash t ks

unfoldable pub get_enterprise : (enterprise user : ℕ) → Action Office Enterprise
unfolding user_of enterprise_of
get_enterprise enterprise user = do
  u ← or_raise (user_of user (← gets (λ o. o.users))) not_found
  raise_if (not (u.enterprise_id == enterprise)) policy_violation
  or_raise (enterprise_of enterprise (← gets (λ o. o.enterprises))) not_found
