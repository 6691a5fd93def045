-- ===== src/Admin.antt =====
-- The platform administration of admin/services/admin_service.py and admin/api/router.py, over the tables of the
-- identity and negotiation contexts. An answer of 404, 400 and 403 is a not-found, a validation and an
-- authorization error. Orderings by creation time, averages and rates, latencies, the LLM call log and
-- names derived from an email are left out.
pub mod Requests
pub mod Powers
pub mod Reach
mod Tests
use cadencia_platform.Base.{
  ℕ, ◌+◌, Bool, true, false, not, ◌&&◌, ◌||◌, Option, none, some, is_some, List, [], ◌∷◌, ◌++◌,
  length, if◌then◌else◌, ltb, ◌==◌, Result, ok, err, not_found, validation_error, authorization,
  Action, ◌>>=◌, ◌>>◌, pure, raise_if, gets, or_raise, modify, Text,
}
use cadencia_platform.Identity.{KycStatus, TradeRole, Enterprise, User, is_admin}
use cadencia_platform.Identity.Service.{Office, user_of, put_enterprise, put_user}
use cadencia_platform.Negotiation.Session.{SessionStatus, is_human_review}
use cadencia_platform.Negotiation.Tables.{SessionRow}

-- The statuses that the frontend knows.
pub data FrontendStatus : Type 0 where
  not_submitted pending active rejected : FrontendStatus

pub data KycAction : Type 0 where
  approve reject revoke : KycAction

pub data SuspendAction : Type 0 where
  suspend reinstate : SuspendAction

pub data Target : Type 0 where
  all active_enterprises admins_only : Target

pub record Broadcast : Type 0 where
  pub id : ℕ
  pub message : Text
  pub target : Target
  pub sender_id : ℕ
  pub recipient_count : ℕ

-- The tables that the service reads and writes.
pub record Platform : Type 0 where
  pub office : Office
  pub sessions : List SessionRow
  pub broadcasts : List Broadcast

-- `_map_kyc_to_frontend`.
abbrev pub map_kyc_to_frontend : KycStatus → FrontendStatus
map_kyc_to_frontend KycStatus.pending = FrontendStatus.not_submitted
map_kyc_to_frontend KycStatus.kyc_submitted = FrontendStatus.pending
map_kyc_to_frontend KycStatus.verified = FrontendStatus.active
map_kyc_to_frontend KycStatus.active = FrontendStatus.active

abbrev pub status_eq : FrontendStatus → FrontendStatus → Bool
status_eq FrontendStatus.not_submitted FrontendStatus.not_submitted = true
status_eq FrontendStatus.pending FrontendStatus.pending = true
status_eq FrontendStatus.active FrontendStatus.active = true
status_eq FrontendStatus.rejected FrontendStatus.rejected = true
status_eq _ _ = false

-- `_TRANSITION_MAP`: the required status and the target.
abbrev pub transition : KycAction → FrontendStatus × FrontendStatus
transition KycAction.approve = (FrontendStatus.pending, FrontendStatus.active)
transition KycAction.reject = (FrontendStatus.pending, FrontendStatus.rejected)
transition KycAction.revoke = (FrontendStatus.active, FrontendStatus.not_submitted)

-- `db_status_map`, with its default.
abbrev pub db_status : FrontendStatus → KycStatus
db_status FrontendStatus.active = KycStatus.active
db_status _ = KycStatus.pending

-- The row of an enterprise, as it is stored.
unfoldable pub enterprise_row : ℕ → List Enterprise → Option Enterprise
enterprise_row i [] = none
enterprise_row i (e ∷ es) = if e.id == i then some e else enterprise_row i es

abbrev pub with_users : (List User → List User) → Platform → Platform
with_users f p = record p { office = record p.office { users = f p.office.users } }

unfoldable pub apply_kyc_action : (enterprise : ℕ) → KycAction → Action Platform FrontendStatus
unfolding enterprise_row
apply_kyc_action enterprise action = do
  e ← or_raise (enterprise_row enterprise (← gets (λ p. p.office.enterprises))) not_found
  let (required_from, target) = transition action
  raise_if (not (status_eq (map_kyc_to_frontend e.kyc_status) required_from)) validation_error
  modify λ p. record p {
    office = record p.office {
      enterprises =
          put_enterprise (record e { kyc_status = db_status target }) p.office.enterprises;
    };
  }
  pure target

abbrev is_suspend : SuspendAction → Bool
is_suspend SuspendAction.suspend = true
is_suspend SuspendAction.reinstate = false

-- `suspend_user`; the answer says whether the user is active.
unfoldable pub suspend_user : (user : ℕ) → SuspendAction → Action Platform Bool
unfolding user_of
suspend_user user action = do
  u ← or_raise (user_of user (← gets (λ p. p.office.users))) not_found
  raise_if (is_suspend action && is_admin u.role) authorization
  modify (with_users (put_user (record u { is_active = not (is_suspend action) })))
  pure (not (is_suspend action))

unfoldable pub session_row : ℕ → List SessionRow → Option SessionRow
session_row i [] = none
session_row i (m ∷ ms) = if m.id == i then some m else session_row i ms

unfoldable pub put_session : SessionRow → List SessionRow → List SessionRow
put_session m [] = []
put_session m (n ∷ ns) = (if n.id == m.id then m else n) ∷ put_session m ns

abbrev pub is_running : SessionStatus → Bool
is_running SessionStatus.active = true
is_running _ = false

abbrev pub is_paused : SessionStatus → Bool
is_paused SessionStatus.human_review = true
is_paused SessionStatus.stalled = true
is_paused _ = false

unfoldable pub pause_agent : (session : ℕ) → Action Platform (Unit {0})
unfolding session_row
pause_agent session = do
  m ← or_raise (session_row session (← gets (λ p. p.sessions))) not_found
  raise_if (not (is_running m.status)) validation_error
  modify λ p. record p {
    sessions = put_session (record m { status = SessionStatus.human_review }) p.sessions;
  }

unfoldable pub resume_agent : (session : ℕ) → Action Platform (Unit {0})
unfolding session_row
resume_agent session = do
  m ← or_raise (session_row session (← gets (λ p. p.sessions))) not_found
  raise_if (not (is_paused m.status)) validation_error
  modify λ p. record p {
    sessions = put_session (record m { status = SessionStatus.active }) p.sessions;
  }

-- `list_agents`: the sessions shown, and whether each is paused.
unfoldable pub list_agents : List Enterprise → List SessionRow → List (ℕ × Bool)
unfolding enterprise_row
list_agents es [] = []
list_agents es (m ∷ ms) =
    let rest = list_agents es ms in
    if (is_running m.status || is_paused m.status)
      && is_some (enterprise_row m.buyer_enterprise_id es)
      && is_some (enterprise_row m.seller_enterprise_id es)
    then (m.id, is_paused m.status) ∷ rest
    else rest

abbrev is_target : List Enterprise → Target → User → Bool
is_target es Target.all u = u.is_active
is_target es Target.active_enterprises u = elim (enterprise_row u.enterprise_id es) [
  | none ↦ false
  | some e ↦ u.is_active && is_active_row e.kyc_status
]
  where
    is_active_row : KycStatus → Bool
    is_active_row KycStatus.active = true
    is_active_row _ = false
is_target es Target.admins_only u = u.is_active && is_admin u.role

unfoldable pub recipients : List Enterprise → Target → List User → ℕ
recipients es t [] = 0
recipients es t (u ∷ us) =
    let rest = recipients es t us in if is_target es t u then rest + 1 else rest

unfoldable pub broadcast : (id sender : ℕ) → Text → Target → Action Platform ℕ
unfolding recipients
broadcast id sender message target = do
  raise_if (ltb 1000 (length message)) validation_error
  n ← gets λ p. recipients p.office.enterprises target p.office.users
  let b : Broadcast = record {
    id = id;
    message = message;
    target = target;
    sender_id = sender;
    recipient_count = n;
  }
  modify λ p. record p { broadcasts = p.broadcasts ++ b ∷ [] }
  pure n
