-- ===== src/Admin/Reach.antt =====
-- Who reaches the routes of admin/api/router.py, and which sessions they reach.
use cadencia_platform.Base.{
  ℕ, ◌+◌, ◌≤◌, ◌≡◌, refl, ◌≢◌, Bool, true, false, Option, none, some, List, [], ◌∷◌, ◌++◌, ◌==◌,
  leb, if◌then◌else◌, ok, err, is_ok, validation_error, Text, arith,
}
use cadencia_platform.Identity.{User, UserRole, is_admin}
use cadencia_platform.Identity.Service.{Office, Claims, user_of, put_user, normal_email, publish}
use cadencia_platform.Identity.Registration.{RegisterCommand, register_enterprise}
use cadencia_platform.Identity.Requests.{Payload, create_access_token, get_current_user}
use cadencia_platform.Identity.Requests.Tokens.{access_token-get_current_user}
use cadencia_platform.Negotiation.Session.{SessionStatus}
use cadencia_platform.Negotiation.Tables.{SessionRow}
use cadencia_platform.Admin.{
  Platform, SuspendAction, session_row, put_session, pause_agent, resume_agent, is_running,
  with_users,
}
use cadencia_platform.Admin.Powers.{suspend_user_stores}
use cadencia_platform.Admin.Requests.{current_user, require_admin, suspend_route}

user_of-append :
    (i : ℕ) (us : List User) (u : User)
    → user_of i (us ++ u ∷ [])
      ≡ (elim (user_of i us) [ none ↦ if u.id == i then some u else none | some v ↦ some v ])
unfolding user_of
user_of-append i [] u = refl
user_of-append i (x ∷ xs) u = ground (arith, user_of-append i xs u)

new_user : (user id : ℕ) → RegisterCommand → User
new_user user id cmd = record {
  id = user;
  enterprise_id = id;
  email = normal_email cmd.email;
  password = cmd.password_hash;
  role = cmd.role;
  last_login = none;
  is_active = true;
}

registered_users :
    (is_email : Text → Bool) (id user : ℕ) (cmd : RegisterCommand) (o : Office) (c : Claims)
    → (register_enterprise is_email id user cmd o).0 ≡ ok c
    → ((register_enterprise is_email id user cmd o).1.users ≡ o.users ++ new_user user id cmd ∷ [])
      × (c.subject ≡ user)
unfolding register_enterprise new_user publish
registered_users is_email id user cmd o c h = ground arith

admin_suspends :
    (decode : (now : ℕ) → Text → Option Payload) (later : ℕ) (token : Option Text) (p : Platform)
    (u v : User)
    → get_current_user decode later token p.office ≡ (ok u, p.office)
    → is_admin u.role ≡ true
    → v.id ≢ u.id
    → user_of v.id p.office.users ≡ some v
    → is_admin v.role ≡ false
    → suspend_route decode v.id later SuspendAction.suspend token p
      ≡ (ok false, with_users (put_user (record v { is_active = false })) p)
unfolding suspend_route require_admin current_user
admin_suspends decode later token p u v caller role ne found plain =
    let stores = suspend_user_stores p v found plain in ground arith

module _ (encode : Payload → Text) (decode : (now : ℕ) → Text → Option Payload)
    (decode-encode : (now : ℕ) (p : Payload)
      → decode now (encode p) ≡ (if leb now p.exp then some p else none))
    (head : Payload → ℕ) (tail : Payload → Text)
    (encode_filled : (p : Payload) → encode p ≡ head p ∷ tail p) where
  -- Whoever registers an enterprise, under a fresh identifier and in the role of an administrator, is let
  -- into the administration of the platform: for fifteen minutes a request with an access token of that
  -- registration to suspend a stored user who is no administrator, of whatever enterprise, is answered with
  -- success and writes that user as inactive, and nothing else, to the tables of the request's own database
  -- session. Whether the session is committed is not stated.
  pub register_enterprise-suspend_route :
      (is_email : Text → Bool) (id user now later : ℕ) (cmd : RegisterCommand) (p : Platform)
      (c : Claims) (v : User)
      → (register_enterprise is_email id user cmd p.office).0 ≡ ok c
      → cmd.role ≡ UserRole.admin
      → user_of user p.office.users ≡ none
      → user_of v.id p.office.users ≡ some v
      → is_admin v.role ≡ false
      → later ≤ now + 900
      → let q = record p { office = (register_enterprise is_email id user cmd p.office).1 } in
        let token = some (create_access_token encode now c) in
        suspend_route decode v.id later SuspendAction.suspend token q
        ≡ (ok false, with_users (put_user (record v { is_active = false })) q)
  unfolding new_user
  register_enterprise-suspend_route is_email id user now later cmd p c v returned role fresh other
        plain live =
      let u = new_user user id cmd in
      let o = (register_enterprise is_email id user cmd p.office).1 in
      let (users, subject) = registered_users is_email id user cmd p.office c returned in
      let mine = user_of-append user p.office.users u in
      let theirs = user_of-append v.id p.office.users u in
      let entered =
        (access_token-get_current_user encode decode decode-encode head tail encode_filled now later
            c o u (ground arith)).0
          live refl in
      admin_suspends decode later (some (create_access_token encode now c))
        (record p { office = o }) u v entered (ground arith) (ground arith) (ground arith) plain

running_row :
    (m : SessionRow) → is_running m.status ≡ true → record m { status = SessionStatus.active } ≡ m
running_row m h = ground arith

session_row-put_session :
    (i : ℕ) (m old : SessionRow) (ms : List SessionRow)
    → session_row i ms ≡ some old
    → m.id ≡ old.id
    → session_row i (put_session m ms) ≡ some m
unfolding session_row put_session
session_row-put_session i m old [] h k = absurd (ground arith)
session_row-put_session i m old (x ∷ xs) h k = ground (arith, session_row-put_session i m old xs)

-- A pause of a session whose status is ACTIVE, followed by a resumption, leaves its row as it was; a pause
-- of one in any other status, the four of a session that is being negotiated among them, raises and
-- changes nothing.
pub pause_agent-resume_agent :
    (i : ℕ) (p : Platform) (m : SessionRow)
    → session_row i p.sessions ≡ some m
    → (is_running m.status ≡ true
        → (is_ok (pause_agent i p).0 ≡ true)
          × (session_row i (resume_agent i (pause_agent i p).1).1.sessions ≡ some m))
      × (is_running m.status ≡ false → pause_agent i p ≡ (err validation_error, p))
unfolding pause_agent resume_agent
pause_agent-resume_agent i p m found =
    let paused : SessionRow = record m { status = SessionStatus.human_review } in
    let stored = session_row-put_session i paused m p.sessions found refl in
    let resumed : SessionRow = record m { status = SessionStatus.active } in
    let again =
      session_row-put_session i resumed paused (put_session paused p.sessions) stored refl in
    (λ h. let same = running_row m h in ground arith, λ h. ground arith)
