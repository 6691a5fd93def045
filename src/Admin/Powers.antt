-- ===== src/Admin/Powers.antt =====
-- What the administrative operations of admin/services/admin_service.py come to, within one session.
use cadencia_platform.Base.{
  ℕ, ◌≡◌, refl, Bool, true, false, some, List, [], ◌∷◌, ok, err, is_ok, policy_violation, ◌>>◌,
  Text, arith, conflict, ap, resume, Bool-cases, inl, inr, text_eq,
}
use cadencia_platform.Identity.{
  KycStatus, Enterprise, User, kyc_verification, activation, is_submitted, is_admin, verify_kyc,
  activate,
}
use cadencia_platform.Identity.Service.{
  Office, put_enterprise, put_user, user_of, user_by_email, normal_email, login, refresh_token,
}
use cadencia_platform.Identity.Access.{login_claims}
use cadencia_platform.Admin.{
  Platform, FrontendStatus, KycAction, SuspendAction, map_kyc_to_frontend, enterprise_row,
  apply_kyc_action, suspend_user, with_users,
}

enterprise_row-put_enterprise :
    (i : ℕ) (e : Enterprise) (es : List Enterprise) (old : Enterprise)
    → enterprise_row i es ≡ some old
    → e.id ≡ old.id
    → enterprise_row i (put_enterprise e es) ≡ some e
unfolding enterprise_row put_enterprise
enterprise_row-put_enterprise i e [] old h k = absurd (ground arith)
enterprise_row-put_enterprise i e (x ∷ xs) old h k =
    ground (arith, enterprise_row-put_enterprise i e xs old)

user_of-put_user :
    (i : ℕ) (u : User) (us : List User) (old : User)
    → user_of i us ≡ some old
    → u.id ≡ old.id
    → user_of i (put_user u us) ≡ some u
unfolding user_of put_user
user_of-put_user i u [] old h k = absurd (ground arith)
user_of-put_user i u (x ∷ xs) old h k = ground (arith, user_of-put_user i u xs old)

verify_kyc_first :
    (e : Enterprise)
    → is_submitted e.kyc_status ≡ true
    → verify_kyc e ≡ (ok (kyc_verification e.id), record e { kyc_status = KycStatus.verified })
unfolding verify_kyc
verify_kyc_first e h = ground arith

verify_kyc_refused :
    (e : Enterprise) → is_submitted e.kyc_status ≡ false → verify_kyc e ≡ (err conflict, e)
unfolding verify_kyc
verify_kyc_refused e h = ground arith

verified_activate :
    (e : Enterprise)
    → is_submitted e.kyc_status ≡ true
    → (verify_kyc >> activate) e
      ≡ (ok (activation e.id), record e { kyc_status = KycStatus.active })
unfolding activate
verified_activate e h = ap (resume (λ _. activate)) (verify_kyc_first e h)

-- An approval of a stored enterprise does what the aggregate's verification followed by its activation does: it returns for
-- exactly the same enterprises, those with submitted documents, and stores the same row; where the aggregate
-- raises, it raises and changes nothing.
pub apply_kyc_action-activate :
    (i : ℕ) (p : Platform) (e : Enterprise)
    → enterprise_row i p.office.enterprises ≡ some e
    → let (r, q) = apply_kyc_action i KycAction.approve p in
      let (s, f) = (verify_kyc >> activate) e in
      (is_ok r ≡ is_ok s)
      × (is_ok s ≡ true → q.office.enterprises ≡ put_enterprise f p.office.enterprises)
      × (is_ok s ≡ false → q ≡ p)
unfolding apply_kyc_action
apply_kyc_action-activate i p e found = elim (Bool-cases (is_submitted e.kyc_status)) [
  | inl h ↦ let both = verified_activate e h in (ground arith, λ s. ground arith, λ s. ground arith)
  | inr h ↦
      let none' = ap (resume (λ _. activate)) (verify_kyc_refused e h) in
      (ground arith, λ s. ground arith, λ s. ground arith)
]

-- A rejection of submitted documents is answered as REJECTED, but what is stored is the status of an
-- enterprise that has never submitted any: it is listed as NOT_SUBMITTED, as after a revocation.
pub apply_kyc_action_shown :
    (i : ℕ) (p : Platform) (e : Enterprise)
    → enterprise_row i p.office.enterprises ≡ some e
    → is_submitted e.kyc_status ≡ true
    → let (r, q) = apply_kyc_action i KycAction.reject p in
      (r ≡ ok FrontendStatus.rejected)
      × (enterprise_row i q.office.enterprises ≡ some (record e { kyc_status = KycStatus.pending }))
      × (map_kyc_to_frontend KycStatus.pending ≡ FrontendStatus.not_submitted)
unfolding apply_kyc_action
apply_kyc_action_shown i p e found submitted =
    let stored =
      enterprise_row-put_enterprise i (record e { kyc_status = KycStatus.pending })
        p.office.enterprises e found refl in
    ground arith

user_by_email_found :
    (t : Text) (us : List User) (u : User) → user_by_email t us ≡ some u → text_eq u.email t ≡ true
unfolding user_by_email
user_by_email_found t [] u h = absurd (ground arith)
user_by_email_found t (x ∷ xs) u h = ground (arith, user_by_email_found t xs u)

user_by_email-put_user :
    (t : Text) (us : List User) (u : User) (active : Bool)
    → user_by_email t us ≡ some u
    → user_of u.id us ≡ some u
    → user_by_email t (put_user (record u { is_active = active }) us)
      ≡ some (record u { is_active = active })
unfolding user_by_email user_of put_user
user_by_email-put_user t [] u active h k = absurd (ground arith)
user_by_email-put_user t (x ∷ xs) u active h k =
    ground (arith, user_by_email-put_user t xs u active, user_by_email_found t xs u)

put_user-put_user :
    (u v : User) (us : List User) → v.id ≡ u.id → put_user v (put_user u us) ≡ put_user v us
unfolding put_user
put_user-put_user u v [] h = refl
put_user-put_user u v (x ∷ xs) h = ground (arith, put_user-put_user u v xs h)

pub suspend_user_stores :
    (p : Platform) (u : User)
    → user_of u.id p.office.users ≡ some u
    → is_admin u.role ≡ false
    → suspend_user u.id SuspendAction.suspend p
      ≡ (ok false, with_users (put_user (record u { is_active = false })) p)
unfolding suspend_user
suspend_user_stores p u found plain = ground arith

reinstated_stores :
    (p : Platform) (u v : User)
    → user_of u.id p.office.users ≡ some v
    → suspend_user u.id SuspendAction.reinstate p
      ≡ (ok true, with_users (put_user (record v { is_active = true })) p)
unfolding suspend_user
reinstated_stores p u v found = ground arith

barred_login :
    (verify : (hash plaintext : Text) → Bool) (now : ℕ) (email password : Text) (o : Office)
    (u : User)
    → user_by_email (normal_email email) o.users ≡ some u
    → u.is_active ≡ false
    → login verify now email password o ≡ (err policy_violation, o)
barred_login verify now email password o u named barred =
    let out = login_claims verify now email password o u named in ground arith

-- On the tables as the suspension of a stored user who is no administrator leaves them in its own database
-- session, neither the refresh of a token nor a login under the address that names the user returns, whatever
-- the password; a reinstatement in that session then leaves the tables as one without the suspension does.
pub suspend_user-login :
    (verify : (hash plaintext : Text) → Bool) (now : ℕ) (email password : Text) (p : Platform)
    (u : User)
    → user_of u.id p.office.users ≡ some u
    → user_by_email (normal_email email) p.office.users ≡ some u
    → is_admin u.role ≡ false
    → let (r, q) = suspend_user u.id SuspendAction.suspend p in
      (r ≡ ok false)
      × (refresh_token (ok u.id) q.office ≡ (err policy_violation, q.office))
      × (login verify now email password q.office ≡ (err policy_violation, q.office))
      × (suspend_user u.id SuspendAction.reinstate q ≡ suspend_user u.id SuspendAction.reinstate p)
unfolding refresh_token
suspend_user-login verify now email password p u found named plain =
    let v = record u { is_active = false } in
    let stores = suspend_user_stores p u found plain in
    let stored = user_of-put_user u.id v p.office.users u found refl in
    let renamed = user_by_email-put_user (normal_email email) p.office.users u false named found in
    let o : Office = record p.office { users = put_user v p.office.users } in
    let barred = barred_login verify now email password o v renamed refl in
    let twice = put_user-put_user v (record u { is_active = true }) p.office.users refl in
    let again = reinstated_stores (with_users (put_user v) p) u v stored in
    let direct = reinstated_stores p u u found in
    (ground arith, ground arith, ground arith, ground arith)
