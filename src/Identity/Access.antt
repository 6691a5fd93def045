-- ===== src/Identity/Access.antt =====
-- Who may do what in identity/application/services.py.
use cadencia_platform.Base.{
  ℕ, ◌≡◌, refl, Bool, true, false, ◌&&◌, Option, some, List, [], ◌∷◌, ◌==◌, Result, ok, err, is_ok,
  Action, DomainError, policy_violation, Text, arith, Option-cases, inl, inr,
}
use cadencia_platform.Identity.{
  KycStatus, kyc_verification, activation, is_verified, Enterprise, User, is_submitted, verify_kyc,
  activate, authenticate, record_login,
}
use cadencia_platform.Identity.Service.{
  ApiKey, Office, Config, enterprise_of, user_of, user_by_email, normal_email, put_user, belongs,
  has_admin_role, as_admin, submit_documents, verify_enterprise, update_config, link_wallet,
  unlink_wallet, login, deactivate_key, revoke_api_key, get_by_hash, as_member, on_entity,
  update_enterprise, put_enterprise, publish,
}

-- The user is an administrator of the enterprise.
abbrev pub administers : ℕ → Option User → Bool
administers enterprise u = belongs enterprise u && has_admin_role u

enterprise_of-id :
    (i : ℕ) (es : List Enterprise) (e : Enterprise) → enterprise_of i es ≡ some e → e.id ≡ i
unfolding enterprise_of
enterprise_of-id i [] e h = absurd (ground arith)
enterprise_of-id i (k ∷ es) e h = ground (arith, enterprise_of-id i es e)

as_admin_refused :
    (enterprise user : ℕ) (o : Office)
    → administers enterprise (user_of user o.users) ≡ false
    → (is_ok (as_admin enterprise user o).0 ≡ false) × ((as_admin enterprise user o).1 ≡ o)
unfolding as_admin
as_admin_refused enterprise user o h =
    elim (Option-cases (enterprise_of enterprise o.enterprises)) [
      | inl e ↦ ground arith
      | inr (e, found) ↦ let own = enterprise_of-id enterprise o.enterprises e found in ground arith
    ]

-- Only an administrator of an enterprise submits its documents, changes its configuration or links or unlinks
-- its wallet: for any other user each of these raises and changes nothing.
pub administrators_only :
    (enterprise user : ℕ) (answer : Result Text) (c : Config) (address : Text) (o : Office)
    → administers enterprise (user_of user o.users) ≡ false
    → ((is_ok (submit_documents enterprise user answer o).0 ≡ false)
        × ((submit_documents enterprise user answer o).1 ≡ o))
      × ((is_ok (update_config enterprise user c o).0 ≡ false)
          × ((update_config enterprise user c o).1 ≡ o))
      × ((is_ok (link_wallet enterprise user address o).0 ≡ false)
          × ((link_wallet enterprise user address o).1 ≡ o))
      × ((is_ok (unlink_wallet enterprise user o).0 ≡ false)
          × ((unlink_wallet enterprise user o).1 ≡ o))
unfolding submit_documents update_config link_wallet unlink_wallet
administrators_only enterprise user answer c address o h =
    let refused = as_admin_refused enterprise user o h in ground arith

on_entity_ok :
    {A E : Type 0} (m : Action E A) (e e' : E) (a : A) (o : Office)
    → m e ≡ (ok a, e')
    → on_entity m e o ≡ (ok (a, e'), o)
unfolding on_entity
on_entity_ok m e e' a o h = ground arith

on_entity_err :
    {A E : Type 0} (m : Action E A) (e e' : E) (x : DomainError) (o : Office)
    → m e ≡ (err x, e')
    → on_entity m e o ≡ (err x, o)
unfolding on_entity
on_entity_err m e e' x o h = ground arith

on_entity_verify :
    (e : Enterprise) (o : Office)
    → is_submitted e.kyc_status ≡ true
    → on_entity verify_kyc e o
      ≡ (ok (kyc_verification e.id, record e { kyc_status = KycStatus.verified }), o)
unfolding verify_kyc
on_entity_verify e o h = on_entity_ok verify_kyc e _ _ o (ground arith)

on_entity-activate :
    (e : Enterprise) (o : Office)
    → is_verified e.kyc_status ≡ true
    → on_entity activate e o ≡ (ok (activation e.id, record e { kyc_status = KycStatus.active }), o)
unfolding activate
on_entity-activate e o h = on_entity_ok activate e _ _ o (ground arith)

-- The verification of an enterprise asks for no right of the user: whoever requests it, an enterprise with
-- submitted documents becomes ACTIVE when the provider says yes.
verify_enterprise_anyone :
    (enterprise user : ℕ) (o : Office) (e : Enterprise)
    → enterprise_of enterprise o.enterprises ≡ some e
    → is_submitted e.kyc_status ≡ true
    → let (r, o') = verify_enterprise enterprise user (ok true) o in
      (r ≡ ok KycStatus.active)
      × (o'.enterprises ≡ put_enterprise (record e { kyc_status = KycStatus.active }) o.enterprises)
unfolding verify_enterprise update_enterprise publish
verify_enterprise_anyone enterprise user o e h s =
    let first = on_entity_verify e o s in
    let second = on_entity-activate (record e { kyc_status = KycStatus.verified }) o refl in
    ground arith

on_entity_active :
    (verify : (hash plaintext : Text) → Bool) (password : Text) (u : User) (o : Office)
    → u.is_active ≡ true
    → on_entity (authenticate verify password) u o ≡ (ok (verify u.password password, u), o)
unfolding authenticate
on_entity_active verify password u o h =
    on_entity_ok (authenticate verify password) u _ _ o (ground arith)

on_entity_inactive :
    (verify : (hash plaintext : Text) → Bool) (password : Text) (u : User) (o : Office)
    → u.is_active ≡ false
    → on_entity (authenticate verify password) u o ≡ (err policy_violation, o)
unfolding authenticate
on_entity_inactive verify password u o h =
    on_entity_err (authenticate verify password) u u _ o (ground arith)

-- A login with an address that is registered returns exactly when its user is active and the password right:
-- the token then claims that user's own enterprise and role, and of the users and enterprises only the
-- time of that login is written; else it raises and changes nothing.
pub login_claims :
    (verify : (hash plaintext : Text) → Bool) (now : ℕ) (email password : Text) (o : Office)
    (u : User)
    → user_by_email (normal_email email) o.users ≡ some u
    → let (r, o') = login verify now email password o in
      ((u.is_active && verify u.password password) ≡ true
        → (r ≡ ok (record { subject = u.id; enterprise_id = u.enterprise_id; role = u.role }))
          × (o'.users ≡ put_user (record_login now u) o.users)
          × (o'.enterprises ≡ o.enterprises))
      × ((u.is_active && verify u.password password) ≡ false
          → (r ≡ err policy_violation) × (o' ≡ o))
unfolding login record_login publish
login_claims verify now email password o u h =
    let active = on_entity_active verify password u o in
    let inactive = on_entity_inactive verify password u o in ground arith

deactivate_key-get_by_hash :
    (key enterprise : ℕ) (t : Text) (ks : List ApiKey) (k : ApiKey)
    → get_by_hash t (deactivate_key key enterprise ks) ≡ some k
    → (k.id == key && k.enterprise_id == enterprise) ≡ false
unfolding get_by_hash deactivate_key
deactivate_key-get_by_hash key enterprise t [] k h = absurd (ground arith)
deactivate_key-get_by_hash key enterprise t (j ∷ ks) k h =
    ground (arith, deactivate_key-get_by_hash key enterprise t ks k)

-- Once a revocation has returned, no raw key is looked up to the revoked one, whatever its hash.
pub revoke_api_key-get_by_hash :
    (key enterprise user : ℕ) (o : Office) (t : Text) (k : ApiKey)
    → is_ok (revoke_api_key key enterprise user o).0 ≡ true
    → get_by_hash t (revoke_api_key key enterprise user o).1.keys ≡ some k
    → (k.id == key && k.enterprise_id == enterprise) ≡ false
unfolding revoke_api_key as_member publish
revoke_api_key-get_by_hash key enterprise user o t k returned h =
    let gone = deactivate_key-get_by_hash key enterprise t o.keys k in ground arith
