-- ===== src/Admin/Tests.antt =====
-- Two enterprises on one platform, on which the theorems on admin/ and on the tokens apply.
use cadencia_platform.Base.{
  ℕ, ◌≡◌, ◌≤◌, ◌<◌, refl, Bool, true, false, none, some, [], ◌∷◌, ok, err, is_ok, policy_violation,
  authentication, authorization, ◌>>◌, Text, codes, text_eq, arith,
}
use cadencia_platform.Identity.{
  Enterprise, KycStatus, TradeRole, User, UserRole, is_admin, verify_kyc, activate,
}
use cadencia_platform.Identity.Values.{pan, gstin}
use cadencia_platform.Identity.Service.{
  Claims, user_of, user_by_email, normal_email, put_enterprise, put_user, refresh_token, login,
}
use cadencia_platform.Identity.Registration.{
  RegisterCommand, register_enterprise, pan_taken, gstin_taken, out_of_order,
}
use cadencia_platform.Identity.Requests.{
  create_access_token, access_payload, token_subject, decode_access_token, get_current_user,
}
use cadencia_platform.Identity.Requests.Plain.{
  plain, plain_head, plain_tail, plain_payload, plain_payload-plain,
}
use cadencia_platform.Identity.Requests.Tokens.{access_token-get_current_user}
use cadencia_platform.Admin.{
  Platform, KycAction, SuspendAction, Target, enterprise_row, apply_kyc_action, suspend_user,
  with_users, pause_agent, resume_agent, broadcast,
}
use cadencia_platform.Admin.Requests.{
  suspend_route, kyc_route, pause_route, resume_route, broadcast_route, routes_guarded,
}
use cadencia_platform.Admin.Powers.{apply_kyc_action-activate, suspend_user-login}
use cadencia_platform.Admin.Reach.{register_enterprise-suspend_route}

abbrev mill : Enterprise
mill = record {
  id = 7;
  legal_name = codes "Mill";
  pan = codes "ABCDE1234F";
  gstin = codes "27ABCDE1234F1Z5";
  kyc_status = KycStatus.kyc_submitted;
  trade_role = TradeRole.buyer;
  algorand_wallet = none;
  industry_vertical = none;
  geography = codes "IN";
  min_order_value = none;
  max_order_value = none;
  commodities = [];
  kyc_documents = some (codes "{}");
  agent_config = none;
}

abbrev auditor : User
auditor = record {
  id = 3;
  enterprise_id = 7;
  email = codes "a@mill.in";
  password = codes "secret";
  role = UserRole.auditor;
  last_login = none;
  is_active = true;
}

-- The administrator of another enterprise.
abbrev stranger : User
stranger = record auditor {
  id = 4;
  enterprise_id = 8;
  email = codes "b@shop.in";
  role = UserRole.admin;
}

abbrev platform : Platform
platform = record {
  office = record {
    enterprises = mill ∷ [];
    users = auditor ∷ stranger ∷ [];
    keys = [];
    published = [];
  };
  sessions = [];
  broadcasts = [];
}

abbrev claims : Claims
claims = record { subject = 3; enterprise_id = 9; role = UserRole.admin }

abbrev token_of : ℕ → Text
token_of user =
    create_access_token plain 100
      (record { subject = user; enterprise_id = 8; role = UserRole.admin })

abbrev same : Text → Text → Bool
same = text_eq

access_token-get_current_user_example :
    let out =
      get_current_user plain_payload 900
        (some (create_access_token plain 100 claims))
        platform.office in
    (900 ≤ 1000 → true ≡ true → out ≡ (ok auditor, platform.office))
    × (900 ≤ 1000 → true ≡ false → out ≡ (err authorization, platform.office))
    × (1000 < 900 → out ≡ (err authentication, platform.office))
unfolding user_of
access_token-get_current_user_example =
    access_token-get_current_user plain plain_payload plain_payload-plain plain_head plain_tail
      (λ p. refl) 100 900 claims platform.office auditor refl

routes_guarded_example :
    let token = some (token_of 4) in
    (is_admin UserRole.admin ≡ false
      → (suspend_route plain_payload 3 500 SuspendAction.suspend token platform
          ≡ (err authorization, platform))
        × (kyc_route plain_payload 7 500 KycAction.approve token platform
            ≡ (err authorization, platform))
        × (pause_route plain_payload 1 500 token platform ≡ (err authorization, platform))
        × (resume_route plain_payload 1 500 token platform ≡ (err authorization, platform))
        × (broadcast_route plain_payload 6 500 (codes "m") Target.all token platform
            ≡ (err authorization, platform)))
    × (is_admin UserRole.admin ≡ true
        → (suspend_route plain_payload 3 500 SuspendAction.suspend token platform
            ≡ suspend_user 3 SuspendAction.suspend platform)
          × (kyc_route plain_payload 7 500 KycAction.approve token platform
              ≡ apply_kyc_action 7 KycAction.approve platform)
          × (pause_route plain_payload 1 500 token platform ≡ pause_agent 1 platform)
          × (resume_route plain_payload 1 500 token platform ≡ resume_agent 1 platform)
          × (broadcast_route plain_payload 6 500 (codes "m") Target.all token platform
              ≡ broadcast 6 4 (codes "m") Target.all platform))
unfolding get_current_user token_subject decode_access_token create_access_token access_payload
    user_of
routes_guarded_example =
    routes_guarded plain_payload 500 3 7 1 6 (some (token_of 4)) KycAction.approve
      SuspendAction.suspend (codes "m") Target.all platform stranger refl

apply_kyc_action-activate_example :
    let (r, q) = apply_kyc_action 7 KycAction.approve platform in
    let (s, f) = (verify_kyc >> activate) mill in
    (is_ok r ≡ is_ok s)
    × (is_ok s ≡ true → q.office.enterprises ≡ put_enterprise f platform.office.enterprises)
    × (is_ok s ≡ false → q ≡ platform)
unfolding enterprise_row
apply_kyc_action-activate_example = apply_kyc_action-activate 7 platform mill refl

suspend_user-login_example :
    let (r, q) = suspend_user 3 SuspendAction.suspend platform in
    (r ≡ ok false)
    × (refresh_token (ok 3) q.office ≡ (err policy_violation, q.office))
    × (login same 5 (codes "A@mill.in ") (codes "secret") q.office
        ≡ (err policy_violation, q.office))
    × (suspend_user 3 SuspendAction.reinstate q ≡ suspend_user 3 SuspendAction.reinstate platform)
unfolding user_of user_by_email normal_email text_eq
suspend_user-login_example =
    suspend_user-login same 5 (codes "A@mill.in ") (codes "secret") platform auditor refl refl refl

-- A registration of a third enterprise.
abbrev command : RegisterCommand
command = record {
  legal_name = codes "New";
  pan = codes "XYZAB1234C";
  gstin = codes "27XYZAB1234C1Z5";
  trade_role = TradeRole.buyer;
  email = codes "c@new.in";
  password_hash = codes "h";
  role = UserRole.admin;
  industry_vertical = none;
  geography = codes "IN";
  commodities = [];
  min_order_value = none;
  max_order_value = none;
}

register_enterprise-suspend_route_example :
    let q = record platform {
      office = (register_enterprise (λ t. true) 9 5 command platform.office).1;
    } in
    let c : Claims = record { subject = 5; enterprise_id = 9; role = UserRole.admin } in
    suspend_route plain_payload 3 900 SuspendAction.suspend
      (some (create_access_token plain 100 c))
      q
    ≡ (ok false, with_users (put_user (record auditor { is_active = false })) q)
unfolding register_enterprise pan_taken gstin_taken user_by_email normal_email pan gstin
    out_of_order user_of
register_enterprise-suspend_route_example =
    register_enterprise-suspend_route plain plain_payload plain_payload-plain plain_head plain_tail
      (λ p. refl) (λ t. true) 9 5 100 900 command platform
      (record { subject = 5; enterprise_id = 9; role = UserRole.admin }) auditor refl refl refl refl
      refl (omega arith)
