-- ===== src/Identity/Registration.antt =====
-- `register_enterprise` of identity/application/services.py. The hash of the password is given; the
-- format of an email is a parameter.
use cadencia_platform.Base.{
  ℕ, Bool, true, false, not, ◌&&◌, ◌||◌, Option, none, some, is_some, List, [], ◌∷◌, ◌++◌, ◌==◌, ℤ,
  pos, negsuc, ltb_ℤ, conflict, validation_error, Action, ◌>>=◌, ◌>>◌, pure, raise_if, gets, lift,
  modify, Text, text_eq,
}
use cadencia_platform.Identity.{KycStatus, TradeRole, Enterprise, UserRole, User}
use cadencia_platform.Identity.Values.{pan, gstin}
use cadencia_platform.Identity.Service.{
  Office, enterprise_registered, user_by_email, normal_email, publish, Claims,
}

pub record RegisterCommand : Type 0 where
  pub legal_name : Text
  pub pan : Text
  pub gstin : Text
  pub trade_role : TradeRole
  pub email : Text
  pub password_hash : Text
  pub role : UserRole
  pub industry_vertical : Option Text
  pub geography : Text
  pub commodities : List Text
  pub min_order_value : Option ℤ
  pub max_order_value : Option ℤ

unfoldable pub pan_taken : Text → List Enterprise → Bool
unfolding text_eq
pan_taken t [] = false
pan_taken t (e ∷ es) = text_eq e.pan t || pan_taken t es

unfoldable pub gstin_taken : Text → List Enterprise → Bool
unfolding text_eq
gstin_taken t [] = false
gstin_taken t (e ∷ es) = text_eq e.gstin t || gstin_taken t es

abbrev is_zero : ℤ → Bool
is_zero (pos n) = n == 0
is_zero (negsuc n) = false

-- `if min and max: if min > max`, where a bound of 0 is false.
unfoldable pub out_of_order : Option ℤ → Option ℤ → Bool
out_of_order (some low) (some high) = not (is_zero low) && not (is_zero high) && ltb_ℤ high low
out_of_order _ _ = false

unfoldable pub register_enterprise :
    (is_email : Text → Bool) → (id user : ℕ) → RegisterCommand → Action Office Claims
unfolding publish
register_enterprise is_email id user cmd = do
  raise_if (pan_taken cmd.pan (← gets (λ o. o.enterprises))) conflict
  raise_if (gstin_taken cmd.gstin (← gets (λ o. o.enterprises))) conflict
  raise_if (is_some (user_by_email (normal_email cmd.email) (← gets (λ o. o.users)))) conflict
  p ← lift (pan cmd.pan)
  g ← lift (gstin cmd.gstin)
  raise_if (out_of_order cmd.min_order_value cmd.max_order_value) validation_error
  raise_if (not (is_email (normal_email cmd.email))) validation_error
  let e : Enterprise = record {
    id = id;
    legal_name = cmd.legal_name;
    pan = p;
    gstin = g;
    kyc_status = KycStatus.pending;
    trade_role = cmd.trade_role;
    algorand_wallet = none;
    industry_vertical = cmd.industry_vertical;
    geography = cmd.geography;
    min_order_value = cmd.min_order_value;
    max_order_value = cmd.max_order_value;
    commodities = cmd.commodities;
    kyc_documents = none;
    agent_config = none;
  }
  let u : User = record {
    id = user;
    enterprise_id = id;
    email = normal_email cmd.email;
    password = cmd.password_hash;
    role = cmd.role;
    last_login = none;
    is_active = true;
  }
  modify λ o. record o { enterprises = o.enterprises ++ e ∷ []; users = o.users ++ u ∷ [] }
  publish (enterprise_registered id id)
  pure (record { subject = user; enterprise_id = id; role = cmd.role })
