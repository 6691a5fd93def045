-- ===== src/Identity/Tests.antt =====
-- An enterprise with an auditor, on which the theorems on identity/ apply.
use cadencia_platform.Base.{
  ◌≡◌, refl, true, false, none, some, [], ◌∷◌, ok, is_ok, codes, ◌&&◌, ◌==◌,
}
use cadencia_platform.Identity.{Enterprise, KycStatus, TradeRole, User, UserRole}
use cadencia_platform.Identity.Service.{
  Office, negotiation, user_of, belongs, has_admin_role, submit_documents, update_config,
  link_wallet, unlink_wallet, revoke_api_key, get_by_hash,
}
use cadencia_platform.Identity.Access.{administrators_only, revoke_api_key-get_by_hash}

abbrev enterprise : Enterprise
enterprise = record {
  id = 7;
  legal_name = codes "Mill";
  pan = codes "ABCDE1234F";
  gstin = codes "27ABCDE1234F1Z5";
  kyc_status = KycStatus.kyc_submitted;
  trade_role = TradeRole.buyer;
  algorand_wallet = none;
  industry_vertical = none;
  geography = codes "IN";
  min_order_value = none;
  max_order_value = none;
  commodities = [];
  kyc_documents = some (codes "{}");
  agent_config = none;
}

abbrev user : User
user = record {
  id = 3;
  enterprise_id = 7;
  email = codes "a@mill.in";
  password = codes "secret";
  role = UserRole.auditor;
  last_login = none;
  is_active = true;
}

abbrev office : Office
office = record {
  enterprises = enterprise ∷ [];
  users = user ∷ [];
  keys =
      record {
        id = 1;
        enterprise_id = 7;
        name = codes "a";
        key_hash = codes "h1";
        is_active = true;
      }
      ∷ record {
        id = 2;
        enterprise_id = 7;
        name = codes "b";
        key_hash = codes "h2";
        is_active = true;
      }
      ∷ [];
  published = [];
}

administrators_only_example :
    ((is_ok (submit_documents 7 3 (ok (codes "{}")) office).0 ≡ false)
      × ((submit_documents 7 3 (ok (codes "{}")) office).1 ≡ office))
    × ((is_ok (update_config 7 3 (negotiation (codes "{}")) office).0 ≡ false)
        × ((update_config 7 3 (negotiation (codes "{}")) office).1 ≡ office))
    × ((is_ok (link_wallet 7 3 (codes "A") office).0 ≡ false)
        × ((link_wallet 7 3 (codes "A") office).1 ≡ office))
    × ((is_ok (unlink_wallet 7 3 office).0 ≡ false) × ((unlink_wallet 7 3 office).1 ≡ office))
unfolding user_of belongs has_admin_role
administrators_only_example =
    administrators_only 7 3 (ok (codes "{}")) (negotiation (codes "{}")) (codes "A") office refl

revoke_api_key-get_by_hash_example : (2 == 1 && 7 == 7) ≡ false
unfolding revoke_api_key get_by_hash
revoke_api_key-get_by_hash_example =
    revoke_api_key-get_by_hash 1 7 3 office (codes "h2")
      (record {
        id = 2;
        enterprise_id = 7;
        name = codes "b";
        key_hash = codes "h2";
        is_active = true;
      })
      refl refl
