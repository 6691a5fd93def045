-- ===== src/Marketplace/Tests.antt =====
-- An RFQ with two sellers, on which the theorems on marketplace/ apply.
use cadencia_platform.Base.{◌+◌, ◌≤◌, ◌≡◌, refl, true, false, none, some, List, [], ◌∷◌, pos, codes}
use cadencia_platform.Marketplace.{RfqStatus}
use cadencia_platform.Marketplace.Rows.{RfqRow}
use cadencia_platform.Marketplace.Service.{Market, ConfirmRfqCommand}
use cadencia_platform.Marketplace.Once.{confirmations, closed}
use cadencia_platform.Marketplace.Confirmation.{
  DbSession, confirm_sessions, uncommitted, confirm_sessions-once,
}

abbrev row : RfqRow
row = record {
  id = 1;
  enterprise_id = 7;
  status = RfqStatus.matched;
  raw_text = codes "steel";
  parsed_fields = none;
  hsn_code = some (codes "7208");
  budget_min = none;
  budget_max = none;
  geography = codes "IN";
  confirmed_match_id = none;
}

abbrev market : Market
market = record {
  rfqs = row ∷ [];
  matches =
      record { id = 21; rfq_id = 1; seller_enterprise_id = 8; score = pos 900_000; rank = 1 }
      ∷ record { id = 22; rfq_id = 1; seller_enterprise_id = 9; score = pos 800_000; rank = 2 }
      ∷ [];
  published = [];
}

abbrev attempts : List ConfirmRfqCommand
attempts =
    record { rfq_id = 1; seller_enterprise_id = 8; buyer_enterprise_id = 6 }
    ∷ record { rfq_id = 1; seller_enterprise_id = 8; buyer_enterprise_id = 7 }
    ∷ record { rfq_id = 1; seller_enterprise_id = 9; buyer_enterprise_id = 7 }
    ∷ []

abbrev sessions : List DbSession
sessions =
    record { commands = attempts; commits = false }
    ∷ record { commands = attempts; commits = true }
    ∷ []

confirm_sessions-once_example :
    let w' = confirm_sessions sessions market in
    (confirmations 1 w'.published ≤ uncommitted sessions + closed 1 w'.rfqs)
    × (closed 1 w'.rfqs ≤ 1)
unfolding confirmations
confirm_sessions-once_example = confirm_sessions-once 1 sessions market refl

-- The RFQ is confirmed in the first session and again in the second, which sees nothing of the first.
confirmed_twice : confirmations 1 (confirm_sessions sessions market).published ≡ 2
unfolding confirmations confirm_sessions
confirmed_twice = refl
