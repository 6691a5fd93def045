-- ===== src/Marketplace/Restore.antt =====
-- What a row of marketplace/infrastructure/repositories.py keeps of an RFQ.
use cadencia_platform.Base.{
  ◌≡◌, refl, Bool, true, false, Option, none, some, [], ◌∷◌, Text, ℤ, ok, arith,
}
use cadencia_platform.Marketplace.{
  Rfq, ParsedFields, BudgetRange, hsn_code, budget_range, parsed_hsn, parsed_budget, mark_parsed,
}
use cadencia_platform.Marketplace.Rows.{
  rfq_to_row, rfq_model_to_domain, min_of, max_of, load_hsn, load_budget,
}

-- A field as it can stand in an RFQ: `None`, or what the value object accepts.
abbrev pub IsHsn : Option Text → Type 0
IsHsn h = load_hsn h ≡ h

abbrev pub IsBudget : Option BudgetRange → Type 0
IsBudget b = load_budget (min_of b) (max_of b) ≡ b

parsed_hsn-IsHsn : (t : Text) (old : Option Text) → IsHsn old → IsHsn (parsed_hsn t old)
unfolding parsed_hsn hsn_code
parsed_hsn-IsHsn t old h = ground arith

budget_range-IsBudget : (low high : ℤ) → IsBudget (budget_range low high)
unfolding budget_range
budget_range-IsBudget low high = ground arith

parsed_budget-IsBudget :
    (low high : Option (Option ℤ)) (old : Option BudgetRange)
    → IsBudget old
    → IsBudget (parsed_budget low high old)
unfolding parsed_budget
parsed_budget-IsBudget (some (some low)) (some (some high)) old h = budget_range-IsBudget low high
parsed_budget-IsBudget (some (some low)) (some none) old h = refl
parsed_budget-IsBudget (some (some low)) none old h = h
parsed_budget-IsBudget (some none) (some high) old h = refl
parsed_budget-IsBudget (some none) none old h = h
parsed_budget-IsBudget none high old h = h

abbrev pub is_named : Text → Bool
is_named [] = false
is_named (c ∷ t) = true

restored :
    (r : Rfq)
    → IsHsn r.hsn_code
    → IsBudget r.budget_range
    → is_named r.geography_pref ≡ true
    → rfq_model_to_domain (rfq_to_row r) ≡ record r { delivery_window = none; expires_at = none }
unfolding rfq_model_to_domain rfq_to_row
restored r h b g = ground arith

-- What `mark_parsed` makes of an RFQ without fields of its own is read back from its row as it was, but for
-- the delivery window and the time of expiry, which are lost.
rfq_model_to_domain-mark_parsed :
    (f : ParsedFields) (r : Rfq) {r' : Rfq}
    → r.hsn_code ≡ none
    → r.budget_range ≡ none
    → is_named r.geography_pref ≡ true
    → mark_parsed f r ≡ (ok tt, r')
    → rfq_model_to_domain (rfq_to_row r') ≡ record r' { delivery_window = none; expires_at = none }
unfolding mark_parsed
rfq_model_to_domain-mark_parsed f r {r'} h b g parsed =
    let hsn : IsHsn r.hsn_code = ground arith in
    let budget : IsBudget r.budget_range = ground arith in
    let hsn' = parsed_hsn-IsHsn f.hsn_code r.hsn_code hsn in
    let budget' = parsed_budget-IsBudget f.budget_min f.budget_max r.budget_range budget in
    restored r' (ground arith) (ground arith) (ground arith)
