-- ===== src/Marketplace.antt =====
-- The RFQ and the match of marketplace/domain/rfq.py, match.py and value_objects.py. Texts are ASCII, budgets
-- are whole numbers of paise, scores millionths and dates days. The time of the last change, which
-- every method moves, is left out.
pub mod Rows
pub mod Restore
pub mod Service
pub mod Matching
pub mod Once
pub mod Confirmation
mod Tests
use cadencia_platform.Base.{
  ℕ, suc, ◌+◌, Bool, true, false, ◌&&◌, ◌||◌, Option, none, some, List, [], ◌∷◌, if◌then◌else◌, ltb,
  leb, ◌==◌, length, ℤ, pos, leb_ℤ, ltb_ℤ, Result, ok, err, conflict, validation_error, Action,
  ◌>>=◌, ◌>>◌, raise_if, modify, Text, not, gets,
}

pub data RfqStatus : Type 0 where
  draft parsed matched confirmed settled expired : RfqStatus

pub record BudgetRange : Type 0 where
  pub min_value : ℤ
  pub max_value : ℤ

pub record DeliveryWindow : Type 0 where
  pub start_date : ℕ
  pub end_date : ℕ

-- What the parser extracted. A budget or a date that stands there and cannot be read is `some none`.
pub record ParsedFields : Type 0 where
  pub product : Text
  pub hsn_code : Text
  pub budget_min : Option (Option ℤ)
  pub budget_max : Option (Option ℤ)
  pub delivery_window_start : Option (Option ℕ)
  pub delivery_window_end : Option (Option ℕ)
  pub geography : Text

pub record Rfq : Type 0 where
  pub id : ℕ
  pub buyer_enterprise_id : ℕ
  pub raw_document : Text
  pub parsed_fields : Option ParsedFields
  pub hsn_code : Option Text
  pub budget_range : Option BudgetRange
  pub delivery_window : Option DeliveryWindow
  pub geography_pref : Text
  pub status : RfqStatus
  pub confirmed_match_id : Option ℕ
  pub expires_at : Option ℕ

abbrev is_empty : Text → Bool
is_empty [] = true
is_empty (c ∷ t) = false

-- `^\d{4,8}$`: four to eight digits, and a line feed may follow.
unfoldable pub is_hsn : ℕ → Text → Bool
is_hsn seen [] = leb 4 seen && leb seen 8
is_hsn seen (c ∷ []) =
    if leb 48 c && leb c 57
    then leb 4 (seen + 1) && leb (seen + 1) 8
    else c == 10 && leb 4 seen && leb seen 8
is_hsn seen (c ∷ d ∷ t) = leb 48 c && leb c 57 && is_hsn (seen + 1) (d ∷ t)

-- `HSNCode(value=...)`, and `None` for what it refuses.
unfoldable pub hsn_code : Text → Option Text
unfolding is_hsn
hsn_code t = if is_hsn 0 t then some t else none

-- `BudgetRange(...)` of two amounts, and `None` for what it refuses.
unfoldable pub budget_range : ℤ → ℤ → Option BudgetRange
budget_range low high =
    if ltb_ℤ low (pos 0) || ltb_ℤ high (pos 0) || ltb_ℤ high low
    then none
    else some (record { min_value = low; max_value = high })

unfoldable pub delivery_window : ℕ → ℕ → Option DeliveryWindow
delivery_window start end =
    if ltb end start then none else some (record { start_date = start; end_date = end })

-- The fields that `mark_parsed` fills; a field that the document does not name keeps its value.
unfoldable pub parsed_hsn : Text → Option Text → Option Text
unfolding hsn_code
parsed_hsn t old = if is_empty t then old else hsn_code t

unfoldable pub parsed_budget :
    Option (Option ℤ) → Option (Option ℤ) → Option BudgetRange → Option BudgetRange
unfolding budget_range
parsed_budget (some (some low)) (some (some high)) old = budget_range low high
parsed_budget (some low) (some high) old = none
parsed_budget low high old = old

unfoldable pub parsed_window :
    Option (Option ℕ) → Option (Option ℕ) → Option DeliveryWindow → Option DeliveryWindow
unfolding delivery_window
parsed_window (some (some start)) (some (some end)) old = delivery_window start end
parsed_window (some start) (some end) old = none
parsed_window start end old = old

abbrev pub is_draft : RfqStatus → Bool
is_draft RfqStatus.draft = true
is_draft _ = false

abbrev pub is_parsed : RfqStatus → Bool
is_parsed RfqStatus.parsed = true
is_parsed _ = false

abbrev pub is_matched : RfqStatus → Bool
is_matched RfqStatus.matched = true
is_matched _ = false

abbrev pub is_confirmed : RfqStatus → Bool
is_confirmed RfqStatus.confirmed = true
is_confirmed _ = false

abbrev pub is_settled : RfqStatus → Bool
is_settled RfqStatus.settled = true
is_settled _ = false

unfoldable pub mark_parsed : ParsedFields → Action Rfq (Unit {0})
unfolding parsed_hsn parsed_budget parsed_window
mark_parsed f r =
    if not (is_draft r.status)
    then (err conflict, r)
    else if is_empty f.product
    then (err validation_error, r)
    else (
      ok tt,
      record r {
        parsed_fields = some f;
        status = RfqStatus.parsed;
        hsn_code = parsed_hsn f.hsn_code r.hsn_code;
        budget_range = parsed_budget f.budget_min f.budget_max r.budget_range;
        delivery_window =
            parsed_window f.delivery_window_start f.delivery_window_end r.delivery_window;
        geography_pref = if is_empty f.geography then r.geography_pref else f.geography;
      },
    )

unfoldable pub mark_matched : (match_count : ℕ) → Action Rfq (Unit {0})
mark_matched n r =
    if not (is_parsed r.status)
    then (err conflict, r)
    else if n == 0
    then (err validation_error, r)
    else (ok tt, record r { status = RfqStatus.matched })

unfoldable pub confirm : (selected_match_id : ℕ) → Action Rfq (Unit {0})
confirm m r =
    if not (is_matched r.status)
    then (err conflict, r)
    else (ok tt, record r { status = RfqStatus.confirmed; confirmed_match_id = some m })

unfoldable pub mark_settled : Action Rfq (Unit {0})
mark_settled r =
    if not (is_confirmed r.status)
    then (err conflict, r)
    else (ok tt, record r { status = RfqStatus.settled })

unfoldable pub mark_expired : Action Rfq (Unit {0})
mark_expired r =
    if is_confirmed r.status || is_settled r.status
    then (err conflict, r)
    else (ok tt, record r { status = RfqStatus.expired })

pub data MatchStatus : Type 0 where
  pending selected rejected lapsed : MatchStatus

pub record Match : Type 0 where
  pub id : ℕ
  pub rfq_id : ℕ
  pub seller_enterprise_id : ℕ
  pub similarity_score : ℤ
  pub rank : ℕ
  pub status : MatchStatus

abbrev pub is_pending : MatchStatus → Bool
is_pending MatchStatus.pending = true
is_pending _ = false

unfoldable pub select : Action Match (Unit {0})
select m =
    if not (is_pending m.status)
    then (err conflict, m)
    else (ok tt, record m { status = MatchStatus.selected })

unfoldable pub reject : Action Match (Unit {0})
reject m =
    if not (is_pending m.status)
    then (err conflict, m)
    else (ok tt, record m { status = MatchStatus.rejected })
