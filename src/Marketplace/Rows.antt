-- ===== src/Marketplace/Rows.antt =====
-- The rows of marketplace/infrastructure/models.py and the mapping and lookups of
-- marketplace/infrastructure/repositories.py. A stored amount keeps its value.
use cadencia_platform.Base.{
  ℕ, ◌&&◌, Option, none, some, List, [], ◌∷◌, if◌then◌else◌, leb, ◌==◌, ℤ, Result, ok, err,
  internal_error, Text,
}
use cadencia_platform.Marketplace.{
  RfqStatus, Rfq, ParsedFields, BudgetRange, hsn_code, budget_range, Match, MatchStatus,
}

-- `RFQModel`: the columns that the repository writes or reads. There is none for the delivery window.
pub record RfqRow : Type 0 where
  pub id : ℕ
  pub enterprise_id : ℕ
  pub status : RfqStatus
  pub raw_text : Text
  pub parsed_fields : Option ParsedFields
  pub hsn_code : Option Text
  pub budget_min : Option ℤ
  pub budget_max : Option ℤ
  pub geography : Text
  pub confirmed_match_id : Option ℕ

-- `MatchModel`, which has no column for the status.
pub record MatchRow : Type 0 where
  pub id : ℕ
  pub rfq_id : ℕ
  pub seller_enterprise_id : ℕ
  pub score : ℤ
  pub rank : ℕ

abbrev pub min_of : Option BudgetRange → Option ℤ
min_of none = none
min_of (some b) = some b.min_value

abbrev pub max_of : Option BudgetRange → Option ℤ
max_of none = none
max_of (some b) = some b.max_value

-- The row of `save`.
unfoldable pub rfq_to_row : Rfq → RfqRow
rfq_to_row r = record {
  id = r.id;
  enterprise_id = r.buyer_enterprise_id;
  status = r.status;
  raw_text = r.raw_document;
  parsed_fields = r.parsed_fields;
  hsn_code = r.hsn_code;
  budget_min = min_of r.budget_range;
  budget_max = max_of r.budget_range;
  geography = r.geography_pref;
  confirmed_match_id = r.confirmed_match_id;
}

abbrev pub load_hsn : Option Text → Option Text
load_hsn none = none
load_hsn (some t) = hsn_code t

abbrev pub load_budget : Option ℤ → Option ℤ → Option BudgetRange
load_budget (some low) (some high) = budget_range low high
load_budget _ _ = none

abbrev pub geography_or_in : Text → Text
geography_or_in [] = 73 ∷ 78 ∷ []
geography_or_in (c ∷ t) = c ∷ t

-- `_rfq_model_to_domain`.
unfoldable pub rfq_model_to_domain : RfqRow → Rfq
unfolding hsn_code budget_range
rfq_model_to_domain m = record {
  id = m.id;
  buyer_enterprise_id = m.enterprise_id;
  raw_document = m.raw_text;
  parsed_fields = m.parsed_fields;
  hsn_code = load_hsn m.hsn_code;
  budget_range = load_budget m.budget_min m.budget_max;
  delivery_window = none;
  geography_pref = geography_or_in m.geography;
  status = m.status;
  confirmed_match_id = m.confirmed_match_id;
  expires_at = none;
}

-- The columns that `update` sets.
unfoldable pub update_rfq : Rfq → List RfqRow → List RfqRow
unfolding rfq_to_row
update_rfq r [] = []
update_rfq r (m ∷ ms) =
    (if m.id == r.id
      then record (rfq_to_row r) {
        id = m.id;
        enterprise_id = m.enterprise_id;
        raw_text = m.raw_text;
      }
      else m)
    ∷ update_rfq r ms

unfoldable pub rfq_row : ℕ → List RfqRow → Option RfqRow
rfq_row i [] = none
rfq_row i (m ∷ ms) = if m.id == i then some m else rfq_row i ms

-- `get_by_id`.
unfoldable pub get_rfq_by_id : ℕ → List RfqRow → Option Rfq
unfolding rfq_row rfq_model_to_domain
get_rfq_by_id i ms = elim (rfq_row i ms) [ none ↦ none | some m ↦ some (rfq_model_to_domain m) ]

-- `_match_model_to_domain`: the status is that of a new match.
unfoldable pub match_model_to_domain : MatchRow → Match
match_model_to_domain m = record {
  id = m.id;
  rfq_id = m.rfq_id;
  seller_enterprise_id = m.seller_enterprise_id;
  similarity_score = m.score;
  rank = m.rank;
  status = MatchStatus.pending;
}

-- A row of `save_bulk`.
unfoldable pub match_to_row : Match → MatchRow
match_to_row m = record {
  id = m.id;
  rfq_id = m.rfq_id;
  seller_enterprise_id = m.seller_enterprise_id;
  score = m.similarity_score;
  rank = m.rank;
}

unfoldable pub insert_by_rank : Match → List Match → List Match
insert_by_rank m [] = m ∷ []
insert_by_rank m (k ∷ ks) = if leb m.rank k.rank then m ∷ k ∷ ks else k ∷ insert_by_rank m ks

-- `list_by_rfq`, ordered by rank.
unfoldable pub list_by_rfq : ℕ → List MatchRow → List Match
unfolding match_model_to_domain insert_by_rank
list_by_rfq i [] = []
list_by_rfq i (m ∷ ms) =
    let rest = list_by_rfq i ms in
    if m.rfq_id == i then insert_by_rank (match_model_to_domain m) rest else rest

-- `get_match_by_seller`: several rows are an exception.
unfoldable pub get_match_by_seller : (rfq seller : ℕ) → List MatchRow → Result (Option Match)
unfolding match_model_to_domain
get_match_by_seller i s [] = ok none
get_match_by_seller i s (m ∷ ms) =
    let rest = get_match_by_seller i s ms in
    if m.rfq_id == i && m.seller_enterprise_id == s
    then elim rest [
      | ok none ↦ ok (some (match_model_to_domain m))
      | ok (some k) ↦ err internal_error
      | err x ↦ err x
    ]
    else rest

-- `update` of a match sets the rank alone.
unfoldable pub update_match : Match → List MatchRow → List MatchRow
update_match k [] = []
update_match k (m ∷ ms) =
    (if m.id == k.id then record m { rank = k.rank } else m) ∷ update_match k ms
