-- ===== src/Marketplace/Matching.antt =====
-- `_parse_and_match` of marketplace/application/services.py: the background task of an upload. It swallows
-- what it raises, and what it has written by then stays.
use cadencia_platform.Base.{
  ℕ, ◌+◌, ◌≡◌, false, ◌&&◌, Option, none, some, List, [], ◌∷◌, ◌++◌, map, if◌then◌else◌, length, ℤ,
  pos, leb_ℤ, Result, ok, err, validation_error, Action, ◌>>=◌, ◌>>◌, pure, lift, modify, is_some,
  arith,
}
use cadencia_platform.Marketplace.{
  Rfq, ParsedFields, Match, MatchStatus, mark_parsed, mark_matched, is_draft,
}
use cadencia_platform.Marketplace.Rows.{
  RfqRow, rfq_row, rfq_model_to_domain, match_to_row, get_rfq_by_id,
}
use cadencia_platform.Marketplace.Service.{
  Market, rfq_parsed, rfq_matched, on_entity, store_rfq, publish,
}

-- `SimilarityScore(value=...)`.
unfoldable pub similarity_score : ℤ → Result ℤ
similarity_score s =
    if leb_ℤ (pos 0) s && leb_ℤ s (pos 1_000_000) then ok s else err validation_error

-- The matches of the sellers found, ranked in their order; identifiers are drawn from `id` on.
unfoldable pub new_matches : (rfq id rank : ℕ) → List (ℕ × ℤ) → Result (List Match)
unfolding similarity_score
new_matches rfq id rank [] = ok []
new_matches rfq id rank (p ∷ ps) =
    let rest = new_matches rfq (id + 1) (rank + 1) ps in
    elim (similarity_score p.1) [
      | err x ↦ err x
      | ok s ↦ elim rest [
        | err x ↦ err x
        | ok ms ↦ ok (
            record {
              id = id;
              rfq_id = rfq;
              seller_enterprise_id = p.0;
              similarity_score = s;
              rank = rank;
              status = MatchStatus.pending;
            }
            ∷ ms)
      ]
    ]

unfoldable pub save_bulk : List Match → Action Market (Unit {0})
unfolding match_to_row
save_bulk ms = modify λ w. record w { matches = w.matches ++ map match_to_row ms }

-- What the parser and the matchmaking engine answer: the fields, or none of them; the embedding; and the
-- sellers with their scores, best first.
pub record Answers : Type 0 where
  pub extracted : Result (Option ParsedFields)
  pub embedding : Result (Unit {0})
  pub found : Result (List (ℕ × ℤ))

-- Steps 5 and 6, for the sellers found.
unfoldable pub save_matches : (first_id : ℕ) → Rfq → List (ℕ × ℤ) → Action Market (Unit {0})
unfolding new_matches save_bulk on_entity mark_matched store_rfq publish
save_matches first_id r [] = pure tt
save_matches first_id r (p ∷ ps) = do
  ms ← lift (new_matches r.id first_id 1 (p ∷ ps))
  save_bulk ms
  r' ← on_entity (mark_matched (length ms)) r
  store_rfq r'
  publish (rfq_matched r.id (length ms))

-- Steps 2 to 4, for the fields extracted.
unfoldable pub parse : (first_id : ℕ) → Answers → Rfq → ParsedFields → Action Market (Unit {0})
unfolding on_entity mark_parsed store_rfq publish save_matches
parse first_id answers r f = do
  r' ← on_entity (mark_parsed f) r
  store_rfq r'
  publish (rfq_parsed r.id (is_some r'.budget_range) (is_some r'.delivery_window))
  lift answers.embedding
  sellers ← lift answers.found
  save_matches first_id r' sellers

unfoldable pub parse_found : (first_id : ℕ) → Answers → Option Rfq → Action Market (Unit {0})
unfolding parse
parse_found first_id answers none = pure tt
parse_found first_id answers (some r) = do
  fields ← lift answers.extracted
  elim fields [ none ↦ pure tt | some f ↦ parse first_id answers r f ]

-- The task, with its `except Exception`.
unfoldable pub parse_and_match : (id first_id : ℕ) → Answers → Market → Market
unfolding get_rfq_by_id parse_found
parse_and_match id first_id answers w = (parse_found first_id answers (get_rfq_by_id id w.rfqs) w).1

-- The task moves no RFQ but one in DRAFT: any other has its status, and the matches, as before.
parse_and_match_settled :
    (id first_id : ℕ) (answers : Answers) (w : Market) (m : RfqRow)
    → rfq_row id w.rfqs ≡ some m
    → is_draft m.status ≡ false
    → parse_and_match id first_id answers w ≡ w
unfolding parse_and_match get_rfq_by_id parse_found parse on_entity mark_parsed rfq_model_to_domain
parse_and_match_settled id first_id answers w m h k = ground arith
