-- ===== src/Marketplace/Service.antt =====
-- `MarketplaceService` of marketplace/application/services.py on the repositories of
-- marketplace/infrastructure/repositories.py, over the rows that its database session sees; nothing in the
-- service commits them. The document parser and the matchmaking engine are given by what they
-- answer. The event bus is the list of published events, and an event names what its readers use.
use cadencia_platform.Base.{
  ℕ, Bool, ◌&&◌, not, none, List, [], ◌∷◌, ◌++◌, if◌then◌else◌, ◌==◌, length, ok, err, not_found,
  authorization, Action, ◌>>=◌, ◌>>◌, pure, raise_if, gets, lift, or_raise, modify, Text,
}
use cadencia_platform.Marketplace.{RfqStatus, Rfq, Match, is_pending, confirm, select, reject}
use cadencia_platform.Marketplace.Rows.{
  RfqRow, MatchRow, rfq_to_row, update_rfq, get_rfq_by_id, list_by_rfq, get_match_by_seller,
  update_match,
}

pub data MarketEvent : Type 0 where
  rfq_uploaded : (rfq length : ℕ) → MarketEvent
  rfq_parsed : (rfq : ℕ) (has_budget has_delivery_window : Bool) → MarketEvent
  rfq_matched : (rfq match_count : ℕ) → MarketEvent
  rfq_confirmed : (rfq match buyer seller : ℕ) → MarketEvent

pub record Market : Type 0 where
  pub rfqs : List RfqRow
  pub matches : List MatchRow
  pub published : List MarketEvent

unfoldable pub publish : MarketEvent → Action Market (Unit {0})
publish v = modify λ w. record w { published = w.published ++ v ∷ [] }

unfoldable pub store_rfq : Rfq → Action Market (Unit {0})
unfolding update_rfq
store_rfq r = modify λ w. record w { rfqs = update_rfq r w.rfqs }

unfoldable pub store_match : Match → Action Market (Unit {0})
unfolding update_match
store_match k = modify λ w. record w { matches = update_match k w.matches }

-- A method of an aggregate in memory; what it changes is stored by a later `update`.
unfoldable pub on_entity : {A E : Type 0} → Action E A → E → Action Market E
on_entity m e w = let (r, e') = m e in elim r [ ok a ↦ (ok e', w) | err x ↦ (err x, w) ]

-- `upload_rfq`, up to the background task.
unfoldable pub upload_rfq : (id buyer : ℕ) → (raw_text : Text) → Action Market ℕ
unfolding rfq_to_row publish
upload_rfq id buyer raw_text = do
  let r : Rfq = record {
    id = id;
    buyer_enterprise_id = buyer;
    raw_document = raw_text;
    parsed_fields = none;
    hsn_code = none;
    budget_range = none;
    delivery_window = none;
    geography_pref = 73 ∷ 78 ∷ [];
    status = RfqStatus.draft;
    confirmed_match_id = none;
    expires_at = none;
  }
  modify λ w. record w { rfqs = w.rfqs ++ rfq_to_row r ∷ [] }
  publish (rfq_uploaded id (length raw_text))
  pure id

pub record ConfirmRfqCommand : Type 0 where
  pub rfq_id : ℕ
  pub seller_enterprise_id : ℕ
  pub buyer_enterprise_id : ℕ

-- The loop of `confirm_rfq` over the other matches.
unfoldable pub reject_others : ℕ → List Match → Action Market (Unit {0})
unfolding on_entity reject store_match
reject_others chosen [] = pure tt
reject_others chosen (m ∷ ms) =
    (if not (m.id == chosen) && is_pending m.status
      then on_entity reject m >>= store_match
      else pure tt)
    >> reject_others chosen ms

-- `confirm_rfq`, from the match on. The answer names the match; the identifier of the session to come is a
-- hash of the RFQ and it.
unfoldable pub confirm_match : Rfq → Match → Action Market ℕ
unfolding on_entity confirm select list_by_rfq reject_others store_rfq store_match publish
confirm_match r m = do
  r' ← on_entity (confirm m.id) r
  m' ← on_entity select m
  reject_others m.id (list_by_rfq r.id (← gets (λ w. w.matches)))
  store_rfq r'
  store_match m'
  publish (rfq_confirmed r.id m.id r.buyer_enterprise_id m.seller_enterprise_id)
  pure m.id

unfoldable pub confirm_rfq : ConfirmRfqCommand → Action Market ℕ
unfolding get_rfq_by_id get_match_by_seller confirm_match
confirm_rfq cmd = do
  r ← or_raise (get_rfq_by_id cmd.rfq_id (← gets (λ w. w.rfqs))) not_found
  raise_if (not (r.buyer_enterprise_id == cmd.buyer_enterprise_id)) authorization
  found ← lift (get_match_by_seller cmd.rfq_id cmd.seller_enterprise_id (← gets (λ w. w.matches)))
  m ← or_raise found not_found
  confirm_match r m
