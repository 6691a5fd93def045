-- ===== src/Negotiation/Tables/Restore.antt =====
-- What negotiation/infrastructure/repositories.py restores of a session that it wrote.
use cadencia_platform.Base.{ℕ, ◌≡◌, refl, Option, none, some, List, [], ◌∷◌, map, arith, codes, suc}
use cadencia_platform.Negotiation.Offers.{OfferValue, Offer}
use cadencia_platform.Negotiation.Session.{Session}
use cadencia_platform.Negotiation.Tables.{
  SessionRow, Tables, offer_model_to_domain, offer_to_model, insert_by_round, sort_by_round,
  offers_of, session_model_to_domain, updated_row, update_sessions, find_row, get_by_id, in_rupees,
  amount_of,
}

find_row-update_sessions :
    (now : ℕ) (s : Session) (m : SessionRow) (ms : List SessionRow)
    → find_row s.id ms ≡ some m
    → find_row s.id (update_sessions now s ms) ≡ some (updated_row now s m)
unfolding find_row update_sessions updated_row
find_row-update_sessions now s m [] h = absurd (ground arith)
find_row-update_sessions now s m (x ∷ xs) h = ground (arith, find_row-update_sessions now s m xs)

pub get_by_id_found :
    (i : ℕ) (t : Tables) (m : SessionRow)
    → find_row i t.sessions ≡ some m
    → get_by_id i t ≡ some (session_model_to_domain t.offers m)
unfolding get_by_id
get_by_id_found i t m h = ground arith

-- Rounds numbered in order from `n` on.
abbrev pub Numbered : ℕ → List Offer → Type 0
Numbered n [] = Unit
Numbered n (o ∷ os) = (o.round_number ≡ n) × Numbered (suc n) os

insert_first :
    (n : ℕ) (o : Offer) (os : List Offer)
    → o.round_number ≡ n
    → Numbered (suc n) os
    → insert_by_round o os ≡ o ∷ os
unfolding insert_by_round
insert_first n o [] h k = refl
insert_first n o (p ∷ ps) h k = ground arith

sort-Numbered : (n : ℕ) (os : List Offer) → Numbered n os → sort_by_round os ≡ os
unfolding sort_by_round
sort-Numbered n [] h = refl
sort-Numbered n (o ∷ os) h = rw (sort-Numbered (suc n) os h.1, insert_first n o os h.0 h.1)

restore_offer :
    (o : Offer) → o.price.currency ≡ codes "INR" → offer_model_to_domain (offer_to_model o) ≡ o
unfolding offer_model_to_domain offer_to_model
restore_offer o h = ground arith

-- What the offers of a session satisfy when they may be stored: they name it, and are in rupees.
abbrev pub IsStorable : ℕ → List Offer → Type 0
IsStorable s [] = Unit
IsStorable s (o ∷ os) = ((o.session_id ≡ s) × (o.price.currency ≡ codes "INR")) × IsStorable s os

restore_offers :
    (s : ℕ) (os : List Offer) → IsStorable s os → offers_of s (map offer_to_model os) ≡ os
unfolding offers_of offer_to_model
restore_offers s [] h = refl
restore_offers s (o ∷ os) h =
    let ((a, b), k) = h in ground (arith, restore_offers s os k, restore_offer o b)

abbrev pub IsInRupees : Option OfferValue → Type 0
IsInRupees none = Unit
IsInRupees (some v) = v.currency ≡ codes "INR"

restore_price : (p : Option OfferValue) → IsInRupees p → in_rupees (amount_of p) ≡ p
unfolding in_rupees amount_of
restore_price none h = refl
restore_price (some v) h = ground arith

-- When the offers table holds the offers of one session only, numbered consecutively, and its offers and its
-- agreed price are in INR, the session is restored after an `update` with its status, its offers, the agreed
-- price and terms, the time of completion and the counters, but not with its time of expiry: that becomes the
-- time at which its row was created.
pub get_by_id-update :
    (now : ℕ) (s : Session) (m : SessionRow) (ms : List SessionRow) (n : ℕ)
    → find_row s.id ms ≡ some m
    → m.id ≡ s.id
    → IsStorable s.id s.offers
    → Numbered n s.offers
    → IsInRupees s.agreed_price
    → (s' : Session) × (get_by_id s.id
          (record { sessions = update_sessions now s ms; offers = map offer_to_model s.offers })
        ≡ some s')
      × (s'.status ≡ s.status)
      × (s'.offers ≡ s.offers)
      × (s'.round_count ≡ s.round_count)
      × (s'.agreed_price ≡ s.agreed_price)
      × (s'.agreed_terms ≡ s.agreed_terms)
      × (s'.completed_at ≡ s.completed_at)
      × (s'.schema_failure_count ≡ s.schema_failure_count)
      × (s'.stall_counter ≡ s.stall_counter)
      × (s'.expires_at ≡ m.created_at)
unfolding session_model_to_domain updated_row
get_by_id-update now s m ms n found own storable numbered rupees = (
  session_model_to_domain (map offer_to_model s.offers) (updated_row now s m),
  get_by_id_found s.id _ _ (find_row-update_sessions now s m ms found),
  refl,
  rw (own, restore_offers s.id s.offers storable, sort-Numbered n s.offers numbered),
  refl,
  restore_price s.agreed_price rupees,
  refl,
  refl,
  refl,
  refl,
  refl,
)
