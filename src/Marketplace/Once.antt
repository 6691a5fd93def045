-- ===== src/Marketplace/Once.antt =====
-- The books of marketplace/ whose stored RFQ accounts for the confirmations that were published of it, kept by
-- `confirm_match`.
use cadencia_platform.Base.{
  ℕ, ◌+◌, ◌≤◌, ◌≡◌, refl, Bool, true, false, ◌&&◌, ◌||◌, not, some, List, [], ◌∷◌, ◌++◌,
  if◌then◌else◌, ◌==◌, Result, ok, err, arith, resume, is_ok, DomainError, internal_error, ap, sym,
  subst, ◌∙◌, ◌>>=◌, ◌>>◌, pure, inl, inr, Bool-cases, Action,
}
use cadencia_platform.Marketplace.{
  RfqStatus, Rfq, Match, MatchStatus, is_confirmed, is_settled, is_matched, is_pending, confirm,
  select, reject,
}
use cadencia_platform.Marketplace.Rows.{RfqRow, rfq_row, update_rfq, rfq_to_row, list_by_rfq}
use cadencia_platform.Marketplace.Service.{
  Market, MarketEvent, rfq_confirmed, on_entity, store_rfq, store_match, publish, reject_others,
  confirm_match,
}

-- How often the confirmation of an RFQ has been published.
unfoldable pub confirmations : ℕ → List MarketEvent → ℕ
confirmations i [] = 0
confirmations i (rfq_confirmed r m b s ∷ vs) =
    let rest = confirmations i vs in if r == i then rest + 1 else rest
confirmations i (v ∷ vs) = confirmations i vs

confirmations-append :
    (i : ℕ) (vs : List MarketEvent) (v : MarketEvent)
    → confirmations i (vs ++ v ∷ []) ≡ confirmations i vs + confirmations i (v ∷ [])
unfolding confirmations
confirmations-append i [] v = ground arith
confirmations-append i (u ∷ us) v = ground (arith, confirmations-append i us v)

confirmed_once :
    (i r m b s : ℕ) → confirmations i (rfq_confirmed r m b s ∷ []) ≡ (if r == i then 1 else 0)
unfolding confirmations
confirmed_once i r m b s = ground arith

abbrev error_of : {A : Type 0} → Result A → DomainError
error_of (ok a) = internal_error
error_of (err x) = x

abbrev is_closed : RfqStatus → Bool
is_closed s = is_confirmed s || is_settled s

-- 1 if the RFQ is stored as CONFIRMED or SETTLED.
unfoldable pub closed : ℕ → List RfqRow → ℕ
closed i [] = 0
closed i (m ∷ ms) = if m.id == i then (if is_closed m.status then 1 else 0) else closed i ms

closed-update_rfq :
    (i : ℕ) (r : Rfq) (ms : List RfqRow)
    → (r.id == i) ≡ false
    → closed i (update_rfq r ms) ≡ closed i ms
unfolding closed update_rfq rfq_to_row
closed-update_rfq i r [] h = refl
closed-update_rfq i r (m ∷ ms) h = ground (arith, closed-update_rfq i r ms h)

pub closed_row :
    (i : ℕ) (ms : List RfqRow) (m : RfqRow)
    → rfq_row i ms ≡ some m
    → (closed i ms ≡ (if is_closed m.status then 1 else 0)) × (m.id ≡ i)
unfolding closed rfq_row
closed_row i [] m h = absurd (ground arith)
closed_row i (k ∷ ms) m h = ground (arith, closed_row i ms m)

closed_updated :
    (i : ℕ) (r : Rfq) (ms : List RfqRow) (m : RfqRow)
    → rfq_row i ms ≡ some m
    → r.id ≡ i
    → closed i (update_rfq r ms) ≡ (if is_closed r.status then 1 else 0)
unfolding closed update_rfq rfq_row rfq_to_row
closed_updated i r [] m h e = absurd (ground arith)
closed_updated i r (k ∷ ms) m h e = ground (arith, closed_updated i r ms m)

-- All confirmations but `n` are accounted for by the stored RFQ.
abbrev pub IsOnce : (n i : ℕ) → Market → Type 0
IsOnce n i w = confirmations i w.published ≤ closed i w.rfqs + n

-- A step that changes the matches alone.
abbrev SameBooks : Market → Market → Type 0
SameBooks w w' = (w'.rfqs ≡ w.rfqs) × (w'.published ≡ w.published)

>>=-SameBooks :
    {A B : Type 0} (m : Action Market A) (k : A → Action Market B) (w : Market)
    → SameBooks w (m w).1
    → ((a : A) (v : Market) → SameBooks v (k a v).1)
    → SameBooks w ((m >>= k) w).1
>>=-SameBooks {A} {B} m k w h keeps = go (m w) h
  where
    go : (p : Result A × Market) → SameBooks w p.1 → SameBooks w (resume k p).1
    go (ok a, v) l = let (r, p) = keeps a v in (r ∙ l.0, p ∙ l.1)
    go (err x, v) l = l

on_entity-SameBooks :
    {A E : Type 0} (m : Action E A) (e : E) (w : Market) → SameBooks w (on_entity m e w).1
unfolding on_entity
on_entity-SameBooks m e w = ground arith

if-SameBooks :
    {A : Type 0} (c : Bool) (m k : Action Market A) (w : Market)
    → SameBooks w (m w).1
    → SameBooks w (k w).1
    → SameBooks w ((if c then m else k) w).1
if-SameBooks true m k w h l = h
if-SameBooks false m k w h l = l

reject_others-SameBooks :
    (chosen : ℕ) (ms : List Match) (w : Market) → SameBooks w (reject_others chosen ms w).1
unfolding reject_others store_match
reject_others-SameBooks chosen [] w = (refl, refl)
reject_others-SameBooks chosen (m ∷ ms) w =
    let again : Action Market (Unit {0}) = on_entity reject m >>= store_match in
    >>=-SameBooks (if not (m.id == chosen) && is_pending m.status then again else pure tt)
      (λ done. reject_others chosen ms) w
      (if-SameBooks (not (m.id == chosen) && is_pending m.status) again (pure tt) w
        (>>=-SameBooks (on_entity reject m) store_match w (on_entity-SameBooks reject m w)
          (λ m' v. (refl, refl)))
        (refl, refl))
      (λ done v. reject_others-SameBooks chosen ms v)

-- The end of `confirm_match`, once the other matches have been rejected or something was raised.
conclude : Rfq → Match → Rfq → Match → Unit {0} → Action Market ℕ
unfolding store_rfq store_match publish
conclude r m r' m' done = do
  store_rfq r'
  store_match m'
  publish (rfq_confirmed r.id m.id r.buyer_enterprise_id m.seller_enterprise_id)
  pure m.id

conclude-IsOnce :
    (n i : ℕ) (r r' : Rfq) (m m' : Match) (row : RfqRow) (p : Result (Unit {0}) × Market)
    → rfq_row r.id p.1.rfqs ≡ some row
    → is_closed row.status ≡ false
    → r'.id ≡ r.id
    → is_closed r'.status ≡ true
    → IsOnce n i p.1
    → IsOnce n i (resume (conclude r m r' m') p).1
unfolding conclude store_rfq store_match publish
conclude-IsOnce n i r r' m m' row (ok done, w) h free same closes once =
    let v = rfq_confirmed r.id m.id r.buyer_enterprise_id m.seller_enterprise_id in
    let grown = confirmations-append i w.published v in
    let before = closed_row r.id w.rfqs row h in
    let after = closed_updated r.id r' w.rfqs row h same in
    let one = confirmed_once i r.id m.id r.buyer_enterprise_id m.seller_enterprise_id in
    elim (Bool-cases (r.id == i)) [
      | inl e ↦
          let own : r.id ≡ i = ground arith in
          let before_i = ap (λ j. closed j w.rfqs) own in
          let after_i = ap (λ j. closed j (update_rfq r' w.rfqs)) own in ground arith
      | inr e ↦ let other = closed-update_rfq i r' w.rfqs (ground arith) in ground arith
    ]
conclude-IsOnce n i r r' m m' row (err x, w) h free same closes once = once

on_entity_ok :
    {E : Type 0} (m : Action E (Unit {0})) (e e' : E) (w : Market)
    → m e ≡ (ok tt, e')
    → on_entity m e w ≡ (ok e', w)
unfolding on_entity
on_entity_ok m e e' w h = ground arith

on_entity_err :
    {E : Type 0} (m : Action E (Unit {0})) (e : E) (w : Market)
    → is_ok (m e).0 ≡ false
    → (on_entity m e w ≡ (err (error_of (m e).0), w))
unfolding on_entity
on_entity_err m e w h = ground arith

abbrev as_confirmed : Rfq → Match → Rfq
as_confirmed r m = record r { status = RfqStatus.confirmed; confirmed_match_id = some m.id }

abbrev as_selected : Match → Match
as_selected m = record m { status = MatchStatus.selected }

-- The two later parts of `confirm_match`.
from_others : Rfq → Match → Rfq → Match → Action Market ℕ
unfolding list_by_rfq reject_others conclude
from_others r m r' m' w =
    resume (conclude r m r' m') (reject_others m.id (list_by_rfq r.id w.matches) w)

from_select : Rfq → Match → Rfq → Action Market ℕ
unfolding on_entity select from_others
from_select r m r' w = resume (from_others r m r') (on_entity select m w)

confirm_match_parts :
    (r : Rfq) (m : Match) (w : Market)
    → confirm_match r m w ≡ resume (from_select r m) (on_entity (confirm m.id) r w)
unfolding confirm_match from_select from_others conclude store_rfq store_match publish
confirm_match_parts r m w = refl

confirm_ok :
    (i : ℕ) (r : Rfq)
    → is_matched r.status ≡ true
    → confirm i r ≡ (ok tt, record r { status = RfqStatus.confirmed; confirmed_match_id = some i })
unfolding confirm
confirm_ok i r h = ground arith

confirm_err : (i : ℕ) (r : Rfq) → is_matched r.status ≡ false → is_ok (confirm i r).0 ≡ false
unfolding confirm
confirm_err i r h = ground arith

select_ok : (m : Match) → is_pending m.status ≡ true → select m ≡ (ok tt, as_selected m)
unfolding select
select_ok m h = ground arith

select_err : (m : Match) → is_pending m.status ≡ false → is_ok (select m).0 ≡ false
unfolding select
select_err m h = ground arith

pub confirm_match-IsOnce :
    (n i : ℕ) (r : Rfq) (m : Match) (row : RfqRow) (w : Market)
    → rfq_row r.id w.rfqs ≡ some row
    → row.status ≡ r.status
    → IsOnce n i w
    → IsOnce n i (confirm_match r m w).1
unfolding from_select from_others
confirm_match-IsOnce n i r m row w h s once =
    let p = reject_others m.id (list_by_rfq r.id w.matches) w in
    let (rfqs, published) = reject_others-SameBooks m.id (list_by_rfq r.id w.matches) w in
    let by_parts = subst (λ q. IsOnce n i q.1) (sym (confirm_match_parts r m w)) in
    elim (Bool-cases (is_matched r.status)) [
      | inr refused ↦ by_parts (
          subst (λ q. IsOnce n i (resume (from_select r m) q).1)
            (sym (on_entity_err (confirm m.id) r w (confirm_err m.id r refused))) once)
      | inl matched ↦ by_parts (
          subst (λ q. IsOnce n i (resume (from_select r m) q).1)
            (sym (on_entity_ok (confirm m.id) r (as_confirmed r m) w (confirm_ok m.id r matched)))
            (elim (Bool-cases (is_pending m.status)) [
              | inr taken ↦
                  subst (λ q. IsOnce n i (resume (from_others r m (as_confirmed r m)) q).1)
                    (sym (on_entity_err select m w (select_err m taken))) once
              | inl pending_yet ↦
                  subst (λ q. IsOnce n i (resume (from_others r m (as_confirmed r m)) q).1)
                    (sym (on_entity_ok select m (as_selected m) w (select_ok m pending_yet)))
                    (conclude-IsOnce n i r (as_confirmed r m) m (as_selected m) row p
                      (ap (rfq_row r.id) rfqs ∙ h) (ground arith) refl refl (grind arith))
            ]))
    ]
