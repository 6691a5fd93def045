-- ===== src/Negotiation/Concessions.antt =====
-- `_track_concession` of negotiation/infrastructure/neutral_engine.py: a proposal within 0.2%
-- of the last one of its side counts towards a stall, and any other resets the count.
use cadencia_platform.Base.{
  ℕ, ◌*◌, Bool, false, ◌&&◌, Option, none, some, List, [], ◌∷◌, leb, if◌then◌else◌, ℤ, pos,
  pos_part, leb_ℤ, Action, ◌>>=◌, ◌>>◌, pure, gets,
}
use cadencia_platform.Negotiation.Offers.{ProposerRole}
use cadencia_platform.Negotiation.History.{prices_of}
use cadencia_platform.Negotiation.Policies.{distance}
use cadencia_platform.Negotiation.Session.{Session, record_no_concession, reset_stall_counter}

last_price : List ℤ → Option ℤ
last_price [] = none
last_price (p ∷ []) = some p
last_price (p ∷ q ∷ ps) = last_price (q ∷ ps)

-- `change < 0.002`: the constant is a binary float a little above 1/500, so 1/500 itself passes.
unfoldable pub is_no_concession : (new_price last : ℤ) → Bool
is_no_concession new_price last = leb (500 * distance new_price last) (pos_part last)

-- `_track_concession`.
unfoldable pub track_concession : ProposerRole → ℤ → ℕ → Action Session Bool
unfolding last_price is_no_concession reset_stall_counter record_no_concession
track_concession role new_price now = do
  offers ← gets (λ s. s.offers)
  elim (last_price (prices_of role offers)) [
    | none ↦ reset_stall_counter now >> pure false
    | some last ↦
        if leb_ℤ last (pos 0) && leb_ℤ (pos 0) last
        then reset_stall_counter now >> pure false
        else if is_no_concession new_price last
        then record_no_concession now
        else reset_stall_counter now >> pure false
  ]
