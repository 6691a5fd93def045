-- ===== src/Negotiation/Valuation.antt =====
-- negotiation/domain/valuation.py. Prices are whole numbers of paise and factors of a hundredth.
use cadencia_platform.Base.{
  ℕ, suc, ◌+◌, ◌-◌, ◌*◌, ◌≤◌, ◌≡◌, Bool, true, ◌||◌, not, Option, none, some, if◌then◌else◌, leb, ℤ,
  pos, negsuc, leb_ℤ, ltb_ℤ, ◌-ℤ◌, Result, ok, err, is_ok, validation_error, half_up, arith,
}

pub record Valuation : Type 0 where
  pub reservation_price : ℤ
  pub target_price : ℤ
  pub walkaway_delta : ℤ

-- `Valuation(...)`.
unfoldable pub new_valuation : (reservation target delta : ℤ) → Result Valuation
new_valuation reservation target delta =
    if leb_ℤ reservation (pos 0)
    then err validation_error
    else if leb_ℤ target (pos 0)
    then err validation_error
    else if ltb_ℤ delta (pos 0)
    then err validation_error
    else ok
        (record { reservation_price = reservation; target_price = target; walkaway_delta = delta })

-- `is_below_reservation` and `is_within_target`.
unfoldable pub is_below_reservation : Valuation → ℤ → Bool
is_below_reservation v price = ltb_ℤ price v.reservation_price

unfoldable pub is_within_target : Valuation → ℤ → Bool
is_within_target v price = leb_ℤ price v.target_price

-- `(intrinsic * factor).quantize(0.01, ROUND_HALF_UP)`; a negative product rounds away from 0 as well.
unfoldable pub scaled : ℤ → ℕ → ℤ
unfolding half_up
scaled (pos n) factor = pos (half_up (n * factor) 100)
scaled (negsuc n) factor = pos 0 -ℤ pos (half_up (suc n * factor) 100)

-- At least 0.01.
unfoldable pub at_least_one : ℤ → ℤ
at_least_one a = if leb_ℤ a (pos 0) then pos 1 else a

-- `abs(intrinsic * 0.02)`, rounded.
unfoldable pub band : ℤ → ℤ
unfolding half_up
band (pos n) = pos (half_up (n * 2) 100)
band (negsuc n) = pos (half_up (suc n * 2) 100)

-- `compute_valuation`, of factors that are not negative.
unfoldable pub compute_valuation : (intrinsic : ℤ) → (risk margin : ℕ) → Result Valuation
unfolding new_valuation scaled at_least_one band
compute_valuation intrinsic risk margin =
    if leb_ℤ intrinsic (pos 0) || not (leb risk 100) || not (leb margin 100)
    then err validation_error
    else new_valuation (at_least_one (scaled intrinsic (100 - risk)))
        (at_least_one (scaled intrinsic (100 - margin))) (band intrinsic)

pub data RiskAppetite : Type 0 where
  low medium high other : RiskAppetite

abbrev buyer_risk : RiskAppetite → ℕ
buyer_risk RiskAppetite.low = 5
buyer_risk RiskAppetite.medium = 10
buyer_risk RiskAppetite.high = 20
buyer_risk RiskAppetite.other = 10

abbrev buyer_margin : RiskAppetite → ℕ
buyer_margin RiskAppetite.low = 3
buyer_margin RiskAppetite.medium = 5
buyer_margin RiskAppetite.high = 10
buyer_margin RiskAppetite.other = 5

-- The cap of `compute_buyer_valuation`.
unfoldable pub capped : Option ℤ → Valuation → Result Valuation
unfolding new_valuation at_least_one
capped none v = ok v
capped (some ceiling) v =
    if leb_ℤ ceiling (pos 0)
    then ok v
    else new_valuation
        (at_least_one (if ltb_ℤ ceiling v.reservation_price then ceiling else v.reservation_price))
        v.target_price v.walkaway_delta

unfoldable pub compute_buyer_valuation :
    (fair_price : ℤ) → RiskAppetite → (budget_ceiling : Option ℤ) → Result Valuation
unfolding compute_valuation capped
compute_buyer_valuation fair_price appetite ceiling =
    elim (compute_valuation fair_price (buyer_risk appetite) (buyer_margin appetite)) [
      | err x ↦ err x
      | ok v ↦ capped ceiling v
    ]

abbrev seller_margin : RiskAppetite → ℕ
seller_margin RiskAppetite.low = 15
seller_margin RiskAppetite.medium = 20
seller_margin RiskAppetite.high = 30
seller_margin RiskAppetite.other = 20

-- `compute_seller_valuation`, of a margin floor in per cent that is not negative.
unfoldable pub compute_seller_valuation :
    (cost_basis : ℤ) → (margin_floor : ℕ) → RiskAppetite → Result Valuation
unfolding new_valuation scaled at_least_one band
compute_seller_valuation cost_basis margin_floor appetite =
    new_valuation (at_least_one (scaled cost_basis (100 + margin_floor)))
      (at_least_one (scaled cost_basis (100 + seller_margin appetite))) (band cost_basis)

-- The valuation that a call returned.
abbrev pub value : Result Valuation → Valuation
value (ok v) = v
value (err x) = record { reservation_price = pos 0; target_price = pos 0; walkaway_delta = pos 0 }

-- The price at which a buyer is to walk away does not lie above the one that it aims at: for every fair
-- price above 0, every appetite and every ceiling, a valuation is returned, and its reservation price
-- is above 0 and at most its target price.
pub compute_buyer_valuation_inverted :
    (n : ℕ) (appetite : RiskAppetite) (ceiling : Option ℤ)
    → let r = compute_buyer_valuation (pos (suc n)) appetite ceiling in
      (is_ok r ≡ true)
      × (ltb_ℤ (pos 0) (value r).reservation_price ≡ true)
      × (leb_ℤ (value r).reservation_price (value r).target_price ≡ true)
unfolding compute_buyer_valuation half_up ◌-ℤ◌
compute_buyer_valuation_inverted n RiskAppetite.low ceiling = ground arith
compute_buyer_valuation_inverted n RiskAppetite.medium ceiling = ground arith
compute_buyer_valuation_inverted n RiskAppetite.high ceiling = ground arith
compute_buyer_valuation_inverted n RiskAppetite.other ceiling = ground arith

half_up_reaches : (n f : ℕ) → n ≤ half_up (n * (100 + f)) 100
unfolding half_up
half_up_reaches n f = grind arith

-- A seller of a positive cost always gets a valuation, and both of its prices reach the cost.
compute_seller_valuation_bounds :
    (n margin_floor : ℕ) (appetite : RiskAppetite)
    → let r = compute_seller_valuation (pos (suc n)) margin_floor appetite in
      (is_ok r ≡ true)
      × (leb_ℤ (pos (suc n)) (value r).reservation_price ≡ true)
      × (leb_ℤ (pos (suc n)) (value r).target_price ≡ true)
unfolding compute_seller_valuation
compute_seller_valuation_bounds n margin_floor appetite =
    let floor = half_up_reaches (suc n) margin_floor in
    let target = half_up_reaches (suc n) (seller_margin appetite) in ground arith
