-- ===== src/Negotiation/Strategy/Buyers.antt =====
-- What the concession curves of negotiation/domain/strategy.py make of the valuation that
-- negotiation/domain/valuation.py computes for a buyer.
use cadencia_platform.Base.{
  ℕ, suc, ◌+◌, ◌*◌, ◌≤◌, ◌≡◌, Bool, true, false, Option, ℤ, pos, pos_part, ok, arith,
}
use cadencia_platform.Negotiation.Valuation.{
  Valuation, RiskAppetite, compute_buyer_valuation, compute_buyer_valuation_inverted,
}
use cadencia_platform.Negotiation.Strategy.{
  StrategyType, StrategyRecommendation, Outlook, Fraction, gap, conceded, recommendation,
  select_strategy, boulware_curve,
}
use cadencia_platform.Negotiation.Strategy.Bounds.{IsPart, boulware_curve-IsPart, le-half_up}

conceded_reaches :
    (reservation target : ℕ) (f : Fraction) → IsPart f → target ≤ conceded true reservation target f
unfolding conceded
conceded_reaches reservation target f part = ground (
  arith,
  le-half_up (target * f.divisor + gap reservation target * f.dividend) f.divisor target part.0
      (omega arith),
)

abbrev pub follows_curve : StrategyType → Bool
follows_curve StrategyType.boulware = true
follows_curve StrategyType.deadline_pressure = true
follows_curve _ = false

curve-le :
    (max_rounds : ℕ) (o : Outlook) {r : StrategyRecommendation}
    → o.is_buyer ≡ true
    → IsPart o.deadline_curve
    → select_strategy max_rounds o ≡ ok r
    → follows_curve r.strategy ≡ true
    → o.target_price ≤ r.suggested_price
unfolding select_strategy recommendation
curve-le max_rounds o b part h c =
    let curve = boulware_curve o.round_num max_rounds in
    ground (
      arith,
      conceded_reaches o.reservation_price o.target_price curve
          (boulware_curve-IsPart o.round_num max_rounds),
      conceded_reaches o.reservation_price o.target_price o.deadline_curve part,
    )

-- A buyer who concedes along a curve walks away from its own limit: with a valuation that was computed for
-- a buyer, of any fair price above 0, any appetite and any ceiling, each price that Boulware or the
-- deadline curve suggests is at least the target price, and that at least the reservation price.
pub compute_buyer_valuation-select_strategy :
    (n : ℕ) (appetite : RiskAppetite) (ceiling : Option ℤ) {v : Valuation} (max_rounds : ℕ)
    (o : Outlook) {r : StrategyRecommendation}
    → compute_buyer_valuation (pos (suc n)) appetite ceiling ≡ ok v
    → o.reservation_price ≡ pos_part v.reservation_price
    → o.target_price ≡ pos_part v.target_price
    → o.is_buyer ≡ true
    → IsPart o.deadline_curve
    → select_strategy max_rounds o ≡ ok r
    → follows_curve r.strategy ≡ true
    → (o.reservation_price ≤ o.target_price) × (o.target_price ≤ r.suggested_price)
compute_buyer_valuation-select_strategy n appetite ceiling max_rounds o h p t b part k c = (
  ground (arith, compute_buyer_valuation_inverted n appetite ceiling),
  curve-le max_rounds o b part k c,
)
