-- ===== src/Negotiation/StrategyTests.antt =====
-- A buyer half-way through a negotiation, on whom the theorems on negotiation/domain/strategy.py apply.
use cadencia_platform.Base.{◌≤◌, refl, true, some, none, pos, arith, half_up, half_even}
use cadencia_platform.Negotiation.Valuation.{
  RiskAppetite, compute_buyer_valuation, compute_valuation, new_valuation, scaled, at_least_one,
  band, capped,
}
use cadencia_platform.Negotiation.Strategy.{
  Outlook, StrategyRecommendation, StrategyType, StrategyAction, select_strategy, boulware_curve,
  recommendation, conceded,
}
use cadencia_platform.Negotiation.Strategy.Bounds.{IsSound, select_strategy-IsSound}
use cadencia_platform.Negotiation.Strategy.Buyers.{compute_buyer_valuation-select_strategy}

abbrev outlook : Outlook
outlook = record {
  round_num = 5;
  my_last_price = some 8000;
  opponent_last_price = some 9500;
  reservation_price = 9000;
  target_price = 7500;
  opponent_flexibility = 500;
  rounds_since_concession = 1;
  time_remaining_pct = 750;
  is_buyer = true;
  deadline_curve = record { dividend = 1; divisor = 2 };
}

select_strategy-IsSound_example : IsSound true 9000 (select_strategy 20 outlook)
select_strategy-IsSound_example =
    select_strategy-IsSound 20 outlook (omega arith) (omega arith) (omega arith, omega arith)
      (omega arith)

-- The buyer whose prices are computed from a fair price of 10,000, half-way through the rounds.
abbrev conceding : Outlook
conceding = record outlook {
  reservation_price = 9000;
  target_price = 9500;
  my_last_price = none;
  opponent_last_price = some 9800;
}

abbrev suggestion : StrategyRecommendation
suggestion = record {
  strategy = StrategyType.boulware;
  concession_fraction = 58;
  suggested_price = 9789;
  action = StrategyAction.counter;
}

compute_buyer_valuation-select_strategy_example :
    (9000 ≤ 9500) × (9500 ≤ suggestion.suggested_price)
unfolding compute_buyer_valuation compute_valuation new_valuation scaled at_least_one band capped
    select_strategy recommendation boulware_curve conceded half_up half_even
compute_buyer_valuation-select_strategy_example =
    compute_buyer_valuation-select_strategy 9_999 RiskAppetite.medium none
      {v = record {
        reservation_price = pos 9000;
        target_price = pos 9500;
        walkaway_delta = pos 200;
      }}
      20 conceding {r = suggestion} refl refl refl refl (omega arith, omega arith) refl refl
