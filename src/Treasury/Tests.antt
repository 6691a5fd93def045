-- ===== src/Treasury/Tests.antt =====
-- A pool and commands on which the theorems on treasury/ apply.
use cadencia_platform.Base.{◌≡◌, refl, none, List, [], ◌∷◌, pos, ◌+ℤ◌, codes, ok}
use cadencia_platform.Treasury.{LiquidityPool}
use cadencia_platform.Treasury.Flows.{Currency, Movement, balance, net, run, run-net}
use cadencia_platform.Treasury.Forecast.{get_liquidity_forecast, fallback_silent}
use cadencia_platform.Treasury.Covered.{Command, AllCovered}
use cadencia_platform.Treasury.Covered

abbrev pool : LiquidityPool
pool = record {
  id = 1;
  enterprise_id = 7;
  inr_balance = pos 1000;
  usdc_balance = pos 0;
  algo_balance_microalgo = pos 0;
  last_fx_rate_inr_usd = pos 1_200_000;
  last_rate_updated_at = 0;
}

abbrev movements : List Movement
movements =
    Movement.deposits Currency.inr (pos 500)
    ∷ Movement.withdraws Currency.inr (pos 2000)
    ∷ Movement.withdraws Currency.inr (pos 300)
    ∷ []

-- The withdrawal of 2000 is refused.
run-net_example :
    balance Currency.inr (run movements pool) ≡ pos 1000 +ℤ net Currency.inr movements pool
run-net_example = run-net Currency.inr movements pool

abbrev commands : List Command
commands =
    Command.deposits 2 10 (record { enterprise_id = 8; currency = codes "USDC"; amount = pos 40 })
    ∷ Command.withdraws 3 11
        (record { enterprise_id = 7; currency = codes "INR"; amount = pos 1001 })
    ∷ []

run-AllCovered_example : AllCovered (
    Covered.run (λ base target. ok (pos 1)) commands (record { pools = pool ∷ []; positions = [] }))
run-AllCovered_example =
    Covered.run-AllCovered (λ base target. ok (pos 1)) commands _ ((refl, refl, refl), tt)

fallback_silent_example :
    let f = get_liquidity_forecast 30 none pool in (f.warns ≡ none) × (f.runway ≡ pos 50)
fallback_silent_example = fallback_silent 30 pool 1000 refl
