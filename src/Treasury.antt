-- ===== src/Treasury.antt =====
-- `LiquidityPool` of treasury/domain/liquidity_pool.py, method by method. Amounts in INR and USDC are
-- whole numbers of a millionth, and rates of 1/10^8. The time of the last change, which every method
-- moves and nothing reads, is left out.
pub mod Flows
pub mod Positions
pub mod Forecast
pub mod Service
pub mod Covered
pub mod Rates
pub mod OnRamp
mod Tests
use cadencia_platform.Base.{
  ℕ, ◌*◌, ◌/◌, if◌then◌else◌, ℤ, pos, pos_part, ◌+ℤ◌, ◌-ℤ◌, leb_ℤ, ltb_ℤ, ok, err, Action,
  validation_error, policy_violation,
}

pub record LiquidityPool : Type 0 where
  pub id : ℕ
  pub enterprise_id : ℕ
  pub inr_balance : ℤ
  pub usdc_balance : ℤ
  pub algo_balance_microalgo : ℤ
  pub last_fx_rate_inr_usd : ℤ
  pub last_rate_updated_at : ℕ

-- `LiquidityPool(enterprise_id=...)`, with the identifier and the clock that its defaults draw.
unfoldable pub new_pool : (id now enterprise : ℕ) → LiquidityPool
new_pool id now enterprise = record {
  id = id;
  enterprise_id = enterprise;
  inr_balance = pos 0;
  usdc_balance = pos 0;
  algo_balance_microalgo = pos 0;
  last_fx_rate_inr_usd = pos 0;
  last_rate_updated_at = now;
}

unfoldable pub deposit_inr : ℤ → Action LiquidityPool (Unit {0})
deposit_inr amount p =
    if leb_ℤ amount (pos 0)
    then (err validation_error, p)
    else (ok tt, record p { inr_balance = p.inr_balance +ℤ amount })

unfoldable pub withdraw_inr : ℤ → Action LiquidityPool (Unit {0})
withdraw_inr amount p =
    if leb_ℤ amount (pos 0)
    then (err validation_error, p)
    else if ltb_ℤ p.inr_balance amount
    then (err policy_violation, p)
    else (ok tt, record p { inr_balance = p.inr_balance -ℤ amount })

unfoldable pub deposit_usdc : ℤ → Action LiquidityPool (Unit {0})
deposit_usdc amount p =
    if leb_ℤ amount (pos 0)
    then (err validation_error, p)
    else (ok tt, record p { usdc_balance = p.usdc_balance +ℤ amount })

unfoldable pub withdraw_usdc : ℤ → Action LiquidityPool (Unit {0})
withdraw_usdc amount p =
    if leb_ℤ amount (pos 0)
    then (err validation_error, p)
    else if ltb_ℤ p.usdc_balance amount
    then (err policy_violation, p)
    else (ok tt, record p { usdc_balance = p.usdc_balance -ℤ amount })

unfoldable pub deposit_algo : ℤ → Action LiquidityPool (Unit {0})
deposit_algo microalgo p =
    if leb_ℤ microalgo (pos 0)
    then (err validation_error, p)
    else (ok tt, record p { algo_balance_microalgo = p.algo_balance_microalgo +ℤ microalgo })

unfoldable pub withdraw_algo : ℤ → Action LiquidityPool (Unit {0})
withdraw_algo microalgo p =
    if leb_ℤ microalgo (pos 0)
    then (err validation_error, p)
    else if ltb_ℤ p.algo_balance_microalgo microalgo
    then (err policy_violation, p)
    else (ok tt, record p { algo_balance_microalgo = p.algo_balance_microalgo -ℤ microalgo })

-- `FXRateUpdated`: the enterprise, the old rate and the new one.
pub record FxRateUpdated : Type 0 where
  pub enterprise_id : ℕ
  pub old_rate : ℤ
  pub new_rate : ℤ

unfoldable pub update_fx_rate : (now : ℕ) → ℤ → Action LiquidityPool FxRateUpdated
update_fx_rate now rate p = (
  ok (record {
    enterprise_id = p.enterprise_id;
    old_rate = p.last_fx_rate_inr_usd;
    new_rate = rate;
  }),
  record p { last_fx_rate_inr_usd = rate; last_rate_updated_at = now },
)

-- `total_value_inr`, in millionths: the rate is USD for one INR, and the quotient, of a balance of 0 or
-- more, is rounded down.
unfoldable pub total_value_inr : LiquidityPool → ℤ
total_value_inr p =
    if leb_ℤ p.last_fx_rate_inr_usd (pos 0)
    then p.inr_balance
    else p.inr_balance
      +ℤ pos (pos_part p.usdc_balance * 100_000_000 / pos_part p.last_fx_rate_inr_usd)
