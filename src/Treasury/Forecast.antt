-- ===== src/Treasury/Forecast.antt =====
-- `get_liquidity_forecast` and `_estimate_daily_burn` of treasury/application/services.py. Amounts are
-- whole numbers of 1/10^8, in which two per cent of a balance is exact; the quotient of the runway
-- is exact before `int` cuts it. The answers of the query on the escrows and of the rate provider
-- are arguments. The dates of the entries and the rounding of what is displayed are left out.
use cadencia_platform.Base.{
  ℕ, zero, suc, ◌+◌, ◌-◌, ◌*◌, ◌/◌, ◌<◌, ◌≤◌, ◌≡◌, refl, ◌∙◌, ap, Option, none, some, List, [], ◌∷◌,
  if◌then◌else◌, ltb, ◌==◌, ℤ, pos, negsuc, pos_part, ◌-ℤ◌, ◌*ℤ◌, ltb_ℤ, arith, half_even,
}
use native.Mathlib.Nat.{le-div_iff_mul-le, div-lt_iff_lt-mul}
use cadencia_platform.Treasury.{LiquidityPool}

-- `max(Decimal("0"), projected - burn)`.
unfoldable pub spend : (projected burn : ℤ) → ℤ
spend projected burn = let left = projected -ℤ burn in if ltb_ℤ left (pos 0) then pos 0 else left

pub record Day : Type 0 where
  pub projected_inr_balance : ℤ
  pub projected_usdc_balance : ℤ

-- The loop over the days to come, from the balances of the last one.
unfoldable pub project : (days : ℕ) → (burn day : Day) → List Day
unfolding spend
project zero burn day = []
project (suc days) burn day =
    let next : Day = record {
      projected_inr_balance = spend day.projected_inr_balance burn.projected_inr_balance;
      projected_usdc_balance = spend day.projected_usdc_balance burn.projected_usdc_balance;
    } in
    next ∷ project days burn next

-- What the escrows of the last thirty days average to, in microalgo a day, and the rate to INR in
-- 1/10^8, unless the provider failed.
pub record History : Type 0 where
  pub avg_daily_microalgo : ℕ
  pub rate : Option ℕ

abbrev rate_or_85 : Option ℕ → ℕ
rate_or_85 none = 8_500_000_000
rate_or_85 (some r) = r

-- `_estimate_daily_burn`. Without a history, or when the query fails, two per cent of the balance; the
-- volume is a whole number of microalgo, so its value in paise is one of 1/10^6.
unfoldable pub estimate_daily_burn : Option History → (current_balance : ℤ) → ℤ
unfolding half_even
estimate_daily_burn none current_balance = current_balance *ℤ pos 2
estimate_daily_burn (some h) current_balance =
    if ltb 0 h.avg_daily_microalgo
    then pos (half_even (h.avg_daily_microalgo * rate_or_85 h.rate) 1_000_000_000_000 * 1_000_000)
    else current_balance *ℤ pos 2

-- `int(balance / burn)`, of a burn that is positive.
unfoldable pub truncate : ℤ → ℕ → ℤ
truncate (pos n) d = pos (n / d)
truncate (negsuc n) d = pos 0 -ℤ pos (suc n / d)

unfoldable pub runway_days : (balance burn : ℤ) → ℤ
unfolding truncate
runway_days balance burn = if ltb_ℤ (pos 0) burn then truncate balance (pos_part burn) else pos 999

pub data Alert : Type 0 where
  critical warning : Alert

unfoldable pub alert : ℤ → Option Alert
alert days =
    if ltb_ℤ days (pos 7)
    then some Alert.critical
    else if ltb_ℤ days (pos 14)
    then some Alert.warning
    else none

pub record Forecast : Type 0 where
  pub forecast : List Day
  pub runway : ℤ
  pub warns : Option Alert
  pub estimated_daily_burn_inr : ℤ

unfoldable pub get_liquidity_forecast :
    (forecast_days : ℕ) → Option History → LiquidityPool → Forecast
unfolding project estimate_daily_burn runway_days alert
get_liquidity_forecast forecast_days history p =
    let balance = p.inr_balance *ℤ pos 100 in
    let burn = estimate_daily_burn history p.inr_balance in
    let days = runway_days balance burn in
    record {
      forecast =
          project forecast_days
            (record {
              projected_inr_balance = burn;
              projected_usdc_balance = p.usdc_balance *ℤ pos 2;
            })
            (record {
              projected_inr_balance = balance;
              projected_usdc_balance = p.usdc_balance *ℤ pos 100;
            });
      runway = if ltb_ℤ (pos 999) days then pos 999 else days;
      warns = alert days;
      estimated_daily_burn_inr = burn;
    }

-- The INR balance projected for the day `i` days after tomorrow.
abbrev pub inr_after : List Day → ℕ → Option ℤ
inr_after [] i = none
inr_after (d ∷ ds) zero = some d.projected_inr_balance
inr_after (d ∷ ds) (suc i) = inr_after ds i

spend_pos : (a b : ℕ) → spend (pos a) (pos b) ≡ pos (a - b)
unfolding spend ◌-ℤ◌
spend_pos a b = ground arith

sub_days : (b u i : ℕ) → b - u - (i * u + u) ≡ b - (suc i * u + u)
sub_days b u i = grind arith

-- Day by day the projection is what the days so far leave of the balance, cut at 0.
project_inr :
    (days i b u : ℕ) (burn day : Day)
    → burn.projected_inr_balance ≡ pos u
    → day.projected_inr_balance ≡ pos b
    → i < days
    → inr_after (project days burn day) i ≡ some (pos (b - (i * u + u)))
unfolding project
project_inr zero i b u burn day h k l = absurd (omega arith)
project_inr (suc days) zero b u burn day h k l = grind (arith, spend_pos b u)
project_inr (suc days) (suc i) b u burn day h k l =
    let spent = spend_pos b u in
    let shifted = sub_days b u i in
    let next =
      project_inr days i (b - u) u burn
        (record {
          projected_inr_balance = spend day.projected_inr_balance burn.projected_inr_balance;
          projected_usdc_balance = spend day.projected_usdc_balance burn.projected_usdc_balance;
        })
        h (cc) (omega arith) in
    next ∙ ap (λ n. some (pos n)) shifted

runway_days_pos : (b u : ℕ) → runway_days (pos b) (pos (suc u)) ≡ pos (b / suc u)
unfolding runway_days truncate
runway_days_pos b u = ground arith

-- Of a balance `b` that loses `u + 1` a day, the runway counts the days that are paid in full: up to the
-- day of the runway the projection is the balance less the days' burns, none of them cut, and on every
-- later day it is 0.
runway_days-project :
    (days i b u : ℕ) (burn day : Day)
    → burn.projected_inr_balance ≡ pos (suc u)
    → day.projected_inr_balance ≡ pos b
    → i < days
    → let runway = pos_part (runway_days (pos b) (pos (suc u))) in
      let projected = inr_after (project days burn day) i in
      (suc i ≤ runway → (projected ≡ some (pos (b - suc i * suc u))) × (suc i * suc u ≤ b))
      × (runway ≤ i → projected ≡ some (pos 0))
runway_days-project days i b u burn day h k l =
    let at_i = project_inr days i b (suc u) burn day h k l in
    let exact : b - (i * suc u + suc u) ≡ b - suc i * suc u = grind arith in
    let (runs, lasts) = le-div_iff_mul-le {k = suc u} {x = suc i} {y = b} (omega arith) in
    let r = ap pos_part (runway_days_pos b u) in
    let ends : b / suc u ≤ i → b - suc i * suc u ≡ 0 = λ late. grind arith in
    (
      λ early. (at_i ∙ ap (λ n. some (pos n)) exact, runs (omega arith)),
      λ late. at_i ∙ ap (λ n. some (pos n)) (exact ∙ ends (omega arith)),
    )

quotient_fallback : (b : ℕ) → suc b * 100 / suc (b * 2 + 1) ≡ 50
quotient_fallback b =
    let low =
      (le-div_iff_mul-le {k = suc (b * 2 + 1)} {x = 50} {y = suc b * 100} (omega arith)).1 in
    let high =
      (div-lt_iff_lt-mul {k = suc (b * 2 + 1)} {x = suc b * 100} {y = 51} (omega arith)).1 in
    let at_least = low (omega arith) in let below = high (omega arith) in omega arith

*ℤ_pos : (a b : ℕ) → pos a *ℤ pos b ≡ pos (a * b)
unfolding ◌*ℤ◌
*ℤ_pos a b = grind arith

runway_days_fallback :
    (b : ℕ) → runway_days (pos b *ℤ pos 100) (pos b *ℤ pos 2) ≡ (if b == 0 then pos 999 else pos 50)
unfolding runway_days truncate ◌*ℤ◌
runway_days_fallback zero = refl
runway_days_fallback (suc b) =
    let a = *ℤ_pos (suc b) 100 in
    let d : pos (suc b) *ℤ pos 2 ≡ pos (suc (b * 2 + 1)) =
      *ℤ_pos (suc b) 2 ∙ ap pos (omega arith) in
    let stays : pos 50 ≡ (if suc b == 0 then pos 999 else pos 50) = ground arith in
    ap (λ x. runway_days x (pos (suc b) *ℤ pos 2)) a
    ∙ ap (runway_days (pos (suc b * 100))) d
    ∙ runway_days_pos (suc b * 100) (b * 2 + 1)
    ∙ ap pos (quotient_fallback b)
    ∙ stays

-- Without a history of settlements, or when the query fails, no pool gets an alert: its runway is fifty days
-- if it holds any INR, and 999 if it holds none.
pub fallback_silent :
    (days : ℕ) (p : LiquidityPool) (b : ℕ)
    → p.inr_balance ≡ pos b
    → let f = get_liquidity_forecast days none p in
      (f.warns ≡ none) × (f.runway ≡ (if b == 0 then pos 999 else pos 50))
unfolding get_liquidity_forecast estimate_daily_burn alert
fallback_silent days p b h =
    let days : runway_days (p.inr_balance *ℤ pos 100) (p.inr_balance *ℤ pos 2)
        ≡ (if b == 0 then pos 999 else pos 50) =
      ap (λ x. runway_days (x *ℤ pos 100) (x *ℤ pos 2)) h ∙ runway_days_fallback b in
    ground arith
