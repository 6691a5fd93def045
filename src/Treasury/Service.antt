-- ===== src/Treasury/Service.antt =====
-- `TreasuryService` of treasury/application/services.py on the repositories of
-- treasury/infrastructure/repositories.py, over the rows that its database session sees. Nothing in the
-- service commits them. The provider of the rates is a parameter; clocks and fresh identifiers are
-- arguments. The rounding of a stored amount to the scale of its column is left out.
use cadencia_platform.Base.{
  ℕ, suc, ◌/◌, Bool, true, false, Option, none, some, List, [], ◌∷◌, ◌++◌, if◌then◌else◌, ◌==◌,
  ◌&&◌, map, ℤ, pos, negsuc, ◌-ℤ◌, Result, ok, err, Action, ◌>>=◌, ◌>>◌, pure, raise, gets, lift,
  or_raise, modify, not_found, validation_error, Text, codes, text_eq,
}
use cadencia_platform.Treasury.{
  LiquidityPool, FxRateUpdated, new_pool, deposit_inr, withdraw_inr, deposit_usdc, withdraw_usdc,
  deposit_algo, withdraw_algo, update_fx_rate,
}
use cadencia_platform.Treasury.Positions.{
  FxPosition, PositionStatus, Pnl, fx_position, unrealized_pnl, update_current_rate, close,
}
use cadencia_platform.Treasury.Forecast.{History, Forecast, get_liquidity_forecast}

pub record Books : Type 0 where
  pub pools : List LiquidityPool
  pub positions : List FxPosition

-- The columns that `PostgresLiquidityRepository.update` sets, in the row with the pool's identifier.
unfoldable pub update_pool : LiquidityPool → List LiquidityPool → List LiquidityPool
update_pool p [] = []
update_pool p (m ∷ ms) =
    (if m.id == p.id
      then record m {
        inr_balance = p.inr_balance;
        usdc_balance = p.usdc_balance;
        algo_balance_microalgo = p.algo_balance_microalgo;
        last_fx_rate_inr_usd = p.last_fx_rate_inr_usd;
        last_rate_updated_at = p.last_rate_updated_at;
      }
      else m)
    ∷ update_pool p ms

-- `get_by_enterprise_id`; the column is unique.
unfoldable pub pool_of : ℕ → List LiquidityPool → Option LiquidityPool
pool_of e [] = none
pool_of e (m ∷ ms) = if m.enterprise_id == e then some m else pool_of e ms

-- The columns that `PostgresFXPositionRepository.update` sets.
unfoldable pub update_position : FxPosition → List FxPosition → List FxPosition
update_position f [] = []
update_position f (m ∷ ms) =
    (if m.id == f.id
      then record m { current_rate = f.current_rate; status = f.status; closed_at = f.closed_at }
      else m)
    ∷ update_position f ms

unfoldable pub position_of : ℕ → List FxPosition → Option FxPosition
position_of i [] = none
position_of i (m ∷ ms) = if m.id == i then some m else position_of i ms

abbrev is_live : PositionStatus → Bool
is_live PositionStatus.live = true
is_live PositionStatus.closed = false

-- `list_open_by_enterprise`, the latest first: the rows are in the order of their creation.
unfoldable pub list_open : ℕ → List FxPosition → List FxPosition
list_open e [] = []
list_open e (m ∷ ms) =
    if m.enterprise_id == e && is_live m.status then list_open e ms ++ m ∷ [] else list_open e ms

-- `_get_or_create_pool`.
unfoldable pub get_or_create_pool : (id now enterprise : ℕ) → Action Books LiquidityPool
unfolding pool_of new_pool
get_or_create_pool id now enterprise b = elim (pool_of enterprise b.pools) [
  | some p ↦ (ok p, b)
  | none ↦ let p = new_pool id now enterprise in (ok p, record b { pools = b.pools ++ p ∷ [] })
]

-- `int(amount)`, of millionths.
unfoldable pub int : ℤ → ℤ
int (pos n) = pos (n / 1_000_000)
int (negsuc n) = pos 0 -ℤ pos (suc n / 1_000_000)

-- A method of the pool in memory; what it changes is stored by a later `update`.
unfoldable pub on_pool :
    {A : Type 0} → Action LiquidityPool A → LiquidityPool → Action Books (A × LiquidityPool)
on_pool m p b = let (r, p') = m p in elim r [ ok a ↦ (ok (a, p'), b) | err x ↦ (err x, b) ]

unfoldable pub update : LiquidityPool → Action Books (Unit {0})
unfolding update_pool
update p = modify λ b. record b { pools = update_pool p b.pools }

-- A method of the pool and the `update` after it.
unfoldable pub stored : {A : Type 0} → Action LiquidityPool A → LiquidityPool → Action Books A
unfolding on_pool update
stored m p = do done ← on_pool m p; update done.1; pure done.0

pub record Recorded : Type 0 where
  pub enterprise_id : ℕ
  pub currency : Text
  pub amount : ℤ

-- The branches of `record_deposit` and `record_withdrawal` on the currency.
unfoldable pub deposit : Text → ℤ → Action LiquidityPool (Unit {0})
unfolding deposit_inr deposit_usdc deposit_algo int
deposit currency amount =
    if text_eq currency (codes "INR")
    then deposit_inr amount
    else if text_eq currency (codes "USDC")
    then deposit_usdc amount
    else if text_eq currency (codes "ALGO")
    then deposit_algo (int amount)
    else raise validation_error

unfoldable pub withdraw : Text → ℤ → Action LiquidityPool (Unit {0})
unfolding withdraw_inr withdraw_usdc withdraw_algo int
withdraw currency amount =
    if text_eq currency (codes "INR")
    then withdraw_inr amount
    else if text_eq currency (codes "USDC")
    then withdraw_usdc amount
    else if text_eq currency (codes "ALGO")
    then withdraw_algo (int amount)
    else raise validation_error

unfoldable pub record_deposit : (id now : ℕ) → Recorded → Action Books Recorded
unfolding get_or_create_pool stored deposit
record_deposit id now cmd = do
  p ← get_or_create_pool id now cmd.enterprise_id
  stored (deposit cmd.currency cmd.amount) p
  pure cmd

unfoldable pub record_withdrawal : (id now : ℕ) → Recorded → Action Books Recorded
unfolding get_or_create_pool stored withdraw
record_withdrawal id now cmd = do
  p ← get_or_create_pool id now cmd.enterprise_id
  stored (withdraw cmd.currency cmd.amount) p
  pure cmd

-- The loop of `update_fx_rate` over the open positions.
unfoldable pub update_rates : Text → ℤ → List FxPosition → List FxPosition → List FxPosition
unfolding update_position update_current_rate
update_rates pair rate [] rows = rows
update_rates pair rate (f ∷ fs) rows =
    let rows' =
      if text_eq f.currency_pair pair
      then update_position (update_current_rate rate f) rows
      else rows in
    update_rates pair rate fs rows'

-- `update_fx_rate`, from its end: the open positions of the pair take the rate, and the event is returned;
-- the pool takes it; the provider is asked for it.
unfoldable pub spread_rate :
    (enterprise : ℕ) → (pair : Text) (rate : ℤ) → FxRateUpdated → Action Books FxRateUpdated
unfolding update_rates list_open
spread_rate enterprise pair rate event = do
  live ← gets λ b. list_open enterprise b.positions
  modify λ b. record b { positions = update_rates pair rate live b.positions }
  pure event

unfoldable pub reprice_at :
    (now enterprise : ℕ) → (pair : Text) → LiquidityPool → (rate : ℤ) → Action Books FxRateUpdated
unfolding stored update_fx_rate spread_rate
reprice_at now enterprise pair p rate =
    stored (update_fx_rate now rate) p >>= spread_rate enterprise pair rate

module _ (get_rate : (base target : Text) → Result ℤ) where
  unfoldable pub reprice :
      (now enterprise : ℕ) → (base target : Text) → LiquidityPool → Action Books FxRateUpdated
  unfolding reprice_at
  reprice now enterprise base target p =
      lift (get_rate base target) >>= reprice_at now enterprise (base ++ codes "/" ++ target) p

  unfoldable pub update_fx_rates :
      (id now enterprise : ℕ) → (base target : Text) → Action Books FxRateUpdated
  unfolding get_or_create_pool reprice
  update_fx_rates id now enterprise base target =
      get_or_create_pool id now enterprise >>= reprice now enterprise base target

pub record OpenFxPositionCommand : Type 0 where
  pub enterprise_id : ℕ
  pub currency_pair : Text
  pub direction : Text
  pub notional_amount : ℤ
  pub entry_rate : ℤ

unfoldable pub open_fx_position : (id : ℕ) → OpenFxPositionCommand → Action Books ℕ
unfolding fx_position
open_fx_position id cmd = do
  f ← lift (
      fx_position id cmd.enterprise_id cmd.currency_pair cmd.direction cmd.notional_amount
        cmd.entry_rate)
  modify λ b. record b { positions = b.positions ++ f ∷ [] }
  pure f.id

-- `position is None or position.enterprise_id != cmd.enterprise_id`.
abbrev owned_by : ℕ → Option FxPosition → Option FxPosition
owned_by e none = none
owned_by e (some f) = if f.enterprise_id == e then some f else none

unfoldable pub on_position :
    {A : Type 0} → Action FxPosition A → FxPosition → Action Books (A × FxPosition)
on_position m f b = let (r, f') = m f in elim r [ ok a ↦ (ok (a, f'), b) | err x ↦ (err x, b) ]

unfoldable pub close_fx_position : (now position enterprise : ℕ) → Action Books Pnl
unfolding position_of on_position close update_position
close_fx_position now position enterprise = do
  f ← or_raise (owned_by enterprise (position_of position (← gets (λ b. b.positions)))) not_found
  done ← on_position (close now) f
  modify λ b. record b { positions = update_position done.1 b.positions }
  pure done.0

-- `get_fx_exposure`: the profit of each open position.
unfoldable pub get_fx_exposure : ℕ → Books → List (FxPosition × Pnl)
unfolding list_open unrealized_pnl
get_fx_exposure enterprise b = map (λ f. (f, unrealized_pnl f)) (list_open enterprise b.positions)

unfoldable pub liquidity_forecast :
    (id now enterprise : ℕ) → (forecast_days : ℕ) → Option History → Action Books Forecast
unfolding get_or_create_pool get_liquidity_forecast
liquidity_forecast id now enterprise forecast_days history = do
  p ← get_or_create_pool id now enterprise
  pure (get_liquidity_forecast forecast_days history p)
