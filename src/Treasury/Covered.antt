-- ===== src/Treasury/Covered.antt =====
-- The commands of treasury/application/services.py keep every pool of the books covered.
use cadencia_platform.Base.{
  ℕ, ◌≡◌, refl, Bool, true, false, Option, none, some, List, [], ◌∷◌, ◌++◌, ℤ, Result, ok, err,
  Text, All, All-append, ◌+ℤ◌, ◌-ℤ◌, Action, pure, codes, lift, resume, subst, sym, if◌then◌else◌,
  is_ok, ◌>>=◌, Option-cases, inl, inr, arith,
}
use cadencia_platform.Treasury.{
  LiquidityPool, new_pool, deposit_inr, deposit_usdc, deposit_algo, withdraw_inr, withdraw_usdc,
  withdraw_algo, update_fx_rate,
}
use cadencia_platform.Treasury.Flows.{IsCovered}
use cadencia_platform.Treasury.Service.{
  Books, update_pool, pool_of, get_or_create_pool, deposit, withdraw, on_pool, update, stored,
  Recorded, record_deposit, record_withdrawal, update_fx_rates, reprice, reprice_at, spread_rate,
  OpenFxPositionCommand, open_fx_position, close_fx_position, liquidity_forecast,
}
use cadencia_platform.Treasury.Forecast.{History, get_liquidity_forecast}

abbrev pub PoolIsCovered : LiquidityPool → Type 0
PoolIsCovered p =
    IsCovered p.inr_balance × IsCovered p.usdc_balance × IsCovered p.algo_balance_microalgo

abbrev pub AllCovered : Books → Type 0
AllCovered b = All PoolIsCovered b.pools

pub data Command : Type 0 where
  deposits withdraws : (id now : ℕ) → Recorded → Command
  updates_rate : (id now enterprise : ℕ) → (base target : Text) → Command
  opens : (id : ℕ) → OpenFxPositionCommand → Command
  closes : (now position enterprise : ℕ) → Command
  forecasts : (id now enterprise days : ℕ) → Option History → Command

module _ (get_rate : (base target : Text) → Result ℤ) where
  -- The books after a command, whether it returned or raised.
  unfoldable pub perform : Command → Books → Books
  unfolding record_deposit record_withdrawal update_fx_rates open_fx_position close_fx_position
      liquidity_forecast
  perform (Command.deposits id now cmd) b = (record_deposit id now cmd b).1
  perform (Command.withdraws id now cmd) b = (record_withdrawal id now cmd b).1
  perform (Command.updates_rate id now e base target) b =
      (update_fx_rates get_rate id now e base target b).1
  perform (Command.opens id cmd) b = (open_fx_position id cmd b).1
  perform (Command.closes now position e) b = (close_fx_position now position e b).1
  perform (Command.forecasts id now e days history) b =
      (liquidity_forecast id now e days history b).1

  unfoldable pub run : List Command → Books → Books
  unfolding perform
  run [] b = b
  run (c ∷ cs) b = run cs (perform c b)

pool_of-IsCovered :
    (e : ℕ) (ms : List LiquidityPool) {p : LiquidityPool}
    → All PoolIsCovered ms
    → pool_of e ms ≡ some p
    → PoolIsCovered p
unfolding pool_of
pool_of-IsCovered e [] h k = absurd (ground arith)
pool_of-IsCovered e (m ∷ ms) h k = grind (arith, pool_of-IsCovered e ms)

update_pool-IsCovered :
    (p : LiquidityPool) (ms : List LiquidityPool)
    → PoolIsCovered p
    → All PoolIsCovered ms
    → All PoolIsCovered (update_pool p ms)
unfolding update_pool
update_pool-IsCovered p [] h k = k
update_pool-IsCovered p (m ∷ ms) h k = (ground arith, update_pool-IsCovered p ms h k.1)

deposit-IsCovered :
    (currency : Text) (a : ℤ) (p : LiquidityPool)
    → PoolIsCovered p
    → PoolIsCovered (deposit currency a p).1
unfolding deposit deposit_inr deposit_usdc deposit_algo ◌+ℤ◌
deposit-IsCovered currency a p h = ground arith

withdraw-IsCovered :
    (currency : Text) (a : ℤ) (p : LiquidityPool)
    → PoolIsCovered p
    → PoolIsCovered (withdraw currency a p).1
unfolding withdraw withdraw_inr withdraw_usdc withdraw_algo ◌-ℤ◌
withdraw-IsCovered currency a p h = ground arith

-- The books after a method on a pool and the `update`.
stored_books :
    {A : Type 0} (m : Action LiquidityPool A) (p : LiquidityPool) (b : Books)
    → (stored m p b).1
      ≡ (if is_ok (m p).0 then record b { pools = update_pool (m p).1 b.pools } else b)
unfolding stored on_pool update
stored_books m p b = ground arith

if-AllCovered :
    (c : Bool) (b b' : Books) → AllCovered b → AllCovered b' → AllCovered (if c then b else b')
if-AllCovered true b b' h k = h
if-AllCovered false b b' h k = k

stored-AllCovered :
    {A : Type 0} (m : Action LiquidityPool A) (p : LiquidityPool) (b : Books)
    → PoolIsCovered (m p).1
    → AllCovered b
    → AllCovered (stored m p b).1
stored-AllCovered m p b h k =
    subst AllCovered (sym (stored_books m p b))
      (if-AllCovered (is_ok (m p).0) _ b (update_pool-IsCovered (m p).1 b.pools h k) k)

get_or_create_pool_found :
    (id now e : ℕ) (b : Books) {p : LiquidityPool}
    → pool_of e b.pools ≡ some p
    → get_or_create_pool id now e b ≡ (ok p, b)
unfolding get_or_create_pool
get_or_create_pool_found id now e b h = ground arith

get_or_create_pool_new :
    (id now e : ℕ) (b : Books)
    → pool_of e b.pools ≡ none
    → get_or_create_pool id now e b
      ≡ (ok (new_pool id now e), record b { pools = b.pools ++ new_pool id now e ∷ [] })
unfolding get_or_create_pool
get_or_create_pool_new id now e b h = ground arith

-- What runs on the pool that `_get_or_create_pool` gives keeps the books covered if it does so on a
-- covered pool.
get_or_create_pool-AllCovered :
    {A : Type 0} (id now e : ℕ) (k : LiquidityPool → Action Books A) (b : Books)
    → ((p : LiquidityPool) (c : Books) → PoolIsCovered p → AllCovered c → AllCovered (k p c).1)
    → AllCovered b
    → AllCovered ((get_or_create_pool id now e >>= k) b).1
unfolding new_pool
get_or_create_pool-AllCovered id now e k b h covered =
    let after : Result LiquidityPool × Books → Type 0 = λ r. AllCovered (resume k r).1 in
    elim (Option-cases (pool_of e b.pools)) [
      | inl none_yet ↦ subst after (sym (get_or_create_pool_new id now e b none_yet)) (
          h (new_pool id now e) _ (refl, refl, refl)
            (All-append PoolIsCovered b.pools _ covered ((refl, refl, refl), tt)))
      | inr (p, found) ↦
          subst after (sym (get_or_create_pool_found id now e b found))
            (h p b (pool_of-IsCovered e b.pools covered found) covered)
    ]

-- A step that leaves the pools alone may follow.
>>=-AllCovered :
    {A B : Type 0} (m : Action Books A) (k : A → Action Books B) (b : Books)
    → AllCovered (m b).1
    → ((a : A) (c : Books) → AllCovered c → AllCovered (k a c).1)
    → AllCovered ((m >>= k) b).1
>>=-AllCovered {A} {B} m k b h keeps = go (m b) h
  where
    go : (r : Result A × Books) → AllCovered r.1 → AllCovered (resume k r).1
    go (ok a, c) l = keeps a c l
    go (err x, c) l = l

module _ (get_rate : (base target : Text) → Result ℤ) where
  perform-AllCovered : (c : Command) (b : Books) → AllCovered b → AllCovered (perform get_rate c b)
  unfolding perform record_deposit record_withdrawal update_fx_rates open_fx_position
      close_fx_position liquidity_forecast update_fx_rate reprice reprice_at spread_rate
  perform-AllCovered (Command.deposits id now cmd) b h =
      let after : Unit {0} → Action Books Recorded = λ done. pure cmd in
      let m = deposit cmd.currency cmd.amount in
      get_or_create_pool-AllCovered id now cmd.enterprise_id (λ p. stored m p >>= after) b
        (λ p c covered all.
          >>=-AllCovered (stored m p) after c
            (stored-AllCovered m p c (deposit-IsCovered cmd.currency cmd.amount p covered) all)
            (λ done d l. l))
        h
  perform-AllCovered (Command.withdraws id now cmd) b h =
      let after : Unit {0} → Action Books Recorded = λ done. pure cmd in
      let m = withdraw cmd.currency cmd.amount in
      get_or_create_pool-AllCovered id now cmd.enterprise_id (λ p. stored m p >>= after) b
        (λ p c covered all.
          >>=-AllCovered (stored m p) after c
            (stored-AllCovered m p c (withdraw-IsCovered cmd.currency cmd.amount p covered) all)
            (λ done d l. l))
        h
  perform-AllCovered (Command.updates_rate id now e base target) b h =
      get_or_create_pool-AllCovered id now e (reprice get_rate now e base target) b
        (λ p c covered all.
          >>=-AllCovered (lift (get_rate base target))
            (reprice_at now e (base ++ codes "/" ++ target) p) c all
            (λ rate d l.
              >>=-AllCovered (stored (update_fx_rate now rate) p)
                (spread_rate e (base ++ codes "/" ++ target) rate) d
                (stored-AllCovered (update_fx_rate now rate) p d covered l) (λ event d' l'. l')))
        h
  perform-AllCovered (Command.opens id cmd) b h = ground arith
  perform-AllCovered (Command.closes now position e) b h = ground arith
  perform-AllCovered (Command.forecasts id now e days history) b h =
      get_or_create_pool-AllCovered id now e (λ p. pure (get_liquidity_forecast days history p)) b
        (λ p c covered all. all) h

  -- No command of the service overdraws a pool: if no balance in the books is negative, none is after any
  -- history of commands, those that raised among them.
  pub run-AllCovered :
      (cs : List Command) (b : Books) → AllCovered b → AllCovered (run get_rate cs b)
  unfolding run
  run-AllCovered [] b h = h
  run-AllCovered (c ∷ cs) b h = run-AllCovered cs (perform get_rate c b) (perform-AllCovered c b h)
