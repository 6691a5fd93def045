-- ===== src/Treasury/Flows.antt =====
-- Histories of calls on a pool of treasury/domain/liquidity_pool.py: no balance is overdrawn, and what
-- is in the pool is what was paid in less what was taken out.
use cadencia_platform.Base.{
  ℕ, ◌≡◌, Bool, true, false, List, [], ◌∷◌, ◌∙◌, ap, if◌then◌else◌, ℤ, pos, neg_part, ◌+ℤ◌, ◌-ℤ◌,
  Result, is_ok, arith, int_laws,
}
use cadencia_platform.Treasury.{
  LiquidityPool, deposit_inr, withdraw_inr, deposit_usdc, withdraw_usdc, deposit_algo,
  withdraw_algo, update_fx_rate,
}

pub data Currency : Type 0 where
  inr usdc algo : Currency

pub data Movement : Type 0 where
  deposits withdraws : Currency → (amount : ℤ) → Movement
  updates_rate : (now : ℕ) (rate : ℤ) → Movement

abbrev done : {A : Type 0} → Result A × LiquidityPool → Bool × LiquidityPool
done (r, p) = (is_ok r, p)

-- Whether the method returned, and the pool after it.
unfoldable pub move : Movement → LiquidityPool → Bool × LiquidityPool
unfolding deposit_inr withdraw_inr deposit_usdc withdraw_usdc deposit_algo withdraw_algo
    update_fx_rate
move (Movement.deposits Currency.inr a) p = done (deposit_inr a p)
move (Movement.deposits Currency.usdc a) p = done (deposit_usdc a p)
move (Movement.deposits Currency.algo a) p = done (deposit_algo a p)
move (Movement.withdraws Currency.inr a) p = done (withdraw_inr a p)
move (Movement.withdraws Currency.usdc a) p = done (withdraw_usdc a p)
move (Movement.withdraws Currency.algo a) p = done (withdraw_algo a p)
move (Movement.updates_rate now rate) p = done (update_fx_rate now rate p)

unfoldable pub run : List Movement → LiquidityPool → LiquidityPool
run [] p = p
run (m ∷ ms) p = run ms (move m p).1

abbrev pub balance : Currency → LiquidityPool → ℤ
balance Currency.inr p = p.inr_balance
balance Currency.usdc p = p.usdc_balance
balance Currency.algo p = p.algo_balance_microalgo

abbrev currency_eq : Currency → Currency → Bool
currency_eq Currency.inr Currency.inr = true
currency_eq Currency.usdc Currency.usdc = true
currency_eq Currency.algo Currency.algo = true
currency_eq _ _ = false

-- What the accepted movements of a currency add up to: deposits for it, withdrawals against it.
signed : Currency → Movement → ℤ
signed c (Movement.deposits d a) = if currency_eq c d then a else pos 0
signed c (Movement.withdraws d a) = if currency_eq c d then pos 0 -ℤ a else pos 0
signed c (Movement.updates_rate now rate) = pos 0

unfoldable pub net : Currency → List Movement → LiquidityPool → ℤ
unfolding move signed
net c [] p = pos 0
net c (m ∷ ms) p = (if (move m p).0 then signed c m else pos 0) +ℤ net c ms (move m p).1

-- A balance is 0 or more.
abbrev pub IsCovered : ℤ → Type 0
IsCovered a = neg_part a ≡ 0

move-net :
    (c : Currency) (m : Movement) (p : LiquidityPool)
    → balance c (move m p).1 ≡ balance c p +ℤ (if (move m p).0 then signed c m else pos 0)
unfolding move signed
move-net Currency.inr m p = grind (int_laws)
move-net Currency.usdc m p = grind (int_laws)
move-net Currency.algo m p = grind (int_laws)

+ℤ_assoc : (a b c : ℤ) → (a +ℤ b) +ℤ c ≡ a +ℤ (b +ℤ c)
+ℤ_assoc a b c = grind int_laws

-- After any history of calls, refused ones among them, each balance is the one before it and the
-- accepted deposits of its currency less the accepted withdrawals.
pub run-net :
    (c : Currency) (ms : List Movement) (p : LiquidityPool)
    → balance c (run ms p) ≡ balance c p +ℤ net c ms p
unfolding run net
run-net c [] p = grind int_laws
run-net c (m ∷ ms) p =
    run-net c ms (move m p).1
    ∙ ap (λ b. b +ℤ net c ms (move m p).1) (move-net c m p)
    ∙ +ℤ_assoc (balance c p) _ (net c ms (move m p).1)

move-IsCovered :
    (c : Currency) (m : Movement) (p : LiquidityPool)
    → IsCovered (balance c p)
    → IsCovered (balance c (move m p).1)
unfolding move ◌+ℤ◌ ◌-ℤ◌
move-IsCovered Currency.inr m p h = ground arith
move-IsCovered Currency.usdc m p h = ground arith
move-IsCovered Currency.algo m p h = ground arith

-- A balance that is not negative never becomes so, whatever history of calls follows.
pub run-IsCovered :
    (c : Currency) (ms : List Movement) (p : LiquidityPool)
    → IsCovered (balance c p)
    → IsCovered (balance c (run ms p))
unfolding run
run-IsCovered c [] p h = h
run-IsCovered c (m ∷ ms) p h = run-IsCovered c ms (move m p).1 (move-IsCovered c m p h)
