-- ===== src/Treasury/OnRamp/Fees.antt =====
-- What a conversion of settlement/infrastructure/onramp_adapter.py pays out and keeps, and at what rate.
use native.Mathlib.Nat.{div-add-mod, mod-lt}
use native.Mathlib.Decide.{dec_lt}
use cadencia_platform.Base.{
  ℕ, ◌+◌, ◌*◌, ◌/◌, ◌%◌, ◌≤◌, ◌<◌, ◌≡◌, refl, true, none, some, List, map, half_even, codes, ap,
  arith, ◌⊎◌, inl, inr,
}
use cadencia_platform.Treasury.Rates.{Entry, Weather, http_error, to_upper, cached, stub}
use cadencia_platform.Treasury.Rates.Hours.{get_rate_stubbed}
use cadencia_platform.Treasury.OnRamp.{
  Rate, converted, fallback_rate, get_exchange_rate, convert_usdc_to_inr,
}

-- The quotient, or the next number after a remainder of at least half.
half_even_cases :
    (n d : ℕ)
    → ((half_even n d ≡ n / d) × (2 * (n % d) ≤ d))
      ⊎ ((half_even n d ≡ n / d + 1) × (d ≤ 2 * (n % d)))
unfolding half_even
half_even_cases n d = elim (dec_lt (2 * (n % d)) d) [
  | yes p ↦ inl (ground arith)
  | no p ↦ elim (dec_lt d (2 * (n % d))) [
    | yes q ↦ inr (ground arith)
    | no q ↦ elim (dec_lt (n / d % 2) 1) [ yes e ↦ inl (ground arith) | no o ↦ inr (ground arith) ]
  ]
]

half_even_near :
    (n d : ℕ)
    → 0 < d
    → (2 * (half_even n d * d) ≤ 2 * n + d) × (2 * n ≤ 2 * (half_even n d * d) + d)
half_even_near n d h =
    let whole = div-add-mod n d in
    let below = mod-lt n h in
    elim (half_even_cases n d) [
      | inl (e, r) ↦ let times = ap (λ (x : ℕ). x * d) e in (omega arith, omega arith)
      | inr (e, r) ↦ let times = ap (λ (x : ℕ). x * d) e in (omega arith, omega arith)
    ]

-- The amount paid out and the fee of a conversion add up to the worth of what was paid in, to within one
-- smallest unit: 1.5 per cent of it is the fee, and nothing is gained by the two roundings but that unit.
pub converted_adds_up :
    (amount units per : ℕ) (rate : Rate)
    → 0 < per * rate.divisor * 1000
    → let c = converted amount units per rate in
      let d = per * rate.divisor * 1000 in
      let worth = amount * rate.dividend * units * 1000 in
      ((c.target_amount + c.fee) * d ≤ worth + d) × (worth ≤ (c.target_amount + c.fee) * d + d)
unfolding converted
converted_adds_up amount units per rate h =
    let d = per * rate.divisor * 1000 in
    let gross = amount * rate.dividend * units in
    let paid = half_even_near (gross * 985) d h in
    let kept = half_even_near (gross * 15) d h in
    (omega (arith, paid.0, paid.1, kept.0, kept.1), omega (arith, paid.0, paid.1, kept.0, kept.1))

-- While the rate service fails and no rate is cached, USDC are exchanged for INR at the rate at which INR
-- are exchanged for USDC, 0.012, although the adapter's own rate in that direction is its inverse.
pub convert_usdc_to_inr_stubbed :
    (now amount : ℕ) (w : Weather) (es : List Entry)
    → w.answer ≡ http_error
    → cached true now (map to_upper (codes "USD")) (map to_upper (codes "INR")) es ≡ none
    → let c = (convert_usdc_to_inr now (some w) amount es).0 in
      (c.rate_used ≡ record { dividend = 1_200_000; divisor = 100_000_000 })
      × (c.target_amount ≡ half_even (amount * 1_200_000 * 100 * 985) 100_000_000_000_000_000)
      × ((convert_usdc_to_inr now none amount es).0.rate_used
          ≡ record { dividend = 1000; divisor = 12 })
unfolding convert_usdc_to_inr get_exchange_rate converted fallback_rate stub
convert_usdc_to_inr_stubbed now amount w es failed missing =
    let rate = get_rate_stubbed now (codes "USD") (codes "INR") w es failed missing in
    (ground arith, ground arith, refl)
