-- ===== src/Treasury/OnRamp.antt =====
-- `MockOnRampAdapter` of settlement/infrastructure/onramp_adapter.py, over the rates of the treasury. Amounts of
-- INR are whole numbers of paise, amounts of USDC of 1/10^6, none of them below 0; a rate is a fraction, and a
-- reference and the time of a conversion are left out.
pub mod Fees
use cadencia_platform.Base.{
  ℕ, ◌+◌, ◌*◌, Bool, true, false, ◌&&◌, ◌||◌, Option, none, some, List, map, if◌then◌else◌, ℤ,
  pos_part, Result, ok, err, half_even, Text, codes, text_eq,
}
use cadencia_platform.Treasury.Rates.{Entry, Weather, get_rate, to_upper}

pub record Rate : Type 0 where
  pub dividend : ℕ
  pub divisor : ℕ

-- What a conversion answers: the amount paid out and the fee, in the smallest unit of the target.
pub record ConversionResult : Type 0 where
  pub target_amount : ℕ
  pub rate_used : Rate
  pub fee : ℕ

is_inr : Text → Bool
unfolding text_eq
is_inr t = text_eq (map to_upper t) (codes "INR")

is_dollar : Text → Bool
unfolding text_eq
is_dollar t = text_eq (map to_upper t) (codes "USD") || text_eq (map to_upper t) (codes "USDC")

-- The rates where no provider answers: `Decimal("0.012")`, its inverse, and 1.
unfoldable pub fallback_rate : (from_ccy to_ccy : Text) → Rate
unfolding is_inr is_dollar
fallback_rate from_ccy to_ccy =
    if is_inr from_ccy && is_dollar to_ccy
    then record { dividend = 12; divisor = 1000 }
    else if is_dollar from_ccy && is_inr to_ccy
    then record { dividend = 1000; divisor = 12 }
    else record { dividend = 1; divisor = 1 }

-- `get_exchange_rate`: with a provider its rate, and the fallback where it raises or there is none.
unfoldable pub get_exchange_rate :
    (now : ℕ)
    → (provider : Option Weather) → (from_ccy to_ccy : Text) → List Entry
    → Rate × List Entry
unfolding fallback_rate
get_exchange_rate now none from_ccy to_ccy es = (fallback_rate from_ccy to_ccy, es)
get_exchange_rate now (some w) from_ccy to_ccy es =
    let (r, es') = get_rate now from_ccy to_ccy w es in
    elim r [
      | ok q ↦ (record { dividend = pos_part q.rate; divisor = 100_000_000 }, es')
      | err x ↦ (fallback_rate from_ccy to_ccy, es')
    ]

-- The amount less the fee of 1.5 per cent, each rounded for itself: `units` of the target are to be had for
-- `per` of the source at a rate of 1.
unfoldable pub converted : (amount units per : ℕ) → Rate → ConversionResult
unfolding half_even
converted amount units per rate = record {
  target_amount = half_even (amount * rate.dividend * units * 985) (per * rate.divisor * 1000);
  rate_used = rate;
  fee = half_even (amount * rate.dividend * units * 15) (per * rate.divisor * 1000);
}

unfoldable pub convert_inr_to_usdc :
    (now : ℕ) → Option Weather → (amount_inr : ℕ) → List Entry → ConversionResult × List Entry
unfolding get_exchange_rate converted
convert_inr_to_usdc now provider amount es =
    let (rate, es') = get_exchange_rate now provider (codes "INR") (codes "USD") es in
    (converted amount 1_000_000 100 rate, es')

unfoldable pub convert_usdc_to_inr :
    (now : ℕ) → Option Weather → (amount_usdc : ℕ) → List Entry → ConversionResult × List Entry
unfolding get_exchange_rate converted
convert_usdc_to_inr now provider amount es =
    let (rate, es') = get_exchange_rate now provider (codes "USD") (codes "INR") es in
    (converted amount 100 1_000_000 rate, es')
