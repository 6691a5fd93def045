-- ===== src/Negotiation/Strategy.antt =====
-- negotiation/domain/strategy.py. Prices are whole numbers of paise, of which neither a valuation nor an
-- offer has a negative one. The floats of the source are exact fractions: the flexibility of the opponent
-- and the time left are thousandths, and the exponential of the deadline curve is an argument.
pub mod Bounds
pub mod Buyers
use cadencia_platform.Base.{
  ℕ, zero, suc, ◌+◌, ◌-◌, ◌*◌, ◌^◌, Bool, true, false, not, ◌&&◌, ◌||◌, Option, none, some, is_none,
  if◌then◌else◌, ltb, leb, ◌==◌, half_up, half_even, Result, ok, err, validation_error,
}

pub data StrategyType : Type 0 where
  strong_anchor boulware tit_for_tat ultimatum hardball deadline_pressure : StrategyType
  conditional walk_away : StrategyType

pub data StrategyAction : Type 0 where
  offer counter reject : StrategyAction

-- The fraction is in hundredths; the rationale is left out.
pub record StrategyRecommendation : Type 0 where
  pub strategy : StrategyType
  pub concession_fraction : ℕ
  pub suggested_price : ℕ
  pub action : StrategyAction

-- `StrategyRecommendation(...)`.
unfoldable pub recommendation :
    StrategyType → (fraction price : ℕ) → StrategyAction → Result StrategyRecommendation
recommendation t fraction price a =
    if ltb 100 fraction
    then err validation_error
    else ok (record {
      strategy = t;
      concession_fraction = fraction;
      suggested_price = price;
      action = a;
    })

pub record Fraction : Type 0 where
  pub dividend : ℕ
  pub divisor : ℕ

-- `_boulware_curve`, `1 - (1 - t) ** 3` at `t = round / max`, of a round up to the last one.
unfoldable pub boulware_curve : (round max_rounds : ℕ) → Fraction
boulware_curve round zero = record { dividend = 0; divisor = 1 }
boulware_curve round (suc m) = record {
  dividend = suc m ^ 3 - (suc m - round) ^ 3;
  divisor = suc m ^ 3;
}

-- What `select_strategy` is called with.
pub record Outlook : Type 0 where
  pub round_num : ℕ
  pub my_last_price : Option ℕ
  pub opponent_last_price : Option ℕ
  pub reservation_price : ℕ
  pub target_price : ℕ
  pub opponent_flexibility : ℕ
  pub rounds_since_concession : ℕ
  pub time_remaining_pct : ℕ
  pub is_buyer : Bool
  pub deadline_curve : Fraction

-- `max(price, 0.01)`, `min` and `abs` of a difference.
abbrev pub at_least_paisa : ℕ → ℕ
at_least_paisa p = if p == 0 then 1 else p

abbrev pub min : ℕ → ℕ → ℕ
min a b = if ltb b a then b else a

abbrev pub max : ℕ → ℕ → ℕ
max a b = if ltb a b then b else a

abbrev pub gap : ℕ → ℕ → ℕ
gap a b = (a - b) + (b - a)

-- `my_last_price or target_price`.
abbrev pub last_or : Option ℕ → ℕ → ℕ
last_or none t = t
last_or (some p) t = if p == 0 then t else p

-- The side of the reservation price that a suggestion is kept on.
unfoldable pub kept : (is_buyer : Bool) → (price reservation : ℕ) → ℕ
kept true price reservation = at_least_paisa (min price reservation)
kept false price reservation = at_least_paisa (max price reservation)

-- `_strong_anchor`: a buyer 5 per cent below the target, a seller 10 above.
unfoldable pub anchor_price : (is_buyer : Bool) → (target : ℕ) → ℕ
unfolding half_up
anchor_price true target = at_least_paisa (half_up (target * 95) 100)
anchor_price false target = at_least_paisa (half_up (target * 110) 100)

-- The price of `_boulware` and `_deadline_pressure`: from the target by a fraction of the distance between
-- the target and the reservation price, up for a buyer and down for a seller. A price below 0 is
-- replaced as 0 is.
unfoldable pub conceded : (is_buyer : Bool) → (reservation target : ℕ) → (fraction : Fraction) → ℕ
unfolding half_up
conceded true reservation target f =
    at_least_paisa (half_up (target * f.divisor + gap reservation target * f.dividend) f.divisor)
conceded false reservation target f =
    at_least_paisa (half_up (target * f.divisor - gap reservation target * f.dividend) f.divisor)

-- The concession of `_tit_for_tat` with its modifier 0.85, in ten-thousandths.
unfoldable pub mirrored : (my_last : ℕ) → (opponent_last : Option ℕ) → ℕ
unfolding half_up
mirrored my none = 200
mirrored my (some opponent) =
    let concession = if my == 0 then 200 else half_up (gap opponent my * 8500) my in
    max (min concession 1500) 50

abbrev moved : Bool → (my change unit : ℕ) → ℕ
moved true my change unit = my * (unit + change)
moved false my change unit = my * (unit - change)

unfoldable pub mirrored_price : Bool → (my : ℕ) → (opponent : Option ℕ) → (reservation : ℕ) → ℕ
unfolding kept half_up mirrored
mirrored_price is_buyer my opponent reservation =
    kept is_buyer (half_up (moved is_buyer my (mirrored my opponent) 10_000) 10_000) reservation

abbrev midpoint : ℕ → Option ℕ → ℕ
midpoint my none = my
midpoint my (some opponent) = half_up (my + opponent) 2

-- `_ultimatum` and `_hardball`.
unfoldable pub ultimatum_price : Bool → (my : ℕ) → (opponent : Option ℕ) → (reservation : ℕ) → ℕ
unfolding kept half_up
ultimatum_price is_buyer my opponent reservation = kept is_buyer (midpoint my opponent) reservation

unfoldable pub hardball_price : Bool → (my reservation : ℕ) → ℕ
unfolding kept half_up
hardball_price is_buyer my reservation =
    kept is_buyer (half_up (moved is_buyer my 1 100) 100) reservation

-- `opponent_last_price < reservation_price` of a seller.
abbrev pub is_insulted : Outlook → Bool
is_insulted o = elim o.opponent_last_price [
  | none ↦ false
  | some p ↦ not o.is_buyer && ltb p o.reservation_price
]

abbrev pub is_opening : Outlook → Bool
is_opening o = o.round_num == 0 || (o.round_num == 1 && is_none o.my_last_price)

unfoldable pub select_strategy : (max_rounds : ℕ) → Outlook → Result StrategyRecommendation
unfolding recommendation
select_strategy max_rounds o =
    let my = last_or o.my_last_price o.target_price in
    if is_opening o
    then recommendation StrategyType.strong_anchor 0 (anchor_price o.is_buyer o.target_price)
        StrategyAction.offer
    else if is_insulted o
    then recommendation StrategyType.walk_away 0 o.reservation_price StrategyAction.reject
    else if leb max_rounds (o.round_num + 2)
    then recommendation StrategyType.ultimatum 0
        (ultimatum_price o.is_buyer my o.opponent_last_price o.reservation_price)
        StrategyAction.counter
    else if ltb o.opponent_flexibility 150 && leb 2 o.rounds_since_concession
    then recommendation StrategyType.hardball 1 (hardball_price o.is_buyer my o.reservation_price)
        StrategyAction.counter
    else if ltb o.time_remaining_pct 250
    then recommendation StrategyType.deadline_pressure
        (half_even (o.deadline_curve.dividend * 100) o.deadline_curve.divisor)
        (conceded o.is_buyer o.reservation_price o.target_price o.deadline_curve)
        StrategyAction.counter
    else if ltb 700 o.opponent_flexibility
    then recommendation StrategyType.tit_for_tat (half_even (mirrored my o.opponent_last_price) 100)
        (mirrored_price o.is_buyer my o.opponent_last_price o.reservation_price)
        StrategyAction.counter
    else let f = boulware_curve o.round_num max_rounds in
      recommendation StrategyType.boulware (half_even (f.dividend * 100) f.divisor)
        (conceded o.is_buyer o.reservation_price o.target_price f) StrategyAction.counter

pub data OpponentType : Type 0 where
  cooperative strategic stubborn bluffing : OpponentType

abbrev pub modifier_of : OpponentType → ℕ
modifier_of OpponentType.cooperative = 85
modifier_of OpponentType.strategic = 100
modifier_of OpponentType.stubborn = 120
modifier_of OpponentType.bluffing = 70

-- `adaptive_concession`, of a base in hundredths; the result is in ten-thousandths, in which the product is
-- exact.
unfoldable pub adaptive_concession : (base : ℕ) → OpponentType → ℕ
adaptive_concession base t = min (base * modifier_of t) 3000
