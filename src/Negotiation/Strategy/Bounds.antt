-- ===== src/Negotiation/Strategy/Bounds.antt =====
-- On which side of the reservation price the suggestions of negotiation/domain/strategy.py lie.
use cadencia_platform.Base.{
  ltb, leb, not, ◌&&◌, ℕ, zero, suc, ◌+◌, ◌-◌, ◌*◌, ◌/◌, ◌%◌, ◌≤◌, ◌<◌, ◌≡◌, ◌↔◌, ap, Bool, true,
  false, Option, none, some, half_up, half_even, arith, Result, ok, if◌then◌else◌,
}
use cadencia_platform.Negotiation.Strategy.{
  Fraction, kept, anchor_price, conceded, mirrored, mirrored_price, ultimatum_price, hardball_price,
  gap, boulware_curve, select_strategy, recommendation, StrategyRecommendation, StrategyType,
  StrategyAction, Outlook, is_opening, is_insulted, last_or,
}
use native.Mathlib.Nat.{div-lt_iff_lt-mul, div-add-mod, mul-le-mul_left, one-le-pow}
use native.Mathlib.Decide.{dec_lt}

pub half_up-le : (n d m : ℕ) → 0 < d → n ≤ m * d → half_up n d ≤ m
unfolding half_up
half_up-le n d m h k =
    let q : n / d < suc m = (div-lt_iff_lt-mul h).1 (grind arith) in
    elim (dec_lt (n / d) m) [
      | yes p ↦ ground arith
      | no p ↦
          let e : n / d ≡ m = omega arith in
          let r : n % d ≡ 0 = grind (arith, div-add-mod n d, ap (λ (t : ℕ). d * t) e) in
          ground arith
    ]

pub le-half_up : (n d m : ℕ) → 0 < d → m * d ≤ n → m ≤ half_up n d
unfolding half_up
le-half_up n d m h k = grind arith

-- A fraction of at most 1.
abbrev pub IsPart : Fraction → Type 0
IsPart f = (0 < f.divisor) × (f.dividend ≤ f.divisor)

-- A buyer is not to pay more than the reservation price, nor a seller to take less.
abbrev pub Respects : (is_buyer : Bool) → (reservation price : ℕ) → Type 0
Respects true reservation price = price ≤ reservation
Respects false reservation price = reservation ≤ price

pub boulware_curve-IsPart : (round m : ℕ) → IsPart (boulware_curve round m)
unfolding boulware_curve
boulware_curve-IsPart round zero = omega arith
boulware_curve-IsPart round (suc m) = (omega (arith, one-le-pow 3 (suc m)), omega arith)

kept-Respects :
    (is_buyer : Bool) (price reservation : ℕ)
    → 0 < reservation
    → Respects is_buyer reservation (kept is_buyer price reservation)
unfolding kept
kept-Respects true price reservation h = ground arith
kept-Respects false price reservation h = ground arith

anchor_price-Respects :
    (is_buyer : Bool) (target : ℕ)
    → 0 < target
    → Respects is_buyer target (anchor_price is_buyer target)
unfolding anchor_price half_up
anchor_price-Respects true target h = ground arith
anchor_price-Respects false target h = ground arith

-- The order of the two prices that a side is to have.
abbrev pub IsOrdered : (is_buyer : Bool) → (reservation target : ℕ) → Type 0
IsOrdered true reservation target = target ≤ reservation
IsOrdered false reservation target = reservation ≤ target

rises : (r t d n : ℕ) → t ≤ r → n ≤ d → t * d + gap r t * n ≤ r * d
rises r t d n o h =
    let most = mul-le-mul_left (r - t) h in
    let split : r ≡ t + (r - t) = omega arith in
    let all = ap (λ (x : ℕ). x * d) split in
    let apart : gap r t * n ≡ (r - t) * n = ap (λ (x : ℕ). x * n) (omega arith) in omega arith

falls : (r t d n : ℕ) → r ≤ t → n ≤ d → r * d ≤ t * d - gap r t * n
falls r t d n o h =
    let most = mul-le-mul_left (t - r) h in
    let split : t ≡ r + (t - r) = omega arith in
    let all = ap (λ (x : ℕ). x * d) split in
    let apart : gap r t * n ≡ (t - r) * n = ap (λ (x : ℕ). x * n) (omega arith) in omega arith

conceded-Respects :
    (is_buyer : Bool) (reservation target : ℕ) (f : Fraction)
    → IsPart f
    → 0 < reservation
    → 0 < target
    → IsOrdered is_buyer reservation target
    → Respects is_buyer reservation (conceded is_buyer reservation target f)
unfolding conceded
conceded-Respects true reservation target f part h k o = ground (
  arith,
  half_up-le (target * f.divisor + gap reservation target * f.dividend) f.divisor reservation part.0
      (rises reservation target f.divisor f.dividend o part.1),
)
conceded-Respects false reservation target f part h k o = ground (
  arith,
  le-half_up (target * f.divisor - gap reservation target * f.dividend) f.divisor reservation part.0
      (falls reservation target f.divisor f.dividend o part.1),
)

half_even-le : (n d m : ℕ) → 0 < d → n ≤ m * d → half_even n d ≤ m
unfolding half_even
half_even-le n d m h k =
    let q : n / d < suc m = (div-lt_iff_lt-mul h).1 (grind arith) in
    elim (dec_lt (n / d) m) [
      | yes p ↦ ground arith
      | no p ↦
          let e : n / d ≡ m = omega arith in
          let r : n % d ≡ 0 = grind (arith, div-add-mod n d, ap (λ (t : ℕ). d * t) e) in
          ground arith
    ]

percent-le : (f : Fraction) → IsPart f → half_even (f.dividend * 100) f.divisor ≤ 100
percent-le f part = half_even-le (f.dividend * 100) f.divisor 100 part.0 (omega (arith, part.1))

mirrored_capped : (my : ℕ) (opponent : Option ℕ) → mirrored my opponent ≤ 100 * 100
unfolding mirrored
mirrored_capped my none = omega arith
mirrored_capped my (some p) = ground arith

mirrored-le : (my : ℕ) (opponent : Option ℕ) → half_even (mirrored my opponent) 100 ≤ 100
mirrored-le my opponent =
    half_even-le (mirrored my opponent) 100 100 (omega arith) (mirrored_capped my opponent)

-- A recommendation was returned, and its price respects the reservation price.
unfoldable pub IsSound : Bool → ℕ → Result StrategyRecommendation → Type 0
IsSound is_buyer reservation x =
    (r : StrategyRecommendation) × (x ≡ ok r) × Respects is_buyer reservation r.suggested_price

if-IsSound :
    (is_buyer : Bool) (reservation : ℕ) (c : Bool) (x y : Result StrategyRecommendation)
    → IsSound is_buyer reservation x
    → IsSound is_buyer reservation y
    → IsSound is_buyer reservation (if c then x else y)
if-IsSound is_buyer reservation true x y h k = h
if-IsSound is_buyer reservation false x y h k = k

recommendation-IsSound :
    (is_buyer : Bool) (reservation : ℕ) (t : StrategyType) (fraction price : ℕ) (a : StrategyAction)
    → fraction ≤ 100
    → Respects is_buyer reservation price
    → IsSound is_buyer reservation (recommendation t fraction price a)
unfolding recommendation IsSound
recommendation-IsSound is_buyer reservation t fraction price a h k = (
  record { strategy = t; concession_fraction = fraction; suggested_price = price; action = a },
  ground arith,
  k,
)

Respects-refl : (is_buyer : Bool) (p : ℕ) → Respects is_buyer p p
Respects-refl true p = omega arith
Respects-refl false p = omega arith

Respects-trans :
    (is_buyer : Bool) (reservation target p : ℕ)
    → IsOrdered is_buyer reservation target
    → Respects is_buyer target p
    → Respects is_buyer reservation p
Respects-trans true reservation target p o h = omega arith
Respects-trans false reservation target p o h = omega arith

-- When both prices are positive, the target lies on the right side of the reservation price and the
-- deadline curve is a fraction between 0 and 1, a recommendation is always returned, and no strategy
-- suggests that a buyer pay more than the reservation price or that a seller take less.
pub select_strategy-IsSound :
    (max_rounds : ℕ) (o : Outlook)
    → 0 < o.reservation_price
    → 0 < o.target_price
    → IsPart o.deadline_curve
    → IsOrdered o.is_buyer o.reservation_price o.target_price
    → IsSound o.is_buyer o.reservation_price (select_strategy max_rounds o)
unfolding select_strategy mirrored_price ultimatum_price hardball_price
select_strategy-IsSound max_rounds o h k part order =
    let b = o.is_buyer in
    let r = o.reservation_price in
    let t = o.target_price in
    let my = last_or o.my_last_price t in
    let curve = boulware_curve o.round_num max_rounds in
    let curve_part = boulware_curve-IsPart o.round_num max_rounds in
    let give = recommendation-IsSound b r in
    let held = λ (p : ℕ). kept-Respects b p r h in
    let yields = λ (f : Fraction) (p : IsPart f). conceded-Respects b r t f p h k order in
    let anchor = Respects-trans b r t _ order (anchor_price-Respects b t k) in
    let last_rounds = leb max_rounds (o.round_num + 2) in
    let stubborn = ltb o.opponent_flexibility 150 && leb 2 o.rounds_since_concession in
    if-IsSound b r (is_opening o) _ _
      (give StrategyType.strong_anchor 0 _ StrategyAction.offer (omega arith) anchor)
      (if-IsSound b r (is_insulted o) _ _
        (give StrategyType.walk_away 0 r StrategyAction.reject (omega arith) (Respects-refl b r))
        (if-IsSound b r last_rounds _ _
          (give StrategyType.ultimatum 0 _ StrategyAction.counter (omega arith) (held _))
          (if-IsSound b r stubborn _ _
            (give StrategyType.hardball 1 _ StrategyAction.counter (omega arith) (held _))
            (if-IsSound b r (ltb o.time_remaining_pct 250) _ _
              (give StrategyType.deadline_pressure _ _ StrategyAction.counter
                (percent-le o.deadline_curve part) (yields o.deadline_curve part))
              (if-IsSound b r (ltb 700 o.opponent_flexibility) _ _
                (give StrategyType.tit_for_tat _ _ StrategyAction.counter
                  (mirrored-le my o.opponent_last_price) (held _))
                (give StrategyType.boulware _ _ StrategyAction.counter (percent-le curve curve_part)
                  (yields curve curve_part)))))))

-- Only a seller ever rejects: past the opening, exactly when the last price of the buyer is below the
-- seller's reservation price.
pub select_strategy_rejects :
    (max_rounds : ℕ) (o : Outlook) {r : StrategyRecommendation}
    → select_strategy max_rounds o ≡ ok r
    → (r.action ≡ StrategyAction.reject) ↔ ((not (is_opening o) && is_insulted o) ≡ true)
unfolding select_strategy recommendation
select_strategy_rejects max_rounds o h = ground arith
