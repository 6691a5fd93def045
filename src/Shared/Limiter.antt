-- ===== src/Shared/Limiter.antt =====
-- `check_rate_limit` of shared/infrastructure/rate_limiter.py. The clock counts seconds and is read at each
-- request. A counter is kept for each enterprise and window; the expiry of a counter, later than the end
-- of its window, is left out, and the window is longer than 0.
use cadencia_platform.Base.{
  ℕ, ◌+◌, ◌-◌, ◌/◌, ◌≡◌, Bool, false, ◌&&◌, List, [], ◌∷◌, if◌then◌else◌, ltb, leb, ◌==◌, ok, err,
  is_ok, Action, rate_limit, arith,
}

-- The key `rate:{enterprise_id}:{bucket}` and its counter.
pub record Counter : Type 0 where
  pub enterprise_id : ℕ
  pub bucket : ℕ
  pub count : ℕ

abbrev is_key : ℕ → ℕ → Counter → Bool
is_key e b c = c.enterprise_id == e && c.bucket == b

-- `INCR` of a key; a key without a value counts from 0.
unfoldable pub incr : ℕ → ℕ → List Counter → List Counter
incr e b [] = record { enterprise_id = e; bucket = b; count = 1 } ∷ []
incr e b (c ∷ cs) = if is_key e b c then record c { count = c.count + 1 } ∷ cs else c ∷ incr e b cs

unfoldable pub count_of : ℕ → ℕ → List Counter → ℕ
count_of e b [] = 0
count_of e b (c ∷ cs) = if is_key e b c then c.count else count_of e b cs

unfoldable pub check_rate_limit :
    (limit window enterprise now : ℕ) → Action (List Counter) (Unit {0})
unfolding incr count_of
check_rate_limit limit window e now cs =
    let b = now / window in
    let cs' = incr e b cs in (if ltb limit (count_of e b cs') then err rate_limit else ok tt, cs')

pub record Request : Type 0 where
  pub enterprise_id : ℕ
  pub now : ℕ

-- A history of requests; how many of those of an enterprise in a window were let through.
unfoldable pub accepted : (limit window enterprise bucket : ℕ) → List Request → List Counter → ℕ
unfolding check_rate_limit
accepted limit window e b [] cs = 0
accepted limit window e b (r ∷ rs) cs =
    let (outcome, cs') = check_rate_limit limit window r.enterprise_id r.now cs in
    let rest = accepted limit window e b rs cs' in
    if r.enterprise_id == e && r.now / window == b && is_ok outcome then rest + 1 else rest

-- How many requests of an enterprise fall into a window.
unfoldable pub requested : (window enterprise bucket : ℕ) → List Request → ℕ
requested window e b [] = 0
requested window e b (r ∷ rs) =
    let rest = requested window e b rs in
    if r.enterprise_id == e && r.now / window == b then rest + 1 else rest

-- The counter of the key moves by one, and no other does.
incr-same : (e b : ℕ) (cs : List Counter) → count_of e b (incr e b cs) ≡ count_of e b cs + 1
unfolding incr count_of
incr-same e b [] = ground arith
incr-same e b (c ∷ cs) = ground (arith, incr-same e b cs)

incr-other :
    (e b e' b' : ℕ) (cs : List Counter)
    → (e == e' && b == b') ≡ false
    → count_of e' b' (incr e b cs) ≡ count_of e' b' cs
unfolding incr count_of
incr-other e b e' b' [] h = ground arith
incr-other e b e' b' (c ∷ cs) h = ground (arith, incr-other e b e' b' cs h)

-- Whatever comes in whatever order, the limiter lets through exactly as many requests of an enterprise in a
-- window as it has room for: all of them, or what the limit leaves after the counter so far.
pub accepted_exact :
    (limit window e b : ℕ) (rs : List Request) (cs : List Counter)
    → accepted limit window e b rs cs ≡ (
        let room = limit - count_of e b cs in
        let wanted = requested window e b rs in if leb wanted room then wanted else room)
unfolding accepted requested check_rate_limit
accepted_exact limit window e b [] cs = ground arith
accepted_exact limit window e b (r ∷ rs) cs =
    let cs' = incr r.enterprise_id (r.now / window) cs in
    let rest = accepted_exact limit window e b rs cs' in
    let same = incr-same e b cs in
    let other = incr-other r.enterprise_id (r.now / window) e b cs in grind arith
