-- ===== src/Treasury/Rates.antt =====
-- `FrankfurterFXAdapter.get_rate` of treasury/infrastructure/frankfurter_fx_adapter.py and `FXRate` of
-- treasury/domain/value_objects.py. Rates are whole numbers of 1/10^8. What Redis and the service do in
-- the course of a call is an argument: Redis drops a key once its time to live has passed, and its
-- commands may raise.
pub mod Hours
use cadencia_platform.Base.{
  ℕ, ◌+◌, ◌-◌, Bool, true, false, ◌&&◌, Option, none, some, List, [], ◌∷◌, map, ltb, leb,
  if◌then◌else◌, ℤ, pos, leb_ℤ, Result, ok, err, internal_error, validation_error, Action, Text,
  text_eq,
}

pub data Source : Type 0 where
  frankfurter cache mock : Source

pub record FxRate : Type 0 where
  pub base : Text
  pub target : Text
  pub rate : ℤ
  pub fetched_at : ℕ
  pub source : Source

-- `FXRate(...)`.
unfoldable pub fx_rate :
    (base target : Text) → (rate : ℤ) → (fetched_at : ℕ) → Source → Result FxRate
fx_rate base target rate fetched_at source =
    if leb_ℤ rate (pos 0)
    then err validation_error
    else ok (record {
      base = base;
      target = target;
      rate = rate;
      fetched_at = fetched_at;
      source = source;
    })

-- A key `fx:<base>:<target>` with its value.
pub record Entry : Type 0 where
  pub base : Text
  pub target : Text
  pub rate : ℤ
  pub fetched_at : ℕ
  pub expires_at : ℕ

abbrev pub cache_ttl : ℕ
cache_ttl = 3600

abbrev pub to_upper : ℕ → ℕ
to_upper c = if leb 97 c && leb c 122 then c - 32 else c

unfoldable pub find : (now : ℕ) → (base target : Text) → List Entry → Option Entry
unfolding text_eq
find now base target [] = none
find now base target (e ∷ es) =
    let rest = find now base target es in
    if text_eq e.base base && text_eq e.target target && ltb now e.expires_at then some e else rest

-- What a call meets: whether the two reads and the write of Redis work, and the service's answer, which
-- is an HTTP error, a body without the rate, or a rate.
pub data Answer : Type 0 where
  http_error malformed : Answer
  rates : ℤ → Answer

pub record Weather : Type 0 where
  pub reads : Bool
  pub writes : Bool
  pub reads_again : Bool
  pub answer : Answer

-- The read of the cache inside `try`: an exception is none at all.
unfoldable pub cached :
    (works : Bool) → (now : ℕ) → (base target : Text) → List Entry → Option FxRate
unfolding find fx_rate
cached false now base target es = none
cached true now base target es = elim (find now base target es) [
  | none ↦ none
  | some e ↦ elim (fx_rate e.base e.target e.rate e.fetched_at Source.cache) [
    | ok r ↦ some r
    | err x ↦ none
  ]
]

unfoldable pub stub : (now : ℕ) → (base target : Text) → FxRate
stub now base target = record {
  base = base;
  target = target;
  rate = pos 1_200_000;
  fetched_at = now;
  source = Source.mock;
}

-- `setex`, which the read finds before any older entry.
unfoldable pub store : (now : ℕ) → FxRate → List Entry → List Entry
store now r es =
    record {
      base = r.base;
      target = r.target;
      rate = r.rate;
      fetched_at = now;
      expires_at = now + cache_ttl;
    }
    ∷ es

-- From the call of the service on.
unfoldable pub fetch : (now : ℕ) → (base target : Text) → Weather → Action (List Entry) FxRate
unfolding fx_rate stub store
fetch now base target w es = elim w.answer [
  | malformed ↦ (err internal_error, es)
  | rates rate ↦ elim (fx_rate base target rate now Source.frankfurter) [
    | err x ↦ (err x, es)
    | ok r ↦ (ok r, if w.writes then store now r es else es)
  ]
  | http_error ↦ elim (cached w.reads_again now base target es) [
    | some r ↦ (ok r, es)
    | none ↦ (ok (stub now base target), es)
  ]
]

unfoldable pub get_rate : (now : ℕ) → (base target : Text) → Weather → Action (List Entry) FxRate
unfolding fetch
get_rate now base target w es =
    let b = map to_upper base in
    let t = map to_upper target in
    elim (cached w.reads now b t es) [ some r ↦ (ok r, es) | none ↦ fetch now b t w es ]
