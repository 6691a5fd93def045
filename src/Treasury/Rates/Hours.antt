-- ===== src/Treasury/Rates/Hours.antt =====
-- How long a rate of treasury/infrastructure/frankfurter_fx_adapter.py lasts, and what follows a failure.
use cadencia_platform.Base.{
  ℕ, ◌+◌, ◌<◌, ◌≡◌, refl, Bool, true, false, none, List, map, pos, ◌<ℤ◌, ok, arith, Text,
  text_eq_self,
}
use cadencia_platform.Treasury.Rates.{
  FxRate, Source, Weather, http_error, Entry, to_upper, cached, stub, fetch, get_rate, cache_ttl,
}

-- A rate that was fetched and cached is given for an hour, to whoever asks for the pair in whatever case, with
-- the time of its fetch, and nothing is fetched or written.
pub get_rate_cached :
    (now later : ℕ) (base target base' target' : Text) (w w' : Weather) (es es' : List Entry)
    {r : FxRate}
    → get_rate now base target w es ≡ (ok r, es')
    → r.source ≡ Source.frankfurter
    → w.writes ≡ true
    → w'.reads ≡ true
    → map to_upper base' ≡ map to_upper base
    → map to_upper target' ≡ map to_upper target
    → later < now + cache_ttl
    → get_rate later base' target' w' es' ≡ (ok (record r { source = Source.cache }), es')
unfolding get_rate cached
get_rate_cached now later base target base' target' w w' es es' h s writes reads b t soon =
    ground (arith, text_eq_self (map to_upper base), text_eq_self (map to_upper target))

cached_missing :
    (works : Bool) (now : ℕ) (base target : Text) (es : List Entry)
    → cached true now base target es ≡ none
    → cached works now base target es ≡ none
unfolding cached
cached_missing true now base target es h = h
cached_missing false now base target es h = refl

-- The last rate is never fallen back to: when Redis has no unexpired rate, a failing service means the stub 0.012, whatever the pair.
pub get_rate_stubbed :
    (now : ℕ) (base target : Text) (w : Weather) (es : List Entry)
    → w.answer ≡ http_error
    → cached true now (map to_upper base) (map to_upper target) es ≡ none
    → get_rate now base target w es ≡ (ok (stub now (map to_upper base) (map to_upper target)), es)
unfolding get_rate fetch
get_rate_stubbed now base target w es failed missing =
    let again =
      cached_missing w.reads_again now (map to_upper base) (map to_upper target) es missing in
    let first : cached w.reads now (map to_upper base) (map to_upper target) es ≡ none =
      cached_missing w.reads now (map to_upper base) (map to_upper target) es missing in
    ground arith

-- Whatever is cached and answered, a rate that is returned is above 0.
pub get_rate_positive :
    (now : ℕ) (base target : Text) (w : Weather) (es : List Entry) {r : FxRate}
    → (get_rate now base target w es).0 ≡ ok r
    → pos 0 <ℤ r.rate
unfolding get_rate cached
get_rate_positive now base target w es h = ground arith
