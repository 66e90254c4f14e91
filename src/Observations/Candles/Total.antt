-- ===== src/Observations/Candles/Total.antt =====
-- observations/store.py, `aggregate_candles`: the loop ends.
use memeval.Prelude.{
  ℕ, zero, suc, ◌≡◌, inl, inr, true, false, Bool-cases, Option, List, [], ◌++◌, ok, arith,
}
use memeval.Prelude.Int.{ℤ, pos, ◌+ℤ◌, ◌<ℤ◌, leb_ℤ, int_laws}
use memeval.Prelude.Dict.{Dict}
use memeval.Domain.Status.{CoverageState}
use memeval.Observations.Store.{
  coverage_state, visible, visible_between, TradeObs, PoolObservations,
}
use memeval.Observations.Candles.{
  Fraction, Candle, Gap, Query, bar, bars, group, seed_close, bucket_of, rounds, aggregate_candles,
}

module _ (q : Query) (coverage : ℤ → ℤ → CoverageState) (by_bucket : Dict ℤ (List TradeObs)) where
  bars_past :
      (fuel : ℕ) (b : ℤ) (prev_close : Option Fraction)
      → leb_ℤ b q.end_ms ≡ false
      → bars q coverage by_bucket fuel b prev_close ≡ ok ([], [])
  unfolding bars
  bars_past zero b prev_close past = ground arith
  bars_past (suc fuel) b prev_close past = ground arith

  bars_round :
      (fuel : ℕ) (b : ℤ) (prev_close : Option Fraction) {cs : List Candle} {gs : List Gap}
      → leb_ℤ b q.end_ms ≡ true
      → bars q coverage by_bucket fuel
          (b +ℤ q.interval_ms)
          (bar q coverage by_bucket b prev_close).prev_close
        ≡ ok (cs, gs)
      → bars q coverage by_bucket (suc fuel) b prev_close
        ≡ ok (
          (bar q coverage by_bucket b prev_close).candles ++ cs,
          (bar q coverage by_bucket b prev_close).gaps ++ gs,
        )
  unfolding bars
  bars_round fuel b prev_close within ran = ground arith

  bars-enough :
      (fuel : ℕ) (b : ℤ) (prev_close : Option Fraction)
      → pos 0 <ℤ q.interval_ms
      → q.end_ms <ℤ b +ℤ pos fuel
      → (r : List Candle × List Gap) × (bars q coverage by_bucket fuel b prev_close ≡ ok r)
  bars-enough zero b prev_close h more =
      let low : q.end_ms <ℤ b = omega int_laws in
      (([], []), bars_past zero b prev_close (ground arith))
  bars-enough (suc fuel) b prev_close h more = elim (Bool-cases (leb_ℤ b q.end_ms)) [
    | inr past ↦ (([], []), bars_past (suc fuel) b prev_close past)
    | inl within ↦
        let (r, ran) =
          bars-enough fuel (b +ℤ q.interval_ms) (bar q coverage by_bucket b prev_close).prev_close h
            (omega int_laws) in
        (_, bars_round fuel b prev_close within ran)
  ]

-- For a positive interval a query always gives its bars and gaps: the rounds that the loop is given are
-- enough.
pub aggregate_candles_total :
    (o : PoolObservations) (q : Query)
    → pos 0 <ℤ q.interval_ms
    → (r : List Candle × List Gap) × (aggregate_candles o q ≡ ok r)
unfolding aggregate_candles
aggregate_candles_total o q h =
    let valid : leb_ℤ q.interval_ms (pos 0) ≡ false = ground arith in
    let first = bucket_of q q.start_ms in
    let enough : q.end_ms <ℤ first +ℤ pos (rounds q) = omega int_laws in
    rw valid (
      bars-enough q (coverage_state o) (group q (visible_between o first q.end_ms q.as_of) [])
        (rounds q) first (seed_close q.base_asset first (visible o q.as_of)) h enough)
