-- ===== src/Observations/Candles/Causal.antt =====
-- observations/store.py, `aggregate_candles`: bars do not look ahead.
use memeval.Prelude.{◌≡◌, refl, ap, inl, inr, Bool-cases}
use memeval.Prelude.Int.{ℤ, ◌<ℤ◌}
use memeval.Domain.Status.{CoverageState}
use memeval.Observations.Store.{
  TradeObs, PoolObservations, is_late, append, visible_between, coverage_of, coverage_state,
}
use memeval.Observations.Store.Visible.{IsStore, visible-append}
use memeval.Observations.Candles.{Query, aggregate_candles}

append-coverage : (o : PoolObservations) (t : TradeObs) → (append o t).coverage ≡ o.coverage
unfolding append
append-coverage o t = elim (Bool-cases (is_late o t)) [
  | inl late ↦ rw late refl
  | inr next ↦ rw next refl
]

append-coverage_state :
    (o : PoolObservations) (t : TradeObs)
    → Path (ℤ → ℤ → CoverageState) (coverage_state (append o t)) (coverage_state o)
unfolding coverage_state
append-coverage_state o t = ap coverage_of (append-coverage o t)

-- A trade that is not available yet at the time of a query, however it is appended, changes none of the
-- bars and gaps that the query gives.
pub aggregate_candles-append :
    (o : PoolObservations) (t : TradeObs) (q : Query)
    → IsStore o
    → q.as_of <ℤ t.available_ms
    → aggregate_candles (append o t) q ≡ aggregate_candles o q
unfolding aggregate_candles visible_between
aggregate_candles-append o t q h later =
    rw (append-coverage_state o t, visible-append o t q.as_of h later) refl
