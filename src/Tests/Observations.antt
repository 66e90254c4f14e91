-- ===== src/Tests/Observations.antt =====
-- observations/store.py on concrete trades.
use memeval.Prelude.{◌≡◌, refl, ℕ, true, none, List, [], ◌∷◌, ok, arith}
use memeval.Prelude.Int.{ℤ, pos}
use memeval.Domain.Status.{CoverageState}
use memeval.Observations.Store.{
  TradeObs, PoolObservations, external, append, visible, coverage_state,
}
use memeval.Observations.Store.Visible.{IsStore, available_at, append-IsStore, visible-available_at}
use memeval.Observations.Store.Coverage.{Covered, coverage_state-Covered}
use memeval.Observations.Candles.{Query, Candle, Gap, aggregate_candles}
use memeval.Observations.Candles.Causal.{aggregate_candles-append}
use memeval.Observations.Candles.Total.{aggregate_candles_total}

abbrev trade : ℕ → ℤ → ℤ → TradeObs
trade n at available = record {
  seq = n;
  pool = "p";
  event_ms = at;
  available_ms = available;
  block = pos 1;
  log_index = pos 0;
  tx = none;
  wallet = none;
  asset_in = "weth";
  asset_out = "meme";
  amount_in = pos 10;
  amount_out = pos 20;
  origin = external;
  order_id = none;
  reserve0_after = pos 100;
  reserve1_after = pos 100;
  sqrt_price_x96_after = none;
  tick_after = none;
  liquidity_after = none;
}

abbrev seen : PoolObservations
seen = record {
  pool = "p";
  trades = trade 1 (pos 5) (pos 10) ∷ trade 2 (pos 15) (pos 30) ∷ [];
  avail_keys = pos 10 ∷ pos 30 ∷ [];
  coverage =
      record {
        start_ms = pos 0;
        end_ms = pos 60;
        state = CoverageState.completed_and_checked;
        evidence = "";
      }
      ∷ [];
}

seen-IsStore : IsStore seen
seen-IsStore = record { keyed = refl; ordered = ((omega arith, tt), (tt, tt)) }

-- an observation that comes late, between the other two
abbrev late : TradeObs
late = trade 3 (pos 8) (pos 20)

append-IsStore_example : IsStore (append seen late)
append-IsStore_example = append-IsStore seen late seen-IsStore

visible-available_at_example : visible seen (pos 20) ≡ available_at (pos 20) seen.trades
visible-available_at_example = visible-available_at seen (pos 20) seen-IsStore

coverage_state-Covered_example : Covered (pos 30) seen.coverage
unfolding coverage_state
coverage_state-Covered_example =
    coverage_state-Covered seen (pos 10) (pos 50) refl (pos 30) (omega arith) (omega arith)

abbrev query : Query
query = record {
  base_asset = "meme";
  interval_ms = pos 5;
  start_ms = pos 7;
  end_ms = pos 18;
  as_of = pos 19;
  availability_delay_ms = pos 2;
  include_partial = true;
}

aggregate_candles-append_example :
    aggregate_candles (append seen late) query ≡ aggregate_candles seen query
aggregate_candles-append_example =
    aggregate_candles-append seen late query seen-IsStore (omega arith)

aggregate_candles_total_example :
    (r : List Candle × List Gap) × (aggregate_candles seen query ≡ ok r)
aggregate_candles_total_example = aggregate_candles_total seen query (omega arith)
