-- ===== src/Observations/Candles.antt =====
-- observations/store.py, `aggregate_candles`: bars of the visible trades. A Fraction is kept as it is built,
-- with a positive denominator and not in lowest terms.
pub mod Causal
pub mod Total
use memeval.Prelude.{
  ℕ, zero, suc, ◌+◌, String, Bool, true, false, not, ◌&&◌, ◌||◌, Option, none, some, List, [], ◌∷◌,
  ◌++◌, Result, ok, err, if◌then◌else◌, length, str_eq,
}
use memeval.Prelude.Int.{
  ℤ, pos, pos_part, neg, ◌+ℤ◌, ◌-ℤ◌, ◌*ℤ◌, ltb_ℤ, leb_ℤ, eqb_ℤ, floor_div, int_eq,
}
use memeval.Prelude.Dict.{Dict, get_or, put}
use memeval.Domain.Status.{CoverageState, Completeness, empty_verified}
use memeval.Observations.Store.{
  TradeObs, PoolObservations, visible, visible_between, last_of, is_checked, coverage_state,
}

pub record Fraction : Type 0 where
  pub numerator : ℤ
  pub denominator : ℤ

abbrev fraction : ℤ → ℤ → Fraction
fraction a b =
    if ltb_ℤ b (pos 0)
    then record { numerator = neg a; denominator = neg b }
    else record { numerator = a; denominator = b }

abbrev less : Fraction → Fraction → Bool
less a b = ltb_ℤ (a.numerator *ℤ b.denominator) (b.numerator *ℤ a.denominator)

unfoldable pub price : TradeObs → String → Option Fraction
price t base_asset =
    if str_eq t.asset_in base_asset
    then if eqb_ℤ t.amount_in (pos 0) then none else some (fraction t.amount_out t.amount_in)
    else if eqb_ℤ t.amount_out (pos 0)
    then none
    else some (fraction t.amount_in t.amount_out)

pub record Candle : Type 0 where
  pub start_ms : ℤ
  pub end_ms : ℤ
  pub opening : Option Fraction
  pub high : Option Fraction
  pub low : Option Fraction
  pub close : Option Fraction
  pub volume_base : ℤ
  pub volume_quote : ℤ
  pub trade_count : ℕ
  pub closed : Bool
  pub synthetic_empty_bar : Bool
  pub completeness : Completeness

-- The reason is the state that the coverage has.
pub record Gap : Type 0 where
  pub start_ms : ℤ
  pub end_ms : ℤ
  pub reason : CoverageState

-- The arguments of a call, but for the observations.
pub record Query : Type 0 where
  pub base_asset : String
  pub interval_ms : ℤ
  pub start_ms : ℤ
  pub end_ms : ℤ
  pub as_of : ℤ
  pub availability_delay_ms : ℤ
  pub include_partial : Bool

pub data CandleError : Type 0 where
  bad_interval out_of_fuel : CandleError

abbrev pub bucket_of : Query → ℤ → ℤ
bucket_of q x = floor_div x (pos_part q.interval_ms) *ℤ q.interval_ms

-- `by_bucket`
unfoldable pub group : Query → List TradeObs → Dict ℤ (List TradeObs) → Dict ℤ (List TradeObs)
group q [] d = d
group q (t ∷ ts) d =
    let b = bucket_of q t.event_ms in group q ts (put d b (get_or d b [] ++ t ∷ []))

unfoldable pub before : ℤ → List TradeObs → List TradeObs
before x [] = []
before x (t ∷ ts) = let rest = before x ts in if ltb_ℤ t.event_ms x then t ∷ rest else rest

unfoldable pub prices_of : String → List TradeObs → List Fraction
unfolding price
prices_of base [] = []
prices_of base (t ∷ ts) =
    let rest = prices_of base ts in elim (price t base) [ none ↦ rest | some p ↦ p ∷ rest ]

-- `max` and `min`, which keep the first of equals
abbrev max_from : Fraction → List Fraction → Fraction
max_from best [] = best
max_from best (p ∷ ps) = max_from (if less best p then p else best) ps

abbrev min_from : Fraction → List Fraction → Fraction
min_from best [] = best
min_from best (p ∷ ps) = min_from (if less p best then p else best) ps

abbrev first_of : List Fraction → Option Fraction
first_of [] = none
first_of (p ∷ ps) = some p

abbrev highest : List Fraction → Option Fraction
highest [] = none
highest (p ∷ ps) = some (max_from p ps)

abbrev lowest : List Fraction → Option Fraction
lowest [] = none
lowest (p ∷ ps) = some (min_from p ps)

unfoldable pub volume_base_of : String → List TradeObs → ℤ
volume_base_of base [] = pos 0
volume_base_of base (t ∷ ts) =
    (if str_eq t.asset_in base then t.amount_in else t.amount_out) +ℤ volume_base_of base ts

unfoldable pub volume_quote_of : String → List TradeObs → ℤ
volume_quote_of base [] = pos 0
volume_quote_of base (t ∷ ts) =
    (if str_eq t.asset_in base then t.amount_out else t.amount_in) +ℤ volume_quote_of base ts

-- What one round of the loop adds, and the close that it leaves.
pub record Bar : Type 0 where
  pub candles : List Candle
  pub gaps : List Gap
  pub prev_close : Option Fraction

module _ (q : Query) (coverage : ℤ → ℤ → CoverageState) (by_bucket : Dict ℤ (List TradeObs)) where
  abbrev pub is_closed : ℤ → Bool
  is_closed b = leb_ℤ (b +ℤ q.interval_ms +ℤ q.availability_delay_ms) q.as_of

  unfoldable pub traded_bar : ℤ → Option Fraction → List TradeObs → Bar
  unfolding prices_of volume_base_of volume_quote_of
  traded_bar b prev_close rows =
      let prices = prices_of q.base_asset rows in
      let c : Candle = record {
        start_ms = b;
        end_ms = b +ℤ q.interval_ms;
        opening = first_of prices;
        high = highest prices;
        low = lowest prices;
        close = last_of prices;
        volume_base = volume_base_of q.base_asset rows;
        volume_quote = volume_quote_of q.base_asset rows;
        trade_count = length rows;
        closed = is_closed b;
        synthetic_empty_bar = false;
        completeness =
            if is_checked (coverage b (b +ℤ q.interval_ms)) && is_closed b
            then Completeness.complete
            else Completeness.partial;
      } in
      record {
        candles = c ∷ [];
        gaps = [];
        prev_close = elim (last_of prices) [ none ↦ prev_close | some p ↦ some p ];
      }

  abbrev flat : ℤ → Option Fraction → Bool → Completeness → Candle
  flat b p closed completeness = record {
    start_ms = b;
    end_ms = b +ℤ q.interval_ms;
    opening = p;
    high = p;
    low = p;
    close = p;
    volume_base = pos 0;
    volume_quote = pos 0;
    trade_count = 0;
    closed = closed;
    synthetic_empty_bar = closed;
    completeness = completeness;
  }

  unfoldable pub empty_bar : ℤ → Option Fraction → Bar
  empty_bar b prev_close =
      let state = coverage b (b +ℤ q.interval_ms) in
      let nothing : Bar = record { candles = []; gaps = []; prev_close = prev_close } in
      if is_closed b
      then if is_checked state
        then record nothing { candles = flat b prev_close true empty_verified ∷ [] }
        else record nothing {
          gaps = record { start_ms = b; end_ms = b +ℤ q.interval_ms; reason = state } ∷ [];
        }
      else record nothing { candles = flat b none false Completeness.partial ∷ [] }

  unfoldable pub bar : ℤ → Option Fraction → Bar
  unfolding traded_bar empty_bar
  bar b prev_close =
      if not (is_closed b) && not q.include_partial
      then record { candles = []; gaps = []; prev_close = prev_close }
      else elim (get_or by_bucket b []) [
        | [] ↦ empty_bar b prev_close
        | t ∷ ts ↦ traded_bar b prev_close (t ∷ ts)
      ]

  -- the loop, on fuel
  unfoldable pub bars : ℕ → ℤ → Option Fraction → Result CandleError (List Candle × List Gap)
  unfolding bar
  bars zero b prev_close = if leb_ℤ b q.end_ms then err out_of_fuel else ok ([], [])
  bars (suc fuel) b prev_close = elim (leb_ℤ b q.end_ms) [
    | false ↦ ok ([], [])
    | true ↦ elim (bars fuel (b +ℤ q.interval_ms) (bar b prev_close).prev_close) [
      | err e ↦ err e
      | ok (cs, gs) ↦ ok ((bar b prev_close).candles ++ cs, (bar b prev_close).gaps ++ gs)
    ]
  ]

-- the close of the last visible trade before the first bucket
unfoldable pub seed_close : String → ℤ → List TradeObs → Option Fraction
unfolding before price
seed_close base first seen = elim (last_of (before first seen)) [
  | none ↦ none
  | some t ↦ price t base
]

-- Every round moves on by one millisecond at least.
abbrev pub rounds : Query → ℕ
rounds q = pos_part (q.end_ms -ℤ bucket_of q q.start_ms) + 1

unfoldable pub aggregate_candles :
    PoolObservations → Query → Result CandleError (List Candle × List Gap)
unfolding group seed_close bars
aggregate_candles o q =
    let first = bucket_of q q.start_ms in
    if leb_ℤ q.interval_ms (pos 0)
    then err bad_interval
    else bars q (coverage_state o) (group q (visible_between o first q.end_ms q.as_of) [])
        (rounds q) first (seed_close q.base_asset first (visible o q.as_of))
