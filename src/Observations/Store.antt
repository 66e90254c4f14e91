-- ===== src/Observations/Store.antt =====
-- observations/store.py: the trades of a pool with their times of availability, and the coverage spans.
-- `bisect_right` is Python's on a sorted list: the number of elements before the insertion point.
pub mod Visible
pub mod Coverage
use memeval.Prelude.{
  ℕ, zero, suc, String, Bool, true, false, not, ◌&&◌, Option, none, some, List, [], ◌∷◌, ◌++◌,
  if◌then◌else◌, str_eq,
}
use memeval.Prelude.Int.{ℤ, ltb_ℤ, leb_ℤ}
use memeval.Domain.Status.{CoverageState, AvailabilityBasis}

pub data Origin : Type 0 where
  external own : Origin

-- The last three fields are those of a concentrated-liquidity pool.
pub record TradeObs : Type 0 where
  pub seq : ℕ
  pub pool : String
  pub event_ms : ℤ
  pub available_ms : ℤ
  pub block : ℤ
  pub log_index : ℤ
  pub tx : Option String
  pub wallet : Option String
  pub asset_in : String
  pub asset_out : String
  pub amount_in : ℤ
  pub amount_out : ℤ
  pub origin : Origin
  pub order_id : Option String
  pub reserve0_after : ℤ
  pub reserve1_after : ℤ
  pub sqrt_price_x96_after : Option ℕ
  pub tick_after : Option ℤ
  pub liquidity_after : Option ℕ

pub record CoverageSpan : Type 0 where
  pub start_ms : ℤ
  pub end_ms : ℤ
  pub state : CoverageState
  pub evidence : String

pub record PoolObservations : Type 0 where
  pub pool : String
  pub trades : List TradeObs
  pub avail_keys : List ℤ
  pub coverage : List CoverageSpan

abbrev pub no_observations : String → PoolObservations
no_observations pool = record { pool = pool; trades = []; avail_keys = []; coverage = [] }

unfoldable pub bisect_right : List ℤ → ℤ → ℕ
bisect_right [] x = 0
bisect_right (k ∷ ks) x = let rest = bisect_right ks x in if ltb_ℤ x k then 0 else suc rest

-- xs.insert(i, x)
unfoldable pub insert_at {ℓ} : {A : Type ℓ} → ℕ → A → List A → List A
insert_at zero x xs = x ∷ xs
insert_at (suc i) x [] = x ∷ []
insert_at (suc i) x (y ∷ xs) = y ∷ insert_at i x xs

-- xs[:i]
unfoldable pub take {ℓ} : {A : Type ℓ} → ℕ → List A → List A
take zero xs = []
take (suc i) [] = []
take (suc i) (x ∷ xs) = x ∷ take i xs

-- xs[-1], where there is one
unfoldable pub last_of {ℓ} : {A : Type ℓ} → List A → Option A
last_of [] = none
last_of (x ∷ []) = some x
last_of (x ∷ y ∷ xs) = last_of (y ∷ xs)

unfoldable pub is_late : PoolObservations → TradeObs → Bool
is_late o t = elim (last_of o.avail_keys) [ none ↦ false | some k ↦ ltb_ℤ t.available_ms k ]

unfoldable pub append : PoolObservations → TradeObs → PoolObservations
unfolding is_late
append o t =
    if is_late o t
    then record o {
      trades = insert_at (bisect_right o.avail_keys t.available_ms) t o.trades;
      avail_keys = insert_at (bisect_right o.avail_keys t.available_ms) t.available_ms o.avail_keys;
    }
    else record o { trades = o.trades ++ t ∷ []; avail_keys = o.avail_keys ++ t.available_ms ∷ [] }

unfoldable pub visible : PoolObservations → ℤ → List TradeObs
visible o as_of = take (bisect_right o.avail_keys as_of) o.trades

abbrev pub visible_count : PoolObservations → ℤ → ℕ
visible_count o as_of = bisect_right o.avail_keys as_of

unfoldable pub between : ℤ → ℤ → List TradeObs → List TradeObs
between start_ms end_ms [] = []
between start_ms end_ms (t ∷ ts) =
    let rest = between start_ms end_ms ts in
    if leb_ℤ start_ms t.event_ms && leb_ℤ t.event_ms end_ms then t ∷ rest else rest

unfoldable pub visible_between : PoolObservations → ℤ → ℤ → ℤ → List TradeObs
unfolding visible between
visible_between o start_ms end_ms as_of = between start_ms end_ms (visible o as_of)

-- `self.trades[i - 1] if i else None`
unfoldable pub last_visible : PoolObservations → ℤ → Option TradeObs
unfolding visible
last_visible o as_of = last_of (visible o as_of)

abbrev pub is_checked : CoverageState → Bool
is_checked CoverageState.completed_and_checked = true
is_checked _ = false

-- `sorted(self.coverage, key=lambda s: s.start_ms)`
unfoldable pub insert_span : CoverageSpan → List CoverageSpan → List CoverageSpan
insert_span s [] = s ∷ []
insert_span s (x ∷ xs) =
    let rest = insert_span s xs in if ltb_ℤ x.start_ms s.start_ms then x ∷ rest else s ∷ x ∷ xs

unfoldable pub sort_spans : List CoverageSpan → List CoverageSpan
unfolding insert_span
sort_spans [] = []
sort_spans (s ∷ ss) = insert_span s (sort_spans ss)

abbrev pub max_ℤ : ℤ → ℤ → ℤ
max_ℤ a b = if leb_ℤ b a then a else b

-- the loop over the spans, and the test after it
unfoldable pub walk_spans : List CoverageSpan → ℤ → ℤ → CoverageState → CoverageState
walk_spans [] covered_to end_ms worst =
    if ltb_ℤ covered_to end_ms then CoverageState.missing else worst
walk_spans (s ∷ ss) covered_to end_ms worst =
    let worst' = if is_checked s.state then worst else CoverageState.partial in
    let reached = max_ℤ covered_to s.end_ms in
    elim (leb_ℤ s.end_ms covered_to) [
      | true ↦ walk_spans ss covered_to end_ms worst
      | false ↦ elim (ltb_ℤ covered_to s.start_ms) [
        | true ↦ CoverageState.missing
        | false ↦ elim (leb_ℤ end_ms reached) [
          | true ↦ worst'
          | false ↦ walk_spans ss reached end_ms worst'
        ]
      ]
    ]

unfoldable pub coverage_of : List CoverageSpan → ℤ → ℤ → CoverageState
unfolding sort_spans walk_spans
coverage_of [] start_ms end_ms = CoverageState.missing
coverage_of (s ∷ ss) start_ms end_ms =
    walk_spans (sort_spans (s ∷ ss)) start_ms end_ms CoverageState.completed_and_checked

unfoldable pub coverage_state : PoolObservations → ℤ → ℤ → CoverageState
unfolding coverage_of
coverage_state o start_ms end_ms = coverage_of o.coverage start_ms end_ms

unfoldable pub basis_for : String → AvailabilityBasis
basis_for origin =
    if str_eq origin "generated_fixture"
    then AvailabilityBasis.fixture_delay_model
    else if str_eq origin "historical_reconstruction"
    then AvailabilityBasis.reconstructed_with_delay_model
    else AvailabilityBasis.unknown
