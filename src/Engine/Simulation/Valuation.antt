-- ===== src/Engine/Simulation/Valuation.antt =====
-- engine/simulation.py: `_holdings`, `_liquidation_pool_for`, `value_portfolio` and the equity points.
-- The reasons and warnings, which are texts, are left out.
use Prim.Native.Nat.{Ordering}
use Prim.Native.String.{compare as compare_text}
use memeval.Prelude.{
  String, Bool, true, false, not, ◌&&◌, ◌||◌, Option, none, some, List, [], ◌∷◌, ◌++◌, Result, ok,
  err, ◌>>=◌, if◌then◌else◌, str_eq, string_eq,
}
use memeval.Prelude.Int.{ℤ, pos, ◌+ℤ◌, ◌-ℤ◌, ltb_ℤ, eqb_ℤ}
use memeval.Prelude.Dict.{Dict, get, get_or, put, contains}
use memeval.Domain.Status.{ValuationClass, priced_liquidatable, no_route, unpriced_missing_data}
use memeval.Broker.Ledger.{Ledger, balance, balances_of}
use memeval.Broker.Ledger.Accounts.{agent_available, agent_reserved, agent_pending}
use memeval.Venues.Cpmm.Pool.{sell}
use memeval.Engine.Venue.{Venue}
use memeval.Engine.Simulation.{PoolMeta, Simulation, EquityPoint, PointSource}
use memeval.Engine.Simulation.Routes.{cpmm_supported, cl_supported, has_failed, has_asset}

abbrev pub text_lt : String → String → Bool
text_lt a b = elim (compare_text a b) [ Ordering.lt ↦ true | _ ↦ false ]

-- `h[asset] += v` for what one account holds, but for the numeraire
unfoldable pub add_holdings : String → List (String × ℤ) → Dict String ℤ → Dict String ℤ
add_holdings numeraire [] h = h
add_holdings numeraire ((asset, x) ∷ rest) h = add_holdings numeraire rest (
    if not (str_eq asset numeraire) && ltb_ℤ (pos 0) x
    then put h asset (get_or h asset (pos 0) +ℤ x)
    else h)

unfoldable pub holdings_of : Ledger → String → Dict String ℤ
unfolding add_holdings balances_of
holdings_of l numeraire = add_holdings numeraire (balances_of l.balances agent_pending) (
    add_holdings numeraire (balances_of l.balances agent_reserved)
      (add_holdings numeraire (balances_of l.balances agent_available) []))

-- `sorted(holdings)`, with the quantities
unfoldable pub insert_holding : String × ℤ → List (String × ℤ) → List (String × ℤ)
insert_holding h [] = h ∷ []
insert_holding h (x ∷ xs) =
    let rest = insert_holding h xs in if text_lt x.0 h.0 then x ∷ rest else h ∷ x ∷ xs

unfoldable pub sort_holdings : Dict String ℤ → List (String × ℤ)
unfolding insert_holding
sort_holdings [] = []
sort_holdings (h ∷ hs) = insert_holding h (sort_holdings hs)

pub record Holding : Type 0 where
  pub asset : String
  pub quantity : ℤ
  pub class : ValuationClass
  pub value : ℤ
  pub pool : Option String

-- What the loop over the assets has so far; `branch` has the copies that it trades on.
pub record Tally (Pool : Type 0) : Type 0 where
  pub branch : Dict String Pool
  pub rows : List Holding
  pub priced : ℤ
  pub gas_total : ℤ
  pub complete : Bool

pub record ValuationResult : Type 0 where
  pub time_ms : ℤ
  pub complete : Bool
  pub cash_available : ℤ
  pub cash_reserved : ℤ
  pub cash_pending : ℤ
  pub priced_value : ℤ
  pub liquidation_gas : ℤ
  pub holdings : List Holding
  pub equity : Option ℤ

abbrev add_row : {Pool : Type 0} → Tally Pool → Holding → Tally Pool
add_row w row = record w { rows = w.rows ++ row ∷ [] }

-- the first record of a pool with the asset
unfoldable pub meta_of : Dict String PoolMeta → String → Option PoolMeta
meta_of [] asset = none
meta_of ((_, m) ∷ rest) asset =
    let more = meta_of rest asset in
    if str_eq asset m.asset0 || str_eq asset m.asset1 then some m else more

abbrev is_no_route : ValuationClass → Bool
is_no_route no_route = true
is_no_route _ = false

abbrev is_unpriced : ValuationClass → Bool
is_unpriced unpriced_missing_data = true
is_unpriced _ = false

abbrev assets_where : (ValuationClass → Bool) → List Holding → List String
assets_where test [] = []
assets_where test (h ∷ hs) =
    let rest = assets_where test hs in if test h.class then h.asset ∷ rest else rest

module _ {Pool E : Type 0} (v : Venue Pool E) where
  -- whether a pool trades the asset against the numeraire, and may be used
  unfoldable pub is_exit : Simulation Pool → String → String → Pool → Result E Bool
  unfolding has_failed
  is_exit s asset key p =
      if has_failed s.fidelity_failed key
        || elim (get s.pool_discovery_ms key) [ none ↦ true | some d ↦ ltb_ℤ s.now_ms d ]
        || not (has_asset v p asset)
      then ok false
      else (v.other p asset >>= λ o. ok (str_eq o s.numeraire))

  -- `cand > best`, by the depth and then by the key
  abbrev better : ℤ × String → Option (ℤ × String) → Bool
  better cand none = true
  better (rn, key) (some (depth, other)) = ltb_ℤ depth rn || eqb_ℤ depth rn && text_lt other key

  unfoldable pub liquidation_pool :
      Simulation Pool → String → Dict String Pool → Option (ℤ × String) → Result E (Option String)
  unfolding is_exit
  liquidation_pool s asset [] best = ok (elim best [ none ↦ none | some (_, key) ↦ some key ])
  liquidation_pool s asset ((key, p) ∷ rest) best = do
    exit ← is_exit s asset key p
    best' ←
        if exit
        then (v.depth_for p s.numeraire >>= λ d.
            ok (if better (d.0, key) best then some (d.0, key) else best))
        else ok best
    liquidation_pool s asset rest best'

  -- the row of an asset that no pool takes
  unfoldable pub unroutable : Simulation Pool → Tally Pool → String → ℤ → Tally Pool
  unfolding meta_of cpmm_supported has_failed
  unroutable s w asset qty =
      let missing : Bool = elim (meta_of s.pool_meta asset) [
        | none ↦ false
        | some m ↦
            not (cpmm_supported m || cl_supported m)
            || has_failed s.fidelity_failed m.key
            || not (contains s.pools m.key)
      ] in
      if missing
      then record (add_row w (record {
        asset = asset;
        quantity = qty;
        class = unpriced_missing_data;
        value = pos 0;
        pool = none;
      })) { complete = false }
      else add_row w
          (record { asset = asset; quantity = qty; class = no_route; value = pos 0; pool = none })

  abbrev stuck : Tally Pool → String → ℤ → String → Tally Pool
  stuck w asset qty key =
      add_row w
        (record { asset = asset; quantity = qty; class = no_route; value = pos 0; pool = some key })

  -- the sale of an asset on the branch's copy of a pool
  unfoldable pub sell_on : Simulation Pool → Tally Pool → String → ℤ → String → Pool → Tally Pool
  sell_on s w asset qty key p =
      let copied = record w { branch = put w.branch key p } in
      let blocked : Bool = elim (v.transfer_blocked p asset sell) [
        | none ↦ false
        | some _ ↦ true
      ] in
      if v.halted p || blocked
      then stuck copied asset qty key
      else elim (v.apply_swap p asset qty) [
        | err e ↦ stuck copied asset qty key
        | ok (q, out) ↦
            add_row
              (record copied {
                branch = put w.branch key q;
                priced = w.priced +ℤ out;
                gas_total = w.gas_total +ℤ pos s.gas_cost;
              })
              (record {
                asset = asset;
                quantity = qty;
                class = priced_liquidatable;
                value = out;
                pool = some key;
              })
      ]

  unfoldable pub value_asset : Simulation Pool → Tally Pool → String → ℤ → Result E (Tally Pool)
  unfolding liquidation_pool unroutable sell_on
  value_asset s w asset qty = do
    found ← liquidation_pool s asset s.pools none
    ok (elim found [
      | none ↦ unroutable s w asset qty
      | some key ↦ elim (get w.branch key) [
        | some p ↦ sell_on s w asset qty key p
        | none ↦ elim (get s.pools key) [ none ↦ w | some p ↦ sell_on s w asset qty key p ]
      ]
    ])

  unfoldable pub value_assets :
      Simulation Pool → Tally Pool → List (String × ℤ) → Result E (Tally Pool)
  unfolding value_asset
  value_assets s w [] = ok w
  value_assets s w ((asset, qty) ∷ rest) = do w' ← value_asset s w asset qty; value_assets s w' rest

  unfoldable pub value_portfolio : Simulation Pool → ℤ → Result E ValuationResult
  unfolding holdings_of sort_holdings value_assets
  value_portfolio s t =
      let available = balance s.ledger agent_available s.numeraire in
      let reserved = balance s.ledger agent_reserved s.numeraire in
      let pending = balance s.ledger agent_pending s.numeraire in
      let start : Tally Pool = record {
        branch = [];
        rows = [];
        priced = pos 0;
        gas_total = pos 0;
        complete = true;
      } in
      do
        w ← value_assets s start (sort_holdings (holdings_of s.ledger s.numeraire))
        ok (record {
          time_ms = t;
          complete = w.complete;
          cash_available = available;
          cash_reserved = reserved;
          cash_pending = pending;
          priced_value = w.priced;
          liquidation_gas = w.gas_total;
          holdings = w.rows;
          equity =
              if w.complete
              then some (available +ℤ reserved +ℤ pending +ℤ w.priced -ℤ w.gas_total)
              else none;
        })

  -- `_grid_snapshot` and `_ledger_equity_point`, which differ in the source they name
  unfoldable pub equity_point : Simulation Pool → ℤ → PointSource → Result E (Simulation Pool)
  unfolding value_portfolio
  equity_point s t source = do
    r ← value_portfolio s t
    let point : EquityPoint = record {
      time_ms = t;
      complete = r.complete;
      equity = r.equity;
      cash = r.cash_available +ℤ r.cash_reserved +ℤ r.cash_pending;
      priced = r.priced_value -ℤ r.liquidation_gas;
      no_route_assets = assets_where is_no_route r.holdings;
      unpriced_assets = assets_where is_unpriced r.holdings;
      source = source;
    }
    ok (record s { equity_points = s.equity_points ++ point ∷ [] })
