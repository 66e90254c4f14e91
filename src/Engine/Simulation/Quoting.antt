-- ===== src/Engine/Simulation/Quoting.antt =====
-- engine/simulation.py, `quote`.
use memeval.Prelude.{
  ◌+◌, ◌≡◌, >>=-eq-ok, arith, String, not, Result, ok, raise_if, map_err, ◌>>=◌, ◌>>◌, nat_eq,
}
use memeval.Prelude.Int.{ℤ, pos, ◌+ℤ◌, leb_ℤ}
use memeval.Prelude.Dict.{put}
use memeval.Domain.Status.{invalid_order, no_route}
use memeval.Broker.Orders.{Quote}
use memeval.Engine.Venue.{Venue}
use memeval.Engine.Simulation.{Simulation, BrokerError, rejected, venue_error}
use memeval.Engine.Simulation.Routes.{tradable_pool, has_asset, capacity_check}

module _ {Pool E : Type 0} (v : Venue Pool E) where
  unfoldable pub quote :
      Simulation Pool → String → String → ℤ → Result (BrokerError E) (Simulation Pool × Quote)
  unfolding tradable_pool capacity_check
  quote s pool_key asset_in amount_in = do
    p ← tradable_pool v s pool_key
    raise_if (not (has_asset v p asset_in)) (rejected invalid_order)
    raise_if (leb_ℤ amount_in (pos 0)) (rejected invalid_order)
    asset_out ← map_err venue_error (v.other p asset_in)
    (rin, rout) ← map_err venue_error (v.depth_for p asset_in)
    out ← map_err (λ e. rejected no_route) (v.max_out p asset_in amount_in)
    reason ← map_err venue_error (capacity_check v s p asset_in amount_in out)
    let q : Quote = record {
      quote_id = s.quote_seq + 1;
      created_ms = s.now_ms;
      expires_ms = s.now_ms +ℤ s.params.quote_ttl_ms;
      pool = pool_key;
      asset_in = asset_in;
      asset_out = asset_out;
      amount_in = amount_in;
      amount_out = out;
      reserve_in = rin;
      reserve_out = rout;
      fee_num = v.fee_num p;
      fee_den = v.fee_den p;
      gas_cost = pos s.gas_cost;
      state_version = s.state_version;
      capacity_reason = reason;
    }
    ok (record s { quote_seq = s.quote_seq + 1; quotes = put s.quotes (s.quote_seq + 1) q }, q)

  -- A quote writes nothing but itself, under the next number of quotes.
  pub quote_writes :
      (s : Simulation Pool) (pool_key asset_in : String) (amount : ℤ) {s' : Simulation Pool}
      {q : Quote}
      → quote s pool_key asset_in amount ≡ ok (s', q)
      → s' ≡ record s { quote_seq = s.quote_seq + 1; quotes = put s.quotes (s.quote_seq + 1) q }
  unfolding quote
  quote_writes s pool_key asset_in amount {s'} {q} h =
      let (p, _, a) = >>=-eq-ok (tradable_pool v s pool_key) _ h in
      let (_, _, b) =
        >>=-eq-ok (raise_if (not (has_asset v p asset_in)) (rejected invalid_order)) _ a in
      let (_, _, c) = >>=-eq-ok (raise_if (leb_ℤ amount (pos 0)) (rejected invalid_order)) _ b in
      let (asset_out, _, d) = >>=-eq-ok (map_err venue_error (v.other p asset_in)) _ c in
      let ((rin, rout), _, e) = >>=-eq-ok (map_err venue_error (v.depth_for p asset_in)) _ d in
      let (out, _, f) =
        >>=-eq-ok (map_err (λ e. rejected no_route) (v.max_out p asset_in amount)) _ e in
      let (reason, _, g) =
        >>=-eq-ok (map_err venue_error (capacity_check v s p asset_in amount out)) _ f in
      ground arith
