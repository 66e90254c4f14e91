-- ===== src/Engine/Markets/Events.antt =====
-- engine/simulation.py, `_apply_external`: the branches, over the pools of both kinds, and the handler as the
-- flow of an episode.
use mathlib.Core.Path.{subst}
use memeval.Prelude.{
  ◌≡◌, refl, String, Bool, true, false, none, some, [], ◌∷◌, ◌++◌, Result, ok, err, ◌>>=◌,
  >>=-eq-ok, ok-injective, if◌then◌else◌, str_eq, string_eq,
}
use memeval.Prelude.Dict.{get}
use memeval.Engine.Tape.{
  Kind, RelEvent, swap, mint, burn, adjust, sync, cl_init, cl_modify, cl_swap, halt, unhalt,
  restriction, discovery,
}
use memeval.Engine.External.{restricted}
use memeval.Engine.Venue.Mixed.{PoolState, cpmm, cl}
use memeval.Engine.Scheduler.{Episode, Flow, SameBroker}
use memeval.Engine.Markets.{Markets, EventError, assertion, on_cpmm, set_pool, set_ref}
use memeval.Engine.Markets.Liquidity.{apply_cl_init, apply_cl_modify}
use memeval.Engine.Markets.Swaps.{apply_cl_swap}

abbrev with_halted : Bool → PoolState → PoolState
with_halted h (cpmm p) = cpmm (record p { halted = h })
with_halted h (cl p) = cl (record p { halted = h })

abbrev with_restriction : RelEvent → String → PoolState → PoolState
with_restriction ev asset (cpmm p) =
    cpmm (record p { restrictions = restricted ev asset p.restrictions })
with_restriction ev asset (cl p) =
    cl (record p { restrictions = restricted ev asset p.restrictions })

-- A change of both states of a pool. A pool that has a private state has a reference.
unfoldable pub on_both : Markets → RelEvent → (PoolState → PoolState) → Result EventError Markets
on_both m ev change = elim (get m.pools ev.pool) [
  | none ↦ ok m
  | some p ↦ elim (get m.ref_pools ev.pool) [
    | none ↦ err assertion
    | some r ↦ ok (set_pool (set_ref m ev.pool (change r)) ev.pool (change p))
  ]
]

abbrev log_restriction : RelEvent → String → Markets → Markets
log_restriction ev asset m = record m {
  restriction_events =
      m.restriction_events
      ++ record {
        pool = ev.pool;
        asset = asset;
        event_ms = ev.time_ms;
        available_ms = ev.available_ms;
        payload = ev.payload;
      }
        ∷ [];
}

unfoldable pub apply_restriction : Markets → RelEvent → Result EventError Markets
unfolding on_both
apply_restriction m ev = elim ev.payload_asset [
  | none ↦ ok m
  | some asset ↦ if str_eq asset "" then ok m else elim (get m.pools ev.pool) [
    | none ↦ ok m
    | some _ ↦ (on_both m ev (with_restriction ev asset) >>= λ m'. ok (log_restriction ev asset m'))
  ]
]

unfoldable pub apply_event : Kind → Markets → RelEvent → Result EventError Markets
unfolding on_cpmm apply_cl_init apply_cl_modify apply_cl_swap on_both apply_restriction
apply_event swap m ev = on_cpmm m ev
apply_event mint m ev = on_cpmm m ev
apply_event burn m ev = on_cpmm m ev
apply_event adjust m ev = on_cpmm m ev
apply_event sync m ev = on_cpmm m ev
apply_event cl_init m ev = apply_cl_init m ev
apply_event cl_modify m ev = apply_cl_modify m ev
apply_event cl_swap m ev = apply_cl_swap m ev
apply_event halt m ev = on_both m ev (with_halted true)
apply_event unhalt m ev = on_both m ev (with_halted false)
apply_event restriction m ev = apply_restriction m ev
apply_event discovery m ev = ok m

-- the part of an episode that an event works on
abbrev pub markets_of : Episode PoolState → Markets
markets_of w = record {
  pools = w.sim.pools;
  ref_pools = w.sim.ref_pools;
  pool_meta = w.sim.pool_meta;
  availability_delay_ms = w.sim.params.availability_delay_ms;
  fidelity_failed = w.sim.fidelity_failed;
  state_version = w.sim.state_version;
  trade_seq = w.sim.trade_seq;
  obs = w.sim.obs;
  fidelity_flags = w.fidelity_flags;
  explained_count = w.explained_count;
  material_count = w.material_count;
  reconciliation_mismatches = w.reconciliation_mismatches;
  external_zero_output_swaps = w.external_zero_output_swaps;
  restriction_events = w.restriction_events;
}

abbrev pub install : Episode PoolState → Markets → Episode PoolState
install w m = record w {
  sim = record w.sim {
    pools = m.pools;
    ref_pools = m.ref_pools;
    fidelity_failed = m.fidelity_failed;
    state_version = m.state_version;
    trade_seq = m.trade_seq;
    obs = m.obs;
  };
  fidelity_flags = m.fidelity_flags;
  explained_count = m.explained_count;
  material_count = m.material_count;
  reconciliation_mismatches = m.reconciliation_mismatches;
  external_zero_output_swaps = m.external_zero_output_swaps;
  restriction_events = m.restriction_events;
}

unfoldable pub apply_recorded_event :
    RelEvent → Episode PoolState → Result EventError (Episode PoolState)
unfolding apply_event
apply_recorded_event ev w = apply_event ev.kind (markets_of w) ev >>= λ m. ok (install w m)

SameBroker-install : (w : Episode PoolState) (m : Markets) → SameBroker w (install w m)
SameBroker-install w m = record {
  numeraire = refl;
  ledger = refl;
  orders = refl;
  order_seq = refl;
  inclusions = refl;
  confirmations = refl;
  schedule = refl;
  end_ms = refl;
  finished = refl;
  next_grid = refl;
  reporting_grid = refl;
  settlement_tail = refl;
}

pub apply_recorded_event-SameBroker :
    (ev : RelEvent) (w : Episode PoolState) {w' : Episode PoolState}
    → apply_recorded_event ev w ≡ ok w'
    → SameBroker w w'
unfolding apply_recorded_event
apply_recorded_event-SameBroker ev w h =
    let (m, _, same) = >>=-eq-ok (apply_event ev.kind (markets_of w) ev) _ h in
    subst (SameBroker w) (ok-injective same) (SameBroker-install w m)

abbrev pub external_flow : Flow PoolState EventError
external_flow = record { apply = apply_recorded_event; keeps = apply_recorded_event-SameBroker }
