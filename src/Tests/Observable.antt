-- ===== src/Tests/Observable.antt =====
-- next_observable_event_ms on an episode with a pool that is not discovered yet.
use memeval.Prelude.{◌≡◌, refl, String, true, false, none, some, List, [], ◌∷◌, ok, arith}
use memeval.Prelude.Int.{ℤ, pos}
use memeval.Engine.Tape.{RelEvent}
use memeval.Engine.Venue.Mixed.{PoolState}
use memeval.Observations.Store.{no_observations}
use memeval.Engine.Scheduler.{Episode}
use memeval.Engine.Scheduler.Observable.{
  horizon_end, next_observable_event_ms, is_among, discovered_pools,
}
use memeval.Engine.Scheduler.Hidden.{
  InWindow, next_observable_event_ms-InWindow, next_observable_event_ms_hides,
}
use memeval.Tests.Scheduler.{episode, sale}

-- a sale in a pool that is discovered at 9000
abbrev hidden_sale : RelEvent
hidden_sale = record sale { time_ms = pos 1000; pool = "q"; available_ms = some (pos 1100) }

abbrev watched : Episode PoolState
watched = record episode {
  sim = record episode.sim { pool_discovery_ms = ("p", pos 0) ∷ ("q", pos 9000) ∷ [] };
  tape = hidden_sale ∷ sale ∷ [];
}

next_is_2100 : next_observable_event_ms watched (pos 100) (pos 5000) ≡ ok (some (pos 2100))
unfolding next_observable_event_ms memeval.Prelude.Int.◌+ℤ◌ memeval.Prelude.Dict.get
next_is_2100 = refl

next_observable_event_ms-InWindow_example :
    InWindow (pos 100) (horizon_end watched (pos 100) (pos 5000)) (some (pos 2100))
unfolding memeval.Prelude.Int.◌+ℤ◌
next_observable_event_ms-InWindow_example =
    next_observable_event_ms-InWindow watched (pos 100) (pos 5000) (omega arith) next_is_2100

next_observable_event_ms_hides_example :
    next_observable_event_ms
      (record watched {
        sim = record watched.sim { obs = ("q", no_observations "q") ∷ [] };
        tape = sale ∷ [];
      })
      (pos 100)
      (pos 5000)
    ≡ next_observable_event_ms watched (pos 100) (pos 5000)
unfolding memeval.Engine.Tape.Order.IsTimeOrdered is_among discovered_pools
    memeval.Engine.Scheduler.Hidden.SameTrades memeval.Prelude.Dict.get
next_observable_event_ms_hides_example =
    next_observable_event_ms_hides watched (("q", no_observations "q") ∷ []) [] hidden_sale
      (sale ∷ []) (pos 100) (pos 5000) refl (omega arith, tt) refl (refl, tt)

-- Of two sales to come, the first one on the tape counts, though the second is available sooner.
first_on_tape :
    next_observable_event_ms
      (record watched { tape = record sale { available_ms = some (pos 4000) } ∷ sale ∷ [] })
      (pos 100)
      (pos 5000)
    ≡ ok (some (pos 4000))
unfolding next_observable_event_ms memeval.Prelude.Int.◌+ℤ◌ memeval.Prelude.Dict.get
first_on_tape = refl
