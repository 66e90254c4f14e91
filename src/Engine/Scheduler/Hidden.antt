-- ===== src/Engine/Scheduler/Hidden.antt =====
-- engine/simulation.py, next_observable_event_ms: what it gives, and what it does not depend on.
use mathlib.Core.List.{reverse}
use mathlib.Core.Path.{subst}
use memeval.Prelude.{
  ℕ, ◌≡◌, refl, sym, ap, String, true, false, ◌&&◌, Option, none, some, List, [], ◌∷◌, ◌++◌, Result,
  ok, err, ◌>>=◌, >>=-eq-ok, ok-injective, Bool-cases, Option-cases, inl, inr, All, arith, nat_eq,
  string_eq,
}
use memeval.Prelude.Int.{ℤ, ◌<ℤ◌, ◌≤ℤ◌, ltb_ℤ, leb_ℤ, int_eq}
use memeval.Prelude.Dict.{Dict, get_or}
use memeval.Broker.Orders.{Order}
use memeval.Broker.Orders.Settlement.{is_filled}
use memeval.Observations.Store.{TradeObs, PoolObservations, no_observations}
use memeval.Engine.Blocks.{BlockSchedule, time_of}
use memeval.Engine.Tape.{RelEvent}
use memeval.Engine.Tape.Order.{IsTimeOrdered}
use memeval.Engine.Simulation.Inclusion.{is_pending}
use memeval.Engine.Scheduler.{Episode, min_ℤ}
use memeval.Engine.Scheduler.Observable.{
  sooner, sooner_within, next_discovery, inclusion_of, confirmation_of, next_order,
  unavailable_trades, next_trade, is_among, announced, next_swap, discovered_pools, horizon_end,
  next_observable_event_ms,
}

-- A time, if there is one, is after `after_ms` and at most `limit`.
pub InWindow : ℤ → ℤ → Option ℤ → Type 0
InWindow after_ms limit none = Unit
InWindow after_ms limit (some t) = (after_ms <ℤ t) × (t ≤ℤ limit)

sooner-InWindow :
    (a l : ℤ) (best : Option ℤ) (t : ℤ)
    → a <ℤ t
    → t ≤ℤ l
    → InWindow a l best
    → InWindow a l (sooner best t)
unfolding InWindow
sooner-InWindow a l none t later within h = (later, within)
sooner-InWindow a l (some b) t later within h = elim (Bool-cases (ltb_ℤ t b)) [
  | inl sooner ↦ rw sooner (later, within)
  | inr kept ↦ rw kept h
]

sooner_within-InWindow :
    (a l : ℤ) (best : Option ℤ) (t : ℤ)
    → InWindow a l best
    → InWindow a l (sooner_within a l best t)
sooner_within-InWindow a l best t h = elim (Bool-cases (ltb_ℤ a t && leb_ℤ t l)) [
  | inr out ↦ rw out h
  | inl here ↦ rw here (sooner-InWindow a l best t (ground arith) (ground arith) h)
]

next_discovery-InWindow :
    (a l : ℤ) (ds : Dict String ℤ) (best : Option ℤ)
    → InWindow a l best
    → InWindow a l (next_discovery a l ds best)
unfolding next_discovery
next_discovery-InWindow a l [] best h = h
next_discovery-InWindow a l ((_, d) ∷ ds) best h =
    next_discovery-InWindow a l ds _ (sooner_within-InWindow a l best d h)

inclusion_of-InWindow :
    (a l : ℤ) (o : Order) (best : Option ℤ)
    → InWindow a l best
    → InWindow a l (inclusion_of a l o best)
inclusion_of-InWindow a l o best h = elim (Option-cases o.inclusion_time_ms) [
  | inl never ↦ rw never h
  | inr (t, at) ↦ elim (Bool-cases (is_pending o.state)) [
    | inl waits ↦ rw (at, waits) (sooner_within-InWindow a l best t h)
    | inr over ↦ rw (at, over) h
  ]
]

confirmation_of-InWindow :
    (schedule : BlockSchedule) (a l : ℤ) (o : Order) (best : Option ℤ) {best' : Option ℤ}
    → InWindow a l best
    → confirmation_of schedule a l o best ≡ ok best'
    → InWindow a l best'
unfolding confirmation_of
confirmation_of-InWindow schedule a l o best h ran = elim (Option-cases o.confirm_block) [
  | inl never ↦ subst (InWindow a l) (ok-injective (rw never at ran)) h
  | inr (b, at) ↦ elim (Bool-cases (is_filled o.state)) [
    | inr over ↦ subst (InWindow a l) (ok-injective (rw (at, over) at ran)) h
    | inl filled ↦
        let (ct, _, last) = >>=-eq-ok (time_of schedule b) _ (rw (at, filled) at ran) in
        subst (InWindow a l) (ok-injective last) (sooner_within-InWindow a l best ct h)
  ]
]

next_order-InWindow :
    (schedule : BlockSchedule) (a l : ℤ) (orders : Dict ℕ Order) (best : Option ℤ)
    {best' : Option ℤ}
    → InWindow a l best
    → next_order schedule a l orders best ≡ ok best'
    → InWindow a l best'
unfolding next_order
next_order-InWindow schedule a l [] best h ran = subst (InWindow a l) (ok-injective ran) h
next_order-InWindow schedule a l ((_, o) ∷ orders) best h ran =
    let before = inclusion_of a l o best in
    let (b1, one, more) = >>=-eq-ok (confirmation_of schedule a l o before) _ ran in
    next_order-InWindow schedule a l orders b1
      (confirmation_of-InWindow schedule a l o before (inclusion_of-InWindow a l o best h) one) more

unavailable_trades-InWindow :
    (a l : ℤ) (ts : List TradeObs) (best : Option ℤ)
    → InWindow a l best
    → InWindow a l (unavailable_trades a l ts best)
unfolding unavailable_trades
unavailable_trades-InWindow a l [] best h = h
unavailable_trades-InWindow a l (t ∷ ts) best h = elim (Bool-cases (leb_ℤ t.available_ms a)) [
  | inl seen ↦ rw seen h
  | inr unseen ↦ elim (Bool-cases (leb_ℤ t.available_ms l)) [
    | inr far ↦ rw (unseen, far) (unavailable_trades-InWindow a l ts best h)
    | inl near ↦
        let best' = sooner best t.available_ms in
        rw (unseen, near)
          (unavailable_trades-InWindow a l ts best'
            (sooner-InWindow a l best t.available_ms (ground arith) (ground arith) h))
  ]
]

next_trade-InWindow :
    (a l : ℤ) (obs : Dict String PoolObservations) (ks : List String) (best : Option ℤ)
    → InWindow a l best
    → InWindow a l (next_trade a l obs ks best)
unfolding next_trade
next_trade-InWindow a l obs [] best h = h
next_trade-InWindow a l obs (k ∷ ks) best h =
    let trades = reverse (get_or obs k (no_observations k)).trades in
    next_trade-InWindow a l obs ks _ (unavailable_trades-InWindow a l trades best h)

announced-later :
    (a : ℤ) (ks : List String) (ev : RelEvent) {t : ℤ} → announced a ks ev ≡ some t → a <ℤ t
announced-later a ks ev h = ground arith

next_swap-InWindow :
    (a l : ℤ) (ks : List String) (tape : List RelEvent) (best : Option ℤ)
    → a <ℤ l
    → InWindow a l best
    → InWindow a l (next_swap a l ks tape best)
unfolding next_swap
next_swap-InWindow a l ks [] best al h = h
next_swap-InWindow a l ks (ev ∷ tape) best al h = elim (Bool-cases (ltb_ℤ l ev.time_ms)) [
  | inl past ↦ rw past h
  | inr here ↦ elim (Option-cases (announced a ks ev)) [
    | inl quiet ↦ rw (here, quiet) (next_swap-InWindow a l ks tape best al h)
    | inr (t, at) ↦
        let later = announced-later a ks ev at in
        rw (here, at) (sooner-InWindow a l best (min_ℤ t l) (ground arith) (ground arith) h)
  ]
]

>>=-ext :
    {E A B : Type 0} (r : Result E A) (f g : A → Result E B)
    → ((a : A) → f a ≡ g a)
    → (r >>= f) ≡ (r >>= g)
>>=-ext (ok a) f g same = same a
>>=-ext (err e) f g same = refl

IsTimeOrdered-tail :
    (x : RelEvent) (tape : List RelEvent) → IsTimeOrdered (x ∷ tape) → IsTimeOrdered tape
unfolding IsTimeOrdered
IsTimeOrdered-tail x [] h = tt
IsTimeOrdered-tail x (y ∷ tape) h = h.1

-- Two stores hold the same observations of each of the pools.
unfoldable pub SameTrades :
    Dict String PoolObservations → Dict String PoolObservations → List String → Type 0
SameTrades obs obs' ks =
    All (λ k. get_or obs' k (no_observations k) ≡ get_or obs k (no_observations k)) ks

next_trade-congr :
    (a l : ℤ) (obs obs' : Dict String PoolObservations) (ks : List String) (best : Option ℤ)
    → SameTrades obs obs' ks
    → next_trade a l obs' ks best ≡ next_trade a l obs ks best
unfolding next_trade SameTrades
next_trade-congr a l obs obs' [] best same = refl
next_trade-congr a l obs obs' (k ∷ ks) best same =
    let trades = reverse (get_or obs k (no_observations k)).trades in
    rw same.0 (next_trade-congr a l obs obs' ks (unavailable_trades a l trades best) same.1)

announced-none :
    (a : ℤ) (ks : List String) (ev : RelEvent)
    → is_among ev.pool ks ≡ false
    → announced a ks ev ≡ none
announced-none a ks ev hidden = ground arith

next_swap_drop :
    (a l : ℤ) (ks : List String) (before : List RelEvent) (ev : RelEvent) (rest : List RelEvent)
    (best : Option ℤ)
    → is_among ev.pool ks ≡ false
    → IsTimeOrdered (before ++ ev ∷ rest)
    → next_swap a l ks (before ++ ev ∷ rest) best ≡ next_swap a l ks (before ++ rest) best
unfolding next_swap IsTimeOrdered
next_swap_drop a l ks [] ev [] best hidden ordered = elim (Bool-cases (ltb_ℤ l ev.time_ms)) [
  | inl past ↦ rw past refl
  | inr here ↦ rw (here, announced-none a ks ev hidden) refl
]
next_swap_drop a l ks [] ev (y ∷ rest) best hidden ordered =
    elim (Bool-cases (ltb_ℤ l ev.time_ms)) [
      | inr here ↦ rw (here, announced-none a ks ev hidden) refl
      | inl past ↦
          let step : ev.time_ms ≤ℤ y.time_ms = ordered.0 in
          let past' : ltb_ℤ l y.time_ms ≡ true = ground arith in rw (past, past') refl
    ]
next_swap_drop a l ks (x ∷ before) ev rest best hidden ordered =
    let ordered' = IsTimeOrdered-tail x (before ++ ev ∷ rest) ordered in
    elim (Bool-cases (ltb_ℤ l x.time_ms)) [
      | inl past ↦ rw past refl
      | inr here ↦ elim (Option-cases (announced a ks x)) [
        | inr (t, at) ↦ rw (here, at) refl
        | inl quiet ↦ rw (here, quiet) (next_swap_drop a l ks before ev rest best hidden ordered')
      ]
    ]

module _ {Pool : Type 0} where
  -- Where the horizon ends after the time of the query, an event that next_observable_event_ms names lies
  -- after that time and at most at the end of the horizon.
  pub next_observable_event_ms-InWindow :
      (w : Episode Pool) (after_ms horizon_ms : ℤ) {best : Option ℤ}
      → after_ms <ℤ horizon_end w after_ms horizon_ms
      → next_observable_event_ms w after_ms horizon_ms ≡ ok best
      → InWindow after_ms (horizon_end w after_ms horizon_ms) best
  unfolding next_observable_event_ms InWindow
  next_observable_event_ms-InWindow w after_ms horizon_ms al ran =
      let s = w.sim in
      let l = horizon_end w after_ms horizon_ms in
      let ks = discovered_pools s.pool_discovery_ms after_ms in
      let found = next_discovery after_ms l s.pool_discovery_ms none in
      let (b, own, last) = >>=-eq-ok (next_order s.schedule after_ms l s.orders found) _ ran in
      let h =
        next_order-InWindow s.schedule after_ms l s.orders found
          (next_discovery-InWindow after_ms l s.pool_discovery_ms none tt) own in
      subst (InWindow after_ms l) (ok-injective last)
        (next_swap-InWindow after_ms l ks w.tape _ al (next_trade-InWindow after_ms l s.obs ks b h))

  -- On a tape whose times do not decrease, next_observable_event_ms depends neither on a recorded event of
  -- a pool that is not discovered at the time of the query, wherever it stands on the tape, nor on the
  -- observations of such pools.
  pub next_observable_event_ms_hides :
      (w : Episode Pool) (obs' : Dict String PoolObservations) (before : List RelEvent)
      (ev : RelEvent) (rest : List RelEvent) (after_ms horizon_ms : ℤ)
      → w.tape ≡ before ++ ev ∷ rest
      → IsTimeOrdered w.tape
      → is_among ev.pool (discovered_pools w.sim.pool_discovery_ms after_ms) ≡ false
      → SameTrades w.sim.obs obs' (discovered_pools w.sim.pool_discovery_ms after_ms)
      → next_observable_event_ms
          (record w { sim = record w.sim { obs = obs' }; tape = before ++ rest })
          after_ms
          horizon_ms
        ≡ next_observable_event_ms w after_ms horizon_ms
  unfolding next_observable_event_ms
  next_observable_event_ms_hides w obs' before ev rest after_ms horizon_ms at ordered hidden same =
      let s = w.sim in
      let l = horizon_end w after_ms horizon_ms in
      let ks = discovered_pools s.pool_discovery_ms after_ms in
      let found = next_discovery after_ms l s.pool_discovery_ms none in
      >>=-ext (next_order s.schedule after_ms l s.orders found) _ _ λ b.
        let trades = next_trade-congr after_ms l s.obs obs' ks b same in
        let drop =
          next_swap_drop after_ms l ks before ev rest (next_trade after_ms l s.obs ks b) hidden
            (rw (sym at) ordered) in
        rw (trades, at) (ap (λ x. ok x) (sym drop))
