-- ===== src/Engine/Simulation/Lifecycle/Deciding.antt =====
-- engine/simulation.py, `_include`: what it decides before its first write.
use mathlib.Core.Path.{subst}
use memeval.Prelude.{
  ◌≡◌, ◌↔◌, refl, inl, inr, true, false, Bool-cases, none, some, Option-cases, Result, ok, err,
  Result-cases, arith, string_eq,
}
use memeval.Prelude.Int.{ℤ, pos, ◌≤ℤ◌, ◌<ℤ◌, ltb_ℤ, eqb_ℤ, eqb_ℤ_iff}
use memeval.Prelude.Dict.{get}
use memeval.Broker.Orders.{Order}
use memeval.Engine.Venue.{Venue}
use memeval.Engine.Simulation.{Simulation, BrokerError}
use memeval.Engine.Simulation.Routes.{has_failed, in_launch_window, trade_blocked, capacity_check}
use memeval.Engine.Simulation.Inclusion.{
  Verdict, skip, expired, unfit, revert, filled, is_pending, fill_verdict, pool_verdict, verdict,
}
use memeval.Engine.Simulation.Lifecycle.{is_venue_error}

module _ {Pool E : Type 0} (v : Venue Pool E) where
  -- The terms of a fill: in time, at the output that the venue quotes and pays on the order's pool,
  -- and no less than the order's limit.
  pub record MeetsTerms (s : Simulation Pool) (o : Order) (t : ℤ) (q : Pool) (out : ℤ)
      : Type 0 where
    pub in_time : t ≤ℤ o.deadline_ms
    pub before : Pool
    pub traded_on : get s.pools o.pool ≡ some before
    pub quoted : v.max_out before o.asset_in (pos o.amount_in) ≡ ok out
    pub paid : v.apply_swap before o.asset_in (pos o.amount_in) ≡ ok (q, out)
    pub limit : pos o.min_amount_out ≤ℤ out

  unfoldable pub IsFair :
      Simulation Pool → Order → ℤ → Result (BrokerError E) (Verdict Pool) → Type 0
  IsFair s o t (ok skip) = is_pending o.state ≡ false
  IsFair s o t (ok expired) = (is_pending o.state ≡ true) × (o.deadline_ms <ℤ t)
  IsFair s o t (ok (unfit note reason)) = (is_pending o.state ≡ true) × (t ≤ℤ o.deadline_ms)
  IsFair s o t (ok (revert reason)) = (is_pending o.state ≡ true) × (t ≤ℤ o.deadline_ms)
  IsFair s o t (ok (filled q out)) = (is_pending o.state ≡ true) × MeetsTerms s o t q out
  IsFair s o t (err e) =
      (is_pending o.state ≡ true) × (t ≤ℤ o.deadline_ms) × (is_venue_error e ≡ true)

  fill_verdict-IsFair :
      (s : Simulation Pool) (o : Order) (t : ℤ) (p : Pool) (out : ℤ)
      → is_pending o.state ≡ true
      → t ≤ℤ o.deadline_ms
      → get s.pools o.pool ≡ some p
      → v.max_out p o.asset_in (pos o.amount_in) ≡ ok out
      → IsFair s o t (fill_verdict v o p out)
  unfolding fill_verdict IsFair
  fill_verdict-IsFair s o t p out pending in_time at quoted =
      elim (Bool-cases (ltb_ℤ out (pos o.min_amount_out))) [
        | inl low ↦ rw low (pending, in_time)
        | inr enough ↦ elim (Result-cases (v.apply_swap p o.asset_in (pos o.amount_in))) [
          | inr (e, failed) ↦ rw (enough, failed) (pending, in_time)
          | inl ((q, actual), ran) ↦
              let same : actual ≡ out =
                ground (arith, v.swap_quoted p o.asset_in (pos o.amount_in) q actual ran) in
              let exact : eqb_ℤ actual out ≡ true = (eqb_ℤ_iff actual out).1 same in
              rw (enough, ran, exact)
                (
                  pending,
                  record {
                    in_time = in_time;
                    before = p;
                    traded_on = at;
                    quoted = quoted;
                    paid = rw same at ran;
                    limit = ground arith;
                  },
                )
        ]
      ]

  pool_verdict-IsFair :
      (s : Simulation Pool) (o : Order) (t : ℤ) (p : Pool)
      → is_pending o.state ≡ true
      → t ≤ℤ o.deadline_ms
      → get s.pools o.pool ≡ some p
      → IsFair s o t (pool_verdict v s o t p)
  unfolding pool_verdict IsFair
  pool_verdict-IsFair s o t p pending in_time at = elim (Bool-cases (v.halted p)) [
    | inl shut ↦ rw shut (pending, in_time)
    | inr awake ↦ elim (Bool-cases (in_launch_window s o.pool t)) [
      | inl young ↦ rw (awake, young) (pending, in_time)
      | inr running ↦ elim (Option-cases (trade_blocked v p o.asset_in o.asset_out)) [
        | inr (r, blocked) ↦ rw (awake, running, blocked) (pending, in_time)
        | inl free ↦ elim (Result-cases (v.max_out p o.asset_in (pos o.amount_in))) [
          | inr (e, failed) ↦ rw (awake, running, free, failed) (pending, in_time)
          | inl (out, quoted) ↦
              elim (Result-cases (capacity_check v s p o.asset_in (pos o.amount_in) out)) [
                | inr (e, failed) ↦
                    rw (awake, running, free, quoted, failed) (pending, in_time, refl)
                | inl (some r, over) ↦ rw (awake, running, free, quoted, over) (pending, in_time)
                | inl (none, fits) ↦
                    rw (awake, running, free, quoted, fits)
                      (fill_verdict-IsFair s o t p out pending in_time at quoted)
              ]
        ]
      ]
    ]
  ]

  decided-IsFair : (s : Simulation Pool) (o : Order) (t : ℤ) → IsFair s o t (verdict v s o t)
  unfolding verdict IsFair
  decided-IsFair s o t = elim (Bool-cases (is_pending o.state)) [
    | inr done ↦ rw done done
    | inl pending ↦ elim (Bool-cases (ltb_ℤ o.deadline_ms t)) [
      | inl late ↦ rw (pending, late) (pending, ground arith)
      | inr in_time ↦
          let early : t ≤ℤ o.deadline_ms = ground arith in
          elim (Option-cases (get s.pools o.pool)) [
            | inl absent ↦ rw (pending, in_time, absent) (pending, early)
            | inr (p, at) ↦ elim (Bool-cases (has_failed s.fidelity_failed o.pool)) [
              | inl failed ↦ rw (pending, in_time, at, failed) (pending, early)
              | inr sound ↦
                  rw (pending, in_time, at, sound) (pool_verdict-IsFair s o t p pending early at)
            ]
          ]
    ]
  ]

  skips_settled :
      (s : Simulation Pool) (o : Order) (t : ℤ)
      → is_pending o.state ≡ false
      → verdict v s o t ≡ ok skip
  unfolding verdict
  skips_settled s o t settled = rw settled refl

  expires_late :
      (s : Simulation Pool) (o : Order) (t : ℤ)
      → is_pending o.state ≡ true
      → o.deadline_ms <ℤ t
      → verdict v s o t ≡ ok expired
  unfolding verdict
  expires_late s o t pending late =
      let past : ltb_ℤ o.deadline_ms t ≡ true = ground arith in rw (pending, past) refl

  -- An inclusion leaves an order alone exactly where it is not pending, and lets it expire exactly where it
  -- is pending and its deadline has passed. In every other case the order is pending and in time: a fill
  -- is at the output that the venue quotes and pays on the order's pool, within the order's limit, and an
  -- error is one of the venue.
  pub verdict-IsFair :
      (s : Simulation Pool) (o : Order) (t : ℤ)
      → ((verdict v s o t ≡ ok skip) ↔ (is_pending o.state ≡ false))
        × ((verdict v s o t ≡ ok expired) ↔ ((is_pending o.state ≡ true) × (o.deadline_ms <ℤ t)))
        × IsFair s o t (verdict v s o t)
  unfolding IsFair
  verdict-IsFair s o t =
      let fair = decided-IsFair s o t in
      (
        (λ skipped. subst (IsFair s o t) skipped fair, skips_settled s o t),
        (
          λ late. subst (IsFair s o t) late fair,
          λ (pending, late). expires_late s o t pending late,
        ),
        fair,
      )
