-- ===== src/Venues/Clmm/Pool/Reports.antt =====
-- venues/clmm/pool.py, `apply_recorded_swap`: what the reported differences say.
use mathlib.Core.Path.{subst}
use memeval.Prelude.{
  ℕ, ◌≡◌, refl, inl, inr, Bool, true, Bool-cases, ◌||◌, Option, none, some, Option-cases, ok,
  >>=-eq-ok, arith, if◌then◌else◌,
}
use memeval.Prelude.Int.{ℤ, pos, pos_part, neg, ◌-ℤ◌, leb_ℤ}
use memeval.Venues.Clmm.FullMath.{Checked}
use memeval.Venues.Clmm.Pool.{ClPoolState}
use memeval.Venues.Clmm.Pool.Swap.{SwapState, SwapResult, swap, finish_swap, swap_loop, check_swap}
use memeval.Venues.Clmm.Pool.Trade.{anchor_to_recorded, out_of_range, trial_swap, trial_swap-swap}
use memeval.Venues.Clmm.Pool.Recorded.{
  Mode, exact_in, exact_out, anchored_degenerate, RecordedSwap, Replay, Trial, direction,
  reproduces, second_trial, first_trial, commit, anchored, apply_recorded_swap,
}

-- The differences of a report are those between a state and the record.
abbrev pub IsOff : ClPoolState → RecordedSwap → Replay → Type 0
IsOff x e d =
    (d.sqrt_price_x96 ≡ pos x.sqrt_price_x96 -ℤ e.sqrt_after)
    × (d.liquidity ≡ pos x.liquidity -ℤ e.liquidity_after)
    × (d.tick ≡ x.tick -ℤ e.tick_after)

-- The state is the recorded one, and the report has the differences of the state before, and none of the
-- amounts.
pub record Anchors (p q : ClPoolState) (e : RecordedSwap) (d : Replay) : Type 0 where
  pub price : pos q.sqrt_price_x96 ≡ e.sqrt_after
  pub liquidity : pos q.liquidity ≡ e.liquidity_after
  pub tick : q.tick ≡ e.tick_after
  pub off : IsOff p e d
  pub amount0 : d.amount0 ≡ pos 0
  pub amount1 : d.amount1 ≡ pos 0

-- What a replay specifies of the record: its input, or its output as a negative amount.
abbrev pub specified : Mode → Bool → RecordedSwap → ℤ
specified exact_out zero_for_one e = neg (neg (if zero_for_one then e.amount1 else e.amount0))
specified _ zero_for_one e = if zero_for_one then e.amount0 else e.amount1

-- The state is what a swap of the pool leaves, in the direction of the record and of what the mode says,
-- and the report has the differences of what the swap moved and of what it leaves.
pub record Replays (n : ℕ) (fee : Option ℕ) (mode : Mode) (p q : ClPoolState) (e : RecordedSwap)
    (d : Replay) (result : SwapResult) : Type 0 where
  pub zero_for_one : Bool
  pub signs : direction e ≡ some zero_for_one
  pub swapped :
      swap n p zero_for_one (specified mode zero_for_one e) none fee ≡ ok (some (q, result))
  pub off : IsOff q e d
  pub amount0 : d.amount0 ≡ result.amount0 -ℤ e.amount0
  pub amount1 : d.amount1 ≡ result.amount1 -ℤ e.amount1

-- What a replay reports, by its mode. The replay of the output is one that reproduces the record.
abbrev pub Reports :
    ℕ → Option ℕ → Mode → ClPoolState → ClPoolState → RecordedSwap → Replay → Type 0
Reports n fee anchored_degenerate p q e d = (direction e ≡ none) × Anchors p q e d
Reports n fee exact_in p q e d = (r : SwapResult) × Replays n fee exact_in p q e d r
Reports n fee exact_out p q e d =
    (r : SwapResult) × Replays n fee exact_out p q e d r × (reproduces e r ≡ true)

-- A swap's result names the state that it leaves.
IsState : ClPoolState × SwapResult → Type 0
IsState (q, r) =
    (r.sqrt_price_after_x96 ≡ q.sqrt_price_x96)
    × (r.liquidity_after ≡ q.liquidity)
    × (r.tick_after ≡ q.tick)

ended-IsState :
    (p : ClPoolState) (zfo : Bool) (amount : ℤ) (ended : Option SwapState)
    {a : ClPoolState × SwapResult}
    → Path
        (Checked (Option (ClPoolState × SwapResult)))
        (ok (elim ended [ none ↦ none | some s ↦ some (finish_swap p zfo amount s) ]))
        (ok (some a))
    → IsState a
unfolding IsState
ended-IsState p zfo amount none h = ground arith
ended-IsState p zfo amount (some s) {a} h =
    let same : finish_swap p zfo amount s ≡ a = ground arith in rw (← same) (refl, refl, refl)

swap-IsState :
    (n : ℕ) (p : ClPoolState) (zfo : Bool) (amount : ℤ) (limit fee : Option ℕ)
    {a : ClPoolState × SwapResult}
    → swap n p zfo amount limit fee ≡ ok (some a)
    → IsState a
unfolding swap
swap-IsState n p zfo amount limit fee h =
    let (_, _, looped) = >>=-eq-ok (check_swap p zfo amount _ _) _ h in
    let (ended, _, last) = >>=-eq-ok (swap_loop n p zfo _ _ _ _ _) _ looped in
    ended-IsState p zfo amount ended last

pub anchor-Anchors :
    (p : ClPoolState) (e : RecordedSwap) {a : ClPoolState × (ℤ × (ℤ × ℤ))}
    → anchor_to_recorded p e.sqrt_after e.liquidity_after e.tick_after ≡ ok a
    → Anchors p (anchored a).0 e (anchored a).1
unfolding anchor_to_recorded
anchor-Anchors p e {a} h = elim (Bool-cases (out_of_range e.sqrt_after e.liquidity_after)) [
  | inl bad ↦ ground arith
  | inr fine ↦
      let price : pos (pos_part e.sqrt_after) ≡ e.sqrt_after = ground arith in
      let liquidity : pos (pos_part e.liquidity_after) ≡ e.liquidity_after = ground arith in
      let target : ClPoolState × (ℤ × (ℤ × ℤ)) = (
        record p {
          sqrt_price_x96 = pos_part e.sqrt_after;
          liquidity = pos_part e.liquidity_after;
          tick = e.tick_after;
        },
        (
          pos p.sqrt_price_x96 -ℤ e.sqrt_after,
          (pos p.liquidity -ℤ e.liquidity_after, p.tick -ℤ e.tick_after),
        ),
      ) in
      let same : target ≡ a = ground arith in
      rw (← same) (record {
        price = price;
        liquidity = liquidity;
        tick = refl;
        off = (refl, refl, refl);
        amount0 = refl;
        amount1 = refl;
      })
]

module _ (n : ℕ) (p : ClPoolState) (e : RecordedSwap) (fee : Option ℕ) where
  -- A trial is one of the two replays.
  IsTrial : Bool → Trial → Type 0
  IsTrial zfo (exact_in, a) = swap n p zfo (specified exact_in zfo e) none fee ≡ ok (some a)
  IsTrial zfo (exact_out, a) =
      (swap n p zfo (specified exact_out zfo e) none fee ≡ ok (some a)) × (reproduces e a.1 ≡ true)
  IsTrial zfo (anchored_degenerate, _) = ⊥

  picked-IsTrial :
      (zfo : Bool) (first : ClPoolState × SwapResult) (ended : Option (ClPoolState × SwapResult))
      {t : Trial}
      → IsTrial zfo (exact_in, first)
      → swap n p zfo (specified exact_out zfo e) none fee ≡ ok ended
      → Path
          (Checked (Option Trial))
          (ok (elim ended [
            | none ↦ none
            | some second ↦
                if reproduces e second.1 then some (exact_out, second) else some (exact_in, first)
          ]))
          (ok (some t))
      → IsTrial zfo t
  unfolding IsTrial
  picked-IsTrial zfo first none fine ran h = ground arith
  picked-IsTrial zfo first (some second) {t} fine ran h =
      elim (Bool-cases (reproduces e second.1)) [
        | inl equal ↦ let same : (exact_out, second) ≡ t = ground arith in rw (← same) (ran, equal)
        | inr unequal ↦ let same : (exact_in, first) ≡ t = ground arith in rw (← same) fine
      ]

  second_trial-IsTrial :
      (zfo : Bool) (first : ClPoolState × SwapResult) {t : Trial}
      → IsTrial zfo (exact_in, first)
      → second_trial n p zfo e fee first ≡ ok (some t)
      → IsTrial zfo t
  unfolding second_trial IsTrial
  second_trial-IsTrial zfo first {t} fine h =
      let amount_out = neg (if zfo then e.amount1 else e.amount0) in
      elim (Bool-cases (reproduces e first.1 || leb_ℤ amount_out (pos 0))) [
        | inl kept ↦ let same : (exact_in, first) ≡ t = ground arith in rw (← same) fine
        | inr other ↦
            let (ended, ran, last) =
              >>=-eq-ok (trial_swap n p zfo (neg amount_out) fee) _
                (rw (other, second_trial) at h) in
            picked-IsTrial zfo first ended fine (trial_swap-swap n p zfo (neg amount_out) fee ran)
              last
      ]

  first_trial-IsTrial :
      (zfo : Bool) {t : Trial} → first_trial n p zfo e fee ≡ ok (some t) → IsTrial zfo t
  unfolding first_trial IsTrial
  first_trial-IsTrial zfo h =
      let (ended, ran, rest) = >>=-eq-ok (trial_swap n p zfo (specified exact_in zfo e) fee) _ h in
      elim (Option-cases ended) [
        | inl stuck ↦ ground arith
        | inr (first, found) ↦
            second_trial-IsTrial zfo first
              (rw found at (trial_swap-swap n p zfo (specified exact_in zfo e) fee ran))
              (rw found at rest)
      ]

  commit-Replays :
      (mode : Mode) (zfo : Bool) (q : ClPoolState) (r : SwapResult)
      → direction e ≡ some zfo
      → swap n p zfo (specified mode zfo e) none fee ≡ ok (some (q, r))
      → Replays n fee mode p q e (commit e (mode, (q, r))).1 r
  unfolding IsState
  commit-Replays mode zfo q r signs ran =
      let (price, liquidity, tick) = swap-IsState n p zfo (specified mode zfo e) none fee ran in
      record {
        zero_for_one = zfo;
        signs = signs;
        swapped = ran;
        off = rw (price, liquidity, tick) (refl, refl, refl);
        amount0 = refl;
        amount1 = refl;
      }

  commit-Reports :
      (zfo : Bool) (t : Trial)
      → direction e ≡ some zfo
      → IsTrial zfo t
      → Reports n fee t.0 p (commit e t).0 e (commit e t).1
  unfolding IsTrial
  commit-Reports zfo (exact_in, (q, r)) signs ran = (r, commit-Replays exact_in zfo q r signs ran)
  commit-Reports zfo (exact_out, (q, r)) signs (ran, equal) =
      (r, commit-Replays exact_out zfo q r signs ran, equal)
  commit-Reports zfo (anchored_degenerate, a) signs h = absurd h

  replayed-Reports :
      (zfo : Bool) (t : Option Trial) {q : ClPoolState} {d : Replay}
      → direction e ≡ some zfo
      → ((x : Trial) → t ≡ some x → IsTrial zfo x)
      → Path
          (Checked (Option (ClPoolState × Replay)))
          (ok (elim t [ none ↦ none | some t ↦ some (commit e t) ]))
          (ok (some (q, d)))
      → Reports n fee d.mode p q e d
  replayed-Reports zfo none signs trial h = ground arith
  replayed-Reports zfo (some t) {q} {d} signs trial h =
      let same : commit e t ≡ (q, d) = ground arith in
      let reported = commit-Reports zfo t signs (trial t refl) in
      subst (λ (x : ClPoolState × Replay). Reports n fee x.1.mode p x.0 e x.1) same reported

pub apply_recorded_swap-Reports :
    (n : ℕ) (p : ClPoolState) (e : RecordedSwap) (fee : Option ℕ) {q : ClPoolState} {d : Replay}
    → apply_recorded_swap n p e fee ≡ ok (some (q, d))
    → Reports n fee d.mode p q e d
unfolding apply_recorded_swap
apply_recorded_swap-Reports n p e fee {q} {d} h = elim (Option-cases (direction e)) [
  | inl none_of ↦
      let (a, ran, last) =
        >>=-eq-ok (anchor_to_recorded p e.sqrt_after e.liquidity_after e.tick_after) _
          (rw (none_of, apply_recorded_swap) at h) in
      let same : anchored a ≡ (q, d) = ground arith in
      subst (λ (x : ClPoolState × Replay). Reports n fee x.1.mode p x.0 e x.1) same
        (none_of, anchor-Anchors p e ran)
  | inr (zfo, found) ↦
      let (t, ran, last) =
        >>=-eq-ok (first_trial n p zfo e fee) _ (rw (found, apply_recorded_swap) at h) in
      replayed-Reports n p e fee zfo t found
        (λ x some_x. first_trial-IsTrial n p e fee zfo (rw some_x at ran)) last
]
