-- ===== src/Venues/Clmm/Pool/Recorded.antt =====
-- venues/clmm/pool.py, `apply_recorded_swap`: a recorded swap is replayed and reconciled. `none` is a
-- replay whose loop has not ended on the fuel.
use memeval.Prelude.{ℕ, Bool, true, false, ◌&&◌, ◌||◌, Option, none, some, ok, ◌>>=◌, if◌then◌else◌}
use memeval.Prelude.Int.{ℤ, pos, neg, ◌-ℤ◌, ltb_ℤ, leb_ℤ, eqb_ℤ}
use memeval.Venues.Clmm.FullMath.{Checked}
use memeval.Venues.Clmm.Pool.{ClPoolState}
use memeval.Venues.Clmm.Pool.Swap.{SwapResult}
use memeval.Venues.Clmm.Pool.Trade.{anchor_to_recorded, trial_swap}

pub data Mode : Type 0 where
  exact_in exact_out anchored_degenerate : Mode

pub record RecordedSwap : Type 0 where
  pub amount0 : ℤ
  pub amount1 : ℤ
  pub sqrt_after : ℤ
  pub liquidity_after : ℤ
  pub tick_after : ℤ

-- The differences `model - recorded`.
pub record Replay : Type 0 where
  pub mode : Mode
  pub amount0 : ℤ
  pub amount1 : ℤ
  pub sqrt_price_x96 : ℤ
  pub liquidity : ℤ
  pub tick : ℤ

-- `zero_for_one`, where the signs are those of a swap
abbrev pub direction : RecordedSwap → Option Bool
direction e =
    if ltb_ℤ (pos 0) e.amount0 && leb_ℤ e.amount1 (pos 0)
    then some true
    else if ltb_ℤ (pos 0) e.amount1 && leb_ℤ e.amount0 (pos 0)
    then some false
    else none

-- result == recorded
abbrev pub reproduces : RecordedSwap → SwapResult → Bool
reproduces e r =
    eqb_ℤ r.amount0 e.amount0
    && eqb_ℤ r.amount1 e.amount1
    && eqb_ℤ (pos r.sqrt_price_after_x96) e.sqrt_after
    && eqb_ℤ (pos r.liquidity_after) e.liquidity_after
    && eqb_ℤ r.tick_after e.tick_after

abbrev pub Trial : Type 0
Trial = Mode × (ClPoolState × SwapResult)

-- the second candidate, where the first does not reproduce the event
unfoldable pub second_trial :
    ℕ
    → ClPoolState
    → Bool
    → RecordedSwap
    → Option ℕ
    → ClPoolState × SwapResult
    → Checked (Option Trial)
second_trial fuel p zero_for_one e fee_pips first =
    let amount_out = neg (if zero_for_one then e.amount1 else e.amount0) in
    if reproduces e first.1 || leb_ℤ amount_out (pos 0)
    then ok (some (exact_in, first))
    else (trial_swap fuel p zero_for_one (neg amount_out) fee_pips >>= λ ended. ok (elim ended [
      | none ↦ none
      | some second ↦
          if reproduces e second.1 then some (exact_out, second) else some (exact_in, first)
    ]))

unfoldable pub first_trial :
    ℕ → ClPoolState → Bool → RecordedSwap → Option ℕ → Checked (Option Trial)
unfolding second_trial
first_trial fuel p zero_for_one e fee_pips = do
  ended ← trial_swap fuel p zero_for_one (if zero_for_one then e.amount0 else e.amount1) fee_pips
  elim ended [ none ↦ ok none | some first ↦ second_trial fuel p zero_for_one e fee_pips first ]

abbrev pub commit : RecordedSwap → Trial → ClPoolState × Replay
commit e (mode, (q, r)) = (
  q,
  record {
    mode = mode;
    amount0 = r.amount0 -ℤ e.amount0;
    amount1 = r.amount1 -ℤ e.amount1;
    sqrt_price_x96 = pos r.sqrt_price_after_x96 -ℤ e.sqrt_after;
    liquidity = pos r.liquidity_after -ℤ e.liquidity_after;
    tick = r.tick_after -ℤ e.tick_after;
  },
)

abbrev pub anchored : ClPoolState × (ℤ × (ℤ × ℤ)) → ClPoolState × Replay
anchored (q, (d_sqrt, (d_liq, d_tick))) = (
  q,
  record {
    mode = anchored_degenerate;
    amount0 = pos 0;
    amount1 = pos 0;
    sqrt_price_x96 = d_sqrt;
    liquidity = d_liq;
    tick = d_tick;
  },
)

unfoldable pub apply_recorded_swap :
    ℕ → ClPoolState → RecordedSwap → Option ℕ → Checked (Option (ClPoolState × Replay))
unfolding first_trial
apply_recorded_swap fuel p e fee_pips = elim (direction e) [
  | none ↦
      (anchor_to_recorded p e.sqrt_after e.liquidity_after e.tick_after >>= λ a.
      ok (some (anchored a)))
  | some zero_for_one ↦
      (first_trial fuel p zero_for_one e fee_pips >>= λ t.
      ok (elim t [ none ↦ none | some t ↦ some (commit e t) ]))
]
