-- ===== src/Engine/External/Divergence.antt =====
-- engine/simulation.py, `_apply_external`: how the private state stays apart from the reference.
use memeval.Prelude.{◌≡◌, string_eq, refl, true, Result, ok, arith}
use memeval.Prelude.Int.{ℤ, ◌-ℤ◌}
use memeval.Venues.Cpmm.Pool.{anchor_to_sync, DeltaClass, match, explained, material}
use memeval.Engine.Tape.{
  Kind, RelEvent, swap, mint, burn, adjust, sync, cl_init, cl_modify, cl_swap, halt, unhalt,
  restriction, discovery,
}
use memeval.Engine.External.{
  Market, SimError, external_swap, external_mint, external_burn, external_adjust, external_sync,
  apply_external, apply_kind, swap_private, burn_private, adjust_private, sync_to, follow_sync,
}

-- The reserves of the private state less those of the reference.
abbrev pub distance0 : Market → ℤ
distance0 m = m.pool.reserve0 -ℤ m.ref.reserve0

abbrev pub distance1 : Market → ℤ
distance1 m = m.pool.reserve1 -ℤ m.ref.reserve1

-- What a market that failed keeps.
abbrev pub IsFrozen : Market → Market → Type 0
IsFrozen m n =
    (n.failed ≡ true) × (n.pool.reserve0 ≡ m.pool.reserve0) × (n.pool.reserve1 ≡ m.pool.reserve1)

external_swap-IsFrozen :
    (delay : ℤ) (ev : RelEvent) (m : Market) {n : Market}
    → m.failed ≡ true
    → external_swap delay ev m ≡ ok n
    → IsFrozen m n
unfolding external_swap swap_private
external_swap-IsFrozen delay ev m f h = ground arith

external_mint-IsFrozen :
    (ev : RelEvent) (m : Market) {n : Market}
    → m.failed ≡ true
    → external_mint ev m ≡ ok n
    → IsFrozen m n
unfolding external_mint
external_mint-IsFrozen ev m f h = ground arith

external_burn-IsFrozen :
    (ev : RelEvent) (m : Market) {n : Market}
    → m.failed ≡ true
    → external_burn ev m ≡ ok n
    → IsFrozen m n
unfolding external_burn burn_private
external_burn-IsFrozen ev m f h = ground arith

external_adjust-IsFrozen :
    (ev : RelEvent) (m : Market) → m.failed ≡ true → IsFrozen m (external_adjust ev m)
unfolding external_adjust adjust_private
external_adjust-IsFrozen ev m f = ground arith

follow_sync-IsFrozen :
    (c : DeltaClass) (ev : RelEvent) (d0 d1 : ℤ) (m : Market)
    → m.failed ≡ true
    → IsFrozen m (follow_sync c ev d0 d1 m)
unfolding follow_sync adjust_private
follow_sync-IsFrozen match ev d0 d1 m f = (f, refl, refl)
follow_sync-IsFrozen explained ev d0 d1 m f = ground arith
follow_sync-IsFrozen material ev d0 d1 m f = ground arith

external_sync-IsFrozen :
    (ev : RelEvent) (m : Market) → m.failed ≡ true → IsFrozen m (external_sync ev m)
unfolding external_sync sync_to anchor_to_sync
external_sync-IsFrozen ev m f = grind (arith, follow_sync-IsFrozen)

frozen :
    (m : Market) {n o : Market}
    → IsFrozen m n
    → let r : Result SimError Market = ok n in r ≡ ok o → IsFrozen m o
frozen m {n} {o} s h = let same : n ≡ o = ground arith in rw (← same) s

apply_kind-IsFrozen :
    (k : Kind) (delay : ℤ) (ev : RelEvent) (m : Market) {n : Market}
    → m.failed ≡ true
    → apply_kind k delay ev m ≡ ok n
    → IsFrozen m n
unfolding apply_kind
apply_kind-IsFrozen swap delay ev m f h = external_swap-IsFrozen delay ev m f h
apply_kind-IsFrozen mint delay ev m f h = external_mint-IsFrozen ev m f h
apply_kind-IsFrozen burn delay ev m f h = external_burn-IsFrozen ev m f h
apply_kind-IsFrozen adjust delay ev m f h = frozen m (external_adjust-IsFrozen ev m f) h
apply_kind-IsFrozen sync delay ev m f h = frozen m (external_sync-IsFrozen ev m f) h
apply_kind-IsFrozen halt delay ev m f h = ground arith
apply_kind-IsFrozen unhalt delay ev m f h = ground arith
apply_kind-IsFrozen restriction delay ev m f h = ground arith
apply_kind-IsFrozen cl_init delay ev m f h = ground arith
apply_kind-IsFrozen cl_modify delay ev m f h = ground arith
apply_kind-IsFrozen cl_swap delay ev m f h = ground arith
apply_kind-IsFrozen discovery delay ev m f h = ground arith

-- A market whose private state failed stays failed, and no recorded event moves the private reserves
-- again.
pub apply_external-IsFrozen :
    (delay : ℤ) (ev : RelEvent) (m : Market) {n : Market}
    → m.failed ≡ true
    → apply_external delay ev m ≡ ok n
    → IsFrozen m n
unfolding apply_external
apply_external-IsFrozen delay ev m f h = apply_kind-IsFrozen ev.kind delay ev m f h
