-- ===== src/Tests/Cpmm.antt =====
-- venues/cpmm on concrete pools.
use memeval.Prelude.{
  ℕ, ◌≡◌, ◌↔◌, refl, String, true, false, Option, none, some, List, [], ◌∷◌, ok, err, inl, inr, ◌⊎◌,
  arith,
}
use memeval.Prelude.Int.{ℤ, pos, neg, ◌+ℤ◌, ◌-ℤ◌, ◌*ℤ◌, ◌≤ℤ◌, ◌<ℤ◌, int_laws}
use memeval.Domain.Status.{fixture_cpmm}
use memeval.Venues.Cpmm.Math.{get_amount_out, get_amount_in}
use memeval.Venues.Cpmm.Math.Bounds.{get_amount_out-get_amount_in}
use memeval.Venues.Cpmm.Pool.{
  CpmmPoolState, Ratio, PoolError, fidelity_limit, max_out, apply_swap, apply_mint, apply_burn,
  apply_adjust, anchor_to_sync,
}
use memeval.Venues.Cpmm.Pool.Reserves.{
  IsLive, IsFunded, product, apply_swap-product, apply_burn-apply_mint,
}

abbrev weth_meme : ℤ → ℤ → CpmmPoolState
weth_meme x y = record {
  key = "p";
  asset0 = "weth";
  asset1 = "meme";
  reserve0 = x;
  reserve1 = y;
  fee_num = pos 997;
  fee_den = pos 1000;
  model = fixture_cpmm;
  halted = false;
  restrictions = [];
}

abbrev even : CpmmPoolState
even = weth_meme (pos 1000) (pos 1000)

even-IsFunded : IsFunded even
even-IsFunded = record { funded0 = omega int_laws; funded1 = omega int_laws }

get_amount_out-get_amount_in_example :
    (out : ℤ) × (get_amount_out (pos 100) (pos 1000) (pos 1000) (pos 997) (pos 1000) ≡ ok out)
    × (pos 90 ≤ℤ out)
    × (pos 0 <ℤ pos 100)
unfolding get_amount_in ◌+ℤ◌ memeval.Prelude.Int.floor_div ◌*ℤ◌ ◌-ℤ◌
get_amount_out-get_amount_in_example =
    get_amount_out-get_amount_in (pos 90) (pos 1000) (pos 1000) (pos 997) (pos 1000)
      (omega int_laws) (omega int_laws) refl

apply_swap-product_example :
    let q = weth_meme (pos 1100) (pos 910) in
    IsLive q × (pos 0 <ℤ pos 90) × (product even ≤ℤ product q)
unfolding apply_swap max_out get_amount_out memeval.Venues.Cpmm.Pool.scaled
    memeval.Prelude.Int.floor_div ◌*ℤ◌ ◌+ℤ◌ ◌-ℤ◌
apply_swap-product_example = apply_swap-product even "weth" (pos 100) none tt refl

apply_burn-apply_mint_example :
    apply_burn (weth_meme (pos 1005) (pos 1007)) (pos 5) (pos 7) ≡ ok even
unfolding apply_mint ◌+ℤ◌
apply_burn-apply_mint_example = apply_burn-apply_mint even (pos 5) (pos 7) even-IsFunded refl
