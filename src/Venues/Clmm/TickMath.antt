-- ===== src/Venues/Clmm/TickMath.antt =====
-- venues/clmm/math.py, TickMath: the price of a tick and the tick of a price, in fixed point. `&`
-- with a power of two tests one bit; `log_2 |= f << shift` sets a bit that is zero, so it adds.
use memeval.Prelude.{
  ℕ, zero, suc, ◌+◌, ◌-◌, ◌*◌, ◌/◌, ◌%◌, ◌^◌, Bool, not, ◌&&◌, List, [], ◌∷◌, ok, raise_if, ◌>>=◌,
  ◌>>◌, ltb, leb, ◌==◌, if◌then◌else◌,
}
use memeval.Prelude.Int.{ℤ, pos, pos_part, neg_part, ◌+ℤ◌, ◌-ℤ◌, ◌*ℤ◌, floor_div, ltb_ℤ, eqb_ℤ}
use memeval.Venues.Clmm.FullMath.{
  Checked, check_int, check_uint, min_int256, max_int256, max_uint256, max_uint160, tick_bound,
  ratio_bound,
}

abbrev pub max_tick : ℕ
max_tick = 887272

abbrev pub min_sqrt_ratio : ℕ
min_sqrt_ratio = 4295128739

abbrev pub max_sqrt_ratio : ℕ
max_sqrt_ratio = 1461446703485210103287273052203988822378723970342

abbrev tick_ratio_factors : List (ℕ × ℕ)
tick_ratio_factors =
    (0x2, 0xFFF97272373D413259A46990580E213A)
    ∷ (0x4, 0xFFF2E50F5F656932EF12357CF3C7FDCC)
    ∷ (0x8, 0xFFE5CACA7E10E4E61C3624EAA0941CD0)
    ∷ (0x10, 0xFFCB9843D60F6159C9DB58835C926644)
    ∷ (0x20, 0xFF973B41FA98C081472E6896DFB254C0)
    ∷ (0x40, 0xFF2EA16466C96A3843EC78B326B52861)
    ∷ (0x80, 0xFE5DEE046A99A2A811C461F1969C3053)
    ∷ (0x100, 0xFCBE86C7900A88AEDCFFC83B479AA3A4)
    ∷ (0x200, 0xF987A7253AC413176F2B074CF7815E54)
    ∷ (0x400, 0xF3392B0822B70005940C7A398E4B70F3)
    ∷ (0x800, 0xE7159475A2C29B7443B29C7FA6E889D9)
    ∷ (0x1000, 0xD097F3BDFD2022B8845AD8F792AA5825)
    ∷ (0x2000, 0xA9F746462D870FDF8A65DC1F90E061E5)
    ∷ (0x4000, 0x70D869A156D2A1B890BB3DF62BAF32F7)
    ∷ (0x8000, 0x31BE135F97D08FD981231505542FCFA6)
    ∷ (0x10000, 0x9AA508B5B7A84E1C677DE54F3E99BC9)
    ∷ (0x20000, 0x5D6AF8DEDB81196699C329225EE604)
    ∷ (0x40000, 0x2216E584F5FA1EA926041BEDFE98)
    ∷ (0x80000, 0x48A170391F7DC42444E8FA2)
    ∷ []

abbrev log_sqrt10001_factor : ℕ
log_sqrt10001_factor = 255738958999603826347141

abbrev tick_low_offset : ℕ
tick_low_offset = 3402992956809132418596140100660247210

abbrev tick_hi_offset : ℕ
tick_hi_offset = 291339464771989622907027621153398088495

-- `n & bit`, for a power of two
abbrev has_bit : ℕ → ℕ → Bool
has_bit n bit = n / bit % 2 == 1

-- the loop over `_TICK_RATIO_FACTORS`
unfoldable pub scale_ratio : ℕ → List (ℕ × ℕ) → ℕ → ℕ
scale_ratio abs_tick [] ratio = ratio
scale_ratio abs_tick ((bit, factor) ∷ factors) ratio =
    scale_ratio abs_tick factors (if has_bit abs_tick bit then ratio * factor / 2 ^ 128 else ratio)

abbrev pub tick_ratio : ℕ → ℕ
tick_ratio abs_tick = scale_ratio abs_tick tick_ratio_factors (
    if has_bit abs_tick 0x1
    then 0xFFFCB933BD6FAD37AA2D162D1A594001
    else 0x100000000000000000000000000000000)

-- Q128.128 to Q128.96, rounding up
unfoldable pub to_x96 : ℕ → ℕ
to_x96 ratio = ratio / 2 ^ 32 + (if ratio % 2 ^ 32 == 0 then 0 else 1)

unfoldable pub get_sqrt_ratio_at_tick : ℤ → Checked ℕ
unfolding check_int to_x96 scale_ratio
get_sqrt_ratio_at_tick tick = do
  check_int tick min_int256 max_int256 tick_bound
  let abs_tick = pos_part tick + neg_part tick
  raise_if (ltb max_tick abs_tick) tick_bound
  let ratio = tick_ratio abs_tick
  ok (to_x96 (if ltb_ℤ (pos 0) tick then max_uint256 / ratio else ratio))

-- `n.bit_length()`, on fuel: a number below `2 ^ fuel` has at most `fuel` bits
unfoldable pub bit_length_on : ℕ → ℕ → ℕ
bit_length_on zero n = 0
bit_length_on (suc fuel) n = let rest = bit_length_on fuel (n / 2) in if n == 0 then 0 else suc rest

-- one round of the fixed-point squaring, at `shift`
abbrev log_round : ℕ → ℕ × ℤ → ℕ × ℤ
log_round shift (r, log_2) =
    let r2 = r * r / 2 ^ 127 in let f = r2 / 2 ^ 128 in (r2 / 2 ^ f, log_2 +ℤ pos (f * 2 ^ shift))

-- `for shift in range(63, 49, -1)`: `n` rounds are left, and the next one is at `49 + n`
unfoldable pub log_rounds : ℕ → ℕ × ℤ → ℕ × ℤ
log_rounds zero s = s
log_rounds (suc n) s = log_rounds n (log_round (49 + suc n) s)

-- The two candidates `(tick_low, tick_hi)`; the ratio has at most 192 bits.
unfoldable pub tick_candidates : ℕ → ℤ × ℤ
unfolding bit_length_on log_rounds floor_div
tick_candidates sqrt_price_x96 =
    let ratio = sqrt_price_x96 * 2 ^ 32 in
    let msb = bit_length_on 192 ratio - 1 in
    let r = (if leb 128 msb then ratio / 2 ^ (msb - 127) else ratio * 2 ^ (127 - msb)) in
    let log_2 = (log_rounds 14 (r, (pos msb -ℤ pos 128) *ℤ pos (2 ^ 64))).1 in
    let log_sqrt10001 = log_2 *ℤ pos log_sqrt10001_factor in
    (
      floor_div (log_sqrt10001 -ℤ pos tick_low_offset) (2 ^ 128),
      floor_div (log_sqrt10001 +ℤ pos tick_hi_offset) (2 ^ 128),
    )

unfoldable pub get_tick_at_sqrt_ratio : ℕ → Checked ℤ
unfolding check_uint
get_tick_at_sqrt_ratio sqrt_price_x96 = do
  check_uint sqrt_price_x96 max_uint160 ratio_bound
  raise_if (not (leb min_sqrt_ratio sqrt_price_x96 && ltb sqrt_price_x96 max_sqrt_ratio))
      ratio_bound
  let (tick_low, tick_hi) = tick_candidates sqrt_price_x96
  if eqb_ℤ tick_low tick_hi then ok tick_low else do
    ratio_hi ← get_sqrt_ratio_at_tick tick_hi
    ok (if leb ratio_hi sqrt_price_x96 then tick_hi else tick_low)
