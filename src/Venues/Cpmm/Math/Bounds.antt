-- ===== src/Venues/Cpmm/Math/Bounds.antt =====
-- Bounds on the amounts of venues/cpmm/math.py.
use native.Mathlib.Nat.{
  mul-le-mul_left, le_of_mul-le-mul_right, div-mul-le_self, lt-mul-div-succ, le_trans,
  mul-lt-mul_of_pos_left, le-div_iff_mul-le, div-lt_iff_lt-mul,
}
use memeval.Prelude.{ℕ, ◌+◌, ◌-◌, ◌*◌, ◌/◌, ◌≤◌, ◌<◌, ◌≡◌, ok, ap, arith}
use memeval.Prelude.Int.{ℤ, pos, negsuc, ◌+ℤ◌, ◌-ℤ◌, ◌*ℤ◌, ◌≤ℤ◌, ◌<ℤ◌, parts_eq}
use memeval.Venues.Cpmm.Math.{get_amount_out, get_amount_in}
use memeval.Venues.Cpmm.Math.Exact.{
  get_amount_out-OutOf, get_amount_in-InOf, get_amount_out-pos, pos-mul, pos-add, pos-sub,
}

-- The quotient stays below the reserve: its denominator has the term `x * d` more.
quotient-lt : (a x y n d : ℕ) → 0 < x → 0 < y → 0 < d → a * n * y / (x * d + a * n) < y
quotient-lt a x y n d hx hy hd =
    let den_pos : 0 < x * d + a * n = grind arith in
    (div-lt_iff_lt-mul den_pos).1
      (grind (arith, mul-lt-mul_of_pos_left {m = 0} {n = x * d} {k = y}))

-- What is left of the reserve pays for the input: `q * x ≤ a * (y - q)`.
quotient_paid :
    (a x y n d q : ℕ)
    → 0 < d
    → n ≤ d
    → q * (x * d + a * n) ≤ a * n * y
    → q ≤ y
    → x * y ≤ (x + a) * (y - q)
quotient_paid a x y n d q hd hn h hy =
    let r : ℕ = y - q in
    let y_eq : y ≡ q + r = omega arith in
    let lhs : q * (x * d + a * n) ≤ a * n * (q + r) = rw y_eq at h in
    let paid : q * x * d ≤ a * r * n = omega (arith, lhs) in
    let more : a * r * n ≤ a * r * d = mul-le-mul_left (a * r) hn in
    let kept : q * x ≤ a * r = le_of_mul-le-mul_right {k = d} (le_trans paid more) hd in
    omega (arith, ap (λ t. x * t) y_eq, ap (λ t. a * t) y_eq, kept)

-- A successful swap pays out at least nothing and less than the output reserve holds.
pub get_amount_out-lt-reserve :
    (amount_in reserve_in reserve_out fee_num fee_den : ℤ) {out : ℤ}
    → get_amount_out amount_in reserve_in reserve_out fee_num fee_den ≡ ok out
    → (pos 0 ≤ℤ out) × (out <ℤ reserve_out)
get_amount_out-lt-reserve i r s f g h =
    let o = get_amount_out-OutOf i r s f g h in
    ground (arith, o.reserve_out_eq, o.out_eq, quotient-lt o.a o.x o.y o.n o.d)

-- The invariant of a constant product: a successful swap never lowers the product of the reserves.
pub get_amount_out_product :
    (amount_in reserve_in reserve_out fee_num fee_den : ℤ) {out : ℤ}
    → get_amount_out amount_in reserve_in reserve_out fee_num fee_den ≡ ok out
    → reserve_in *ℤ reserve_out ≤ℤ (reserve_in +ℤ amount_in) *ℤ (reserve_out -ℤ out)
get_amount_out_product i r s f g h =
    let o = get_amount_out-OutOf i r s f g h in
    let q : ℕ = o.a * o.n * o.y / (o.x * o.d + o.a * o.n) in
    let below : q < o.y = quotient-lt o.a o.x o.y o.n o.d o.x_pos o.y_pos (omega arith) in
    let paid =
      quotient_paid o.a o.x o.y o.n o.d q (omega arith) o.fee_le
        (div-mul-le_self (o.a * o.n * o.y) (o.x * o.d + o.a * o.n)) (omega arith) in
    rw
      (
        o.amount_in_eq,
        o.reserve_in_eq,
        o.reserve_out_eq,
        o.out_eq,
        pos-mul o.x o.y,
        pos-add o.x o.a,
        pos-sub o.y q (omega arith),
        pos-mul (o.x + o.a) (o.y - q),
      )
      (omega (arith, paid))

widen : (x y a b o : ℕ) → x * y ≤ (x + a) * (y - b) → o ≤ b → x * y ≤ (x + a) * (y - o)
widen x y a b o h le =
    let shrink : y - b ≤ y - o = omega arith in le_trans h (mul-le-mul_left (x + a) shrink)

-- The two sides of a pool after a swap that pays out at most what the formula allows.
pub sides_product :
    (i r s f g best out : ℤ)
    → get_amount_out i r s f g ≡ ok best
    → pos 0 <ℤ out
    → out ≤ℤ best
    → (pos 0 <ℤ r +ℤ i) × (pos 0 <ℤ s -ℤ out) × (r *ℤ s ≤ℤ (r +ℤ i) *ℤ (s -ℤ out))
sides_product i r s f g best (negsuc m) h p le = absurd (omega arith)
sides_product i r s f g best (pos m) h p le =
    let o = get_amount_out-OutOf i r s f g h in
    let q : ℕ = o.a * o.n * o.y / (o.x * o.d + o.a * o.n) in
    let below : q < o.y = quotient-lt o.a o.x o.y o.n o.d o.x_pos o.y_pos (omega arith) in
    let le_q : m ≤ q = omega (arith, parts_eq o.out_eq) in
    let paid =
      quotient_paid o.a o.x o.y o.n o.d q (omega arith) o.fee_le
        (div-mul-le_self (o.a * o.n * o.y) (o.x * o.d + o.a * o.n)) (omega arith) in
    rw
      (
        o.amount_in_eq,
        o.reserve_in_eq,
        o.reserve_out_eq,
        pos-mul o.x o.y,
        pos-add o.x o.a,
        pos-sub o.y m (omega arith),
        pos-mul (o.x + o.a) (o.y - m),
      )
      (omega arith, omega arith, omega (arith, widen o.x o.y o.a q m paid le_q))

abbrev in_quotient : ℕ → ℕ → ℕ → ℕ → ℕ → ℕ
in_quotient o x y n d = x * o * d / ((y - o) * n)

round_up : (o x r n d a : ℕ) → x * o * d ≤ r * n * a → o * (x * d + a * n) ≤ a * n * (o + r)
round_up o x r n d a h = omega arith

-- The inverse rounds up: paying what it asks for buys at least the amount that was asked.
quotient_round :
    (o x y n d : ℕ)
    → 0 < x
    → o < y
    → 0 < n
    → 0 < d
    → let a = in_quotient o x y n d + 1 in o ≤ a * n * y / (x * d + a * n)
quotient_round o x y n d hx ho hn hd =
    let r : ℕ = y - o in
    let a : ℕ = in_quotient o x y n d + 1 in
    let y_eq : o + r ≡ y = omega arith in
    let r_pos : 0 < r = omega arith in
    let r_den : 0 < r * n = grind arith in
    let above : x * o * d < (r * n) * a = lt-mul-div-succ (x * o * d) r_den in
    let bound = round_up o x r n d a (omega arith) in
    let xd_pos : 0 < x * d = grind arith in
    (le-div_iff_mul-le (omega arith)).1 (omega (arith, bound, ap (λ t. a * n * t) y_eq))

-- The input that `get_amount_in` asks for a positive output is positive, and swapping that input
-- gives at least that output.
pub get_amount_out-get_amount_in :
    (amount_out reserve_in reserve_out fee_num fee_den : ℤ) {amount_in : ℤ}
    → pos 0 <ℤ fee_num
    → fee_num ≤ℤ fee_den
    → get_amount_in amount_out reserve_in reserve_out fee_num fee_den ≡ ok amount_in
    → (out : ℤ) × (get_amount_out amount_in reserve_in reserve_out fee_num fee_den ≡ ok out)
      × (amount_out ≤ℤ out)
      × (pos 0 <ℤ amount_in)
get_amount_out-get_amount_in o r s f g hf hg h =
    let i = get_amount_in-InOf o r s f g hf hg h in
    let a : ℕ = in_quotient i.o i.x i.y i.n i.d + 1 in
    rw
      (
        i.amount_out_eq, i.reserve_in_eq, i.reserve_out_eq, i.fee_num_eq, i.fee_den_eq,
        i.amount_in_eq,
      )
      (
        pos (a * i.n * i.y / (i.x * i.d + a * i.n)),
        get_amount_out-pos a i.x i.y i.n i.d (omega arith) i.x_pos (omega arith) i.n_pos i.fee_le,
        omega (arith, quotient_round i.o i.x i.y i.n i.d i.x_pos i.o_lt i.n_pos (omega arith)),
        omega arith,
      )
