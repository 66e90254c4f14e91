-- ===== src/Venues/Cpmm/Math/Exact.antt =====
-- get_amount_out and get_amount_in of venues/cpmm/math.py in closed form over the naturals.
use memeval.Prelude.{ℕ, ◌+◌, ◌-◌, ◌*◌, ◌/◌, ◌≤◌, ◌<◌, ◌≡◌, ok, arith}
use memeval.Prelude.Int.{ℤ, pos, ◌+ℤ◌, ◌-ℤ◌, ◌*ℤ◌, floor_div, ◌≤ℤ◌, ◌<ℤ◌}
use memeval.Venues.Cpmm.Math.{get_amount_out, get_amount_in}

pub pos-mul : (a b : ℕ) → pos a *ℤ pos b ≡ pos (a * b)
unfolding ◌*ℤ◌
pos-mul a b = ground arith

pub pos-add : (a b : ℕ) → pos a +ℤ pos b ≡ pos (a + b)
unfolding ◌+ℤ◌
pos-add a b = ground arith

pub pos-sub : (a b : ℕ) → b ≤ a → pos a -ℤ pos b ≡ pos (a - b)
unfolding ◌-ℤ◌
pos-sub a b h = ground arith

-- What a success says of its arguments.
pub record OutOf (amount_in reserve_in reserve_out fee_num fee_den out : ℤ) : Type 0 where
  pub a : ℕ
  pub x : ℕ
  pub y : ℕ
  pub n : ℕ
  pub d : ℕ
  pub amount_in_eq : amount_in ≡ pos a
  pub reserve_in_eq : reserve_in ≡ pos x
  pub reserve_out_eq : reserve_out ≡ pos y
  pub fee_num_eq : fee_num ≡ pos n
  pub fee_den_eq : fee_den ≡ pos d
  pub a_pos : 0 < a
  pub x_pos : 0 < x
  pub y_pos : 0 < y
  pub n_pos : 0 < n
  pub fee_le : n ≤ d
  pub out_eq : out ≡ pos (a * n * y / (x * d + a * n))

pub get_amount_out-pos :
    (a x y n d : ℕ)
    → 0 < a
    → 0 < x
    → 0 < y
    → 0 < n
    → n ≤ d
    → get_amount_out (pos a) (pos x) (pos y) (pos n) (pos d)
      ≡ ok (pos (a * n * y / (x * d + a * n)))
unfolding get_amount_out floor_div
get_amount_out-pos a x y n d ha hx hy hn hd =
    ground (arith, pos-mul a n, pos-mul (a * n) y, pos-mul x d, pos-add (x * d) (a * n))

pub get_amount_out-OutOf :
    (i r s f g : ℤ) {q : ℤ} → get_amount_out i r s f g ≡ ok q → OutOf i r s f g q
unfolding get_amount_out
get_amount_out-OutOf (pos a) (pos x) (pos y) (pos n) (pos d) h = grind (arith, get_amount_out-pos)
get_amount_out-OutOf _ _ _ _ _ h = absurd (ground arith)

-- What a success of the inverse says, at a fee that `get_amount_out` accepts.
pub record InOf (amount_out reserve_in reserve_out fee_num fee_den amount_in : ℤ) : Type 0 where
  pub o : ℕ
  pub x : ℕ
  pub y : ℕ
  pub n : ℕ
  pub d : ℕ
  pub amount_out_eq : amount_out ≡ pos o
  pub reserve_in_eq : reserve_in ≡ pos x
  pub reserve_out_eq : reserve_out ≡ pos y
  pub fee_num_eq : fee_num ≡ pos n
  pub fee_den_eq : fee_den ≡ pos d
  pub o_pos : 0 < o
  pub x_pos : 0 < x
  pub o_lt : o < y
  pub n_pos : 0 < n
  pub fee_le : n ≤ d
  pub amount_in_eq : amount_in ≡ pos (x * o * d / ((y - o) * n) + 1)

get_amount_in-pos :
    (o x y n d : ℕ)
    → 0 < o
    → 0 < x
    → o < y
    → get_amount_in (pos o) (pos x) (pos y) (pos n) (pos d)
      ≡ ok (pos (x * o * d / ((y - o) * n) + 1))
unfolding get_amount_in floor_div
get_amount_in-pos o x y n d ho hx hy = ground (
  arith,
  pos-mul x o,
  pos-mul (x * o) d,
  pos-sub y o,
  pos-mul (y - o) n,
  pos-add (x * o * d / ((y - o) * n)) 1,
)

pub get_amount_in-InOf :
    (o r s f g : ℤ) {q : ℤ}
    → pos 0 <ℤ f
    → f ≤ℤ g
    → get_amount_in o r s f g ≡ ok q
    → InOf o r s f g q
unfolding get_amount_in
get_amount_in-InOf (pos o) (pos x) (pos y) (pos n) (pos d) hf hg h =
    grind (arith, get_amount_in-pos)
get_amount_in-InOf _ _ _ _ _ hf hg h = absurd (ground arith)
