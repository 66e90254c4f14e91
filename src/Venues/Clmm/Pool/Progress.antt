-- ===== src/Venues/Clmm/Pool/Progress.antt =====
-- venues/clmm/pool.py, `_next_initialized_tick_within_one_word`: the next tick lies in the direction of the
-- swap.
use native.Mathlib.Nat.{mul-le-mul_right, div-mul-le_self, lt-div-mul-add}
use memeval.Prelude.{
  ℕ, ◌+◌, ◌*◌, ◌/◌, ◌≤◌, ◌<◌, ◌≡◌, ap, inl, inr, true, false, Bool-cases, Option, none, some,
  Option-cases, List, [], ◌∷◌, arith,
}
use memeval.Prelude.Int.{
  ℤ, pos, negsuc, pos_part, neg_part, ◌+ℤ◌, ◌-ℤ◌, ◌*ℤ◌, ◌≤ℤ◌, ◌<ℤ◌, floor_div, leb_ℤ, ltb_ℤ,
  int_laws,
}
use memeval.Venues.Clmm.Pool.{ClPoolState}
use memeval.Venues.Clmm.Pool.Swap.{last_at_most, first_at_least, next_initialized_tick}

mul_parts :
    (a : ℤ) (s : ℕ)
    → (pos_part (a *ℤ pos s) ≡ pos_part a * s) × (neg_part (a *ℤ pos s) ≡ neg_part a * s)
unfolding ◌*ℤ◌
mul_parts (pos n) s = ground arith
mul_parts (negsuc n) s = ground arith

mul_mono : (a b : ℤ) (s : ℕ) → a ≤ℤ b → a *ℤ pos s ≤ℤ b *ℤ pos s
mul_mono a b s h =
    let more : (pos_part a + neg_part b) * s ≤ (pos_part b + neg_part a) * s =
      mul-le-mul_right s h in
    omega (arith, more, mul_parts a s, mul_parts b s)

floor_div-below : (x : ℤ) (d : ℕ) → 0 < d → floor_div x d *ℤ pos d ≤ℤ x
unfolding floor_div
floor_div-below (pos n) d h = omega (arith, mul_parts (pos (n / d)) d, div-mul-le_self n d)
floor_div-below (negsuc n) d h =
    omega (arith, mul_parts (negsuc (n / d)) d, lt-div-mul-add {a = n} h)

floor_div-above : (x : ℤ) (d : ℕ) → 0 < d → x <ℤ (floor_div x d +ℤ pos 1) *ℤ pos d
unfolding floor_div
floor_div-above (pos n) d h =
    let next : pos (n / d) +ℤ pos 1 ≡ pos (n / d + 1) = omega int_laws in
    rw next (omega (arith, mul_parts (pos (n / d + 1)) d, lt-div-mul-add {a = n} h))
floor_div-above (negsuc n) d h =
    let a = negsuc (n / d) +ℤ pos 1 in
    let diff : pos_part a + n / d ≡ neg_part a = omega int_laws in
    omega (arith, mul_parts a d, ap (λ t. t * d) diff, div-mul-le_self n d)

last_at_most-le :
    (xs : List ℤ) (t : ℤ) (best : Option ℤ) {x : ℤ}
    → ((b : ℤ) → best ≡ some b → b ≤ℤ t)
    → last_at_most xs t best ≡ some x
    → x ≤ℤ t
unfolding last_at_most
last_at_most-le [] t best h e = h _ e
last_at_most-le (y ∷ xs) t best {x} h e = elim (Bool-cases (leb_ℤ y t)) [
  | inl low ↦ last_at_most-le xs t (some y) (λ b eq. ground arith) (rw (low, last_at_most) at e)
  | inr high ↦ h x (ground arith)
]

first_at_least-le : (xs : List ℤ) (t : ℤ) {x : ℤ} → first_at_least xs t ≡ some x → t ≤ℤ x
unfolding first_at_least
first_at_least-le [] t e = ground arith
first_at_least-le (y ∷ xs) t e = elim (Bool-cases (ltb_ℤ y t)) [
  | inl low ↦ first_at_least-le xs t (rw (low, first_at_least) at e)
  | inr high ↦ ground arith
]

in_word : (x : ℤ) → x ≤ℤ floor_div x 256 *ℤ pos 256 +ℤ pos 255
in_word x =
    let a = floor_div x 256 in
    let next = floor_div-above x 256 (omega arith) in
    omega (int_laws, next, mul_parts a 256, mul_parts (a +ℤ pos 1) 256)

-- Going down, the next tick is at most the current one.
pub next_initialized_tick-down :
    (p : ClPoolState) (tick : ℤ) (sorted : List ℤ)
    → 0 < p.tick_spacing
    → (next_initialized_tick p tick true sorted).0 ≤ℤ tick
unfolding next_initialized_tick
next_initialized_tick-down p tick sorted h =
    let compressed = floor_div tick p.tick_spacing in
    let word = floor_div compressed 256 *ℤ pos 256 in
    let base = floor_div-below tick p.tick_spacing h in
    let inside : compressed -ℤ (compressed -ℤ word) ≤ℤ compressed =
      omega (int_laws, floor_div-below compressed 256 (omega arith)) in
    let start = mul_mono (compressed -ℤ (compressed -ℤ word)) compressed p.tick_spacing inside in
    elim (Option-cases (last_at_most sorted (compressed *ℤ pos p.tick_spacing) none)) [
      | inl nothing ↦ rw nothing (omega (arith, start, base))
      | inr (t, found) ↦
          let low =
            last_at_most-le sorted (compressed *ℤ pos p.tick_spacing) none (λ b e. ground arith)
              found in
          elim (Bool-cases (leb_ℤ ((compressed -ℤ (compressed -ℤ word)) *ℤ pos p.tick_spacing) t)) [
            | inl near ↦ rw (found, near) (omega (arith, low, base))
            | inr far ↦ rw (found, far) (omega (arith, start, base))
          ]
    ]

-- Going up, it is above the current one.
pub next_initialized_tick-up :
    (p : ClPoolState) (tick : ℤ) (sorted : List ℤ)
    → 0 < p.tick_spacing
    → tick <ℤ (next_initialized_tick p tick false sorted).0
unfolding next_initialized_tick
next_initialized_tick-up p tick sorted h =
    let up = floor_div tick p.tick_spacing +ℤ pos 1 in
    let word = floor_div up 256 *ℤ pos 256 in
    let base = floor_div-above tick p.tick_spacing h in
    let last = up +ℤ (pos 255 -ℤ (up -ℤ word)) in
    let inside : up ≤ℤ last = omega (int_laws, in_word up) in
    let end = mul_mono up last p.tick_spacing inside in
    elim (Option-cases (first_at_least sorted (up *ℤ pos p.tick_spacing))) [
      | inl nothing ↦ rw nothing (omega (arith, end, base))
      | inr (t, found) ↦
          let high = first_at_least-le sorted (up *ℤ pos p.tick_spacing) found in
          elim (Bool-cases (leb_ℤ t (last *ℤ pos p.tick_spacing))) [
            | inl near ↦ rw (found, near) (omega (arith, high, base))
            | inr far ↦ rw (found, far) (omega (arith, end, base))
          ]
    ]
