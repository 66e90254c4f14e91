-- ===== src/Engine/Blocks.antt =====
-- engine/blocks.py: block schedules map virtual time to block numbers and back. `bisect` on a sorted
-- list counts the elements before the insertion point.
use memeval.Prelude.{
  ℕ, zero, suc, ◌-◌, Bool, not, ◌&&◌, ◌||◌, Option, none, some, List, [], ◌∷◌, Result, ok, err,
  raise_if, ◌>>◌, get_elem?, if◌then◌else◌,
}
use memeval.Prelude.Int.{ℤ, pos, pos_part, ◌+ℤ◌, ◌-ℤ◌, ◌*ℤ◌, floor_div, ltb_ℤ, leb_ℤ, eqb_ℤ}

pub data BlockScheduleError : Type 0 where
  beyond_schedule outside_schedule empty_table not_contiguous decreasing_times : BlockScheduleError

pub record FixedIntervalSchedule : Type 0 where
  pub first : ℤ
  pub origin_ms : ℤ
  pub interval_ms : ℕ
  pub last : ℤ

unfoldable pub fixed_block_at_or_after : FixedIntervalSchedule → ℤ → Result BlockScheduleError ℤ
fixed_block_at_or_after s time_ms =
    let n = floor_div (time_ms -ℤ s.origin_ms +ℤ pos s.interval_ms -ℤ pos 1) s.interval_ms in
    let b = s.first +ℤ n in
    if leb_ℤ time_ms s.origin_ms
    then ok s.first
    else if ltb_ℤ s.last b
    then err beyond_schedule
    else ok b

unfoldable pub fixed_time_of : FixedIntervalSchedule → ℤ → Result BlockScheduleError ℤ
fixed_time_of s block =
    if ltb_ℤ block s.first || ltb_ℤ s.last block
    then err outside_schedule
    else ok (s.origin_ms +ℤ (block -ℤ s.first) *ℤ pos s.interval_ms)

unfoldable pub fixed_block_containing : FixedIntervalSchedule → ℤ → ℤ
fixed_block_containing s time_ms =
    let b = s.first +ℤ floor_div (time_ms -ℤ s.origin_ms) s.interval_ms in
    if ltb_ℤ time_ms s.origin_ms then s.first -ℤ pos 1 else if leb_ℤ b s.last then b else s.last

-- A sorted row of the table: `(block, time_ms)`.
abbrev pub Row : Type 0
Row = ℤ × ℤ

abbrev row_leb : Row → Row → Bool
row_leb (b, t) (c, u) = ltb_ℤ b c || eqb_ℤ b c && leb_ℤ t u

-- `sorted(rows)`, which is stable and orders pairs by their first part and then by the second
unfoldable pub insert_row : Row → List Row → List Row
insert_row r [] = r ∷ []
insert_row r (x ∷ rows) = if row_leb r x then r ∷ x ∷ rows else x ∷ insert_row r rows

unfoldable pub sort_rows : List Row → List Row
unfolding insert_row
sort_rows [] = []
sort_rows (r ∷ rows) = insert_row r (sort_rows rows)

-- the loop over neighbouring rows
unfoldable pub check_rows : List Row → Result BlockScheduleError (Unit {0})
check_rows [] = ok tt
check_rows (x ∷ []) = ok tt
check_rows (x ∷ y ∷ rows) = do
  raise_if (not (eqb_ℤ y.0 (x.0 +ℤ pos 1))) not_contiguous
  raise_if (ltb_ℤ y.1 x.1) decreasing_times
  check_rows (y ∷ rows)

-- `TableSchedule(rows)`: the sorted rows; the first is kept apart, since the table is not empty.
pub record TableSchedule : Type 0 where
  pub head : Row
  pub rows : List Row

abbrev of_sorted : List Row → Result BlockScheduleError TableSchedule
of_sorted [] = err empty_table
of_sorted (x ∷ rows) = check_rows (x ∷ rows) >> ok (record { head = x; rows = rows })

unfoldable pub create_table : List Row → Result BlockScheduleError TableSchedule
unfolding sort_rows check_rows
create_table rows = of_sorted (sort_rows rows)

abbrev pub all_rows : TableSchedule → List Row
all_rows s = s.head ∷ s.rows

-- `bisect_left(times, t)` and `bisect_right(times, t)` on sorted times
unfoldable pub bisect_left : List Row → ℤ → ℕ
bisect_left [] time_ms = 0
bisect_left ((_, t) ∷ rows) time_ms =
    let rest = bisect_left rows time_ms in if ltb_ℤ t time_ms then suc rest else 0

unfoldable pub bisect_right : List Row → ℤ → ℕ
bisect_right [] time_ms = 0
bisect_right ((_, t) ∷ rows) time_ms =
    let rest = bisect_right rows time_ms in if leb_ℤ t time_ms then suc rest else 0

abbrev block_at : List Row → ℕ → Option ℤ
block_at rows i = elim (get_elem? rows i) [ none ↦ none | some (b, _) ↦ some b ]

unfoldable pub table_block_at_or_after : TableSchedule → ℤ → Result BlockScheduleError ℤ
unfolding bisect_left
table_block_at_or_after s time_ms =
    elim (get_elem? (all_rows s) (bisect_left (all_rows s) time_ms)) [
      | none ↦ err beyond_schedule
      | some (b, _) ↦ ok b
    ]

unfoldable pub table_time_of : TableSchedule → ℤ → Result BlockScheduleError ℤ
table_time_of s block =
    let i = block -ℤ s.head.0 in
    let row = get_elem? (all_rows s) (pos_part i) in
    if ltb_ℤ i (pos 0)
    then err outside_schedule
    else elim row [ none ↦ err outside_schedule | some (_, t) ↦ ok t ]

-- the row before the insertion point, if there is one
unfoldable pub table_block_containing : TableSchedule → ℤ → ℤ
unfolding bisect_right
table_block_containing s time_ms =
    let i = bisect_right (all_rows s) time_ms in
    elim (get_elem? (all_rows s) (i - 1)) [
      | none ↦ s.head.0 -ℤ pos 1
      | some (b, _) ↦ elim i [ zero ↦ s.head.0 -ℤ pos 1 | suc _ ↦ b ]
    ]

unfoldable pub last_of : Row → List Row → ℤ
last_of x [] = x.0
last_of x (y ∷ rows) = last_of y rows

pub data BlockSchedule : Type 0 where
  fixed : FixedIntervalSchedule → BlockSchedule
  table : TableSchedule → BlockSchedule

unfoldable pub block_at_or_after : BlockSchedule → ℤ → Result BlockScheduleError ℤ
unfolding fixed_block_at_or_after table_block_at_or_after
block_at_or_after (fixed s) time_ms = fixed_block_at_or_after s time_ms
block_at_or_after (table s) time_ms = table_block_at_or_after s time_ms

unfoldable pub time_of : BlockSchedule → ℤ → Result BlockScheduleError ℤ
unfolding fixed_time_of table_time_of
time_of (fixed s) block = fixed_time_of s block
time_of (table s) block = table_time_of s block

unfoldable pub block_containing : BlockSchedule → ℤ → ℤ
unfolding fixed_block_containing table_block_containing
block_containing (fixed s) time_ms = fixed_block_containing s time_ms
block_containing (table s) time_ms = table_block_containing s time_ms

unfoldable pub last_block : BlockSchedule → ℤ
unfolding last_of
last_block (fixed s) = s.last
last_block (table s) = last_of s.head s.rows
