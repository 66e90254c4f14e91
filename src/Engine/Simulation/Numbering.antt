-- ===== src/Engine/Simulation/Numbering.antt =====
-- engine/simulation.py, `submit`: the identifier of an order, which is "ord_" and the sequence number with
-- six digits or more.
use Prim.Native.String.{◌++◌ as text_append}
use memeval.Prelude.{ℕ, zero, suc, ◌/◌, ◌%◌, String, if◌then◌else◌, ltb, ◌==◌}

-- The digits of a number.
abbrev digit : ℕ → String
digit d =
    if d == 0
    then "0"
    else if d == 1
    then "1"
    else if d == 2
    then "2"
    else if d == 3
    then "3"
    else if d == 4
    then "4"
    else if d == 5
    then "5"
    else if d == 6
    then "6"
    else if d == 7
    then "7"
    else if d == 8
    then "8"
    else "9"

-- The fuel is the number itself, which has fewer digits.
unfoldable pub digits : ℕ → ℕ → String → String
digits zero n acc = acc
digits (suc f) n acc =
    let more = text_append (digit (n % 10)) acc in
    let rest = digits f (n / 10) more in if n == 0 then acc else rest

abbrev pub padding : ℕ → String
padding n =
    if ltb n 10
    then "00000"
    else if ltb n 100
    then "0000"
    else if ltb n 1000
    then "000"
    else if ltb n 10000
    then "00"
    else if ltb n 100000
    then "0"
    else ""

-- f"ord_{n:06d}"; the source counts from one
unfoldable pub order_id_of : ℕ → String
unfolding digits
order_id_of n = text_append "ord_" (text_append (padding n) (digits n n ""))
