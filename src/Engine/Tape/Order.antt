-- ===== src/Engine/Tape/Order.antt =====
-- engine/tape.py, `to_relative`: the order of the tape.
use memeval.Prelude.{
  ◌≡◌, true, false, List, [], ◌∷◌, ok, arith, Bool-cases, inl, inr, >>=-eq-ok, raise_if,
}
use memeval.Prelude.Int.{ℤ, ◌≤ℤ◌, ltb_ℤ}
use memeval.Engine.Tape.{
  RelEvent, TapeEvent, not_monotone, key_leb, insert_event, sort_events, check_times, to_relative,
  relative,
}

-- Each event is at most the next one: by the key of the order, and by the time.
pub IsKeyOrdered : List RelEvent → Type 0
IsKeyOrdered [] = Unit
IsKeyOrdered (x ∷ []) = Unit
IsKeyOrdered (x ∷ y ∷ events) = (key_leb x y ≡ true) × IsKeyOrdered (y ∷ events)

unfoldable pub IsTimeOrdered : List RelEvent → Type 0
IsTimeOrdered [] = Unit
IsTimeOrdered (x ∷ []) = Unit
IsTimeOrdered (x ∷ y ∷ events) = (x.time_ms ≤ℤ y.time_ms) × IsTimeOrdered (y ∷ events)

key_leb_total : (a b : RelEvent) → key_leb a b ≡ false → key_leb b a ≡ true
unfolding key_leb
key_leb_total a b h = ground arith

insert_event-IsKeyOrdered :
    (e : RelEvent) (xs : List RelEvent) → IsKeyOrdered xs → IsKeyOrdered (insert_event e xs)
unfolding insert_event IsKeyOrdered
insert_event-IsKeyOrdered e [] h = tt
insert_event-IsKeyOrdered e (x ∷ []) h = elim (Bool-cases (key_leb e x)) [
  | inl first ↦ rw first (first, tt)
  | inr later ↦ rw later (key_leb_total e x later, tt)
]
insert_event-IsKeyOrdered e (x ∷ y ∷ xs) h =
    let rest = insert_event-IsKeyOrdered e (y ∷ xs) h.1 in
    elim (Bool-cases (key_leb e x)) [
      | inl first ↦ rw first (first, h)
      | inr later ↦ elim (Bool-cases (key_leb e y)) [
        | inl second ↦ let r = rw second at rest in rw (later, second) (key_leb_total e x later, r)
        | inr further ↦ let r = rw further at rest in rw (later, further) (h.0, r)
      ]
    ]

sort_events-IsKeyOrdered :
    (start : ℤ) (events : List TapeEvent) → IsKeyOrdered (sort_events start events)
unfolding sort_events IsKeyOrdered
sort_events-IsKeyOrdered start [] = tt
sort_events-IsKeyOrdered start (e ∷ events) =
    insert_event-IsKeyOrdered (relative start e) (sort_events start events)
      (sort_events-IsKeyOrdered start events)

check_times-IsTimeOrdered :
    (xs : List RelEvent) {u : Unit {0}} → check_times xs ≡ ok u → IsTimeOrdered xs
unfolding check_times IsTimeOrdered
check_times-IsTimeOrdered [] h = tt
check_times-IsTimeOrdered (x ∷ []) h = tt
check_times-IsTimeOrdered (x ∷ y ∷ xs) h =
    let (_, le, rest) =
      >>=-eq-ok (raise_if (ltb_ℤ y.time_ms x.time_ms) not_monotone) (λ done. check_times (y ∷ xs))
        h in
    (ground arith, check_times-IsTimeOrdered (y ∷ xs) rest)

-- A tape that is converted is ordered by block, log index and sequence number, and its times never
-- decrease.
pub to_relative-IsOrdered :
    (events : List TapeEvent) (start : ℤ) {tape : List RelEvent}
    → to_relative events start ≡ ok tape
    → IsKeyOrdered tape × IsTimeOrdered tape
unfolding to_relative
to_relative-IsOrdered events start {tape} h =
    let (_, checked, rest) = >>=-eq-ok (check_times (sort_events start events)) _ h in
    let same : sort_events start events ≡ tape = ground arith in
    rw (← same) (sort_events-IsKeyOrdered start events, check_times-IsTimeOrdered _ checked)
