-- ===== src/Engine/Scheduler/Due.antt =====
-- engine/simulation.py, the time loop: the next event, and what is due at its time.
use mathlib.Core.Path.{subst}
use memeval.Prelude.{
  ℕ, ◌≡◌, ◌⊎◌, refl, inl, inr, Bool-cases, true, false, List, [], ◌∷◌, ◌++◌, Result, ok, map_err-ok,
  ◌>>=◌, >>=-eq-ok, ok-injective, arith, All, ◌∙◌, sym, if◌then◌else◌,
}
use memeval.Prelude.Int.{ℤ, ltb_ℤ, leb_ℤ, eqb_ℤ, eqb_ℤ_iff, int_eq}
use memeval.Prelude.Dict.{get, contains}
use memeval.Engine.Blocks.{BlockSchedule, BlockScheduleError, time_of}
use memeval.Engine.Tape.{RelEvent}
use memeval.Engine.Venue.{Venue}
use memeval.Engine.Simulation.{Simulation, schedule_error, BrokerError}
use memeval.Engine.Simulation.Routes.{inf}
use memeval.Engine.Scheduler.{
  Episode, Queue, earliest, next_tape, next_event_time, min_ℤ, blocks_at, insert_block, sort_blocks,
  is_empty,
}
use memeval.Engine.Scheduler.Loop.{blocks_here}
use memeval.Engine.Scheduler.Work.{due, head_due}

-- A block of the queue has the time `t`.
abbrev pub HasTime : BlockSchedule → ℤ → Queue → Type 0
HasTime schedule t [] = ⊥
HasTime schedule t ((b, _) ∷ queue) = (time_of schedule b ≡ ok t) ⊎ HasTime schedule t queue

earliest-HasTime :
    (schedule : BlockSchedule) (nxt : ℤ) (queue : Queue) {t : ℤ}
    → earliest schedule nxt queue ≡ ok t
    → (nxt ≡ t) ⊎ HasTime schedule t queue
unfolding earliest
earliest-HasTime schedule nxt [] h = inl (ok-injective h)
earliest-HasTime schedule nxt ((b, ns) ∷ queue) {t} h =
    let (u, at, rest) = >>=-eq-ok (time_of schedule b) _ h in
    elim (earliest-HasTime schedule (min_ℤ nxt u) queue rest) [
      | inr later ↦ inr (inr later)
      | inl e ↦ elim (Bool-cases (ltb_ℤ u nxt)) [
        | inl less ↦ let same : u ≡ t = ground arith in inr (inl (rw same at at))
        | inr more ↦ inl (ground arith)
      ]
    ]

blocks_at-is_empty :
    (schedule : BlockSchedule) (t : ℤ) (queue : Queue) {bs : List ℤ}
    → blocks_at schedule t queue ≡ ok bs
    → HasTime schedule t queue
    → is_empty bs ≡ false
unfolding blocks_at
blocks_at-is_empty schedule t [] h found = elim found [ ]
blocks_at-is_empty schedule t ((b, ns) ∷ queue) h found =
    let (u, at, rest) = >>=-eq-ok (time_of schedule b) _ h in
    let (cs, more, same) = >>=-eq-ok (blocks_at schedule t queue) _ rest in
    elim found [
      | inl here ↦ let e : u ≡ t = ok-injective (sym at ∙ here) in ground (arith, eqb_ℤ_iff u t)
      | inr later ↦ ground (arith, blocks_at-is_empty schedule t queue more later)
    ]

abbrev Listed : Queue → List ℤ → Type 0
Listed queue = All (λ b. contains queue b ≡ true)

grown :
    (b : ℤ) (ns : List ℕ) (queue : Queue) (bs : List ℤ)
    → Listed queue bs
    → Listed ((b, ns) ∷ queue) bs
unfolding get
grown b ns queue [] h = tt
grown b ns queue (c ∷ bs) h = (ground arith, grown b ns queue bs h.1)

blocks_at-contains :
    (schedule : BlockSchedule) (t : ℤ) (queue : Queue) {bs : List ℤ}
    → blocks_at schedule t queue ≡ ok bs
    → Listed queue bs
unfolding blocks_at get
blocks_at-contains schedule t [] h = subst (Listed []) (ok-injective h) tt
blocks_at-contains schedule t ((b, ns) ∷ queue) h =
    let (u, at, rest) = >>=-eq-ok (time_of schedule b) _ h in
    let (cs, more, same) = >>=-eq-ok (blocks_at schedule t queue) _ rest in
    let later = grown b ns queue cs (blocks_at-contains schedule t queue more) in
    let here : contains {V = List ℕ} ((b, ns) ∷ queue) b ≡ true = ground (arith, eqb_ℤ_iff b b) in
    subst (Listed ((b, ns) ∷ queue)) (ok-injective same)
      (elim (eqb_ℤ u t) as (λ x. Listed ((b, ns) ∷ queue) (if x then b ∷ cs else cs)) [
        | true ↦ (here, later)
        | false ↦ later
      ])

insert_block-All :
    (P : ℤ → Type 0) (b : ℤ) (bs : List ℤ) → P b → All P bs → All P (insert_block b bs)
unfolding insert_block
insert_block-All P b [] h hs = (h, tt)
insert_block-All P b (c ∷ bs) h (hc, hs) = elim (Bool-cases (eqb_ℤ b c)) [
  | inl same ↦ rw same (hc, hs)
  | inr other ↦ elim (Bool-cases (ltb_ℤ b c)) [
    | inl less ↦ rw (other, less) (h, (hc, hs))
    | inr more ↦ rw (other, more) (hc, insert_block-All P b bs h hs)
  ]
]

sort_blocks-All : (P : ℤ → Type 0) (bs : List ℤ) → All P bs → All P (sort_blocks bs)
unfolding sort_blocks
sort_blocks-All P [] hs = tt
sort_blocks-All P (b ∷ bs) (h, hs) =
    insert_block-All P b (sort_blocks bs) h (sort_blocks-All P bs hs)

sort_blocks-is_empty : (bs : List ℤ) → is_empty bs ≡ false → is_empty (sort_blocks bs) ≡ false
unfolding sort_blocks insert_block
sort_blocks-is_empty [] h = h
sort_blocks-is_empty (b ∷ bs) h =
    elim (sort_blocks bs) as (λ x. is_empty (insert_block b x) ≡ false) [
      | [] ↦ refl
      | c ∷ cs ↦ ground arith
    ]

Listed-due :
    {Pool : Type 0} (s : Simulation Pool) (bs cs : List ℤ)
    → Listed s.inclusions bs
    → Listed s.confirmations cs
    → All (λ b. due s b ≡ 1) (bs ++ cs)
Listed-due s [] [] h k = tt
Listed-due s [] (c ∷ cs) h k = (ground arith, Listed-due s [] cs h k.1)
Listed-due s (b ∷ bs) cs h k = (ground arith, Listed-due s bs cs h.1 k)

head-of :
    {Pool : Type 0} (s : Simulation Pool) (bs : List ℤ)
    → is_empty bs ≡ false
    → All (λ b. due s b ≡ 1) bs
    → head_due s bs ≡ 1
head-of s [] some_block h = ground arith
head-of s (b ∷ bs) some_block h = h.0

some_of :
    (bs cs : List ℤ) → (is_empty bs ≡ false) ⊎ (is_empty cs ≡ false) → is_empty (bs ++ cs) ≡ false
some_of [] cs h = ground arith
some_of (b ∷ bs) cs h = refl

-- The blocks that a round handles begin with one that a queue holds, where a queue has one at its time.
pub blocks_here-due :
    {Pool E : Type 0} (v : Venue Pool E) (s : Simulation Pool) (t : ℤ) {bs : List ℤ}
    → blocks_here v s t ≡ ok bs
    → HasTime s.schedule t s.inclusions ⊎ HasTime s.schedule t s.confirmations
    → head_due s bs ≡ 1
unfolding blocks_here
blocks_here-due {E} v s t h found =
    let found_here : Result BlockScheduleError (List ℤ) =
      blocks_at s.schedule t s.inclusions >>= λ bs.
      (blocks_at s.schedule t s.confirmations >>= λ cs. ok (sort_blocks (bs ++ cs))) in
    let h' = map_err-ok {F = BrokerError E} schedule_error found_here h in
    let (bs, ran, rest) = >>=-eq-ok (blocks_at s.schedule t s.inclusions) _ h' in
    let (cs, ran', same) = >>=-eq-ok (blocks_at s.schedule t s.confirmations) _ rest in
    let listed =
      Listed-due s bs cs (blocks_at-contains s.schedule t s.inclusions ran)
        (blocks_at-contains s.schedule t s.confirmations ran') in
    let some_block = some_of bs cs (elim found [
      | inl i ↦ inl (blocks_at-is_empty s.schedule t s.inclusions ran i)
      | inr c ↦ inr (blocks_at-is_empty s.schedule t s.confirmations ran' c)
    ]) in
    subst (λ x. head_due s x ≡ 1) (ok-injective same)
      (head-of s (sort_blocks (bs ++ cs)) (sort_blocks-is_empty (bs ++ cs) some_block)
        (sort_blocks-All (λ b. due s b ≡ 1) (bs ++ cs) listed))

abbrev pub TapeDue : List RelEvent → ℤ → Type 0
TapeDue [] t = ⊥
TapeDue (ev ∷ tape) t = ev.time_ms ≡ t

-- Why the loop stops at `t`.
pub data Due {Pool : Type 0} (w : Episode Pool) (t : ℤ) : Type 0 where
  at_inf : t ≡ inf → Due w t
  on_tape : TapeDue w.tape t → Due w t
  in_queue :
      HasTime w.sim.schedule t w.sim.inclusions ⊎ HasTime w.sim.schedule t w.sim.confirmations
      → Due w t
  on_grid : w.next_grid_ms ≡ t → leb_ℤ w.next_grid_ms w.sim.end_ms ≡ true → Due w t

next_tape-TapeDue : (tape : List RelEvent) {t : ℤ} → next_tape tape ≡ t → TapeDue tape t ⊎ (t ≡ inf)
next_tape-TapeDue [] h = inr (sym h)
next_tape-TapeDue (ev ∷ tape) {t} h = elim (Bool-cases (ltb_ℤ ev.time_ms inf)) [
  | inl less ↦ inl (rw less at h)
  | inr more ↦ inr (sym (rw more at h))
]

before_grid :
    {Pool : Type 0} (w : Episode Pool) {a t : ℤ}
    → earliest w.sim.schedule (next_tape w.tape) w.sim.inclusions ≡ ok a
    → earliest w.sim.schedule a w.sim.confirmations ≡ ok t
    → Due w t
before_grid w {a} {t} first second =
    elim (earliest-HasTime w.sim.schedule a w.sim.confirmations second) [
      | inr c ↦ in_queue (inr c)
      | inl e ↦
          elim (earliest-HasTime w.sim.schedule (next_tape w.tape) w.sim.inclusions
            (rw e at first)) [
              | inr i ↦ in_queue (inl i)
              | inl same ↦ elim (next_tape-TapeDue w.tape same) [
                | inl d ↦ on_tape d
                | inr never ↦ at_inf never
              ]
            ]
    ]

pub next_event_time-Due :
    {Pool : Type 0} (w : Episode Pool) {t : ℤ} → next_event_time w ≡ ok t → Due w t
unfolding next_event_time
next_event_time-Due w h =
    let (a, first, rest) =
      >>=-eq-ok (earliest w.sim.schedule (next_tape w.tape) w.sim.inclusions) _ h in
    let (b, second, same) = >>=-eq-ok (earliest w.sim.schedule a w.sim.confirmations) _ rest in
    let last = ok-injective same in
    elim (Bool-cases (leb_ℤ w.next_grid_ms w.sim.end_ms)) [
      | inr over ↦ before_grid w first (rw (rw over at last) at second)
      | inl running ↦ elim (Bool-cases (ltb_ℤ w.next_grid_ms b)) [
        | inl next ↦ on_grid (rw (running, next) at last) running
        | inr later ↦ before_grid w first (rw (rw (running, later) at last) at second)
      ]
    ]
