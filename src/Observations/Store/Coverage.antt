-- ===== src/Observations/Store/Coverage.antt =====
-- observations/store.py, `coverage_state`: what a complete coverage promises.
use memeval.Prelude.{◌≡◌, inl, inr, ◌⊎◌, false, Bool-cases, List, [], ◌∷◌, arith, if◌then◌else◌}
use memeval.Prelude.Int.{ℤ, ◌≤ℤ◌, ◌<ℤ◌, ltb_ℤ, leb_ℤ}
use memeval.Domain.Status.{CoverageState}
use memeval.Observations.Store.{
  CoverageSpan, PoolObservations, is_checked, insert_span, sort_spans, max_ℤ, walk_spans,
  coverage_of, coverage_state,
}

-- A time lies in one of the spans that were completed and checked.
abbrev pub Covered : ℤ → List CoverageSpan → Type 0
Covered x [] = ⊥
Covered x (s ∷ ss) =
    ((s.start_ms ≤ℤ x) × (x <ℤ s.end_ms) × (s.state ≡ CoverageState.completed_and_checked))
    ⊎ Covered x ss

insert_span-Covered :
    (x : ℤ) (s : CoverageSpan) (ss : List CoverageSpan)
    → Covered x (insert_span s ss)
    → Covered x (s ∷ ss)
unfolding insert_span
insert_span-Covered x s [] c = c
insert_span-Covered x s (y ∷ ss) c = elim (Bool-cases (ltb_ℤ y.start_ms s.start_ms)) [
  | inr first ↦ rw first at c
  | inl later ↦ elim (rw later at c) [
    | inl here ↦ inr (inl here)
    | inr rest ↦ elim (insert_span-Covered x s ss rest) [
      | inl here ↦ inl here
      | inr more ↦ inr (inr more)
    ]
  ]
]

sort_spans-Covered : (x : ℤ) (ss : List CoverageSpan) → Covered x (sort_spans ss) → Covered x ss
unfolding sort_spans
sort_spans-Covered x [] c = c
sort_spans-Covered x (s ∷ ss) c = elim (insert_span-Covered x s (sort_spans ss) c) [
  | inl here ↦ inl here
  | inr rest ↦ inr (sort_spans-Covered x ss rest)
]

checked_state :
    (s : CoverageSpan) (w : CoverageState)
    → (if is_checked s.state then w else CoverageState.partial)
      ≡ CoverageState.completed_and_checked
    → (w ≡ CoverageState.completed_and_checked) × (s.state ≡ CoverageState.completed_and_checked)
checked_state s w h = ground arith

max_ℤ-ends : (a b : ℤ) → leb_ℤ b a ≡ false → max_ℤ a b ≡ b
max_ℤ-ends a b h = ground arith

walk_spans-Covered :
    (ss : List CoverageSpan) (c e : ℤ) (w : CoverageState)
    → walk_spans ss c e w ≡ CoverageState.completed_and_checked
    → (w ≡ CoverageState.completed_and_checked) × ((x : ℤ) → c ≤ℤ x → x <ℤ e → Covered x ss)
unfolding walk_spans
walk_spans-Covered [] c e w h = (ground arith, λ x low high. ground arith)
walk_spans-Covered (s ∷ ss) c e w h = elim (Bool-cases (leb_ℤ s.end_ms c)) [
  | inl passed ↦
      let rest = walk_spans-Covered ss c e w (rw (passed, walk_spans) at h) in
      (rest.0, λ x low high. inr (rest.1 x low high))
  | inr ahead ↦ elim (Bool-cases (ltb_ℤ c s.start_ms)) [
    | inl gap ↦ ground arith
    | inr joined ↦ elim (Bool-cases (leb_ℤ e (max_ℤ c s.end_ms))) [
      | inl done ↦
          let (fine, checked) = checked_state s w (rw (ahead, joined, done, walk_spans) at h) in
          let ends = max_ℤ-ends c s.end_ms ahead in
          (fine, λ x low high. inl (ground arith, ground arith, checked))
      | inr short ↦
          let rest =
            walk_spans-Covered ss (max_ℤ c s.end_ms) e
              (if is_checked s.state then w else CoverageState.partial)
              (rw (ahead, joined, short, walk_spans) at h) in
          let (fine, checked) = checked_state s w rest.0 in
          let ends = max_ℤ-ends c s.end_ms ahead in
          (
            fine,
            λ x low high. elim (Bool-cases (ltb_ℤ x s.end_ms)) [
              | inl inside ↦ inl (ground arith, ground arith, checked)
              | inr beyond ↦ inr (rest.1 x (rw ends (ground arith)) high)
            ],
          )
    ]
  ]
]

coverage_of-Covered :
    (ss : List CoverageSpan) (a b : ℤ)
    → coverage_of ss a b ≡ CoverageState.completed_and_checked
    → (x : ℤ) → a ≤ℤ x
    → x <ℤ b
    → Covered x ss
unfolding coverage_of
coverage_of-Covered [] a b h x low high = ground arith
coverage_of-Covered (s ∷ ss) a b h x low high = sort_spans-Covered x (s ∷ ss) (
    (walk_spans-Covered (sort_spans (s ∷ ss)) a b CoverageState.completed_and_checked h).1 x low
      high)

-- Where the coverage of a period is reported as complete, every time of the period lies in a span that was
-- completed and checked.
pub coverage_state-Covered :
    (o : PoolObservations) (start_ms end_ms : ℤ)
    → coverage_state o start_ms end_ms ≡ CoverageState.completed_and_checked
    → (x : ℤ) → start_ms ≤ℤ x
    → x <ℤ end_ms
    → Covered x o.coverage
unfolding coverage_state
coverage_state-Covered o start_ms end_ms h = coverage_of-Covered o.coverage start_ms end_ms h
