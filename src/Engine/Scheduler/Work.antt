-- ===== src/Engine/Scheduler/Work.antt =====
-- engine/simulation.py, the time loop: what the blocks of a round do to the work that is left.
use memeval.Prelude.{
  ℕ, ◌+◌, ◌≤◌, ◌≡◌, inl, inr, Option-cases, none, some, List, [], ◌∷◌, length, ok, >>=-eq-ok,
  nat_eq, arith, ◌∙◌, sym, ap, ok-injective,
}
use memeval.Prelude.Int.{ℤ, int_eq}
use memeval.Prelude.Dict.{get, get_or, remove}
use memeval.Prelude.Dict.Sum.{sum_by, measure_at-some, sum_by-remove}
use memeval.Engine.Venue.{Venue}
use memeval.Engine.Simulation.{Simulation}
use memeval.Engine.Scheduler.{queued_inclusion, queued_confirmation}
use memeval.Engine.Scheduler.Loop.{include_all, process_block, process_blocks}
use memeval.Engine.Scheduler.Queues.{include_all-KeepsQueues, confirm_all-KeepsQueues}

-- The work of the two queues.
abbrev pub queued : {Pool : Type 0} → Simulation Pool → ℕ
queued s = sum_by queued_inclusion s.inclusions + sum_by queued_confirmation s.confirmations

-- 1 where a queue has the block.
abbrev pub due : {Pool : Type 0} → Simulation Pool → ℤ → ℕ
due s b = elim (get s.inclusions b) [
  | some _ ↦ 1
  | none ↦ elim (get s.confirmations b) [ some _ ↦ 1 | none ↦ 0 ]
]

abbrev pub head_due : {Pool : Type 0} → Simulation Pool → List ℤ → ℕ
head_due s [] = 0
head_due s (b ∷ blocks) = due s b

-- What the blocks of a round leave: the schedule and the end, and `less` less work.
pub record Works {Pool : Type 0} (less : ℕ) (s s' : Simulation Pool) : Type 0 where
  pub schedule : s'.schedule ≡ s.schedule
  pub end_ms : s'.end_ms ≡ s.end_ms
  pub finished : s'.finished ≡ s.finished
  pub work : queued s' + less ≤ queued s

get_or-some :
    {Pool : Type 0} (s : Simulation Pool) (b : ℤ) {ns : List ℕ}
    → get s.inclusions b ≡ some ns
    → get_or s.inclusions b [] ≡ ns
get_or-some s b h = ground arith

module _ {Pool E : Type 0} (v : Venue Pool E) where
  include_none :
      (s s0 : Simulation Pool) (b t : ℤ)
      → get s.inclusions b ≡ none
      → include_all v s0 (get_or s.inclusions b []) b t ≡ ok s0
  unfolding include_all
  include_none s s0 b t free = ground arith

  pub process_block-Works :
      (s : Simulation Pool) (b t : ℤ) {s' : Simulation Pool}
      → process_block v s b t ≡ ok s'
      → Works (due s b) s s'
  unfolding process_block
  process_block-Works s b t {s'} h =
      let s0 = record s { inclusions = remove s.inclusions b } in
      let ns = get_or s.inclusions b [] in
      let (s1, included, more) = >>=-eq-ok (include_all v s0 ns b t) _ h in
      let k = include_all-KeepsQueues v s0 ns b t included in
      let s2 = record s1 { confirmations = remove s1.confirmations b } in
      let ks = confirm_all-KeepsQueues v s2 (get_or s1.confirmations b []) t more in
      let popped = sum_by-remove queued_inclusion s.inclusions b in
      let popped' = sum_by-remove queued_confirmation s1.confirmations b in
      let inclusions : sum_by queued_inclusion s'.inclusions
          ≡ sum_by queued_inclusion s0.inclusions =
        ap (sum_by queued_inclusion) (ks.inclusions ∙ k.inclusions) in
      record {
        schedule = ks.schedule ∙ k.schedule;
        end_ms = ks.end_ms ∙ k.end_ms;
        finished = ks.finished ∙ k.finished;
        work = elim (Option-cases (get s.inclusions b)) [
          | inl free ↦
              let same : s0 ≡ s1 = ok-injective (sym (include_none s s0 b t free) ∙ included) in
              let same_confirmations : s.confirmations ≡ s1.confirmations =
                ap (λ (x : Simulation Pool). x.confirmations) same in
              elim (Option-cases (get s.confirmations b)) [
                | inl free' ↦
                    let none_due : due s b ≡ 0 = ground arith in
                    omega (
                      arith,
                      none_due,
                      popped,
                      popped',
                      k.confirmations,
                      ks.confirmations,
                      inclusions,
                      ap (sum_by queued_confirmation) same_confirmations,
                    )
                | inr (ms, filled) ↦
                    let here =
                      measure_at-some queued_confirmation s1.confirmations b
                        (rw same_confirmations at filled) in
                    let one_due : due s b ≡ 1 = ground arith in
                    omega (
                      arith,
                      one_due,
                      popped,
                      popped',
                      here,
                      ks.confirmations,
                      inclusions,
                      ap (sum_by queued_confirmation) same_confirmations,
                    )
              ]
          | inr (ns, queued_here) ↦
              let here = measure_at-some queued_inclusion s.inclusions b queued_here in
              let all = ap length (get_or-some s b queued_here) in
              let one_due : due s b ≡ 1 = ground arith in
              omega (
                arith, one_due, popped, popped', here, all, k.confirmations, ks.confirmations,
                inclusions,
              )
        ];
      }

  pub process_blocks-Works :
      (s : Simulation Pool) (blocks : List ℤ) (t : ℤ) {s' : Simulation Pool}
      → process_blocks v s blocks t ≡ ok s'
      → Works (head_due s blocks) s s'
  unfolding process_blocks
  process_blocks-Works s [] t h =
      let same = sym (ok-injective h) in
      record {
        schedule = ap (λ (x : Simulation Pool). x.schedule) same;
        end_ms = ap (λ (x : Simulation Pool). x.end_ms) same;
        finished = ap (λ (x : Simulation Pool). x.finished) same;
        work = omega (arith, ap (λ (x : Simulation Pool). queued x) same);
      }
  process_blocks-Works s (b ∷ blocks) t h =
      let (s1, first, more) = >>=-eq-ok (process_block v s b t) _ h in
      let k = process_block-Works s b t first in
      let ks = process_blocks-Works s1 blocks t more in
      record {
        schedule = ks.schedule ∙ k.schedule;
        end_ms = ks.end_ms ∙ k.end_ms;
        finished = ks.finished ∙ k.finished;
        work = omega (arith, k.work, ks.work);
      }
