-- ===== src/Time/Actions/Regress.antt =====
-- src/time/chaos_time_actions.c: what a program sees of a rule REGRESS over several calls.
use mathlib.Core.Path.{subst}
use macstab_chaos_testing_li.Prelude.{
  ℕ, zero, suc, ◌+◌, ◌%◌, ◌^◌, negate, ◌≡◌, refl, ap, ◌∙◌, sym, arith, inl, inr, ◌⊎◌, Bool, true,
  false, ◌==◌, not, ◌||◌, some, List, [], ◌∷◌, Bool-cases, if◌then◌else◌, ltb, length,
}
use macstab_chaos_testing_li.Common.Policy.Word.{Policy}
use macstab_chaos_testing_li.Common.Policy.Gates.{window_open, size_ok}
use macstab_chaos_testing_li.Common.Hits.Slot.{Slot, slot_current, fire, fire_slot}
use macstab_chaos_testing_li.Time.Rule.{regress, Rule}
use macstab_chaos_testing_li.Time.Actions.{
  Timespec, add_offset_ms, should_trigger, probability_hit_sample, apply_regress, regress_read,
  decided,
}

-- One call that reads the clock: the two readings for the window, the draw, and the real time.
pub record Read : Type 0 where
  pub now : ℕ
  pub later : ℕ
  pub sample : ℕ
  pub time : Timespec

-- a series of calls for one rule, and the times that they return
unfoldable pub reads_of : Rule → List Read → Slot → List Timespec × Slot
reads_of r [] s = ([], s)
reads_of r (x ∷ reads) s =
    let (t, s') = apply_regress r x.now x.later x.sample s x.time in
    let rest = reads_of r reads s' in (t ∷ rest.0, rest.1)

-- The times when the step back comes with the read number `k`.
unfoldable pub stepped_at : Rule → ℕ → List Read → List Timespec
stepped_at r k [] = []
stepped_at r zero (x ∷ reads) =
    let rest = stepped_at r zero reads in
    (if window_open r.policy x.now then add_offset_ms x.time (negate r.offset_ms) else x.time)
    ∷ rest
stepped_at r (suc k) (x ∷ reads) = x.time ∷ stepped_at r k reads

-- the step back of a rule, and what a read gives once it has come
abbrev stepped_back : Rule → Timespec → Timespec
stepped_back r t = add_offset_ms t (negate r.offset_ms)

-- A slot of a generation and with a count of hits, whose rule has not stepped back; and one whose rule
-- has, from such a slot.
abbrev Before : ℕ → ℕ → Slot → Type 0
Before g c s = (s.generation ≡ g) × (s.count ≡ c) × ((s.state ≡ 0) ⊎ (s.state ≡ 1))

abbrev After : ℕ → ℕ → Slot → Type 0
After g c s = (s.generation ≡ g) × (s.count ≡ (c + 1) % 2 ^ 64) × (s.state ≡ 2)

fire_slot_counts :
    (p : Policy) (s : Slot) (g : ℕ)
    → let (b, s') = fire_slot p s g in
      (s'.generation ≡ s.generation) × (s'.count ≡ (if b then (s.count + 1) % 2 ^ 64 else s.count))
unfolding fire_slot
fire_slot_counts p s g = ground arith

-- The decision fires the slot or leaves it.
trigger_cases :
    (r : Rule) (later sample : ℕ) (s : Slot)
    → (should_trigger r later sample (some s) ≡ (false, some s))
      ⊎ (should_trigger r later sample (some s)
          ≡ (let (b, s') = fire_slot r.policy s r.hit_generation in (b, some s')))
unfolding should_trigger fire
trigger_cases r later sample s =
    elim (Bool-cases (not (window_open r.policy later) || not (size_ok r.policy r.call_size))) [
      | inl shut ↦ inl (rw shut refl)
      | inr gates ↦ elim (Bool-cases (not (probability_hit_sample r.probability sample))) [
        | inl miss ↦ inl (rw (gates, miss) refl)
        | inr hit ↦ inr (rw (gates, hit) refl)
      ]
    ]

-- The time and the slot that a decision may leave.
abbrev Decided : Rule → Timespec → Slot → Timespec × Slot → Type 0
Decided r v s t =
    ((t.0 ≡ v) × Before s.generation s.count t.1)
    ⊎ ((t.0 ≡ stepped_back r v) × After s.generation s.count t.1)

decided_cases :
    (r : Rule) (v : Timespec) (s s' : Slot) (b : Bool)
    → (s'.generation ≡ s.generation) × (s'.count ≡ (if b then (s.count + 1) % 2 ^ 64 else s.count))
    → Decided r v s (decided r v (b, some s') s)
unfolding decided
decided_cases r v s s' true (g, n) = inr (refl, (g, n, refl))
decided_cases r v s s' false (g, n) = inl (refl, (g, n, inr refl))

decision :
    (r : Rule) (later sample : ℕ) (s : Slot) (v : Timespec)
    → Decided r v s (decided r v (should_trigger r later sample (some (record s { state = 3 }))) s)
decision r later sample s v =
    let held : Slot = record s { state = 3 } in
    elim (trigger_cases r later sample held) [
      | inl left ↦
          subst (λ t. Decided r v s (decided r v t s)) (sym left)
            (decided_cases r v s held false (refl, refl))
      | inr fired ↦
          subst (λ t. Decided r v s (decided r v t s)) (sym fired)
            (decided_cases r v s (fire_slot r.policy held r.hit_generation).1
              (fire_slot r.policy held r.hit_generation).0
              (fire_slot_counts r.policy held r.hit_generation))
    ]

-- Inside its window a rule on its own slot goes on to the state of the slot.
inside_window :
    (r : Rule) (x : Read) (s : Slot)
    → r.effect ≡ regress
    → s.generation ≡ r.hit_generation
    → window_open r.policy x.now ≡ true
    → apply_regress r x.now x.later x.sample s x.time ≡ regress_read r x.later x.sample s x.time
unfolding apply_regress slot_current
inside_window r x s e g inside =
    let own : (s.generation == r.hit_generation) ≡ true = ground arith in rw (e, own, inside) refl

outside_window :
    (r : Rule) (x : Read) (s : Slot)
    → r.effect ≡ regress
    → window_open r.policy x.now ≡ false
    → apply_regress r x.now x.later x.sample s x.time ≡ (x.time, s)
unfolding apply_regress
outside_window r x s e outside = elim (Bool-cases (slot_current (some s) r.hit_generation)) [
  | inl own ↦ rw (e, own, outside) refl
  | inr other ↦ rw (e, other) refl
]

step_after :
    (r : Rule) (x : Read) (s : Slot)
    → r.effect ≡ regress
    → s.generation ≡ r.hit_generation
    → s.state ≡ 2
    → apply_regress r x.now x.later x.sample s x.time
      ≡ (if window_open r.policy x.now then stepped_back r x.time else x.time, s)
unfolding regress_read
step_after r x s e g t =
    let not_fresh : (s.state == 0) ≡ false = ground arith in
    let gone : (s.state == 2) ≡ true = ground arith in
    elim (Bool-cases (window_open r.policy x.now)) [
      | inl inside ↦ inside_window r x s e g inside ∙ rw (inside, not_fresh, gone) refl
      | inr outside ↦ outside_window r x s e outside ∙ rw outside refl
    ]

-- What a read before the step back may leave.
abbrev Stepped : Rule → Read → Slot → Timespec × Slot → Type 0
Stepped r x s t =
    ((t.0 ≡ x.time) × Before s.generation s.count t.1)
    ⊎ ((window_open r.policy x.now ≡ true)
        × (t.0 ≡ stepped_back r x.time)
        × After s.generation s.count t.1)

read_before :
    (r : Rule) (x : Read) (s : Slot)
    → window_open r.policy x.now ≡ true
    → (s.state ≡ 0) ⊎ (s.state ≡ 1)
    → Stepped r x s (regress_read r x.later x.sample s x.time)
unfolding regress_read
read_before r x s inside (inl fresh) =
    let f : (s.state == 0) ≡ true = ground arith in rw f (inl (refl, (refl, refl, inr refl)))
read_before r x s inside (inr armed) =
    let f : (s.state == 0) ≡ false = ground arith in
    let g : (s.state == 2) ≡ false = ground arith in
    let h : (s.state == 1) ≡ true = ground arith in
    rw (f, g, h)
      (elim (decision r x.later x.sample s x.time) [
        | inl (same, before) ↦ inl (same, before)
        | inr (back, after) ↦ inr (inside, back, after)
      ])

step_before :
    (r : Rule) (x : Read) (s : Slot)
    → r.effect ≡ regress
    → s.generation ≡ r.hit_generation
    → (s.state ≡ 0) ⊎ (s.state ≡ 1)
    → Stepped r x s (apply_regress r x.now x.later x.sample s x.time)
step_before r x s e g st = elim (Bool-cases (window_open r.policy x.now)) [
  | inl inside ↦
      subst (λ t. Stepped r x s t) (sym (inside_window r x s e g inside))
        (read_before r x s inside st)
  | inr outside ↦
      subst (λ t. Stepped r x s t) (sym (outside_window r x s e outside))
        (inl (refl, (refl, refl, st)))
]

reads_after :
    (r : Rule) (reads : List Read) (s : Slot)
    → r.effect ≡ regress
    → s.generation ≡ r.hit_generation
    → s.state ≡ 2
    → reads_of r reads s ≡ (stepped_at r 0 reads, s)
unfolding reads_of stepped_at
reads_after r [] s e g t = refl
reads_after r (x ∷ reads) s e g t = rw (step_after r x s e g t, reads_after r reads s e g t) refl

counts_on :
    (k n : ℕ) {c c' : ℕ}
    → c' ≡ c
    → (if ltb k n then (c' + 1) % 2 ^ 64 else c')
      ≡ (if ltb (suc k) (suc n) then (c + 1) % 2 ^ 64 else c)
counts_on k n e = ground (arith, e)

counts_one : (n c : ℕ) → (c + 1) % 2 ^ 64 ≡ (if ltb 0 (suc n) then (c + 1) % 2 ^ 64 else c)
counts_one n c = ground arith

-- A rule REGRESS steps back once. Whatever reads of its clock one thread makes from a slot that has not
-- stepped back, there is a read number `k` such that the reads before it return the real time, and from
-- it on each read inside the window of the rule returns the time moved back by the rule's step; the
-- rule's hits grow by one if that read is among them, and not at all otherwise.
pub apply_regress_once :
    (r : Rule) (reads : List Read) (s : Slot)
    → r.effect ≡ regress
    → s.generation ≡ r.hit_generation
    → (s.state ≡ 0) ⊎ (s.state ≡ 1)
    → (k : ℕ) × ((reads_of r reads s).0 ≡ stepped_at r k reads)
      × ((reads_of r reads s).1.count
          ≡ (if ltb k (length reads) then (s.count + 1) % 2 ^ 64 else s.count))
unfolding reads_of stepped_at
apply_regress_once r [] s e g st = (0, refl, refl)
apply_regress_once r (x ∷ reads) s e g st = elim (step_before r x s e g st) [
  | inl (same, (g', c', st')) ↦
      let (k, out, count) =
        apply_regress_once r reads (apply_regress r x.now x.later x.sample s x.time).1 e (g' ∙ g)
          st' in
      (suc k, rw (same, out) refl, count ∙ counts_on k (length reads) c')
  | inr (inside, back, (g', c', t')) ↦
      let rest =
        reads_after r reads (apply_regress r x.now x.later x.sample s x.time).1 e (g' ∙ g) t' in
      (
        0,
        rw (back, inside, rest) refl,
        ap (λ t. t.1.count) rest ∙ c' ∙ counts_one (length reads) s.count,
      )
]
