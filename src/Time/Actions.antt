-- ===== src/Time/Actions.antt =====
-- src/time/chaos_time_actions.c: the decision whether a rule applies, and the arithmetic of OFFSET and
-- REGRESS on the time that a clock gave. The draws of the random generator and the clock's reading for
-- the window are arguments; a slot is its number in the pool.
pub mod Shift
pub mod Deadline
pub mod Regress
pub mod Sleep
use macstab_chaos_testing_li.Prelude.{
  ℕ, zero, suc, ◌+◌, ◌-◌, ◌*◌, ◌/◌, ◌%◌, [], ◌∷◌, ℤ, pos, negsuc, ◌+ℤ◌, negate, with_sign,
  magnitude, is_negative, Bool, true, false, not, ◌&&◌, ◌||◌, Option, none, some, List, ◌==◌, leb,
  if◌then◌else◌, ◌^◌, ltb,
}
use macstab_chaos_testing_li.Common.Policy.Probability.{Ratio}
use macstab_chaos_testing_li.Common.Policy.Gates.{window_open, size_ok}
use macstab_chaos_testing_li.Common.Hits.Slot.{Slot, slot_current, fire}
use macstab_chaos_testing_li.Time.Rule.{Effect, errno, latency, offset, regress, Rule}

-- `struct timespec`
pub record Timespec : Type 0 where
  pub sec : ℤ
  pub nsec : ℤ

abbrev pub second : ℕ
second = 1_000_000_000

-- The loop that carries whole seconds out of the nanoseconds, on `fuel` rounds.
unfoldable pub carry : ℕ → ℤ → ℤ → ℤ × ℤ
carry zero seconds nanoseconds = (seconds, nanoseconds)
carry (suc fuel) seconds nanoseconds =
    let rest = carry fuel (seconds +ℤ pos 1) (nanoseconds +ℤ negate (pos second)) in
    if not (is_negative nanoseconds) && leb second (magnitude nanoseconds)
    then rest
    else (seconds, nanoseconds)

-- The loop that borrows seconds while the nanoseconds are negative.
unfoldable pub borrow : ℕ → ℤ → ℤ → ℤ × ℤ
borrow zero seconds nanoseconds = (seconds, nanoseconds)
borrow (suc fuel) seconds nanoseconds =
    let rest = borrow fuel (seconds +ℤ negate (pos 1)) (nanoseconds +ℤ pos second) in
    if is_negative nanoseconds then rest else (seconds, nanoseconds)

-- Every round takes a second off the distance to 0, or is the last.
abbrev pub rounds : ℤ → ℕ
rounds nanoseconds = suc (magnitude nanoseconds / second)

abbrev pub settle : ℤ × ℤ → Timespec
settle t =
    if is_negative t.0
    then record { sec = pos 0; nsec = pos 0 }
    else record { sec = t.0; nsec = t.1 }

unfoldable pub normalized : ℤ → ℤ → ℤ × ℤ
unfolding carry borrow
normalized seconds nanoseconds =
    let carried = carry (rounds nanoseconds) seconds nanoseconds in
    borrow (rounds carried.1) carried.0 carried.1

-- `chaos_time_add_offset_ms`, without a limit on the seconds: with offsets that a rule can have, and
-- times of clocks, the sum stays far below 2 ^ 63.
unfoldable pub add_offset_ms : Timespec → ℤ → Timespec
unfolding normalized
add_offset_ms value offset_ms =
    if magnitude offset_ms == 0
    then value
    else settle (
        normalized (value.sec +ℤ with_sign offset_ms (magnitude offset_ms / 1000))
          (value.nsec +ℤ with_sign offset_ms (magnitude offset_ms % 1000 * 1_000_000)))

-- `chaos_time_probability_hit_sample`
unfoldable pub probability_hit_sample : Ratio → ℕ → Bool
probability_hit_sample p sample =
    if p.over == 0
    then false
    else if leb p.under p.over
    then true
    else ltb (sample * p.under) (p.over * 2 ^ 32)

-- `chaos_time_rule_should_trigger`, with the slot that the rule points to
unfoldable pub should_trigger : Rule → ℕ → ℕ → Option Slot → Bool × Option Slot
unfolding probability_hit_sample
should_trigger r now sample slot =
    if not (window_open r.policy now) || not (size_ok r.policy r.call_size)
    then (false, slot)
    else if not (probability_hit_sample r.probability sample)
    then (false, slot)
    else fire r.policy slot r.hit_generation

-- The loop of `chaos_time_rule_apply_latency`: the microseconds of each sleep, on `fuel` rounds.
unfoldable pub chunks : ℕ → ℕ → List ℕ
chunks zero remaining = []
chunks (suc fuel) remaining =
    let chunk = if ltb 1_000_000 remaining then 1_000_000 else remaining in
    let rest = chunks fuel (remaining - chunk) in if remaining == 0 then [] else chunk ∷ rest

-- `chaos_time_rule_apply_latency`: the sleeps that it makes
unfoldable pub apply_latency : Rule → ℕ → ℕ → Option Slot → List ℕ × Option Slot
unfolding should_trigger chunks
apply_latency r now sample slot =
    let (b, slot') = should_trigger r now sample slot in
    let remaining = r.latency_ms * 1000 in
    elim r.effect [
      | latency ↦ (if b then chunks (suc (remaining / 1_000_000)) remaining else [], slot')
      | _ ↦ ([], slot)
    ]

-- `chaos_time_rule_apply_errno`: the value that it sets, if it returns 1
unfoldable pub apply_errno : Rule → ℕ → ℕ → Option Slot → Option ℕ × Option Slot
unfolding should_trigger
apply_errno r now sample slot =
    let (b, slot') = should_trigger r now sample slot in
    elim r.effect [ errno ↦ (if b then some r.errnum else none, slot') | _ ↦ (none, slot) ]

-- `chaos_time_rule_apply_offset`: the time that it leaves
unfoldable pub apply_offset : Rule → ℕ → ℕ → Option Slot → Timespec → Timespec × Option Slot
unfolding should_trigger add_offset_ms
apply_offset r now sample slot value =
    let (b, slot') = should_trigger r now sample slot in
    elim r.effect [
      | offset ↦ (if b then add_offset_ms value r.offset_ms else value, slot')
      | _ ↦ (value, slot)
    ]

-- `slot->state = 2U` when the rule fires, and back to 1 when it does not
unfoldable pub decided : Rule → Timespec → Bool × Option Slot → Slot → Timespec × Slot
decided r value (true, some s') s =
    (add_offset_ms value (negate r.offset_ms), record s' { state = 2 })
decided r value (true, none) s = (add_offset_ms value (negate r.offset_ms), record s { state = 2 })
decided r value (false, some s') s = (value, record s' { state = 1 })
decided r value (false, none) s = (value, record s { state = 1 })

-- What `chaos_time_rule_apply_regress` does past its checks, by the state of the slot, when no other
-- thread touches the slot meanwhile: its compare-and-swaps succeed where the state is the expected one.
-- `later` is the reading of the clock by the decision, after the one by the first check.
unfoldable pub regress_read : Rule → ℕ → ℕ → Slot → Timespec → Timespec × Slot
unfolding should_trigger decided
regress_read r later sample s value =
    if s.state == 0
    then (value, record s { state = 1 })
    else if s.state == 2
    then (add_offset_ms value (negate r.offset_ms), s)
    else if s.state == 1
    then decided r value (should_trigger r later sample (some (record s { state = 3 }))) s
    else (value, s)

-- `chaos_time_rule_apply_regress` on the slot that the rule points to
unfoldable pub apply_regress : Rule → ℕ → ℕ → ℕ → Slot → Timespec → Timespec × Slot
unfolding regress_read
apply_regress r now later sample s value = elim r.effect [
  | regress ↦
      if not (slot_current (some s) r.hit_generation) || not (window_open r.policy now)
      then (value, s)
      else regress_read r later sample s value
  | _ ↦ (value, s)
]

-- the first condition of `chaos_time_rule_unshift_deadline`
unfoldable pub undoes_offset : Rule → ℕ → Bool
undoes_offset r now = elim r.effect [
  | offset ↦
      leb r.probability.under r.probability.over
      && r.policy.first == 0
      && not r.policy.has_size_above
      && not r.policy.has_size_below
      && window_open r.policy now
  | _ ↦ false
]

-- the second, with the slot of the rule, where it has one
unfoldable pub undoes_regress : Rule → Option Slot → ℕ → Bool
undoes_regress r none now = false
undoes_regress r (some s) now = elim r.effect [
  | regress ↦ slot_current (some s) r.hit_generation && s.state == 2 && window_open r.policy now
  | _ ↦ false
]

abbrev pub offset_undone : Option Rule → ℕ → Timespec → Timespec × Bool
offset_undone none now deadline = (deadline, false)
offset_undone (some r) now deadline =
    if undoes_offset r now
    then (add_offset_ms deadline (negate r.offset_ms), true)
    else (deadline, false)

abbrev pub regress_undone : Option Rule → Option Slot → ℕ → Timespec × Bool → Timespec × Bool
regress_undone none slot now t = t
regress_undone (some r) slot now t =
    if undoes_regress r slot now then (add_offset_ms t.0 r.offset_ms, true) else t

-- `chaos_time_rule_unshift_deadline`: the deadline, and whether it has changed; each condition reads
-- the clock for itself.
unfoldable pub unshift_deadline :
    Option Rule → Option Rule → Option Slot → ℕ → ℕ → Timespec → Timespec × Bool
unfolding undoes_offset undoes_regress
unshift_deadline offset_rule regress_rule slot now later deadline =
    regress_undone regress_rule slot later (offset_undone offset_rule now deadline)
