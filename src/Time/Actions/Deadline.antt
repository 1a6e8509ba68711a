-- ===== src/Time/Actions/Deadline.antt =====
-- src/time/chaos_time_actions.c: a deadline that a program computed from a clock under a rule OFFSET.
use macstab_chaos_testing_li.Prelude.{
  ℕ, ◌*◌, ◌≤◌, Bool, false, ◌∙◌, ◌≡◌, ◌≢◌, refl, arith, true, false, ◌==◌, leb, Option, none, some,
}
use macstab_chaos_testing_li.Common.Policy.Gates.{window_open, size_ok}
use macstab_chaos_testing_li.Common.Hits.Slot.{Slot, slot_current, fire, fire_slot}
use macstab_chaos_testing_li.Time.Rule.{offset, Rule}
use macstab_chaos_testing_li.Time.Actions.{
  Timespec, should_trigger, probability_hit_sample, apply_offset, undoes_offset, undoes_regress,
  regress_undone, unshift_deadline,
}
use macstab_chaos_testing_li.Time.Actions.Shift.{from_total, moved_back, add_offset_ms-negate}

-- what the condition on a rule OFFSET says of it
undone_parts :
    (r : Rule) (later : ℕ)
    → r.effect ≡ offset
    → undoes_offset r later ≡ true
    → (leb r.probability.under r.probability.over ≡ true)
      × ((r.policy.first == 0) ≡ true)
      × (r.policy.has_size_above ≡ false)
      × (r.policy.has_size_below ≡ false)
unfolding undoes_offset
undone_parts r later e u =
    let all = rw e at u in
    (ground (arith, all), ground (arith, all), ground (arith, all), ground (arith, all))

fires_unlimited :
    (r : Rule) (slot : Option Slot)
    → (r.policy.first == 0) ≡ true
    → slot_current slot r.hit_generation ≡ true
    → (fire r.policy slot r.hit_generation).0 ≡ true
unfolding fire fire_slot
fires_unlimited r none f c = refl
fires_unlimited r (some s) f c = rw (f, c) refl

-- A rule that `unshift_deadline` undoes has fired at every read.
always_triggers :
    (r : Rule) (now later sample : ℕ) (slot : Option Slot)
    → r.effect ≡ offset
    → undoes_offset r later ≡ true
    → r.probability.over ≢ 0
    → window_open r.policy now ≡ true
    → slot_current slot r.hit_generation ≡ true
    → (should_trigger r now sample slot).0 ≡ true
unfolding should_trigger probability_hit_sample size_ok fire
always_triggers r now later sample slot e u p w c =
    let (sure, unlimited, above, below) = undone_parts r later e u in
    let likely : (r.probability.over == 0) ≡ false = ground arith in
    rw (w, above, below, likely, sure) (fires_unlimited r slot unlimited c)

-- A rule REGRESS that is not undone leaves a deadline as it is.
regress_undone-idle :
    (regress_rule : Option Rule) (regress_slot : Option Slot) (now : ℕ) (t : Timespec × Bool)
    → ((q : Rule) → regress_rule ≡ some q → undoes_regress q regress_slot now ≡ false)
    → regress_undone regress_rule regress_slot now t ≡ t
regress_undone-idle none regress_slot now t idle = refl
regress_undone-idle (some q) regress_slot now t idle = rw (idle q refl) refl

-- A program that waits for a time that it computed from its shifted clock waits for the real time. Let a
-- rule OFFSET that `unshift_deadline` undoes (probability 1, no @first, no @size bound, its window open
-- at the wait) have a window that is open at the read too and a slot that is its own; let the
-- REGRESS rule of the clock, where there is one, not be undone at the wait (it has no slot, has not
-- stepped back, its slot is no longer its own, or its window is shut); and let an offset below 0
-- not move the time back beyond the epoch. Then `unshift_deadline` turns the time that `apply_offset` gave
-- back into the real one, and says that it changed it.
pub unshift_deadline-apply_offset :
    (r : Rule) (regress_rule : Option Rule) (regress_slot : Option Slot)
    (now later latest sample : ℕ) (slot : Option Slot) (n : ℕ)
    → r.effect ≡ offset
    → undoes_offset r later ≡ true
    → r.probability.over ≢ 0
    → window_open r.policy now ≡ true
    → slot_current slot r.hit_generation ≡ true
    → ((q : Rule) → regress_rule ≡ some q → undoes_regress q regress_slot latest ≡ false)
    → moved_back r.offset_ms * 1_000_000 ≤ n
    → unshift_deadline
        (some r)
        regress_rule
        regress_slot
        later
        latest
        (apply_offset r now sample slot (from_total n)).0
      ≡ (from_total n, true)
unfolding unshift_deadline apply_offset
unshift_deadline-apply_offset r regress_rule regress_slot now later latest sample slot n e u p w c
      idle h =
    let fires = always_triggers r now later sample slot e u p w c in
    regress_undone-idle regress_rule regress_slot latest _ idle
    ∙ rw (u, e, fires, add_offset_ms-negate n r.offset_ms h) refl
