-- ===== src/Time/Tests/Clocks.antt =====
-- Runs and instances for the shifted clocks of libchaos-time.
use macstab_chaos_testing_li.Prelude.{
  ℕ, ◌≡◌, refl, ap, sym, Bool, pos, negsuc, true, false, some, none, List, [], ◌∷◌, inl, arith,
  codes, if◌then◌else◌, ltb, length, ◌%◌, ◌+◌, ◌^◌,
}
use macstab_chaos_testing_li.Common.Policy.Gates.{window_open, size_ok}
use macstab_chaos_testing_li.Common.Hits.Slot.{Slot, fire, slot_current}
use macstab_chaos_testing_li.Time.Selector.{Selector, clock, clock_gettime}
use macstab_chaos_testing_li.Time.Rule.{Rule, bare_rule, offset, regress}
use macstab_chaos_testing_li.Time.Actions.{
  add_offset_ms, apply_offset, apply_regress, unshift_deadline, undoes_offset, undoes_regress,
}
use macstab_chaos_testing_li.Time.Actions.Shift.{from_total, add_offset_ms_lem}
use macstab_chaos_testing_li.Time.Actions.Deadline.{unshift_deadline-apply_offset}
use macstab_chaos_testing_li.Time.Actions.Regress.{Read, reads_of, stepped_at, apply_regress_once}

abbrev monotonic_clock : Selector
monotonic_clock = record {
  kind = clock;
  target = some clock_gettime;
  clock_id = 1;
  selector_len = 23;
  text = codes "monotonic";
}

-- a second and a half back
abbrev behind : Rule
behind = record (bare_rule monotonic_clock) {
  effect = offset;
  probability = record { over = 1; under = 1 };
  offset_ms = negsuc 1499;
}

abbrev jump_back : Rule
jump_back = record (bare_rule monotonic_clock) {
  effect = regress;
  probability = record { over = 1; under = 1 };
  offset_ms = pos 1500;
  hit = some 0;
}

abbrev fresh_slot : Slot
fresh_slot = record {
  count = 0;
  claimed = 0;
  state = 0;
  report = false;
  generation = 0;
  used = true;
}

-- three reads, at 5, 6 and 7.2 seconds
abbrev at_time : ℕ → Read
at_time n = record { now = 0; later = 0; sample = 0; time = from_total n }

abbrev three_reads : List Read
three_reads = at_time 5_000_000_000 ∷ at_time 6_000_000_000 ∷ at_time 7_200_000_000 ∷ []

-- 7.2 seconds less 1.5 borrow a second.
add_offset_ms_lem_example :
    add_offset_ms (from_total 7_200_000_000) (negsuc 1499) ≡ from_total 5_700_000_000
add_offset_ms_lem_example = add_offset_ms_lem 7_200_000_000 (negsuc 1499)

-- The rule has not stepped back yet.
jump_waits : (q : Rule) → some jump_back ≡ some q → undoes_regress q (some fresh_slot) 0 ≡ false
unfolding undoes_regress slot_current
jump_waits q e =
    ap (λ o. elim o as (λ _. Bool) [ none ↦ false | some x ↦ undoes_regress x (some fresh_slot) 0 ])
      (sym e)

unshift_deadline-apply_offset_example :
    unshift_deadline
      (some behind)
      (some jump_back)
      (some fresh_slot)
      0
      0
      (apply_offset behind 0 0 none (from_total 7_200_000_000)).0
    ≡ (from_total 7_200_000_000, true)
unfolding undoes_offset window_open slot_current
unshift_deadline-apply_offset_example =
    unshift_deadline-apply_offset behind (some jump_back) (some fresh_slot) 0 0 0 0 none
      7_200_000_000 refl refl (λ e. omega (arith, e)) refl refl jump_waits (omega arith)

apply_regress_once_example :
    (k : ℕ) × ((reads_of jump_back three_reads fresh_slot).0 ≡ stepped_at jump_back k three_reads)
    × ((reads_of jump_back three_reads fresh_slot).1.count
        ≡ (if ltb k (length three_reads) then (0 + 1) % 2 ^ 64 else 0))
apply_regress_once_example =
    apply_regress_once jump_back three_reads fresh_slot refl refl (inl refl)

-- the first read arms the rule, the second steps back
second_jumps : reads_of jump_back three_reads fresh_slot ≡ (
  from_total 5_000_000_000 ∷ from_total 4_500_000_000 ∷ from_total 5_700_000_000 ∷ [],
  record fresh_slot { state = 2; count = 1 },
)
unfolding reads_of apply_regress slot_current window_open size_ok fire add_offset_ms
second_jumps = refl
