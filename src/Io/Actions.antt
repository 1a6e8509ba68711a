-- ===== src/Io/Actions.antt =====
-- src/effects/chaos_io_actions.c: the decision whether a rule applies to a call, and its effects.
-- The draws of the random generator and the clock's reading are arguments; a slot is its number in
-- the pool, and a byte buffer is the list of its bytes.
pub mod Effects
use macstab_chaos_testing_li.Prelude.{
  ℕ, zero, suc, ◌+◌, ◌-◌, ◌*◌, ◌/◌, ◌%◌, ◌^◌, ◌≤◌, ◌<◌, Bool, true, false, not, ◌&&◌, ◌||◌, Option,
  none, some, List, [], ◌∷◌, Bytes, ◌==◌, ltb, leb, if◌then◌else◌, length, get_elem?, set,
}
use macstab_chaos_testing_li.Common.Policy.Probability.{Ratio}
use macstab_chaos_testing_li.Common.Policy.Gates.{window_open, size_ok}
use macstab_chaos_testing_li.Common.Hits.Slot.{Slot, fire}
use macstab_chaos_testing_li.Io.Rule.{Effect, errno, latency, torn, corrupt, Errno, Rule}

-- `chaos_io_probability_hit_sample`
unfoldable pub probability_hit_sample : Ratio → ℕ → Bool
probability_hit_sample p sample =
    if p.over == 0
    then false
    else if leb p.under p.over
    then true
    else ltb (sample * p.under) (p.over * 2 ^ 32)

-- `chaos_io_torn_count_sample`
unfoldable pub torn_count_sample : ℕ → ℕ → ℕ
torn_count_sample zero sample = 0
torn_count_sample (suc zero) sample = 1
torn_count_sample (suc (suc n)) sample = sample % suc n + 1

-- `byte ^ (1U << bit)`
abbrev pub flip : ℕ → ℕ → ℕ
flip bit byte = if byte / 2 ^ bit % 2 == 0 then byte + 2 ^ bit else byte - 2 ^ bit

unfoldable pub flip_at : ℕ → ℕ → Bytes → Bytes
flip_at i bit [] = []
flip_at zero bit (b ∷ bytes) = flip bit b ∷ bytes
flip_at (suc i) bit (b ∷ bytes) = b ∷ flip_at i bit bytes

-- `chaos_io_corrupt_buffer_sample`, with the buffer it leaves
unfoldable pub corrupt_buffer_sample : Bytes → ℕ → ℕ → Bytes
unfolding flip_at
corrupt_buffer_sample [] index_sample bit_sample = []
corrupt_buffer_sample (b ∷ bytes) index_sample bit_sample =
    flip_at (index_sample % length (b ∷ bytes)) (bit_sample % 8) (b ∷ bytes)

-- `*rule->hit`
abbrev pub slot_of : Option ℕ → List Slot → Option Slot
slot_of none pool = none
slot_of (some i) pool = get_elem? pool i

abbrev pub put_back : Option ℕ → Option Slot → List Slot → List Slot
put_back (some i) (some s) pool = set pool i s
put_back _ _ pool = pool

-- `chaos_policy_fire(&rule->policy, rule->hit, rule->hit_generation)` on the pool
unfoldable pub fire_rule : Rule → List Slot → Bool × List Slot
unfolding fire
fire_rule r pool =
    let (b, s) = fire r.policy (slot_of r.hit pool) r.hit_generation in (b, put_back r.hit s pool)

-- what follows the gates; a delay skips the draw
unfoldable pub passes_draw : Effect → Ratio → ℕ → Bool
unfolding probability_hit_sample
passes_draw latency p sample = true
passes_draw _ p sample = probability_hit_sample p sample

-- `chaos_io_rule_should_trigger`
unfoldable pub should_trigger : Rule → ℕ → ℕ → List Slot → Bool × List Slot
unfolding fire_rule passes_draw
should_trigger r now sample pool =
    if not (window_open r.policy now) || not (size_ok r.policy r.call_size)
    then (false, pool)
    else if passes_draw r.effect r.probability sample
    then fire_rule r pool
    else (false, pool)

-- `chaos_io_rule_apply_errno`: the value that it sets, if it returns 1
unfoldable pub apply_errno : Rule → ℕ → ℕ → List Slot → Option Errno × List Slot
unfolding should_trigger
apply_errno r now sample pool =
    let (b, pool') = should_trigger r now sample pool in
    elim r.effect [ errno ↦ (if b then r.errnum else none, pool') | _ ↦ (none, pool) ]

-- `chaos_io_rule_apply_latency`: for how many milliseconds it sleeps
unfoldable pub apply_latency : Rule → ℕ → ℕ → List Slot → Option ℕ × List Slot
unfolding should_trigger
apply_latency r now sample pool =
    let (b, pool') = should_trigger r now sample pool in
    elim r.effect [ latency ↦ (if b then some r.latency_ms else none, pool') | _ ↦ (none, pool) ]
