-- ===== src/Common/Hits/Slot.antt =====
-- src/common/chaos_hits.h: one slot, its claim word, and the hit counter; and `chaos_policy_fire`
-- of src/common/chaos_policy.h, which decides on them.
use native.Mathlib.Decide.{dec_lt}
use macstab_chaos_testing_li.Prelude.{
  ℕ, zero, suc, ◌+◌, ◌-◌, ◌*◌, ◌/◌, ◌%◌, ◌^◌, ◌≤◌, ◌<◌, min, ◌≡◌, ◌≢◌, refl, ap, ◌∙◌, Bool, true,
  false, not, ◌&&◌, ◌||◌, Option, none, some, arith, ◌==◌, ltb, leb, if◌then◌else◌,
}
use macstab_chaos_testing_li.Common.Policy.Word.{Policy}

-- `struct chaos_hit_slot`; `report` is whether a hook is installed.
pub record Slot : Type 0 where
  pub count : ℕ
  pub claimed : ℕ
  pub state : ℕ
  pub report : Bool
  pub generation : ℕ
  pub used : Bool

-- `chaos_hit_claims_none`: the low 32 bits of the generation, shifted up
abbrev pub claims_none : ℕ → ℕ
claims_none generation = generation % 2 ^ 32 * 2 ^ 32

-- `chaos_hit_claims`
abbrev pub claims : ℕ → ℕ
claims claimed = claimed % 2 ^ 32

-- `claimed & ~UINT64_C(0xffffffff)`
abbrev pub tag_bits : ℕ → ℕ
tag_bits claimed = claimed / 2 ^ 32 * 2 ^ 32

-- `chaos_hit_slot_current`
unfoldable pub slot_current : Option Slot → ℕ → Bool
slot_current none generation = true
slot_current (some s) generation = s.generation == generation

-- `chaos_hit_record`: the slot, and whether its hook is called
unfoldable pub record_hit : Slot → Slot × Bool
record_hit s = (record s { count = (s.count + 1) % 2 ^ 64 }, s.report)

-- What `chaos_hits_assign` writes into a slot that it hands to a rule with a new text.
abbrev pub cleared : Slot → Slot
cleared s = record s { count = 0; claimed = claims_none s.generation; state = 0 }

-- `used = 1U; report = report;`
abbrev pub handed_out : Slot → Slot
handed_out s = record s { used = true; report = true }

-- What `chaos_hits_release` does to a used slot that is not kept; the generation wraps as `uint64_t`.
abbrev pub released : Slot → Slot
released s = record s { used = false; generation = (s.generation + 1) % 2 ^ 64 }

-- The condition under which the loop of `chaos_policy_fire` goes on to its compare-and-swap.
unfoldable pub may_claim : Policy → ℕ → ℕ → Bool
may_claim p generation claimed = not (
    not (tag_bits claimed == claims_none generation)
    || leb p.first (claims claimed)
    || claims claimed == 0xffff_ffff)

-- `chaos_policy_fire` on a slot that no other thread touches meanwhile: the compare-and-swap of the
-- first round succeeds. The result is the return value beside the slot.
unfoldable pub fire_slot : Policy → Slot → ℕ → Bool × Slot
unfolding slot_current may_claim record_hit
fire_slot p s generation =
    if not (slot_current (some s) generation)
    then (false, s)
    else if p.first == 0
    then (true, (record_hit s).0)
    else if may_claim p generation s.claimed
    then (true, (record_hit (record s { claimed = s.claimed + 1 })).0)
    else (false, s)

-- `chaos_policy_fire`; a NULL slot fires without a limit and counts nothing.
unfoldable pub fire : Policy → Option Slot → ℕ → Bool × Option Slot
unfolding fire_slot
fire p none generation = (true, none)
fire p (some s) generation = let (b, s') = fire_slot p s generation in (b, some s')

-- `n` calls in a row for one rule copy: how many of them fired, and the slot they leave.
pub fire_times : ℕ → Policy → Slot → ℕ → ℕ × Slot
fire_times zero p s generation = (0, s)
fire_times (suc n) p s generation =
    let (b, s') = fire_slot p s generation in
    let rest = fire_times n p s' generation in (rest.0 + (if b then 1 else 0), rest.1)

-- A copy whose rule has left the file neither fires nor changes the slot that its rule had.
pub stale_copy :
    (p : Policy) (s : Slot) (generation : ℕ)
    → s.generation ≢ generation
    → fire p (some s) generation ≡ (false, some s)
unfolding fire
stale_copy p s generation h = ground arith

claim_word : (g k : ℕ) → k ≤ 0xffff_ffff → claims (claims_none g + k) ≡ k
claim_word g k h = omega arith

tag_word : (g k : ℕ) → k ≤ 0xffff_ffff → tag_bits (claims_none g + k) ≡ claims_none g
tag_word g k h = omega arith

-- A call on a slot of the copy's own generation that has given `k` claims.
fire_slot_claims :
    (p : Policy) (s : Slot) (k : ℕ)
    → p.first ≢ 0
    → k ≤ 0xffff_ffff
    → s.claimed ≡ claims_none s.generation + k
    → let (b, s') = fire_slot p s s.generation in
      (b ≡ (ltb k p.first && ltb k 0xffff_ffff))
      × (s'.generation ≡ s.generation)
      × (s'.claimed ≡ claims_none s.generation + (if b then k + 1 else k))
      × (s'.count ≡ (if b then (s.count + 1) % 2 ^ 64 else s.count))
unfolding fire_slot
fire_slot_claims p s k h b e =
    let c : claims s.claimed ≡ k = ap (λ (x : ℕ). claims x) e ∙ claim_word s.generation k b in
    let t : tag_bits s.claimed ≡ claims_none s.generation =
      ap (λ (x : ℕ). tag_bits x) e ∙ tag_word s.generation k b in
    rw (c, t) (ground arith)

-- The same for any generation of the copy, split by whether the allowance is used up.
fire_slot_next :
    (p : Policy) (s : Slot) (g k : ℕ)
    → p.first ≢ 0
    → k < min p.first 0xffff_ffff
    → s.generation ≡ g
    → s.claimed ≡ claims_none g + k
    → let (b, s') = fire_slot p s g in
      (b ≡ true) × (s'.generation ≡ g) × (s'.claimed ≡ claims_none g + (k + 1))
fire_slot_next p s g k h b eg ec =
    rw (← eg) (ground (arith, fire_slot_claims p s k h (omega arith) (rw eg ec)))

fire_slot_used_up :
    (p : Policy) (s : Slot) (g k : ℕ)
    → p.first ≢ 0
    → k ≡ min p.first 0xffff_ffff
    → s.generation ≡ g
    → s.claimed ≡ claims_none g + k
    → let (b, s') = fire_slot p s g in
      (b ≡ false) × (s'.generation ≡ g) × (s'.claimed ≡ claims_none g + k)
fire_slot_used_up p s g k h b eg ec =
    rw (← eg) (ground (arith, fire_slot_claims p s k h (omega arith) (rw eg ec)))

fire_times_from :
    (n : ℕ) (p : Policy) (s : Slot) (g k : ℕ)
    → p.first ≢ 0
    → k ≤ min p.first 0xffff_ffff
    → s.generation ≡ g
    → s.claimed ≡ claims_none g + k
    → (fire_times n p s g).0 ≡ min n (min p.first 0xffff_ffff - k)
unfolding fire_times
fire_times_from zero p s g k h b eg ec = omega arith
fire_times_from (suc n) p s g k h b eg ec =
    let s' = (fire_slot p s g).1 in
    elim (dec_lt k (min p.first 0xffff_ffff)) [
      | yes room ↦
          let (fired, eg', ec') = fire_slot_next p s g k h room eg ec in
          rw fired (omega (arith, fire_times_from n p s' g (k + 1) h (omega arith) eg' ec'))
      | no full ↦
          let (fired, eg', ec') = fire_slot_used_up p s g k h (omega arith) eg ec in
          rw fired (omega (arith, fire_times_from n p s' g k h b eg' ec'))
    ]

-- Of any number of calls in a row for a rule with `@first=N` whose slot was just assigned, the first
-- N fire and no other; an N above 2 ^ 32 - 1 counts as 2 ^ 32 - 1.
pub fire_times_lem :
    (n : ℕ) (p : Policy) (s : Slot)
    → p.first ≢ 0
    → s.claimed ≡ claims_none s.generation
    → (fire_times n p s s.generation).0 ≡ min n (min p.first 0xffff_ffff)
fire_times_lem n p s h e =
    omega (arith, fire_times_from n p s s.generation 0 h (omega arith) refl (omega arith))
