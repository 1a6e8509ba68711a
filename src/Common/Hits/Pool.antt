-- ===== src/Common/Hits/Pool.antt =====
-- src/common/chaos_hits.h: `chaos_hits_assign`, `chaos_hits_release`, `chaos_hits_pool_reset` and
-- `chaos_hits_pool_after_fork`.
mod Lookup
pub mod Round
pub mod Assign
pub mod Length
pub mod Reload
use macstab_chaos_testing_li.Prelude.{
  ℕ, zero, suc, ◌+◌, ◌%◌, ◌^◌, Bool, true, false, not, ◌&&◌, ◌||◌, Option, none, some, List, [],
  ◌∷◌, map, Bytes, bytes_eq, ◌==◌, if◌then◌else◌, length, drop,
}
use macstab_chaos_testing_li.Common.Hits.Slot.{Slot, claims_none, cleared, handed_out, released}

-- A rule of a snapshot: its slot and its text.
abbrev pub Ruled : Type 0
Ruled = Option ℕ × Bytes

-- the loop over `previous`: the slot of the first active rule with the text
unfoldable pub find_kept : List Ruled → Bytes → Option ℕ
find_kept [] text = none
find_kept ((none, u) ∷ active) text = find_kept active text
find_kept ((some i, u) ∷ active) text = if bytes_eq u text then some i else find_kept active text

-- `while (free_slot < pool_size && pool[free_slot].used) ++free_slot;` on the pool from `free` on
unfoldable pub next_unused : ℕ → List Slot → ℕ
next_unused free [] = free
next_unused free (s ∷ slots) = if s.used then next_unused (free + 1) slots else free

-- `pool[i] = f(pool[i])`
unfoldable pub modify : (Slot → Slot) → ℕ → List Slot → List Slot
modify f i [] = []
modify f zero (s ∷ slots) = f s ∷ slots
modify f (suc i) (s ∷ slots) = s ∷ modify f i slots

-- the slots of the new snapshot, beside the pool
abbrev pub Assigned : Type 0
Assigned = List (Option ℕ) × List Slot

abbrev pub push : Option ℕ → Assigned → Assigned
push slot a = (slot ∷ a.0, a.1)

-- The loop of `chaos_hits_assign` over the new rules, `free` being `free_slot`.
pub assign_from : List Slot → ℕ → List Ruled → List Bytes → Assigned
assign_from pool free active [] = ([], pool)
assign_from pool free active (text ∷ texts) =
    let f = next_unused free (drop free pool) in
    elim (find_kept active text) [
      | some i ↦ push (some i) (assign_from (modify handed_out i pool) free active texts)
      | none ↦ elim (f == length pool) [
        | true ↦ push none (assign_from pool f active texts)
        | false ↦
            push (some f) (assign_from (modify (λ s. handed_out (cleared s)) f pool) f active texts)
      ]
    ]

unfoldable pub assign : List Slot → List Ruled → List Bytes → Assigned
unfolding assign_from find_kept next_unused modify
assign pool active texts = assign_from pool 0 active texts

-- `held != kept_count`: some rule of the new snapshot holds the slot
unfoldable pub holds : ℕ → List (Option ℕ) → Bool
holds i [] = false
holds i (none ∷ kept) = holds i kept
holds i (some j ∷ kept) = j == i || holds i kept

release_from : ℕ → List Slot → List (Option ℕ) → List Slot
release_from i [] kept = []
release_from i (s ∷ slots) kept =
    (if s.used && not (holds i kept) then released s else s) ∷ release_from (i + 1) slots kept

unfoldable pub release : List Slot → List (Option ℕ) → List Slot
unfolding release_from holds
release pool kept = release_from 0 pool kept

-- one round of `chaos_hits_pool_reset`
abbrev pub reset_slot : Slot → Slot
reset_slot s = record s {
  used = false;
  count = 0;
  state = 0;
  generation = (s.generation + 1) % 2 ^ 64;
  claimed = claims_none ((s.generation + 1) % 2 ^ 64);
}

unfoldable pub pool_reset : List Slot → List Slot
pool_reset pool = map reset_slot pool

-- one round of the loop of `chaos_hits_pool_after_fork`; `CHAOS_STORE_IF_CHANGED` only avoids the
-- store of an equal value
abbrev pub forked_slot : Slot → Slot
forked_slot s = record s {
  count = 0;
  claimed = claims_none s.generation;
  state = if s.state == 3 then 1 else s.state;
}

unfoldable pub pool_after_fork : List Slot → List (Option ℕ) → List Slot
unfolding release
pool_after_fork pool active = map forked_slot (release pool active)
