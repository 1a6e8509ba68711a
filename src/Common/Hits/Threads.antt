-- ===== src/Common/Hits/Threads.antt =====
-- `chaos_policy_fire` (src/common/chaos_policy.h) run by any number of threads at one slot, while
-- the reload owner releases the slot and hands it to other rules. Each step is one atomic access.
pub mod Safety
use macstab_chaos_testing_li.Prelude.{
  ℕ, zero, suc, ◌+◌, ◌-◌, ◌*◌, ◌/◌, ◌%◌, ◌^◌, ◌≤◌, ◌<◌, ◌≡◌, ◌≢◌, ◌⊎◌, inl, inr, refl, sym, ap, ◌∙◌,
  Bool, true, false, not, ◌&&◌, ◌||◌, Option, none, some, arith, ◌==◌, ltb, leb, if◌then◌else◌,
}
use macstab_chaos_testing_li.Common.Policy.Word.{Policy}
use macstab_chaos_testing_li.Common.Hits.Slot.{
  Slot, claims, claims_none, tag_bits, slot_current, may_claim, record_hit, cleared, handed_out,
  released,
}

-- Where a thread stands in `chaos_policy_fire`, with the generation that its rule copy captured.
pub data Pc : Type 0 where
  idle : Pc
  looping : ℕ → Pc
  loaded : ℕ → ℕ → Pc
  fired : Pc
  refused : Pc

-- The slot, the threads, and how often copies of each generation have fired.
pub record System : Type 0 where
  pub slot : Slot
  pub pc : ℕ → Pc
  pub fires : ℕ → ℕ

abbrev pub at : (ℕ → Pc) → ℕ → Pc → ℕ → Pc
at f i p j = if j == i then p else f j

abbrev pub bump : (ℕ → ℕ) → ℕ → ℕ → ℕ
bump f g h = if h == g then f h + 1 else f h

-- A generation that a thread holds is a past one, or the current one of a slot in use.
abbrev pub Past : Slot → ℕ → Type 0
Past s g = (g < 2 ^ 32) × (g ≤ s.generation) × (s.used ≡ false → g < s.generation)

abbrev pub Held : Slot → Pc → Type 0
Held s (looping g) = Past s g
Held s (loaded g c) = Past s g
Held s _ = Unit {0}

-- `policy g` is the policy of the rule that holds the slot in generation `g`.
module _ (policy : ℕ → Policy) where
  pub data Step (a b : System) : Type 0 where
    -- A copy of the current generation exists only while the slot is in use: it is taken after the
    -- slot was handed out, and the release moves the generation on.
    check :
        (i g : ℕ)
        → a.pc i ≡ idle
        → a.slot.used ≡ true
        → (policy g).first ≢ 0
        → slot_current (some a.slot) g ≡ true
        → b ≡ record a { pc = at a.pc i (looping g) }
        → Step a b
    stale :
        (i g : ℕ)
        → a.pc i ≡ idle
        → slot_current (some a.slot) g ≡ false
        → b ≡ record a { pc = at a.pc i refused }
        → Step a b
    load :
        (i g : ℕ)
        → a.pc i ≡ looping g
        → b ≡ record a { pc = at a.pc i (loaded g a.slot.claimed) }
        → Step a b
    give_up :
        (i g c : ℕ)
        → a.pc i ≡ loaded g c
        → may_claim (policy g) g c ≡ false
        → b ≡ record a { pc = at a.pc i refused }
        → Step a b
    cas_win :
        (i g c : ℕ)
        → a.pc i ≡ loaded g c
        → may_claim (policy g) g c ≡ true
        → a.slot.claimed ≡ c
        → b ≡ record a {
          slot = record a.slot { claimed = c + 1 };
          pc = at a.pc i fired;
          fires = bump a.fires g;
        }
        → Step a b
    cas_lose :
        (i g c : ℕ)
        → a.pc i ≡ loaded g c
        → may_claim (policy g) g c ≡ true
        → a.slot.claimed ≢ c
        → b ≡ record a { pc = at a.pc i (looping g) }
        → Step a b
    count :
        (i : ℕ)
        → a.pc i ≡ fired
        → b ≡ record a { slot = (record_hit a.slot).0; pc = at a.pc i idle }
        → Step a b
    again : (i : ℕ) → a.pc i ≡ refused → b ≡ record a { pc = at a.pc i idle } → Step a b
    -- The owner releases the slot; it does so fewer than 2 ^ 32 times.
    release :
        a.slot.used ≡ true
        → a.slot.generation + 1 < 2 ^ 32
        → b ≡ record a { slot = released a.slot }
        → Step a b
    assign : a.slot.used ≡ false → b ≡ record a { slot = handed_out (cleared a.slot) } → Step a b

  pub data Reach (s : System) : System → Type 0 where
    here : Reach s s
    next : {t u : System} → Reach s t → Step t u → Reach s u

  pub record IsSafe (s : System) : Type 0 where
    pub small : s.slot.generation < 2 ^ 32
    pub tag_le : s.slot.claimed / 2 ^ 32 ≤ s.slot.generation
    pub counted : s.fires (s.slot.claimed / 2 ^ 32) ≡ claims s.slot.claimed
    pub none_later : (g : ℕ) → s.slot.claimed / 2 ^ 32 < g → s.fires g ≡ 0
    pub bounded : (g : ℕ) → s.fires g ≤ (policy g).first
    pub held : (i : ℕ) → Held s.slot (s.pc i)
    pub unused :
        s.slot.used ≡ false
        → (s.slot.claimed / 2 ^ 32 < s.slot.generation) ⊎ (claims s.slot.claimed ≡ 0)
