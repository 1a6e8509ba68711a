-- ===== src/Common/Hits/Pool/Round.antt =====
-- One round of the loop of `chaos_hits_assign`.
use macstab_chaos_testing_li.Prelude.{
  ℕ, ◌-◌, ◌≤◌, ◌≡◌, ◌≢◌, refl, sym, ap, ◌∙◌, true, false, none, some, List, ◌∷◌, arith, Bytes, ◌==◌,
  length, drop, get_elem?, inl, inr, Bool-cases, Option-cases,
}
use native.Mathlib.Decide.{ℕ_discrete}
use macstab_chaos_testing_li.Common.Hits.Slot.{Slot, cleared, handed_out}
use macstab_chaos_testing_li.Common.Hits.Pool.{
  Ruled, find_kept, next_unused, modify, push, assign_from,
}
use macstab_chaos_testing_li.Common.Hits.Pool.Lookup.{
  get_elem?-modify_ne, get_elem?-modify_inv, length-modify, UnusedAt, next_unused_bounds,
  next_unused-UnusedAt, get_elem?-drop, length-drop,
}

abbrev pub given : Slot → Slot
given s = handed_out (cleared s)

-- The rule's state goes on: everything that a rule copy or a report reads is as it was.
pub record Continues (s s' : Slot) : Type 0 where
  pub count : s'.count ≡ s.count
  pub claimed : s'.claimed ≡ s.claimed
  pub state : s'.state ≡ s.state
  pub generation : s'.generation ≡ s.generation
  pub used : s'.used ≡ true

abbrev next_free : List Slot → ℕ → ℕ
next_free pool free = next_unused free (drop free pool)

next_free-le :
    (pool : List Slot) (free : ℕ) → free ≤ length pool → next_free pool free ≤ length pool
next_free-le pool free h =
    omega (arith, next_unused_bounds (drop free pool) free, length-drop free pool)

next_free-UnusedAt :
    (pool : List Slot) (free : ℕ)
    → free ≤ length pool
    → (next_free pool free == length pool) ≡ false
    → UnusedAt pool (next_free pool free)
next_free-UnusedAt pool free h ne =
    let lo = next_unused_bounds (drop free pool) free in
    let len = length-drop free pool in
    let k = next_free pool free - free in
    let differs : next_free pool free ≢ length pool = ground arith in
    let u = next_unused-UnusedAt (drop free pool) free k (omega arith) (omega arith) in
    record {
      slot = u.slot;
      found = sym (get_elem?-drop free k (next_free pool free) pool (omega arith)) ∙ u.found;
      unused = u.unused;
    }

-- The three ways that a round of the loop goes.
module _ (pool : List Slot) (free : ℕ) (active : List Ruled) (text : Bytes)
    (texts : List Bytes) where
  pub assign_kept :
      (i : ℕ)
      → find_kept active text ≡ some i
      → assign_from pool free active (text ∷ texts)
        ≡ push (some i) (assign_from (modify handed_out i pool) free active texts)
  unfolding assign_from
  assign_kept i h = rw (h, assign_from) refl

  assign_full :
      find_kept active text ≡ none
      → (next_free pool free == length pool) ≡ true
      → assign_from pool free active (text ∷ texts)
        ≡ push none (assign_from pool (next_free pool free) active texts)
  unfolding assign_from
  assign_full h e = rw (h, e, assign_from) refl

  assign_fresh :
      find_kept active text ≡ none
      → (next_free pool free == length pool) ≡ false
      → assign_from pool free active (text ∷ texts)
        ≡ push (some (next_free pool free)) (
            assign_from
              (modify given (next_free pool free) pool)
              (next_free pool free)
              active
              texts)
  unfolding assign_from
  assign_fresh h e = rw (h, e, assign_from) refl

  pub data Round : Type 0 where
    kept :
        (i : ℕ)
        → find_kept active text ≡ some i
        → free ≤ length (modify handed_out i pool)
        → assign_from pool free active (text ∷ texts)
          ≡ push (some i) (assign_from (modify handed_out i pool) free active texts)
        → Round
    full :
        (f : ℕ)
        → find_kept active text ≡ none
        → f ≤ length pool
        → assign_from pool free active (text ∷ texts) ≡ push none (assign_from pool f active texts)
        → Round
    fresh :
        (f : ℕ)
        → find_kept active text ≡ none
        → UnusedAt pool f
        → f ≤ length (modify given f pool)
        → assign_from pool free active (text ∷ texts)
          ≡ push (some f) (assign_from (modify given f pool) f active texts)
        → Round

  pub round : free ≤ length pool → Round
  round h = elim (Option-cases (find_kept active text)) [
    | inr (i, e) ↦ kept i e (rw length-modify h) (assign_kept i e)
    | inl e ↦ elim (Bool-cases (next_free pool free == length pool)) [
      | inl at_end ↦ full (next_free pool free) e (next_free-le pool free h) (assign_full e at_end)
      | inr inside ↦
          fresh (next_free pool free) e (next_free-UnusedAt pool free h inside)
            (rw length-modify (next_free-le pool free h)) (assign_fresh e inside)
    ]
  ]

-- A slot that is unused after a write that marks a slot used was unused before, and is another one.
pub UnusedAt-modify :
    (g : Slot → Slot) (pool : List Slot) (i j : ℕ)
    → ((s : Slot) → (g s).used ≡ true)
    → UnusedAt (modify g i pool) j
    → UnusedAt pool j × (i ≢ j)
UnusedAt-modify g pool i j mark u = elim (ℕ_discrete i j) [
  | yes e ↦ absurd (taken e)
  | no ne ↦ (
    record {
      slot = u.slot;
      found = sym (get_elem?-modify_ne g pool i j ne) ∙ u.found;
      unused = u.unused;
    },
    ne,
  )
]
  where
    taken : i ≡ j → ⊥
    taken e =
        let (s, _, is) =
          get_elem?-modify_inv g pool i u.slot (ap (get_elem? (modify g i pool)) e ∙ u.found) in
        let on : u.slot.used ≡ true = rw is (mark s) in let off = u.unused in cc
