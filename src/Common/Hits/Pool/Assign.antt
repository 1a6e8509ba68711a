-- ===== src/Common/Hits/Pool/Assign.antt =====
-- `chaos_hits_assign`: which slot each rule of the new snapshot gets.
use macstab_chaos_testing_li.Prelude.{
  ℕ, zero, suc, ◌≤◌, ◌≡◌, ◌≢◌, refl, sym, ap, ◌∙◌, true, Option, none, some, List, [], ◌∷◌, arith,
  Bytes, length, get_elem?,
}
use mathlib.Core.Path.{subst}
use native.Mathlib.Decide.{ℕ_discrete}
use macstab_chaos_testing_li.Common.Hits.Slot.{Slot, handed_out}
use macstab_chaos_testing_li.Common.Hits.Pool.{Ruled, find_kept, modify, Assigned, assign_from}
use macstab_chaos_testing_li.Common.Hits.Pool.Round.{
  given, Continues, kept, full, fresh, round, assign_kept, UnusedAt-modify,
}
use macstab_chaos_testing_li.Common.Hits.Pool.Lookup.{
  get_elem?-modify_self, get_elem?-modify_ne, UnusedAt,
}

-- The slot at a position, read through an equation of a round.
pub slot_at :
    {a b : Assigned} {o : Option (Option ℕ)} (k : ℕ)
    → a ≡ b
    → get_elem? a.0 k ≡ o
    → get_elem? b.0 k ≡ o
slot_at k e h = sym (ap (λ (a : Assigned). get_elem? a.0 k) e) ∙ h

Continues-trans : {a b c : Slot} → Continues a b → Continues b c → Continues a c
Continues-trans p q = record {
  count = q.count ∙ p.count;
  claimed = q.claimed ∙ p.claimed;
  state = q.state ∙ p.state;
  generation = q.generation ∙ p.generation;
  used = q.used;
}

-- Handing a slot out again leaves the history of every slot in use.
still :
    (pool : List Slot) (i j : ℕ) (s : Slot)
    → get_elem? pool j ≡ some s
    → s.used ≡ true
    → (p : Slot) × (get_elem? (modify handed_out i pool) j ≡ some p) × Continues s p
still pool i j s at on = elim (ℕ_discrete i j) [
  | yes e ↦ (handed_out s, rw e (get_elem?-modify_self handed_out pool j s at), ground arith)
  | no ne ↦ (s, get_elem?-modify_ne handed_out pool i j ne ∙ at, ground arith)
]

-- An unused slot is not one in use.
pub clash :
    (pool : List Slot) (f j : ℕ) (s : Slot)
    → UnusedAt pool f
    → get_elem? pool j ≡ some s
    → s.used ≡ true
    → f ≡ j
    → ⊥
clash pool f j s u at on same =
    let found : get_elem? pool f ≡ some s = rw same at in
    let slots : some u.slot ≡ some s = sym u.found ∙ found in let off = u.unused in ground arith

module _ (active : List Ruled) where
  -- A slot that goes to a rule with a new text was unused.
  pub fresh-UnusedAt :
      (texts : List Bytes) (pool : List Slot) (free k j : ℕ) (text : Bytes)
      → free ≤ length pool
      → get_elem? texts k ≡ some text
      → find_kept active text ≡ none
      → get_elem? (assign_from pool free active texts).0 k ≡ some (some j)
      → UnusedAt pool j
  fresh-UnusedAt [] pool free k j text h at new got = cc
  fresh-UnusedAt (t ∷ texts) pool free zero j text h at new got =
      elim (round pool free active t texts h) [
        | kept i e b eq ↦
            let same : t ≡ text = ground arith in
            let old : find_kept active text ≡ some i = rw (← same) e in absurd (cc)
        | full f e b eq ↦
            let got' : ◌≡◌ {A = Option (Option ℕ)} (some none) (some (some j)) = slot_at 0 eq got in
            absurd (cc)
        | fresh f e u b eq ↦
            let got' : ◌≡◌ {A = Option (Option ℕ)} (some (some f)) (some (some j)) =
              slot_at 0 eq got in
            let same : f ≡ j = ground arith in subst (UnusedAt pool) same u
      ]
  fresh-UnusedAt (t ∷ texts) pool free (suc k) j text h at new got =
      elim (round pool free active t texts h) [
        | kept i e b eq ↦
            (UnusedAt-modify handed_out pool i j (λ s. refl)
              (fresh-UnusedAt texts _ free k j text b at new (slot_at (suc k) eq got))).0
        | full f e b eq ↦ fresh-UnusedAt texts pool f k j text b at new (slot_at (suc k) eq got)
        | fresh f e u b eq ↦
            (UnusedAt-modify given pool f j (λ s. refl)
              (fresh-UnusedAt texts _ f k j text b at new (slot_at (suc k) eq got))).0
      ]

  -- A rule whose text an active rule has gets that rule's slot.
  pub kept_slot :
      (texts : List Bytes) (pool : List Slot) (free k i : ℕ) (text : Bytes)
      → free ≤ length pool
      → get_elem? texts k ≡ some text
      → find_kept active text ≡ some i
      → get_elem? (assign_from pool free active texts).0 k ≡ some (some i)
  kept_slot [] pool free k i text h at old = cc
  kept_slot (t ∷ texts) pool free zero i text h at old =
      let same : t ≡ text = ground arith in
      let found : find_kept active t ≡ some i = rw same old in
      ap (λ (a : Assigned). get_elem? a.0 0) (assign_kept pool free active t texts i found)
  kept_slot (t ∷ texts) pool free (suc k) i text h at old =
      elim (round pool free active t texts h) [
        | kept f e b eq ↦ slot_at (suc k) (sym eq) (kept_slot texts _ free k i text b at old)
        | full f e b eq ↦ slot_at (suc k) (sym eq) (kept_slot texts pool f k i text b at old)
        | fresh f e u b eq ↦ slot_at (suc k) (sym eq) (kept_slot texts _ f k i text b at old)
      ]

  -- A slot in use stays in use and keeps its history.
  pub used-Continues :
      (texts : List Bytes) (pool : List Slot) (free j : ℕ) (s : Slot)
      → free ≤ length pool
      → get_elem? pool j ≡ some s
      → s.used ≡ true
      → (s' : Slot) × (get_elem? (assign_from pool free active texts).1 j ≡ some s')
        × Continues s s'
  used-Continues [] pool free j s h at on = (s, unfold assign_from in at, ground arith)
  used-Continues (t ∷ texts) pool free j s h at on = elim (round pool free active t texts h) [
    | kept i e b eq ↦
        let (p, got, c) = still pool i j s at on in
        let (s', got', c') = used-Continues texts _ free j p b got c.used in
        (s', ap (λ (a : Assigned). get_elem? a.1 j) eq ∙ got', Continues-trans c c')
    | full f e b eq ↦
        let (s', got, c) = used-Continues texts pool f j s b at on in
        (s', ap (λ (a : Assigned). get_elem? a.1 j) eq ∙ got, c)
    | fresh f e u b eq ↦
        let other : f ≢ j = λ same. clash pool f j s u at on same in
        let (s', got, c) =
          used-Continues texts _ f j s b (get_elem?-modify_ne given pool f j other ∙ at) on in
        (s', ap (λ (a : Assigned). get_elem? a.1 j) eq ∙ got, c)
  ]
