-- ===== src/Common/Hits/Pool/Reload.antt =====
-- A reload of the rules: `chaos_hits_assign` for the new snapshot, then `chaos_hits_release` of what
-- it does not hold.
use native.Mathlib.Decide.{dec_lt}
use macstab_chaos_testing_li.Prelude.{
  ℕ, zero, suc, ◌+◌, ◌%◌, ◌^◌, ◌≤◌, ◌<◌, ◌≡◌, ◌≢◌, refl, sym, ◌∙◌, true, false, Option, none, some,
  List, [], ◌∷◌, arith, Bytes, bytes_eq, bytes_eq_iff, ◌==◌, length, get_elem?, inl, inr,
  Bool-cases, Option-cases,
}
use macstab_chaos_testing_li.Common.Hits.Slot.{Slot, handed_out, released, fire, stale_copy}
use macstab_chaos_testing_li.Common.Policy.Word.{Policy}
use macstab_chaos_testing_li.Common.Hits.Pool.{
  Ruled, find_kept, assign_from, assign, holds, release,
}
use macstab_chaos_testing_li.Common.Hits.Pool.Lookup.{get_elem?-release}
use macstab_chaos_testing_li.Common.Hits.Pool.Round.{
  Continues, kept, full, fresh, round, given, UnusedAt-modify,
}
use macstab_chaos_testing_li.Common.Hits.Pool.Assign.{
  fresh-UnusedAt, kept_slot, used-Continues, clash, slot_at,
}

-- The active snapshot and its pool: each rule's slot is in use, and no slot has two texts.
pub record IsActive (pool : List Slot) (active : List Ruled) : Type 0 where
  pub in_use :
      (a i : ℕ) (u : Bytes)
      → get_elem? active a ≡ some (some i, u)
      → (s : Slot) × (get_elem? pool i ≡ some s) × (s.used ≡ true)
  pub one_text :
      (a b i : ℕ) (u v : Bytes)
      → get_elem? active a ≡ some (some i, u)
      → get_elem? active b ≡ some (some i, v)
      → u ≡ v

find_kept-active :
    (active : List Ruled) (text : Bytes) (i : ℕ)
    → find_kept active text ≡ some i
    → (a : ℕ) × (get_elem? active a ≡ some (some i, text))
unfolding find_kept
find_kept-active [] text i h = cc
find_kept-active ((none, u) ∷ active) text i h =
    let (a, got) = find_kept-active active text i h in (suc a, got)
find_kept-active ((some j, u) ∷ active) text i h = elim (Bool-cases (bytes_eq u text)) [
  | inl e ↦ (0, ground (arith, bytes_eq_iff u text))
  | inr e ↦ let (a, got) = find_kept-active active text i (ground arith) in (suc a, got)
]

-- A slot that a position takes is not given to a later rule with a new text.
later_fresh :
    (active : List Ruled) (texts : List Bytes) (pool : List Slot) (free k l i j : ℕ) (text : Bytes)
    → free ≤ length pool
    → k < l
    → get_elem? texts l ≡ some text
    → find_kept active text ≡ none
    → get_elem? (assign_from pool free active texts).0 k ≡ some (some i)
    → get_elem? (assign_from pool free active texts).0 l ≡ some (some j)
    → i ≢ j
later_fresh active [] pool free k l i j text h lt at new gi gj = cc
later_fresh active (t ∷ texts) pool free k zero i j text h lt at new gi gj = absurd (omega arith)
later_fresh active (t ∷ texts) pool free zero (suc l) i j text h lt at new gi gj =
    elim (round pool free active t texts h) [
      | kept f e b eq ↦
          let same : ◌≡◌ {A = Option (Option ℕ)} (some (some f)) (some (some i)) =
            slot_at 0 eq gi in
          let u = fresh-UnusedAt active texts _ free l j text b at new (slot_at (suc l) eq gj) in
          let ne = (UnusedAt-modify handed_out pool f j (λ s. refl) u).1 in λ ij. ne (ground arith)
      | full f e b eq ↦
          let same : ◌≡◌ {A = Option (Option ℕ)} (some none) (some (some i)) = slot_at 0 eq gi in
          absurd (cc)
      | fresh f e un b eq ↦
          let same : ◌≡◌ {A = Option (Option ℕ)} (some (some f)) (some (some i)) =
            slot_at 0 eq gi in
          let u = fresh-UnusedAt active texts _ f l j text b at new (slot_at (suc l) eq gj) in
          let ne = (UnusedAt-modify given pool f j (λ s. refl) u).1 in λ ij. ne (ground arith)
    ]
later_fresh active (t ∷ texts) pool free (suc k) (suc l) i j text h lt at new gi gj =
    elim (round pool free active t texts h) [
      | kept f e b eq ↦
          later_fresh active texts _ free k l i j text b (omega arith) at new
            (slot_at (suc k) eq gi) (slot_at (suc l) eq gj)
      | full f e b eq ↦
          later_fresh active texts _ f k l i j text b (omega arith) at new (slot_at (suc k) eq gi)
            (slot_at (suc l) eq gj)
      | fresh f e un b eq ↦
          later_fresh active texts _ f k l i j text b (omega arith) at new (slot_at (suc k) eq gi)
            (slot_at (suc l) eq gj)
    ]

holds-position :
    (slots : List (Option ℕ)) (k i : ℕ) → get_elem? slots k ≡ some (some i) → holds i slots ≡ true
unfolding holds
holds-position [] k i h = cc
holds-position (none ∷ slots) zero i h = cc
holds-position (some j ∷ slots) zero i h = ground arith
holds-position (none ∷ slots) (suc k) i h = holds-position slots k i h
holds-position (some j ∷ slots) (suc k) i h = ground (arith, holds-position slots k i h)

position-holds :
    (slots : List (Option ℕ)) (i : ℕ)
    → holds i slots ≡ true
    → (k : ℕ) × (get_elem? slots k ≡ some (some i))
unfolding holds
position-holds [] i h = cc
position-holds (none ∷ slots) i h = let (k, e) = position-holds slots i h in (suc k, e)
position-holds (some j ∷ slots) i h = elim (Bool-cases (j == i)) [
  | inl e ↦ (0, ground arith)
  | inr e ↦ let (k, at) = position-holds slots i (ground arith) in (suc k, at)
]

module _ (pool : List Slot) (active : List Ruled) (texts : List Bytes)
    (v : IsActive pool active) where
  -- A slot of the active snapshot does not go to a rule with a new text.
  kept_fresh_differ :
      (k l i : ℕ) (t u : Bytes)
      → get_elem? texts k ≡ some t
      → get_elem? texts l ≡ some u
      → find_kept active t ≡ some i
      → find_kept active u ≡ none
      → get_elem? (assign pool active texts).0 l ≡ some (some i)
      → ⊥
  unfolding assign
  kept_fresh_differ k l i t u at_k at_l old new got =
      let (a, entry) = find_kept-active active t i old in
      let (s, found, on) = v.in_use a i t entry in
      clash pool i i s (fresh-UnusedAt active texts pool 0 l i u (omega arith) at_l new got) found
        on refl

  same_kept :
      (k i j : ℕ) (t : Bytes)
      → get_elem? texts k ≡ some t
      → find_kept active t ≡ some j
      → get_elem? (assign pool active texts).0 k ≡ some (some i)
      → find_kept active t ≡ some i
  unfolding assign
  same_kept k i j t at old got =
      let mine = kept_slot active texts pool 0 k j t (omega arith) at old in
      let same : ◌≡◌ {A = Option (Option ℕ)} (some (some j)) (some (some i)) = sym mine ∙ got in
      ground arith

  -- Two rules whose texts are both new to the rule file get different slots, even if the texts are
  -- equal.
  pub assign-new_rules :
      (k l i j : ℕ) (t u : Bytes)
      → k ≢ l
      → get_elem? texts k ≡ some t
      → get_elem? texts l ≡ some u
      → find_kept active t ≡ none
      → find_kept active u ≡ none
      → get_elem? (assign pool active texts).0 k ≡ some (some i)
      → get_elem? (assign pool active texts).0 l ≡ some (some j)
      → i ≢ j
  unfolding assign
  assign-new_rules k l i j t u ne at_k at_l nt nu gi gj = elim (dec_lt k l) [
    | yes lt ↦ later_fresh active texts pool 0 k l i j u (omega arith) lt at_l nu gi gj
    | no ge ↦ λ e.
        later_fresh active texts pool 0 l k j i t (omega arith) (omega arith) at_k nt gj gi (sym e)
  ]

  -- Rules with different texts never share a slot, so neither a count nor an `@first` allowance.
  pub assign_isolates :
      (k l i j : ℕ) (t u : Bytes)
      → get_elem? texts k ≡ some t
      → get_elem? texts l ≡ some u
      → t ≢ u
      → get_elem? (assign pool active texts).0 k ≡ some (some i)
      → get_elem? (assign pool active texts).0 l ≡ some (some j)
      → i ≢ j
  assign_isolates k l i j t u at_k at_l ne gi gj e = elim (Option-cases (find_kept active t)) [
    | inl nt ↦ elim (Option-cases (find_kept active u)) [
      | inl nu ↦ assign-new_rules k l i j t u (λ same. ne (same_text same)) at_k at_l nt nu gi gj e
      | inr (b, ou) ↦
          kept_fresh_differ l k j u t at_l at_k (same_kept l j b u at_l ou gj) nt (rw (← e) gi)
    ]
    | inr (a, ot) ↦ elim (Option-cases (find_kept active u)) [
      | inl nu ↦ kept_fresh_differ k l i t u at_k at_l (same_kept k i a t at_k ot gi) nu (rw e gj)
      | inr (b, ou) ↦
          let (x, ex) = find_kept-active active t i (same_kept k i a t at_k ot gi) in
          let (y, ey) = find_kept-active active u j (same_kept l j b u at_l ou gj) in
          ne (v.one_text x y i t u ex (rw e ey))
    ]
  ]
    where
      same_text : k ≡ l → t ≡ u
      same_text same =
          let both : get_elem? texts k ≡ some u = rw same at_l in
          let eq : some t ≡ some u = sym at_k ∙ both in ground arith

  -- Over a whole reload, assignment and release, a rule whose text the active rules have keeps the
  -- slot of the first of them, with its count, claims, state and generation; so its rule copies
  -- stay current.
  pub reload_keeps :
      (k i : ℕ) (t : Bytes) (s : Slot)
      → get_elem? texts k ≡ some t
      → find_kept active t ≡ some i
      → get_elem? pool i ≡ some s
      → let (next, pool') = assign pool active texts in
        (get_elem? next k ≡ some (some i))
        × ((s' : Slot) × (get_elem? (release pool' next) i ≡ some s') × Continues s s')
  unfolding assign
  reload_keeps k i t s at old found =
      let (a, entry) = find_kept-active active t i old in
      let (s₀, found₀, on₀) = v.in_use a i t entry in
      let same : some s₀ ≡ some s = sym found₀ ∙ found in
      let on : s.used ≡ true = ground arith in
      let mine = kept_slot active texts pool 0 k i t (omega arith) at old in
      let (s', got, c) = used-Continues active texts pool 0 i s (omega arith) found on in
      let next = (assign_from pool 0 active texts).0 in
      let pool' = (assign_from pool 0 active texts).1 in
      let kept_on = get_elem?-release i pool' next s' got in
      (mine, (s', kept_on ∙ rw (c.used, holds-position next k i mine) refl, c))

  -- Where a slot is in use, its generation is a 64-bit number, and no rule of the new snapshot gets
  -- it: the reload frees it and moves it to the next generation, modulo 2 ^ 64, and a copy of a rule
  -- with the generation of before neither fires nor changes it.
  pub reload_outdates :
      (i : ℕ) (s : Slot) (p : Policy)
      → get_elem? pool i ≡ some s
      → s.used ≡ true
      → s.generation < 2 ^ 64
      → ((k : ℕ) → get_elem? (assign pool active texts).0 k ≢ some (some i))
      → let (next, pool') = assign pool active texts in
        (s' : Slot) × (get_elem? (release pool' next) i ≡ some s')
        × (s'.used ≡ false)
        × (s'.generation ≡ (s.generation + 1) % 2 ^ 64)
        × (fire p (some s') s.generation ≡ (false, some s'))
  unfolding assign
  reload_outdates i s p found on small gone =
      let (s', got, c) = used-Continues active texts pool 0 i s (omega arith) found on in
      let next = (assign_from pool 0 active texts).0 in
      let pool' = (assign_from pool 0 active texts).1 in
      let after = get_elem?-release i pool' next s' got in
      elim (Bool-cases (holds i next)) [
        | inl h ↦ let (k, at) = position-holds next i h in absurd (gone k at)
        | inr h ↦ (
          released s',
          after ∙ rw (c.used, h) refl,
          refl,
          omega (arith, c.generation),
          stale_copy p (released s') s.generation (omega (arith, c.generation)),
        )
      ]
