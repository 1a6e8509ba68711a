-- ===== src/Common/Hits/Threads/Safety.antt =====
-- src/common/chaos_policy.h, `chaos_policy_fire`: the allowance of a slot under interleavings of calls and
-- reloads.
use mathlib.Core.Path.{subst}
use native.Mathlib.Decide.{dec_lt}
use macstab_chaos_testing_li.Prelude.{
  ℕ, ◌+◌, ◌/◌, ◌^◌, ◌≤◌, ◌<◌, ◌≡◌, ◌⊎◌, inl, inr, sym, ap, ◌∙◌, true, false, some, arith, ◌==◌,
  Bool-cases,
}
use macstab_chaos_testing_li.Common.Policy.Word.{Policy}
use macstab_chaos_testing_li.Common.Hits.Slot.{
  Slot, claims, claims_none, slot_current, may_claim, record_hit, cleared, handed_out, released,
}
use macstab_chaos_testing_li.Common.Hits.Threads.{
  Pc, idle, looping, loaded, fired, refused, System, at, bump, Step, check, stale, load, give_up,
  cas_win, cas_lose, count, again, release, assign, Reach, here, next, Past, Held, IsSafe,
}

module _ (policy : ℕ → Policy) where
  Held-at :
      (s : Slot) (f : ℕ → Pc) (i : ℕ) (p : Pc)
      → ((j : ℕ) → Held s (f j))
      → Held s p
      → (j : ℕ) → Held s (at f i p j)
  Held-at s f i p h k j = elim (Bool-cases (j == i)) [ inl e ↦ rw e k | inr e ↦ rw e (h j) ]

  -- What threads hold stays past when the slot moves on.
  Held-slot :
      (s s' : Slot) (p : Pc)
      → s.generation ≤ s'.generation
      → (s'.used ≡ false → (s.used ≡ false) ⊎ (s.generation < s'.generation))
      → Held s p
      → Held s' p
  Held-slot s s' idle le u h = tt
  Held-slot s s' (looping g) le u h = (h.0, omega (arith, h.1), λ e. omega (arith, u e, h.1, h.2))
  Held-slot s s' (loaded g c) le u h = (h.0, omega (arith, h.1), λ e. omega (arith, u e, h.1, h.2))
  Held-slot s s' fired le u h = tt
  Held-slot s s' refused le u h = tt

  -- A step that moves a thread and nothing else.
  IsSafe-pc :
      (s : System) (i : ℕ) (p : Pc)
      → IsSafe policy s
      → Held s.slot p
      → IsSafe policy (record s { pc = at s.pc i p })
  IsSafe-pc s i p v h = record {
    small = v.small;
    tag_le = v.tag_le;
    counted = v.counted;
    none_later = v.none_later;
    bounded = v.bounded;
    held = Held-at s.slot s.pc i p v.held h;
    unused = v.unused;
  }

  -- A claim that may be made is one of the generation's own, and below its allowance.
  may_claim_own :
      (g c : ℕ)
      → g < 2 ^ 32
      → may_claim (policy g) g c ≡ true
      → (c / 2 ^ 32 ≡ g) × (claims c < (policy g).first) × (claims c < 0xffff_ffff)
  unfolding may_claim
  may_claim_own g c h e = (ground arith, ground arith, ground arith)

  IsSafe-cas_win :
      (s : System) (i g c : ℕ)
      → IsSafe policy s
      → Past s.slot g
      → may_claim (policy g) g c ≡ true
      → s.slot.claimed ≡ c
      → IsSafe policy (record s {
        slot = record s.slot { claimed = c + 1 };
        pc = at s.pc i fired;
        fires = bump s.fires g;
      })
  IsSafe-cas_win s i g c v h m e =
      let (tag, room, low) = may_claim_own g c h.0 m in
      let same : (c + 1) / 2 ^ 32 ≡ g = omega arith in
      let more : claims (c + 1) ≡ claims c + 1 = omega arith in
      let was : s.fires g ≡ claims c =
        ap s.fires (sym tag ∙ ap (λ (x : ℕ). x / 2 ^ 32) (sym e))
        ∙ v.counted
        ∙ ap (λ (x : ℕ). claims x) e in
      let slot' = record s.slot { claimed = c + 1 } in
      record {
        small = v.small;
        tag_le = omega (arith, h.1);
        counted = rw (same, more) (ground arith);
        none_later = λ k lt.
            let later : s.slot.claimed / 2 ^ 32 < k = omega arith in
            ground (arith, v.none_later k later);
        bounded = λ k. ground (arith, v.bounded k, v.bounded g);
        held =
            Held-at slot' s.pc i fired
              (λ j. Held-slot s.slot slot' (s.pc j) (omega arith) inl (v.held j)) tt;
        unused = λ u. inl (rw same (h.2 u));
      }

  IsSafe-count :
      (s : System) (i : ℕ)
      → IsSafe policy s
      → IsSafe policy (record s { slot = (record_hit s.slot).0; pc = at s.pc i idle })
  unfolding record_hit
  IsSafe-count s i v =
      let slot' = (record_hit s.slot).0 in
      record {
        small = v.small;
        tag_le = v.tag_le;
        counted = v.counted;
        none_later = v.none_later;
        bounded = v.bounded;
        held =
            Held-at slot' s.pc i idle
              (λ j. Held-slot s.slot slot' (s.pc j) (omega arith) inl (v.held j)) tt;
        unused = v.unused;
      }

  IsSafe-release :
      (s : System)
      → IsSafe policy s
      → s.slot.used ≡ true
      → s.slot.generation + 1 < 2 ^ 32
      → IsSafe policy (record s { slot = released s.slot })
  IsSafe-release s v u b = record {
    small = omega arith;
    tag_le = omega (arith, v.tag_le);
    counted = v.counted;
    none_later = v.none_later;
    bounded = v.bounded;
    held = λ j.
        Held-slot s.slot (released s.slot) (s.pc j) (omega arith) (λ e. inr (omega arith))
          (v.held j);
    unused = λ e. inl (omega (arith, v.tag_le));
  }

  IsSafe-assign :
      (s : System)
      → IsSafe policy s
      → s.slot.used ≡ false
      → IsSafe policy (record s { slot = handed_out (cleared s.slot) })
  IsSafe-assign s v u =
      let g = s.slot.generation in
      let tag : claims_none g / 2 ^ 32 ≡ g = omega (arith, v.small) in
      let zero_claims : claims (claims_none g) ≡ 0 = omega arith in
      record {
        small = v.small;
        tag_le = omega arith;
        counted =
            rw (tag, zero_claims)
              (elim (v.unused u) [
                | inl lt ↦ v.none_later g lt
                | inr no_claim ↦ elim (dec_lt (s.slot.claimed / 2 ^ 32) g) [
                  | yes lt ↦ v.none_later g lt
                  | no ge ↦
                      let at_tag : g ≡ s.slot.claimed / 2 ^ 32 = omega (arith, v.tag_le) in
                      ap s.fires at_tag ∙ v.counted ∙ no_claim
                ]
              ]);
        none_later = λ k lt. v.none_later k (omega (arith, v.tag_le));
        bounded = v.bounded;
        held = λ j.
            Held-slot s.slot (handed_out (cleared s.slot)) (s.pc j) (omega arith) (λ e. absurd (cc))
              (v.held j);
        unused = λ e. absurd (cc);
      }

  checked-Past :
      (s : Slot) (g : ℕ)
      → s.generation < 2 ^ 32
      → s.used ≡ true
      → slot_current (some s) g ≡ true
      → Past s g
  unfolding slot_current
  checked-Past s g h u e =
      let same : s.generation ≡ g = ground arith in (omega arith, omega arith, λ f. absurd (cc))

  Step-IsSafe : (s t : System) → Step policy s t → IsSafe policy s → IsSafe policy t
  Step-IsSafe s t (check i g p u nz cur e) v =
      rw e (IsSafe-pc s i (looping g) v (checked-Past s.slot g v.small u cur))
  Step-IsSafe s t (stale i g p cur e) v = rw e (IsSafe-pc s i refused v tt)
  Step-IsSafe s t (load i g p e) v =
      rw e (IsSafe-pc s i (loaded g s.slot.claimed) v (subst (Held s.slot) p (v.held i)))
  Step-IsSafe s t (give_up i g c p m e) v = rw e (IsSafe-pc s i refused v tt)
  Step-IsSafe s t (cas_win i g c p m same e) v =
      rw e (IsSafe-cas_win s i g c v (subst (Held s.slot) p (v.held i)) m same)
  Step-IsSafe s t (cas_lose i g c p m other e) v =
      rw e (IsSafe-pc s i (looping g) v (subst (Held s.slot) p (v.held i)))
  Step-IsSafe s t (count i p e) v = rw e (IsSafe-count s i v)
  Step-IsSafe s t (again i p e) v = rw e (IsSafe-pc s i idle v tt)
  Step-IsSafe s t (release u b e) v = rw e (IsSafe-release s v u b)
  Step-IsSafe s t (assign u e) v = rw e (IsSafe-assign s v u)

  Reach-IsSafe : {s t : System} → IsSafe policy s → Reach policy s t → IsSafe policy t
  Reach-IsSafe v here = v
  Reach-IsSafe v (next r st) = Step-IsSafe _ _ st (Reach-IsSafe v r)

  -- A slot as `chaos_hits_pool_reset` leaves it, and no thread inside `chaos_policy_fire`.
  abbrev pub Fresh : System → Type 0
  Fresh s =
      (s.slot.generation < 2 ^ 32)
      × (s.slot.claimed ≡ claims_none s.slot.generation)
      × ((i : ℕ) → s.pc i ≡ idle)
      × ((g : ℕ) → s.fires g ≡ 0)

  Fresh-IsSafe : (s : System) → Fresh s → IsSafe policy s
  Fresh-IsSafe s (small, word, idles, zeros) =
      let tag : s.slot.claimed / 2 ^ 32 ≡ s.slot.generation = omega arith in
      let none_yet : claims s.slot.claimed ≡ 0 = omega arith in
      record {
        small = small;
        tag_le = omega arith;
        counted = zeros _ ∙ sym none_yet;
        none_later = λ g lt. zeros g;
        bounded = λ g. omega (arith, zeros g);
        held = λ i. rw (idles i) tt;
        unused = λ u. inr none_yet;
      }

  -- Whatever the order in which any number of threads and the reload owner take their steps, from a
  -- slot that was just reset and with fewer than 2 ^ 32 releases of it: the copies of one
  -- generation of the slot never fire more often than their rule's `@first` allows.
  pub fires-le-first :
      {s t : System} → Fresh s → Reach policy s t → (g : ℕ) → t.fires g ≤ (policy g).first
  fires-le-first f r g = (Reach-IsSafe (Fresh-IsSafe _ f) r).bounded g
