-- ===== src/Io/Actions/Effects.antt =====
-- Torn writes, corrupted reads, and the gates of a rule.
use mathlib.Core.Bool.{false≢true}
use native.Mathlib.Nat.{mod-lt, mod-le, mod-eq_of_lt}
use mathlib.Core.Logic.{◌⊎◌, ◌↔◌}
use macstab_chaos_testing_li.Prelude.{
  ◌^◌, ℕ, zero, suc, ◌-◌, ◌%◌, ◌≤◌, ◌<◌, ◌≡◌, ◌≢◌, inl, inr, refl, sym, ap, ◌∙◌, true, false, ◌&&◌,
  some, List, [], ◌∷◌, arith, Bytes, length, get_elem?, Bool-cases, both_of_and,
}
use macstab_chaos_testing_li.Common.Policy.Gates.{
  window_open, size_ok, InWindow, SizeFits, gates_iff,
}
use macstab_chaos_testing_li.Common.Hits.Slot.{Slot}
use macstab_chaos_testing_li.Io.Rule.{Rule}
use macstab_chaos_testing_li.Io.Actions.{
  torn_count_sample, flip, flip_at, corrupt_buffer_sample, passes_draw, fire_rule, should_trigger,
}

-- The counts that a torn transfer of two or more bytes can take, over all 32-bit draws, are exactly
-- those from one byte to one less than all, up to 2 ^ 32: it is never empty and never whole.
torn_count_sample_iff :
    (requested k : ℕ)
    → 2 ≤ requested
    → ((draw : ℕ) × (draw < 2 ^ 32) × (torn_count_sample requested draw ≡ k))
      ↔ ((1 ≤ k) × (k < requested) × (k ≤ 2 ^ 32))
unfolding torn_count_sample
torn_count_sample_iff zero k h = absurd (omega (arith, h))
torn_count_sample_iff (suc zero) k h = absurd (omega (arith, h))
torn_count_sample_iff (suc (suc n)) k h = (
  λ d.
      let m = mod-lt d.0 {m = suc n} (omega arith) in
      let small = mod-le d.0 (suc n) in
      let at = d.2 in
      let room = d.1 in (omega (arith, at), omega (arith, at, m), omega (arith, at, small, room)),
  λ b.
      let lo = b.0 in
      let hi = b.1 in
      let top = b.2 in
      let e : (k - 1) % suc n ≡ k - 1 =
        mod-eq_of_lt {n = k - 1} {m = suc n} (omega (arith, lo, hi)) in
      (k - 1, omega (arith, lo, top), omega (arith, e, lo)),
)

-- The facts on a flipped bit, by the eight bits.
abbrev FlipFacts : ℕ → ℕ → Type 0
FlipFacts bit b = (flip bit (flip bit b) ≡ b) × (flip bit b ≢ b) × (b < 256 → flip bit b < 256)

flip-FlipFacts : (bit b : ℕ) → bit < 8 → FlipFacts bit b
flip-FlipFacts zero b h = (ground arith, λ e. ground arith, λ k. ground arith)
flip-FlipFacts (suc zero) b h = (ground arith, λ e. ground arith, λ k. ground arith)
flip-FlipFacts (suc (suc zero)) b h = (ground arith, λ e. ground arith, λ k. ground arith)
flip-FlipFacts (suc (suc (suc zero))) b h = (ground arith, λ e. ground arith, λ k. ground arith)
flip-FlipFacts (suc (suc (suc (suc zero)))) b h =
    (ground arith, λ e. ground arith, λ k. ground arith)
flip-FlipFacts (suc (suc (suc (suc (suc zero))))) b h =
    (ground arith, λ e. ground arith, λ k. ground arith)
flip-FlipFacts (suc (suc (suc (suc (suc (suc zero)))))) b h =
    (ground arith, λ e. ground arith, λ k. ground arith)
flip-FlipFacts (suc (suc (suc (suc (suc (suc (suc zero))))))) b h =
    (ground arith, λ e. ground arith, λ k. ground arith)
flip-FlipFacts (suc (suc (suc (suc (suc (suc (suc (suc n)))))))) b h = absurd (omega (arith, h))

module _ (bit : ℕ) (small : bit < 8) where
  flip_at-flip_at : (i : ℕ) (s : Bytes) → flip_at i bit (flip_at i bit s) ≡ s
  unfolding flip_at
  flip_at-flip_at i [] = refl
  flip_at-flip_at zero (b ∷ s) = ap (λ x. x ∷ s) (flip-FlipFacts bit b small).0
  flip_at-flip_at (suc i) (b ∷ s) = ap (λ t. b ∷ t) (flip_at-flip_at i s)

  length-flip_at : (i : ℕ) (s : Bytes) → length (flip_at i bit s) ≡ length s
  unfolding flip_at
  length-flip_at i [] = refl
  length-flip_at zero (b ∷ s) = refl
  length-flip_at (suc i) (b ∷ s) = ap suc (length-flip_at i s)

  flip_at-here :
      (i : ℕ) (s : Bytes) {b : ℕ}
      → get_elem? s i ≡ some b
      → get_elem? (flip_at i bit s) i ≡ some (flip bit b)
  unfolding flip_at
  flip_at-here i [] h = cc
  flip_at-here zero (c ∷ s) {b = b} h = let e : c ≡ b = cc in ap (λ x. some (flip bit x)) e
  flip_at-here (suc i) (c ∷ s) h = flip_at-here i s h

  flip_at-elsewhere : (i j : ℕ) (s : Bytes) → i ≢ j → get_elem? (flip_at i bit s) j ≡ get_elem? s j
  unfolding flip_at
  flip_at-elsewhere i j [] h = refl
  flip_at-elsewhere zero zero (c ∷ s) h = absurd (h refl)
  flip_at-elsewhere zero (suc j) (c ∷ s) h = refl
  flip_at-elsewhere (suc i) zero (c ∷ s) h = refl
  flip_at-elsewhere (suc i) (suc j) (c ∷ s) h = flip_at-elsewhere i j s (λ e. h (ap suc e))

corrupt-flip_at :
    (s : Bytes) (n m : ℕ) → corrupt_buffer_sample s n m ≡ flip_at (n % length s) (m % 8) s
unfolding corrupt_buffer_sample flip_at
corrupt-flip_at [] n m = refl
corrupt-flip_at (b ∷ s) n m = refl

-- What a corrupted read leaves in the buffer: as many bytes as before, of which exactly one, at the
-- drawn position, differs, still a byte; the same draws a second time undo the corruption.
pub corrupt_buffer_sample-one_byte :
    (b : ℕ) (s : Bytes) (index_sample bit_sample : ℕ)
    → let out = corrupt_buffer_sample (b ∷ s) index_sample bit_sample in
      let i = index_sample % length (b ∷ s) in
      (length out ≡ length (b ∷ s))
      × (i < length (b ∷ s))
      × ((j : ℕ) → i ≢ j → get_elem? out j ≡ get_elem? (b ∷ s) j)
      × ((c : ℕ)
          → get_elem? (b ∷ s) i ≡ some c
          → (d : ℕ) × (get_elem? out i ≡ some d) × (d ≢ c) × (c < 256 → d < 256))
      × (corrupt_buffer_sample out index_sample bit_sample ≡ b ∷ s)
unfolding corrupt_buffer_sample
corrupt_buffer_sample-one_byte b s n m =
    let i = n % length (b ∷ s) in
    let bit = m % 8 in
    let small = mod-lt m {m = 8} (omega arith) in
    (
      length-flip_at bit small i (b ∷ s),
      mod-lt n {m = suc (length s)} (omega arith),
      λ j. flip_at-elsewhere bit small i j (b ∷ s),
      λ c h.
          let facts = flip-FlipFacts bit c small in
          (flip bit c, flip_at-here bit small i (b ∷ s) h, facts.1, facts.2),
      corrupt-flip_at (flip_at i bit (b ∷ s)) n m
          ∙ ap (λ l. flip_at (n % l) bit (flip_at i bit (b ∷ s)))
              (length-flip_at bit small i (b ∷ s))
          ∙ flip_at-flip_at bit small i (b ∷ s),
    )

-- What lets a rule trigger: its time window, its size bounds, and the draw.
abbrev pub Lets : Rule → ℕ → ℕ → Type 0
Lets r now sample =
    InWindow r.policy now
    × SizeFits r.policy r.call_size
    × (passes_draw r.effect r.probability sample ≡ true)

-- Either the time lies in the rule's window, the size in its bounds and the draw lets it trigger, and
-- then the slot decides; or one of these fails, and then the rule does not trigger and neither a
-- claim nor a hit is counted: the pool stays as it is.
pub should_trigger_gated :
    (r : Rule) (now sample : ℕ) (pool : List Slot)
    → (Lets r now sample × (should_trigger r now sample pool ≡ fire_rule r pool))
      ⊎ (¬ Lets r now sample × (should_trigger r now sample pool ≡ (false, pool)))
unfolding should_trigger
should_trigger_gated r now sample pool =
    elim (Bool-cases (window_open r.policy now && size_ok r.policy r.call_size)) [
      | inl open_now ↦ elim (Bool-cases (passes_draw r.effect r.probability sample)) [
        | inl drawn ↦
            let (w, z) = (gates_iff r.policy now r.call_size).0 open_now in
            let (x, y) =
              both_of_and (window_open r.policy now) (size_ok r.policy r.call_size) open_now in
            inl ((w, z, drawn), rw (x, y, drawn, should_trigger) refl)
        | inr missed ↦ inr (λ l. false≢true (sym missed ∙ l.2), ground arith)
      ]
      | inr shut ↦ inr (
        λ l. false≢true (sym shut ∙ (gates_iff r.policy now r.call_size).1 (l.0, l.1)),
        ground arith,
      )
    ]
