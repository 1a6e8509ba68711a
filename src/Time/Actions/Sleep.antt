-- ===== src/Time/Actions/Sleep.antt =====
-- src/time/chaos_time_actions.c: the sleeps of `chaos_time_rule_apply_latency`.
use macstab_chaos_testing_li.Prelude.{
  ℕ, zero, suc, ◌+◌, ◌-◌, ◌*◌, ◌/◌, ◌≤◌, ◌≡◌, refl, ◌∙◌, arith, inl, inr, List, [], ◌∷◌, ltb, ◌==◌,
  if◌then◌else◌, Bool-cases,
}
use macstab_chaos_testing_li.Time.Actions.{chunks}

abbrev total : List ℕ → ℕ
total [] = 0
total (x ∷ xs) = x + total xs

one_chunk :
    (fuel r : ℕ)
    → let chunk = if ltb 1_000_000 r then 1_000_000 else r in
      total (chunks (suc fuel) r) ≡ (if r == 0 then 0 else chunk + total (chunks fuel (r - chunk)))
unfolding chunks
one_chunk fuel r = elim (Bool-cases (r == 0)) [ inl e ↦ rw e refl | inr e ↦ rw e refl ]

-- The sleeps add up to the time that is left, if a round is given for each second of it.
chunks_lem : (fuel r : ℕ) → r ≤ fuel * 1_000_000 → total (chunks fuel r) ≡ r
unfolding chunks
chunks_lem zero r h = omega (arith, h)
chunks_lem (suc fuel) r h =
    let chunk = if ltb 1_000_000 r then 1_000_000 else r in
    let left : r - chunk ≤ fuel * 1_000_000 = ground (arith, h) in
    let rest = chunks_lem fuel (r - chunk) left in one_chunk fuel r ∙ rw rest (ground arith)

-- The rounds that `apply_latency` gives its loop are enough: the sleeps add up to the latency.
chunks_enough : (r : ℕ) → total (chunks (suc (r / 1_000_000)) r) ≡ r
chunks_enough r = chunks_lem (suc (r / 1_000_000)) r (omega arith)
