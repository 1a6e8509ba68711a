-- ===== src/Common/RuleFile/Bounds.antt =====
-- What an accepted rule file can hold, whatever the library.
use mathlib.Core.Path.{subst}
use macstab_chaos_testing_li.Prelude.{
  ℕ, ◌+◌, ◌≤◌, ◌<◌, ◌≡◌, refl, true, List, arith, Bytes, leb, length, All, Bool-cases, inl, inr,
}
use macstab_chaos_testing_li.Common.Policy.Word.{Policy}
use macstab_chaos_testing_li.Common.Policy.Extract.{Extracted, extract}
use macstab_chaos_testing_li.Common.RuleFile.{
  Parsed, blank, parsed_rule, broken, Grammar, lines, accept, accepted, judge_parsed, judge,
  parse_file,
}
use macstab_chaos_testing_li.Common.RuleFile.Outcome.{
  Reads, none_left, skips, takes, Tells, parse_file-Tells,
}

-- `Good` holds of what the line parser accepts, `Kept` of such a rule with its policy that the build
-- supports.
module _ {R : Type 0} (g : Grammar R) (Good Kept : R → Type 0)
    (good : (line : Bytes) (r : R) → g.parse_line line ≡ parsed_rule r → Good r)
    (kept : (p : Policy) (r : R)
      → Good r
      → g.supported (g.with_policy p r) ≡ true
      → Kept (g.with_policy p r)) where
  judge_parsed-accept :
      (count : ℕ) (e : Extracted) (p : Parsed R) {r : R}
      → ((q : R) → p ≡ parsed_rule q → Good q)
      → judge_parsed g count e p ≡ accept r
      → (count < g.max_rules) × Kept r
  unfolding judge_parsed
  judge_parsed-accept count e broken ok h = cc
  judge_parsed-accept count e blank ok h = absurd (ground arith)
  judge_parsed-accept count e (parsed_rule q) {r = r} ok h =
      elim (Bool-cases (leb g.max_rules count)) [
        | inl full ↦ absurd (ground (arith, rw (full, judge_parsed) at h))
        | inr room ↦ elim (Bool-cases (g.supported (g.with_policy e.policy q))) [
          | inr bad ↦ absurd (ground (arith, rw (room, bad, judge_parsed) at h))
          | inl fits ↦
              let h' : accept (g.with_policy e.policy q) ≡ accept r =
                rw (room, fits, judge_parsed) at h in
              let same : g.with_policy e.policy q ≡ r = cc in
              (ground arith, subst Kept same (kept e.policy q (ok q refl) fits))
        ]
      ]

  judge-accept :
      (count : ℕ) (line : Bytes) {r : R}
      → judge g count line ≡ accept r
      → (count < g.max_rules) × Kept r
  unfolding judge
  judge-accept count line h = elim (Bool-cases (extract line).accepted) [
    | inl ok ↦
        judge_parsed-accept count (extract line) (g.parse_line (extract line).line)
          (good (extract line).line) (rw (ok, judge) at h)
    | inr bad ↦ absurd (ground (arith, rw (bad, judge) at h))
  ]

  Reads-bounded :
      {number count : ℕ} {ls : List Bytes} {rs : List (R × Bytes)}
      → Reads g number count ls rs
      → count ≤ g.max_rules
      → (count + length rs ≤ g.max_rules) × All (λ r. Kept r.0) rs
  Reads-bounded none_left h = (omega arith, tt)
  Reads-bounded (skips e t) h = Reads-bounded t h
  Reads-bounded {count = count} (takes {line = line} e t) h =
      let (room, k) = judge-accept count line e in
      let (n, rest) = Reads-bounded t (omega (arith, room)) in (omega (arith, n), (k, rest))

  pub parse_file_bounded :
      (buffer : Bytes) {rs : List (R × Bytes)}
      → parse_file g buffer ≡ accepted rs
      → (length rs ≤ g.max_rules) × All (λ r. Kept r.0) rs
  parse_file_bounded buffer {rs} h =
      let told = subst (λ l. Tells g 0 0 (lines buffer) l) h (parse_file-Tells g buffer) in
      let (n, all) = Reads-bounded told (omega arith) in (omega (arith, n), all)
