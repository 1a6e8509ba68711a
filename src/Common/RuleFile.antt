-- ===== src/Common/RuleFile.antt =====
-- A whole rule file: the loop that `chaos_io_config_parse_buffer`, `chaos_net_config_parse_buffer` and
-- `chaos_dns_config_parse_buffer` each write out, over what they differ in.
pub mod Outcome
pub mod Bounds
use macstab_chaos_testing_li.Prelude.{
  ℕ, suc, Bool, true, List, [], ◌∷◌, Bytes, ◌==◌, leb, if◌then◌else◌,
}
use macstab_chaos_testing_li.Common.Status.{
  Reason, invalid, too_many, unsupported, StatusError, keep_line, reject,
}
use macstab_chaos_testing_li.Common.Policy.Word.{Policy, is_empty}
use macstab_chaos_testing_li.Common.Policy.Extract.{Extracted, extract}

-- The return value of a line parser: 0, 1 with the rule, or -1.
pub data Parsed (R : Type 0) : Type 0 where
  blank : Parsed R
  parsed_rule : R → Parsed R
  broken : Parsed R

-- What a library brings to the loop: the parser of a line, the assignment of `policy` and of
-- `call_size` to the parsed rule, the build's test of a rule, and the room for rules.
pub record Grammar (R : Type 0) : Type 0 where
  pub parse_line : Bytes → Parsed R
  pub with_policy : Policy → R → R
  pub supported : R → Bool
  pub max_rules : ℕ

-- What a round of the loop makes of its line.
pub data Verdict (R : Type 0) : Type 0 where
  nothing : Verdict R
  accept : R → Verdict R
  refuse : Reason → Verdict R

-- `*rule_count` rules with their texts, or the record of the refused line
pub data Loaded (R : Type 0) : Type 0 where
  accepted : List (R × Bytes) → Loaded R
  rejected : StatusError → Loaded R

unfoldable pub push_byte : ℕ → List Bytes → List Bytes
push_byte c [] = (c ∷ []) ∷ []
push_byte c (l ∷ ls) = (c ∷ l) ∷ ls

-- The lines that the outer loop cuts off at `cursor`, a last one without LF included.
unfoldable pub lines : Bytes → List Bytes
unfolding push_byte
lines [] = []
lines (c ∷ s) = if c == b'\n' then [] ∷ lines s else push_byte c (lines s)

module _ {R : Type 0} where
  abbrev pub push_rule : R × Bytes → Loaded R → Loaded R
  push_rule r (accepted rs) = accepted (r ∷ rs)
  push_rule r (rejected e) = rejected e

  module _ (g : Grammar R) where
    judge_parsed : ℕ → Extracted → Parsed R → Verdict R
    judge_parsed count e broken = refuse invalid
    judge_parsed count e blank = if is_empty e.policy then nothing else refuse invalid
    judge_parsed count e (parsed_rule r) =
        let r' = g.with_policy e.policy r in
        if leb g.max_rules count
        then refuse too_many
        else if g.supported r'
        then accept r'
        else refuse unsupported

    unfoldable pub judge : ℕ → Bytes → Verdict R
    unfolding judge_parsed
    judge count line =
        let e = extract line in
        if e.accepted then judge_parsed count e (g.parse_line e.line) else refuse invalid

    -- the loop, with `number` and `count`
    unfoldable pub parse_lines : ℕ → ℕ → List Bytes → Loaded R
    parse_lines number count [] = accepted []
    parse_lines number count (line ∷ ls) = elim (judge count line) [
      | refuse why ↦ rejected (reject (keep_line (suc number) line) why)
      | nothing ↦ parse_lines (suc number) count ls
      | accept r ↦
          push_rule (r, (keep_line (suc number) line).text)
            (parse_lines (suc number) (suc count) ls)
    ]

    unfoldable pub parse_file : Bytes → Loaded R
    unfolding parse_lines judge lines
    parse_file buffer = parse_lines 0 0 (lines buffer)
