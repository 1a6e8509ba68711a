-- ===== src/Common/RuleFile/Outcome.antt =====
-- src/config/chaos_io_config.c, `chaos_io_config_parse_buffer` and its siblings: what they return for a
-- whole file.
use macstab_chaos_testing_li.Prelude.{
  ℕ, suc, ◌+◌, ◌≡◌, refl, ap, ◌∙◌, List, [], ◌∷◌, ◌++◌, arith, Bytes, length,
}
use macstab_chaos_testing_li.Common.Status.{Reason, StatusError, keep_line, reject}
use macstab_chaos_testing_li.Common.RuleFile.{
  Grammar, lines, Verdict, nothing, accept, refuse, Loaded, accepted, rejected, push_rule, judge,
  parse_lines, parse_file,
}

module _ {R : Type 0} (g : Grammar R) where
  -- A run over lines that are all good: from the rules already read to those that the lines add.
  pub data Reads : ℕ → ℕ → List Bytes → List (R × Bytes) → Type 0 where
    none_left : {number count : ℕ} → Reads number count [] []
    skips :
        {number count : ℕ} {line : Bytes} {ls : List Bytes} {rs : List (R × Bytes)}
        → judge g count line ≡ nothing
        → Reads (suc number) count ls rs
        → Reads number count (line ∷ ls) rs
    takes :
        {number count : ℕ} {line : Bytes} {r : R} {ls : List Bytes} {rs : List (R × Bytes)}
        → judge g count line ≡ accept r
        → Reads (suc number) (suc count) ls rs
        → Reads number count (line ∷ ls) ((r, (keep_line (suc number) line).text) ∷ rs)

  -- The first bad line: what stands before it reads as rules, and it does not.
  pub record Refuses (number count : ℕ) (ls : List Bytes) (e : StatusError) : Type 0 where
    pub before : List Bytes
    pub bad : Bytes
    pub after : List Bytes
    pub rules : List (R × Bytes)
    pub why : Reason
    pub whole : ls ≡ before ++ (bad ∷ after)
    pub good : Reads number count before rules
    pub refused : judge g (count + length rules) bad ≡ refuse why
    pub reported : e ≡ reject (keep_line (suc (number + length before)) bad) why

  -- What a result says about the lines.
  abbrev pub Tells : ℕ → ℕ → List Bytes → Loaded R → Type 0
  Tells number count ls (accepted rs) = Reads number count ls rs
  Tells number count ls (rejected e) = Refuses number count ls e

  verdict-Tells :
      (number count : ℕ) (line : Bytes) (ls : List Bytes) (v : Verdict R)
      → judge g count line ≡ v
      → Tells (suc number) count ls (parse_lines g (suc number) count ls)
      → Tells (suc number) (suc count) ls (parse_lines g (suc number) (suc count) ls)
      → Tells number count (line ∷ ls) (elim v [
        | refuse why ↦ rejected (reject (keep_line (suc number) line) why)
        | nothing ↦ parse_lines g (suc number) count ls
        | accept r ↦
            push_rule
              (r, (keep_line (suc number) line).text)
              (parse_lines g (suc number) (suc count) ls)
      ])
  verdict-Tells number count line ls (refuse why) e skip take = record {
    before = [];
    bad = line;
    after = ls;
    rules = [];
    why = why;
    whole = refl;
    good = none_left;
    refused = ap (λ n. judge g n line) {x = count + 0} {y = count} (omega arith) ∙ e;
    reported =
        ap (λ n. reject (keep_line (suc n) line) why) {x = number} {y = number + 0} (omega arith);
  }
  verdict-Tells number count line ls nothing e skip take =
      go (parse_lines g (suc number) count ls) skip
    where
      go : (l : Loaded R) → Tells (suc number) count ls l → Tells number count (line ∷ ls) l
      go (accepted rs) t = skips e t
      go (rejected x) t = record {
        before = line ∷ t.before;
        bad = t.bad;
        after = t.after;
        rules = t.rules;
        why = t.why;
        whole = ap (λ a. line ∷ a) t.whole;
        good = skips e t.good;
        refused = t.refused;
        reported =
            t.reported
            ∙ ap (λ n. reject (keep_line (suc n) t.bad) t.why) {x = suc number + length t.before}
                {y = number + suc (length t.before)} (omega arith);
      }
  verdict-Tells number count line ls (accept r) e skip take =
      go (parse_lines g (suc number) (suc count) ls) take
    where
      go :
          (l : Loaded R)
          → Tells (suc number) (suc count) ls l
          → Tells number count (line ∷ ls) (push_rule (r, (keep_line (suc number) line).text) l)
      go (accepted rs) t = takes e t
      go (rejected x) t = record {
        before = line ∷ t.before;
        bad = t.bad;
        after = t.after;
        rules = (r, (keep_line (suc number) line).text) ∷ t.rules;
        why = t.why;
        whole = ap (λ a. line ∷ a) t.whole;
        good = takes e t.good;
        refused =
            ap (λ n. judge g n t.bad) {x = count + suc (length t.rules)}
              {y = suc count + length t.rules} (omega arith)
            ∙ t.refused;
        reported =
            t.reported
            ∙ ap (λ n. reject (keep_line (suc n) t.bad) t.why) {x = suc number + length t.before}
                {y = number + suc (length t.before)} (omega arith);
      }

  parse_lines-Tells :
      (number count : ℕ) (ls : List Bytes) → Tells number count ls (parse_lines g number count ls)
  unfolding parse_lines
  parse_lines-Tells number count [] = none_left
  parse_lines-Tells number count (line ∷ ls) =
      verdict-Tells number count line ls (judge g count line) refl
        (parse_lines-Tells (suc number) count ls) (parse_lines-Tells (suc number) (suc count) ls)

  -- Either every line of the buffer reads, and the result is the rules of its lines in file order
  -- with their texts; or the result names the first line that does not, by its number and its
  -- text, with the reason, and no rule of the file is kept.
  pub parse_file-Tells : (buffer : Bytes) → Tells 0 0 (lines buffer) (parse_file g buffer)
  unfolding parse_file
  parse_file-Tells buffer = parse_lines-Tells 0 0 (lines buffer)
