-- ===== src/Common/Policy/Extract.antt =====
-- src/common/chaos_policy.h, `chaos_policy_extract`: strips the qualifier words at the end of a
-- rule line. The part of the line that is still to be scanned is held reversed, so that the loop's
-- pointer `end`, which moves to the left, is the head of a list.
mod Scan
pub mod Lines
pub mod Results
use macstab_chaos_testing_li.Prelude.{
  ℕ, zero, suc, ◌+◌, Bool, true, false, not, ◌&&◌, ◌||◌, Option, none, some, [], ◌∷◌, reverse,
  Bytes, ◌==◌, leb, if◌then◌else◌, length,
}
use macstab_chaos_testing_li.Common.Policy.Word.{Policy, no_policy, parse_word}

abbrev pub is_space : ℕ → Bool
is_space c = c == b' ' || c == b'\t'

abbrev pub is_trailing : ℕ → Bool
is_trailing c = is_space c || c == b'\r'

-- the line up to its first `#`
pub before_comment : Bytes → Bytes
before_comment [] = []
before_comment (c ∷ cs) = if c == b'#' then [] else c ∷ before_comment cs

-- `while (word_end > line && …) --word_end;`
pub skip_trailing : Bytes → Bytes
skip_trailing [] = []
skip_trailing (c ∷ cs) = if is_trailing c then skip_trailing cs else c ∷ cs

-- `while (word > line && …) --word;`: the word, and the reversed line in front of it
pub word_back : Bytes → Bytes → Bytes × Bytes
word_back word [] = (word, [])
word_back word (c ∷ cs) = if is_space c then (word, c ∷ cs) else word_back (c ∷ word) cs

-- `word == word_end || *word != '@' || word == line`
pub is_rule_word : Bytes × Bytes → Bool
is_rule_word ([], rest) = true
is_rule_word (c ∷ word, []) = true
is_rule_word (c ∷ word, s ∷ rest) = not (c == b'@')

-- How the loop ends: by its `break`, with the cut, or by a word that does not parse.
pub data Scanned : Type 0 where
  stopped : Policy → Option Bytes → Scanned
  refused : Policy → Scanned

pub scan_words : ℕ → Bytes → Policy → Option Bytes → Scanned
scan_words zero end p cut = stopped p cut
scan_words (suc n) end p cut =
    let w = word_back [] (skip_trailing end) in
    elim (is_rule_word w) [
      | true ↦ stopped p cut
      | false ↦ elim (parse_word w.0 p) [
        | none ↦ refused p
        | some p' ↦ scan_words n w.1 p' (some w.1)
      ]
    ]

-- the return value, and what the call leaves in `line` and `policy`
pub record Extracted : Type 0 where
  pub accepted : Bool
  pub line : Bytes
  pub policy : Policy

-- `policy->from_ms != 0 && policy->until_ms != 0 && policy->until_ms <= policy->from_ms`
abbrev pub window_inverted : Policy → Bool
window_inverted p = not (p.from_ms == 0) && not (p.until_ms == 0) && leb p.until_ms p.from_ms

-- what follows the loop
pub finish : Bytes → Scanned → Extracted
finish line (refused p) = record { accepted = false; line = line; policy = p }
finish line (stopped p none) = record {
  accepted = not (window_inverted p);
  line = line;
  policy = p;
}
finish line (stopped p (some cut)) = record {
  accepted = not (window_inverted p);
  line = reverse cut;
  policy = p;
}

unfoldable pub extract : Bytes → Extracted
unfolding finish scan_words word_back skip_trailing before_comment is_rule_word
extract line =
    finish line (scan_words (suc (length line)) (reverse (before_comment line)) no_policy none)
