-- ===== src/Common/Policy/Tests.antt =====
-- Runs and instances for src/common/chaos_policy.h.
use macstab_chaos_testing_li.Prelude.{
  ◌^◌, ◌≡◌, ◌↔◌, refl, inl, inr, true, false, ◌&&◌, none, some, List, [], ◌∷◌, ◌++◌, arith, Bytes,
  codes,
}
use macstab_chaos_testing_li.Common.Policy.Number.{
  IsNumeral, decimal, parse_number, parse_number_iff,
}
use macstab_chaos_testing_li.Common.Policy.Word.{
  Policy, no_policy, parse_word, Qualifies, parse_word_iff,
}
use macstab_chaos_testing_li.Common.Policy.Extract.{extract}
use macstab_chaos_testing_li.Common.Policy.Extract.Lines.{Part, apply_words, IsPart, IsRule}
use macstab_chaos_testing_li.Common.Policy.Extract.Results.{extract-write_words, extract-refused}
use macstab_chaos_testing_li.Common.Policy.Probability.{
  parse_probability, parse_probability-decimal,
}
use macstab_chaos_testing_li.Common.Policy.Gates.{
  window_open, size_ok, InWindow, SizeFits, gates_iff,
}

numbers :
    (parse_number (codes "007") ≡ some 7)
    × (parse_number (codes "999999999999999999") ≡ some 999999999999999999)
    × (parse_number (codes "1000000000000000000") ≡ none)
    × (parse_number [] ≡ none)
    × (parse_number (codes "1 ") ≡ none)
unfolding parse_number
numbers = (refl, refl, refl, refl, refl)

words :
    (parse_word (codes "@first=3") no_policy ≡ some (record no_policy { first = 3 }))
    × (parse_word (codes "@first=0") no_policy ≡ none)
    × (parse_word (codes "@size<0") no_policy
        ≡ some (record no_policy { size_below = 0; has_size_below = true }))
    × (parse_word (codes "@first") no_policy ≡ none)
unfolding parse_word parse_number
words = (refl, refl, refl, refl)

-- Of a repeated qualifier the leftmost counts, and the comment goes.
extract_line :
    extract (codes "/data:read:EIO:1.0  @first=3 @size>10 @first=5 # x @from=1") ≡ record {
      accepted = true;
      line = codes "/data:read:EIO:1.0  ";
      policy = record no_policy { first = 3; size_above = 10; has_size_above = true };
    }
unfolding extract parse_word parse_number
extract_line = refl

extract_inverted : extract (codes "/a @from=9 @until=9") ≡ record {
  accepted = false;
  line = codes "/a ";
  policy = record no_policy { from_ms = 9; until_ms = 9 };
}
unfolding extract parse_word parse_number
extract_inverted = refl

abbrev rule : Bytes
rule = codes "/a:b"

abbrev parts : List Part
parts =
    record { gap = codes "\t"; word = codes "@until=9" }
    ∷ record { gap = codes " "; word = codes "@from=9" }
    ∷ []

rule-IsRule : IsRule rule
rule-IsRule = record {
  lead = [];
  first = b'/';
  body = codes "a:b";
  rule_is = refl;
  no_comment = ground arith;
  word_bytes = ground arith;
  ends = inl refl;
}

until-IsPart : IsPart (record { gap = codes "\t"; word = codes "@until=9" })
until-IsPart = record {
  gap_start = b'\t';
  gap_rest = [];
  gap_is = refl;
  gap_blank = (refl, tt);
  word_rest = codes "until=9";
  word_is = refl;
  word_bytes = ground arith;
}

from-IsPart : IsPart (record { gap = codes " "; word = codes "@from=9" })
from-IsPart = record {
  gap_start = b' ';
  gap_rest = [];
  gap_is = refl;
  gap_blank = (refl, tt);
  word_rest = codes "from=9";
  word_is = refl;
  word_bytes = ground arith;
}

applied : apply_words parts no_policy ≡ some (record no_policy { from_ms = 9; until_ms = 9 })
unfolding parse_word parse_number
applied = refl

parse_number_iff_example :
    (parse_number (codes "42") ≡ some 42) ↔ (IsNumeral (codes "42") × (42 ≡ decimal 0 (codes "42")))
parse_number_iff_example = parse_number_iff (codes "42") 42

parse_word_iff_example :
    (parse_word (codes "@first=3") no_policy ≡ some (record no_policy { first = 3 }))
    ↔ Qualifies (codes "@first=3") no_policy (record no_policy { first = 3 })
parse_word_iff_example =
    parse_word_iff (codes "@first=3") no_policy (record no_policy { first = 3 })

extract-write_words_example : extract (codes "/a:b @from=9\t@until=9 # c") ≡ record {
  accepted = false;
  line = codes "/a:b ";
  policy = record no_policy { from_ms = 9; until_ms = 9 };
}
extract-write_words_example =
    extract-write_words rule parts (codes " ") (codes "# c") rule-IsRule
      (until-IsPart, (from-IsPart, tt)) (refl, tt) (inr (codes " c", refl)) (cc) applied

abbrev typo : Part
typo = record { gap = codes " "; word = codes "@frist=3" }

typo-IsPart : IsPart typo
typo-IsPart = record {
  gap_start = b' ';
  gap_rest = [];
  gap_is = refl;
  gap_blank = (refl, tt);
  word_rest = codes "frist=3";
  word_is = refl;
  word_bytes = ground arith;
}

typo_refused : apply_words (typo ∷ []) no_policy ≡ none
unfolding parse_word parse_number
typo_refused = refl

extract-refused_example :
    ((extract (codes "/a:b @frist=3 # c")).accepted ≡ false)
    × ((extract (codes "/a:b @frist=3 # c")).line ≡ codes "/a:b @frist=3 # c")
extract-refused_example =
    extract-refused rule (typo ∷ []) (codes " ") (codes "# c") rule-IsRule (typo-IsPart, tt)
      (refl, tt) (inr (codes " c", refl)) typo_refused

abbrev gated : Policy
gated = record no_policy { from_ms = 100; size_above = 4096; has_size_above = true }

gates_iff_example :
    ((window_open gated 100 && size_ok gated 5000) ≡ true)
    ↔ (InWindow gated 100 × SizeFits gated 5000)
gates_iff_example = gates_iff gated 100 5000

probabilities :
    (parse_probability (codes "0.05 ") ≡ some (record { over = 5; under = 100 }))
    × (parse_probability (codes "1.00") ≡ some (record { over = 1; under = 1 }))
    × (parse_probability (codes "1.01") ≡ none)
    × (parse_probability (codes "0.") ≡ none)
    × (parse_probability (codes ".5") ≡ none)
    × (parse_probability (codes "1e0") ≡ none)
unfolding parse_probability
probabilities = (refl, refl, refl, refl, refl, refl)

parse_probability-decimal_example :
    parse_probability (codes "0." ++ codes "25") ≡ some (record { over = 25; under = 10 ^ 2 })
parse_probability-decimal_example =
    parse_probability-decimal b'2' (codes "5") (refl, (refl, tt)) (omega arith)
