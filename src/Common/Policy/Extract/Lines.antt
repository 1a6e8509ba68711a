-- ===== src/Common/Policy/Extract/Lines.antt =====
-- `chaos_policy_extract` on a line written as a rule, its qualifier words and a comment.
use mathlib.Core.Path.{subst}
use macstab_chaos_testing_li.Prelude.{
  ℕ, zero, suc, ◌<◌, ◌≡◌, ◌≢◌, ◌⊎◌, inl, inr, refl, sym, ◌∙◌, ap, Bool, true, false, not, Option,
  none, some, List, [], ◌∷◌, ◌++◌, reverse, reverse-append, reverse-reverse, append_assoc, arith,
  Bytes, ◌==◌, length, AllOf, All, Option-cases,
}
use macstab_chaos_testing_li.Common.Policy.Word.{Policy, parse_word}
use macstab_chaos_testing_li.Common.Policy.Extract.{
  is_space, is_trailing, skip_trailing, word_back, is_rule_word, Scanned, stopped, refused,
  scan_words,
}
use macstab_chaos_testing_li.Common.Policy.Extract.Scan.{
  scan_words_stop, scan_words_refuse, scan_words_next, is_word_byte, AllOf-reverse, word_at_end,
  word_at_start,
}

-- A qualifier word and the blanks in front of it.
pub record Part : Type 0 where
  pub gap : Bytes
  pub word : Bytes

-- The rule, then the parts; the list begins with the part that stands last on the line.
abbrev pub write_words : Bytes → List Part → Bytes
write_words rule [] = rule
write_words rule (q ∷ qs) = write_words rule qs ++ (q.gap ++ q.word)

-- The words' effects, the last word of the line first; `none` where one is no qualifier.
abbrev pub apply_words : List Part → Policy → Option Policy
apply_words [] p = some p
apply_words (q ∷ qs) p = elim (parse_word q.word p) [ none ↦ none | some p' ↦ apply_words qs p' ]

-- What is left of a line with qualifiers: the rule and the blanks behind it.
abbrev pub kept : Bytes → List Part → Bytes
kept rule [] = rule
kept rule (q ∷ []) = rule ++ q.gap
kept rule (q ∷ r ∷ qs) = kept rule (r ∷ qs)

abbrev pub no_hash : ℕ → Bool
no_hash c = not (c == b'#')

-- One or more blanks, then `@` and the rest of a word.
pub record IsPart (q : Part) : Type 0 where
  pub gap_start : ℕ
  pub gap_rest : Bytes
  pub gap_is : q.gap ≡ gap_start ∷ gap_rest
  pub gap_blank : AllOf is_space q.gap
  pub word_rest : Bytes
  pub word_is : q.word ≡ b'@' ∷ word_rest
  pub word_bytes : AllOf is_word_byte q.word

-- A rule: some text whose last word does not begin with `@` unless it is the first of the line.
pub record IsRule (rule : Bytes) : Type 0 where
  pub lead : Bytes
  pub first : ℕ
  pub body : Bytes
  pub rule_is : rule ≡ lead ++ (first ∷ body)
  pub no_comment : AllOf no_hash rule
  pub word_bytes : AllOf is_word_byte (first ∷ body)
  pub ends :
      (lead ≡ [])
      ⊎ ((s : ℕ) × (l : Bytes) × (lead ≡ l ++ (s ∷ [])) × (is_space s ≡ true) × (first ≢ b'@'))

-- The scan stops at the rule's last word.
stop_at_rule :
    (rule trail : Bytes)
    → IsRule rule
    → AllOf is_trailing trail
    → is_rule_word (word_back [] (skip_trailing (trail ++ reverse rule))) ≡ true
unfolding is_rule_word
stop_at_rule rule trail r ht = elim r.ends [
  | inl e ↦ rw (r.rule_is, e, word_at_start trail r.first r.body ht r.word_bytes) refl
  | inr (s, l, e, hs, ne) ↦
      let split : reverse rule ≡ reverse (r.first ∷ r.body) ++ (s ∷ reverse l) =
        rw (r.rule_is, e, reverse-append, reverse-append) refl in
      rw (split, word_at_end trail r.first r.body s (reverse l) ht r.word_bytes hs) (ground arith)
]

spaces_trailing : (g : Bytes) → AllOf is_space g → AllOf is_trailing g
spaces_trailing [] h = tt
spaces_trailing (c ∷ g) (hc, h) = (ground arith, spaces_trailing g h)

-- The scan, told by the parts.
abbrev pub outcome : Bytes → List Part → Policy → Option Bytes → Scanned
outcome rule [] p cut = stopped p cut
outcome rule (q ∷ qs) p cut = elim (parse_word q.word p) [
  | none ↦ refused p
  | some p' ↦ outcome rule qs p' (some (reverse (write_words rule qs ++ q.gap)))
]

-- The blank that stands in front of a part's word.
last_blank :
    (g : Bytes)
    → g ≢ []
    → AllOf is_space g
    → (s : ℕ) × (l : Bytes) × (g ≡ s ∷ l) × (is_space s ≡ true)
last_blank [] ne h = absurd (ne refl)
last_blank (s ∷ l) ne (hs, h) = (s, l, refl, hs)

reverse_part :
    (w g word : Bytes) → reverse (w ++ (g ++ word)) ≡ reverse word ++ (reverse g ++ reverse w)
reverse_part w g word = rw (reverse-append, reverse-append) (append_assoc (reverse word) _ _)

reverse_gap-ne-nil : (q : Part) → IsPart q → reverse q.gap ≢ []
reverse_gap-ne-nil q v e = absurd (go (sym v.gap_is ∙ sym (reverse-reverse q.gap) ∙ ap reverse e))
  where
    go : v.gap_start ∷ v.gap_rest ≡ [] → ⊥
    go h = cc

-- A round of the scan at a part: its word, and what stands in front of it.
round_at_part :
    (rule : Bytes) (q : Part) (qs : List Part) (trail : Bytes)
    → IsPart q
    → AllOf is_trailing trail
    → word_back [] (skip_trailing (trail ++ reverse (write_words rule (q ∷ qs))))
      ≡ (q.word, reverse (write_words rule qs ++ q.gap))
round_at_part rule q qs trail v ht =
    let w = write_words rule qs in
    let (s, l, e, hs) =
      last_blank (reverse q.gap) (reverse_gap-ne-nil q v)
        (AllOf-reverse is_space q.gap v.gap_blank) in
    let bytes : AllOf is_word_byte (b'@' ∷ v.word_rest) =
      subst (AllOf is_word_byte) v.word_is v.word_bytes in
    rw (
      reverse_part w q.gap q.word,
      reverse-append w q.gap,
      e,
      v.word_is,
      word_at_end trail b'@' v.word_rest s (l ++ reverse w) ht bytes hs,
    )

-- The word of a part does not stop the scan: it begins with `@`, behind a blank.
IsPart-word :
    (q : Part) → IsPart q → (w : Bytes) → is_rule_word (q.word, reverse (w ++ q.gap)) ≡ false
unfolding is_rule_word
IsPart-word q v w =
    let (s, l, e, hs) =
      last_blank (reverse q.gap) (reverse_gap-ne-nil q v)
        (AllOf-reverse is_space q.gap v.gap_blank) in
    rw (reverse-append w q.gap, e, v.word_is) refl

pub scan_words-outcome :
    (rule : Bytes) (qs : List Part) (n : ℕ) (trail : Bytes) (p : Policy) (cut : Option Bytes)
    → IsRule rule
    → All IsPart qs
    → AllOf is_trailing trail
    → length qs < n
    → scan_words n (trail ++ reverse (write_words rule qs)) p cut ≡ outcome rule qs p cut
scan_words-outcome rule qs zero trail p cut r vs ht hn = absurd (omega arith)
scan_words-outcome rule [] (suc n) trail p cut r vs ht hn =
    scan_words_stop n _ p cut (stop_at_rule rule trail r ht)
scan_words-outcome rule (q ∷ qs) (suc n) trail p cut r (v, vs) ht hn =
    let end = trail ++ reverse (write_words rule (q ∷ qs)) in
    let round = round_at_part rule q qs trail v ht in
    let goes_on : is_rule_word (word_back [] (skip_trailing end)) ≡ false =
      rw round (IsPart-word q v (write_words rule qs)) in
    elim (Option-cases (parse_word q.word p)) [
      | inl bad ↦ rw (bad, outcome) (scan_words_refuse n end p cut goes_on (rw round bad))
      | inr (p', good) ↦
          rw (good, outcome)
            (scan_words_next n end p cut p' goes_on (rw round good)
              ∙ rw round (
                  rw reverse-append (
                    scan_words-outcome rule qs n (reverse q.gap) p' _ r vs
                      (spaces_trailing _ (AllOf-reverse is_space q.gap v.gap_blank))
                      (omega arith))))
    ]
