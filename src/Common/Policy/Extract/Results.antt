-- ===== src/Common/Policy/Extract/Results.antt =====
-- What `chaos_policy_extract` returns for a line with qualifiers, and what it leaves of the line.
use macstab_chaos_testing_li.Prelude.{
  ℕ, suc, ◌≤◌, ◌≡◌, ◌≢◌, ◌⊎◌, inl, inr, refl, ◌∙◌, ap, true, false, not, Option, none, some, List,
  [], ◌∷◌, ◌++◌, reverse, reverse-append, reverse-reverse, arith, Bytes, length, length-append,
  AllOf, AllOf-append, AllOf-weaken, All, Option-cases,
}
use macstab_chaos_testing_li.Common.Policy.Word.{Policy, no_policy, parse_word}
use macstab_chaos_testing_li.Common.Policy.Extract.{
  is_space, is_trailing, before_comment, stopped, refused, Extracted, window_inverted, finish,
  extract,
}
use macstab_chaos_testing_li.Common.Policy.Extract.Scan.{is_word_byte, AllOf-reverse}
use macstab_chaos_testing_li.Common.Policy.Extract.Lines.{
  Part, write_words, apply_words, kept, no_hash, IsPart, IsRule, outcome, scan_words-outcome,
}

-- Nothing, or `#` and the rest of the line.
abbrev pub IsComment : Bytes → Type 0
IsComment comment = (comment ≡ []) ⊎ ((c : Bytes) × (comment ≡ b'#' ∷ c))

before_comment-append :
    (a comment : Bytes) → AllOf no_hash a → IsComment comment → before_comment (a ++ comment) ≡ a
unfolding before_comment
before_comment-append [] comment h (inl e) = rw e
before_comment-append [] comment h (inr (c, e)) = rw e
before_comment-append (x ∷ a) comment (hx, h) k =
    ground (arith, before_comment-append a comment h k)

space_no_hash : (c : ℕ) → is_space c ≡ true → no_hash c ≡ true
space_no_hash c h = ground arith

trailing_no_hash : (c : ℕ) → is_trailing c ≡ true → no_hash c ≡ true
trailing_no_hash c h = ground arith

word_no_hash : (c : ℕ) → is_word_byte c ≡ true → no_hash c ≡ true
word_no_hash c h = ground arith

write_words-no_hash :
    (rule : Bytes) (qs : List Part)
    → AllOf no_hash rule
    → All IsPart qs
    → AllOf no_hash (write_words rule qs)
write_words-no_hash rule [] h vs = h
write_words-no_hash rule (q ∷ qs) h (v, vs) =
    AllOf-append no_hash (write_words rule qs) _ (write_words-no_hash rule qs h vs) (
      AllOf-append no_hash q.gap q.word (AllOf-weaken space_no_hash q.gap v.gap_blank)
        (AllOf-weaken word_no_hash q.word v.word_bytes))

length-write_words :
    (rule : Bytes) (qs : List Part) → All IsPart qs → length qs ≤ length (write_words rule qs)
length-write_words rule [] vs = omega arith
length-write_words rule (q ∷ qs) (v, vs) = omega (
  arith,
  length-write_words rule qs vs,
  length-append (write_words rule qs) (q.gap ++ q.word),
  length-append q.gap q.word,
  ap length v.word_is,
)

outcome-accepted :
    (rule : Bytes) (q : Part) (qs : List Part) (p : Policy) (cut : Option Bytes) {p' : Policy}
    → apply_words (q ∷ qs) p ≡ some p'
    → outcome rule (q ∷ qs) p cut ≡ stopped p' (some (reverse (kept rule (q ∷ qs))))
outcome-accepted rule q [] p cut h = ground arith
outcome-accepted rule q (r ∷ qs) p cut {p'} h = elim (Option-cases (parse_word q.word p)) [
  | inl bad ↦ absurd (ground arith)
  | inr (p₁, good) ↦
      rw (good, outcome)
        (outcome-accepted rule r qs p₁ (some (reverse (write_words rule (r ∷ qs) ++ q.gap)))
          (rw (good, apply_words) at h))
]

outcome-refused :
    (rule : Bytes) (qs : List Part) (p : Policy) (cut : Option Bytes)
    → apply_words qs p ≡ none
    → (p' : Policy) × (outcome rule qs p cut ≡ refused p')
outcome-refused rule [] p cut h = absurd (ground arith)
outcome-refused rule (q ∷ qs) p cut h = elim (Option-cases (parse_word q.word p)) [
  | inl bad ↦ (p, rw (bad, outcome) refl)
  | inr (p₁, good) ↦
      let (p', e) =
        outcome-refused rule qs p₁ (some (reverse (write_words rule qs ++ q.gap)))
          (rw (good, apply_words) at h) in
      (p', rw (good, outcome) e)
]

module _ (rule : Bytes) (qs : List Part) (trail comment : Bytes) (r : IsRule rule)
    (vs : All IsPart qs) (ht : AllOf is_trailing trail) (hc : IsComment comment) where
  abbrev line : Bytes
  line = (write_words rule qs ++ trail) ++ comment

  extract-outcome : extract line ≡ finish line (outcome rule qs no_policy none)
  unfolding extract
  extract-outcome =
      let text = write_words rule qs in
      let plain =
        AllOf-append no_hash text trail (write_words-no_hash rule qs r.no_comment vs)
          (AllOf-weaken trailing_no_hash trail ht) in
      rw (before_comment-append (text ++ trail) comment plain hc, reverse-append text trail)
        (ap (finish line) (
          scan_words-outcome rule qs (suc (length line)) (reverse trail) no_policy none r vs
            (AllOf-reverse is_trailing trail ht)
            (omega (
              arith,
              length-write_words rule qs vs,
              length-append (text ++ trail) comment,
              length-append text trail,
            ))))

  -- Of a rule, at least one well-formed qualifier word behind it, blanks and a comment,
  -- `chaos_policy_extract` keeps the rule and the blanks behind it. The policy is that of the words
  -- applied from right to left, so of a repeated qualifier the leftmost counts; the line is
  -- accepted unless both bounds of the window are given and `@until` is not above `@from`. The
  -- line is cut in that case too.
  pub extract-write_words :
      {p : Policy}
      → qs ≢ []
      → apply_words qs no_policy ≡ some p
      → extract line
        ≡ record { accepted = not (window_inverted p); line = kept rule qs; policy = p }
  unfolding finish
  extract-write_words ne h = extract-outcome ∙ go qs ne h
    where
      go :
          (ps : List Part) {p : Policy}
          → ps ≢ []
          → apply_words ps no_policy ≡ some p
          → finish line (outcome rule ps no_policy none)
            ≡ record { accepted = not (window_inverted p); line = kept rule ps; policy = p }
      go [] n e = absurd (n refl)
      go (q ∷ ps) n e =
          rw (outcome-accepted rule q ps no_policy none e)
            (rw (reverse-reverse (kept rule (q ∷ ps))))

  -- With no qualifier behind the rule the line is accepted as it is, with an empty policy.
  pub extract-plain :
      qs ≡ [] → extract line ≡ record { accepted = true; line = line; policy = no_policy }
  unfolding finish
  extract-plain e = extract-outcome ∙ rw e refl

  -- Where one of the words behind the rule is no qualifier, the line is refused and left as it is,
  -- however many qualifiers stand beside that word.
  pub extract-refused :
      apply_words qs no_policy ≡ none
      → ((extract line).accepted ≡ false) × ((extract line).line ≡ line)
  unfolding finish
  extract-refused e =
      let (p', o) = outcome-refused rule qs no_policy none e in
      (
        ap (λ (x : Extracted). x.accepted) (extract-outcome ∙ ap (finish line) o),
        ap (λ (x : Extracted). x.line) (extract-outcome ∙ ap (finish line) o),
      )
