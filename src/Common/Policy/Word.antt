-- ===== src/Common/Policy/Word.antt =====
-- src/common/chaos_policy.h: the qualifiers of a rule, and one qualifier word.
use macstab_chaos_testing_li.Prelude.{
  ℕ, ◌<◌, ◌≡◌, sym, ap, ◌∙◌, ◌↔◌, ◌⊎◌, inl, inr, Bool, true, false, not, ◌&&◌, Option, none, some,
  arith, Bytes, codes, ◌==◌, ltb, if◌then◌else◌, strip_prefix, Option-cases, strip_prefix_sound,
  strip_prefix-append, ◌++◌,
}
use macstab_chaos_testing_li.Common.Policy.Number.{parse_number}

-- `chaos_rule_policy_t`
pub record Policy : Type 0 where
  pub first : ℕ
  pub from_ms : ℕ
  pub until_ms : ℕ
  pub size_above : ℕ
  pub size_below : ℕ
  pub has_size_above : Bool
  pub has_size_below : Bool

-- `memset(policy, 0, sizeof(*policy))`
abbrev pub no_policy : Policy
no_policy = record {
  first = 0;
  from_ms = 0;
  until_ms = 0;
  size_above = 0;
  size_below = 0;
  has_size_above = false;
  has_size_below = false;
}

-- `strncmp(word, name, n) == 0 && chaos_policy_parse_number(word + n, &value) == 0`
qualifier : Bytes → Bytes → Option ℕ
qualifier name word = elim (strip_prefix name word) [ none ↦ none | some rest ↦ parse_number rest ]

-- `&& value > 0U`
positive : Option ℕ → Option ℕ
positive none = none
positive (some v) = if ltb 0 v then some v else none

-- `if (…) { … return 0; }`, and what follows
or_else : Option Policy → Option Policy → Option Policy
or_else (some p) rest = some p
or_else none rest = rest

with_value : (ℕ → Policy) → Option ℕ → Option Policy
with_value f none = none
with_value f (some v) = some (f v)

unfoldable pub parse_word : Bytes → Policy → Option Policy
unfolding qualifier positive or_else with_value strip_prefix
parse_word word p =
    or_else (with_value (λ v. record p { first = v }) (positive (qualifier (codes "@first=") word)))
      (or_else (with_value (λ v. record p { from_ms = v }) (qualifier (codes "@from=") word)) (
        or_else (with_value (λ v. record p { until_ms = v }) (qualifier (codes "@until=") word)) (
          or_else
            (with_value (λ v. record p { size_above = v; has_size_above = true })
              (qualifier (codes "@size>") word))
            (with_value (λ v. record p { size_below = v; has_size_below = true })
              (qualifier (codes "@size<") word)))))

-- `chaos_policy_is_empty`
unfoldable pub is_empty : Policy → Bool
is_empty p =
    p.first == 0
    && p.from_ms == 0
    && p.until_ms == 0
    && not p.has_size_above
    && not p.has_size_below

-- What a qualifier word says, independently of how it is read.
pub data Qualifier : Type 0 where
  first from until size_above size_below : Qualifier

abbrev pub spelling : Qualifier → Bytes
spelling first = codes "@first="
spelling from = codes "@from="
spelling until = codes "@until="
spelling size_above = codes "@size>"
spelling size_below = codes "@size<"

abbrev pub apply : Qualifier → ℕ → Policy → Policy
apply first v p = record p { first = v }
apply from v p = record p { from_ms = v }
apply until v p = record p { until_ms = v }
apply size_above v p = record p { size_above = v; has_size_above = true }
apply size_below v p = record p { size_below = v; has_size_below = true }

-- `@first=0` is the one number that no qualifier may carry.
abbrev pub Allows : Qualifier → ℕ → Type 0
Allows first v = 0 < v
Allows _ v = Unit {0}

-- A word that spells a qualifier and an allowed number sets exactly that field.
pub parse_word-spelling :
    (q : Qualifier) (digits : Bytes) (v : ℕ) (p : Policy)
    → parse_number digits ≡ some v
    → Allows q v
    → parse_word (spelling q ++ digits) p ≡ some (apply q v p)
unfolding parse_word
parse_word-spelling first digits v p h a = ground arith
parse_word-spelling _ digits v p h a = ground arith

-- What it means that a word qualifies a rule.
pub record Qualifies (word : Bytes) (p p' : Policy) : Type 0 where
  pub qualifier_kind : Qualifier
  pub digits : Bytes
  pub value : ℕ
  pub spelled : word ≡ spelling qualifier_kind ++ digits
  pub numeral : parse_number digits ≡ some value
  pub allowed : Allows qualifier_kind value
  pub applied : p' ≡ apply qualifier_kind value p

or_else-eq_some :
    (a b : Option Policy) {p : Policy} → or_else a b ≡ some p → (a ≡ some p) ⊎ (b ≡ some p)
unfolding or_else
or_else-eq_some none b h = inr h
or_else-eq_some (some q) b h = inl h

-- A word read through one name and one way to set a field.
read_sound :
    (name word : Bytes) (f : ℕ → Policy) {p' : Policy}
    → with_value f (qualifier name word) ≡ some p'
    → (digits : Bytes) × (v : ℕ) × (word ≡ name ++ digits)
      × (parse_number digits ≡ some v)
      × (p' ≡ f v)
unfolding with_value qualifier
read_sound name word f h = elim (Option-cases (strip_prefix name word)) [
  | inl e ↦ absurd (ground arith)
  | inr (digits, e) ↦ elim (Option-cases (parse_number digits)) [
    | inl e' ↦ absurd (ground arith)
    | inr (v, e') ↦ (digits, v, strip_prefix_sound name word digits e, e', ground arith)
  ]
]

positive_sound :
    (f : ℕ → Policy) (o : Option ℕ) {p' : Policy}
    → with_value f (positive o) ≡ some p'
    → (with_value f o ≡ some p') × ((v : ℕ) → o ≡ some v → 0 < v)
unfolding with_value positive
positive_sound f none h = cc
positive_sound f (some v) h = (ground arith, λ w e. ground arith)

qualifier-spelled :
    (name word digits : Bytes) → word ≡ name ++ digits → qualifier name word ≡ parse_number digits
unfolding qualifier
qualifier-spelled name word digits e = rw e (ground (arith, strip_prefix-append name digits))

module _ (word : Bytes) (p : Policy) {p' : Policy} where
  reads_first :
      with_value (λ v. record p { first = v }) (positive (qualifier (codes "@first=") word))
        ≡ some p'
      → Qualifies word p p'
  reads_first h =
      let (h', pos) = positive_sound _ (qualifier (codes "@first=") word) h in
      let (d, v, e, n, r) = read_sound (codes "@first=") word (λ v. record p { first = v }) h' in
      record {
        qualifier_kind = first;
        digits = d;
        value = v;
        spelled = e;
        numeral = n;
        allowed = pos v (qualifier-spelled (codes "@first=") word d e ∙ n);
        applied = r;
      }

  reads_other :
      (q : Qualifier)
      → ((v : ℕ) → Allows q v)
      → with_value (λ v. apply q v p) (qualifier (spelling q) word) ≡ some p'
      → Qualifies word p p'
  reads_other q any h =
      let (d, v, e, n, r) = read_sound (spelling q) word (λ v. apply q v p) h in
      record {
        qualifier_kind = q;
        digits = d;
        value = v;
        spelled = e;
        numeral = n;
        allowed = any v;
        applied = r;
      }

  parse_word_sound : parse_word word p ≡ some p' → Qualifies word p p'
  unfolding parse_word
  parse_word_sound h = elim (or_else-eq_some _ _ h) [
    | inl a ↦ reads_first a
    | inr r ↦ elim (or_else-eq_some _ _ r) [
      | inl a ↦ reads_other from (λ _. tt) a
      | inr r ↦ elim (or_else-eq_some _ _ r) [
        | inl a ↦ reads_other until (λ _. tt) a
        | inr r ↦ elim (or_else-eq_some _ _ r) [
          | inl a ↦ reads_other size_above (λ _. tt) a
          | inr a ↦ reads_other size_below (λ _. tt) a
        ]
      ]
    ]
  ]

-- `parse_word` accepts a word exactly if it spells one of the five qualifiers followed by a number
-- of 1 to 18 digits (not zero for `@first`), and then it sets the fields of that qualifier only.
pub parse_word_iff :
    (word : Bytes) (p p' : Policy) → (parse_word word p ≡ some p') ↔ Qualifies word p p'
parse_word_iff word p p' = (
  parse_word_sound word p,
  λ r.
      rw (r.spelled, parse_word-spelling r.qualifier_kind r.digits r.value p r.numeral r.allowed)
        (ap some (sym r.applied)),
)
