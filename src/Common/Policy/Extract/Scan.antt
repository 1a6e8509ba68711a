-- ===== src/Common/Policy/Extract/Scan.antt =====
-- One round of the loop of `chaos_policy_extract`, and its fuel.
use mathlib.Core.List.{reverse-cons, reverse_aux, reverse_aux-eq}
use macstab_chaos_testing_li.Prelude.{
  ℕ, zero, suc, ◌+◌, ◌≤◌, ◌<◌, ◌≡◌, ◌≢◌, refl, sym, ◌∙◌, ap, append-nil, reverse-reverse, Bool,
  true, false, not, ◌&&◌, Option, none, some, [], ◌∷◌, ◌++◌, reverse, arith, Bytes, ◌==◌, length,
  AllOf, AllOf-append, Bool-cases, Option-cases, inl, inr,
}
use macstab_chaos_testing_li.Common.Policy.Word.{Policy, parse_word}
use macstab_chaos_testing_li.Common.Policy.Extract.{
  is_space, is_trailing, skip_trailing, word_back, is_rule_word, stopped, refused, scan_words,
}

skip_trailing-le : (s : Bytes) → length (skip_trailing s) ≤ length s
unfolding skip_trailing
skip_trailing-le [] = omega arith
skip_trailing-le (c ∷ cs) = ground (arith, skip_trailing-le cs)

word_back-le :
    (w s : Bytes) → length (word_back w s).1 + length (word_back w s).0 ≡ length w + length s
unfolding word_back
word_back-le w [] = omega arith
word_back-le w (c ∷ cs) = ground (arith, word_back-le (c ∷ w) cs)

word_nonempty : (w : Bytes × Bytes) → is_rule_word w ≡ false → 0 < length w.0
unfolding is_rule_word
word_nonempty ([], rest) h = cc
word_nonempty (c ∷ word, rest) h = omega arith

-- A round that goes on leaves a shorter line.
rest_shorter :
    (end : Bytes)
    → is_rule_word (word_back [] (skip_trailing end)) ≡ false
    → length (word_back [] (skip_trailing end)).1 < length end
rest_shorter end h =
    omega (arith, word_nonempty _ h, word_back-le [] (skip_trailing end), skip_trailing-le end)

-- The three ways that a round goes.
module _ (n : ℕ) (end : Bytes) (p : Policy) (cut : Option Bytes) where
  pub scan_words_stop :
      is_rule_word (word_back [] (skip_trailing end)) ≡ true
      → scan_words (suc n) end p cut ≡ stopped p cut
  unfolding scan_words
  scan_words_stop h = ground arith

  pub scan_words_refuse :
      is_rule_word (word_back [] (skip_trailing end)) ≡ false
      → parse_word (word_back [] (skip_trailing end)).0 p ≡ none
      → scan_words (suc n) end p cut ≡ refused p
  unfolding scan_words
  scan_words_refuse h k = ground arith

  pub scan_words_next :
      (p' : Policy)
      → is_rule_word (word_back [] (skip_trailing end)) ≡ false
      → parse_word (word_back [] (skip_trailing end)).0 p ≡ some p'
      → let rest = (word_back [] (skip_trailing end)).1 in
        scan_words (suc n) end p cut ≡ scan_words n rest p' (some rest)
  unfolding scan_words
  scan_words_next p' h k = ground arith

-- The fuel never decides: any two amounts above the length of the line give the same scan.
pub scan_words-fuel :
    (n m : ℕ) (end : Bytes) (p : Policy) (cut : Option Bytes)
    → length end < n
    → length end < m
    → scan_words n end p cut ≡ scan_words m end p cut
scan_words-fuel zero m end p cut a b = absurd (omega arith)
scan_words-fuel (suc n) zero end p cut a b = absurd (omega arith)
scan_words-fuel (suc n) (suc m) end p cut a b =
    let w = word_back [] (skip_trailing end) in
    elim (Bool-cases (is_rule_word w)) [
      | inl stop ↦ rw (scan_words_stop n end p cut stop, scan_words_stop m end p cut stop)
      | inr more ↦ elim (Option-cases (parse_word w.0 p)) [
        | inl bad ↦
            rw (scan_words_refuse n end p cut more bad, scan_words_refuse m end p cut more bad)
        | inr (p', good) ↦
            let shorter = rest_shorter end more in
            rw (scan_words_next n end p cut p' more good, scan_words_next m end p cut p' more good)
              (scan_words-fuel n m w.1 p' (some w.1) (omega arith) (omega arith))
      ]
    ]

-- A byte of a qualifier word: not blank, and no `#`.
abbrev pub is_word_byte : ℕ → Bool
is_word_byte c = not (is_trailing c) && not (c == b'#')

pub AllOf-reverse : (t : ℕ → Bool) (a : Bytes) → AllOf t a → AllOf t (reverse a)
AllOf-reverse t [] h = tt
AllOf-reverse t (x ∷ a) (hx, h) =
    rw reverse-cons (AllOf-append t (reverse a) (x ∷ []) (AllOf-reverse t a h) (hx, tt))

pub skip_trailing-append :
    (gap rest : Bytes) → AllOf is_trailing gap → skip_trailing (gap ++ rest) ≡ skip_trailing rest
unfolding skip_trailing
skip_trailing-append [] rest h = refl
skip_trailing-append (c ∷ gap) rest (hc, h) = rw hc (skip_trailing-append gap rest h)

skip_trailing_word :
    (c : ℕ) (rest : Bytes) → is_word_byte c ≡ true → skip_trailing (c ∷ rest) ≡ c ∷ rest
unfolding skip_trailing
skip_trailing_word c rest h = ground arith

word_back-append :
    (w acc : Bytes) (s : ℕ) (rest : Bytes)
    → AllOf is_word_byte w
    → is_space s ≡ true
    → word_back acc (w ++ (s ∷ rest)) ≡ (reverse_aux w acc, s ∷ rest)
unfolding word_back
word_back-append [] acc s rest h k = rw k
word_back-append (c ∷ w) acc s rest (hc, h) k =
    ground (arith, word_back-append w (c ∷ acc) s rest h k)

skip_word : (w rest : Bytes) → AllOf is_word_byte w → w ≢ [] → skip_trailing (w ++ rest) ≡ w ++ rest
skip_word [] rest h ne = absurd (ne refl)
skip_word (c ∷ w) rest (hc, h) ne = skip_trailing_word c (w ++ rest) hc

reverse-ne-nil : (c : ℕ) (w : Bytes) → reverse (c ∷ w) ≢ []
reverse-ne-nil c w e = absurd (go (sym (reverse-reverse (c ∷ w)) ∙ ap reverse e))
  where
    go : c ∷ w ≡ [] → ⊥
    go h = cc

-- The last word of the line, behind blanks, where a blank stands in front of it.
pub word_at_end :
    (trail : Bytes) (c : ℕ) (word : Bytes) (s : ℕ) (rest : Bytes)
    → AllOf is_trailing trail
    → AllOf is_word_byte (c ∷ word)
    → is_space s ≡ true
    → word_back [] (skip_trailing (trail ++ (reverse (c ∷ word) ++ (s ∷ rest))))
      ≡ (c ∷ word, s ∷ rest)
word_at_end trail c word s rest ht hw hs =
    let hr = AllOf-reverse is_word_byte (c ∷ word) hw in
    rw (
      skip_trailing-append trail (reverse (c ∷ word) ++ (s ∷ rest)) ht,
      skip_word (reverse (c ∷ word)) (s ∷ rest) hr (reverse-ne-nil c word),
      word_back-append (reverse (c ∷ word)) [] s rest hr hs,
      reverse_aux-eq,
      reverse-reverse,
      append-nil,
    )

word_back_all : (w acc : Bytes) → AllOf is_word_byte w → word_back acc w ≡ (reverse_aux w acc, [])
unfolding word_back
word_back_all [] acc h = refl
word_back_all (c ∷ w) acc (hc, h) = ground (arith, word_back_all w (c ∷ acc) h)

-- The same for a word that begins the line.
pub word_at_start :
    (trail : Bytes) (c : ℕ) (word : Bytes)
    → AllOf is_trailing trail
    → AllOf is_word_byte (c ∷ word)
    → word_back [] (skip_trailing (trail ++ reverse (c ∷ word))) ≡ (c ∷ word, [])
word_at_start trail c word ht hw =
    let hr = AllOf-reverse is_word_byte (c ∷ word) hw in
    rw (
      skip_trailing-append trail (reverse (c ∷ word)) ht,
      ← append-nil (reverse (c ∷ word)),
      skip_word (reverse (c ∷ word)) [] hr (reverse-ne-nil c word),
      append-nil,
      word_back_all (reverse (c ∷ word)) [] hr,
      reverse_aux-eq,
      reverse-reverse,
      append-nil,
    )
