-- ===== src/Dns/Selector/Covers.antt =====
-- Which names a selector of libchaos-dns covers, and with which rank.
use mathlib.Core.Path.{subst}
use macstab_chaos_testing_li.Prelude.{
  ℕ, zero, suc, ◌+◌, ◌-◌, ◌<◌, ◌≡◌, ◌≢◌, ◌↔◌, refl, sym, ap, ◌∙◌, true, false, some, [], ◌∷◌, ◌++◌,
  arith, Bytes, ◌==◌, length, length-append, take, drop, ==_iff,
}
use macstab_chaos_testing_li.Dns.Selector.{
  Kind, any, exact, suffix, Domain, lookup, reverse_lookup, Selector, lower, case_equal,
  case_ends_with, byte_at, same_domain, suffix_matches, kind_rank, selector_matches,
}

-- The two texts differ at most in the case of their letters.
abbrev pub SameLetters : Bytes → Bytes → Type 0
SameLetters [] [] = Unit
SameLetters (c ∷ s) (d ∷ t) = (lower c ≡ lower d) × SameLetters s t
SameLetters _ _ = ⊥

-- The name ends with a dot and the text.
pub record EndsWithLabels (text name : Bytes) : Type 0 where
  pub front : Bytes
  pub labels : Bytes
  pub whole : name ≡ front ++ (b'.' ∷ labels)
  pub same : SameLetters labels text

case_equal_iff : (a b : Bytes) → (case_equal a b ≡ true) ↔ SameLetters a b
unfolding case_equal
case_equal_iff [] [] = (λ h. tt, λ h. refl)
case_equal_iff [] (d ∷ t) = (λ h. cc, λ h. absurd h)
case_equal_iff (c ∷ s) [] = (λ h. cc, λ h. absurd h)
case_equal_iff (c ∷ s) (d ∷ t) =
    let rest = case_equal_iff s t in let first = ==_iff (lower c) (lower d) in ground arith

SameLetters-length : (a b : Bytes) → SameLetters a b → length a ≡ length b
SameLetters-length [] [] h = refl
SameLetters-length [] (d ∷ t) h = absurd h
SameLetters-length (c ∷ s) [] h = absurd h
SameLetters-length (c ∷ s) (d ∷ t) h = ap suc (SameLetters-length s t h.1)

behind_dot : (a b : Bytes) (c i : ℕ) → i ≡ suc (length a) → drop i (a ++ (c ∷ b)) ≡ b
behind_dot a b c i e = subst (λ n. drop n (a ++ (c ∷ b)) ≡ b) (sym e) (go a)
  where
    go : (a : Bytes) → drop (suc (length a)) (a ++ (c ∷ b)) ≡ b
    go [] = refl
    go (x ∷ a) = go a

at_dot : (a b : Bytes) (c i : ℕ) → i ≡ length a → byte_at (a ++ (c ∷ b)) i ≡ c
at_dot a b c i e = subst (λ n. byte_at (a ++ (c ∷ b)) n ≡ c) (sym e) (go a)
  where
    go : (a : Bytes) → byte_at (a ++ (c ∷ b)) (length a) ≡ c
    go [] = refl
    go (x ∷ a) = go a

-- the text around a place
drop-get_elem? : (s : Bytes) (i : ℕ) → i < length s → s ≡ take i s ++ (byte_at s i ∷ drop (suc i) s)
drop-get_elem? [] i h = absurd (omega (arith, h))
drop-get_elem? (x ∷ s) zero h = refl
drop-get_elem? (x ∷ s) (suc i) h = ap (λ t. x ∷ t) (drop-get_elem? s i (omega (arith, h)))

suffix_matches_sound :
    (text name : Bytes) → suffix_matches text name ≡ true → EndsWithLabels text name
unfolding suffix_matches case_ends_with
suffix_matches_sound text name h =
    let i = length name - length text - 1 in
    let dot : byte_at name i ≡ b'.' = ground arith in
    let long : length text < length name = ground arith in
    let there = drop-get_elem? name i (omega (arith, long)) in
    record {
      front = take i name;
      labels = drop (suc i) name;
      whole = there ∙ ap (λ c. take i name ++ (c ∷ drop (suc i) name)) dot;
      same =
          subst (λ n. SameLetters (drop n name) text) {x = length name - length text} {y = suc i}
            (omega (arith, long))
            ((case_equal_iff (drop (length name - length text) name) text).0 (ground arith));
    }

dotted_matches :
    (text front labels : Bytes)
    → SameLetters labels text
    → suffix_matches text (front ++ (b'.' ∷ labels)) ≡ true
unfolding suffix_matches case_ends_with
dotted_matches text front labels same =
    let name = front ++ (b'.' ∷ labels) in
    let n : length name ≡ length front + suc (length labels) =
      length-append front (b'.' ∷ labels) in
    let m = SameLetters-length labels text same in
    let tail = behind_dot front labels b'.' (length name - length text) (omega (arith, n, m)) in
    let dot = at_dot front labels b'.' (length name - length text - 1) (omega (arith, n, m)) in
    let equal : case_equal (drop (length name - length text) name) text ≡ true =
      rw tail ((case_equal_iff labels text).1 same) in
    ground (arith, n, m)

suffix_matches_iff :
    (text name : Bytes) → (suffix_matches text name ≡ true) ↔ EndsWithLabels text name
suffix_matches_iff text name = (
  suffix_matches_sound text name,
  λ w. ap (suffix_matches text) w.whole ∙ dotted_matches text w.front w.labels w.same,
)

same_domain_iff : (a b : Domain) → (same_domain a b ≡ true) ↔ (a ≡ b)
same_domain_iff lookup lookup = (λ h. refl, λ h. refl)
same_domain_iff reverse_lookup reverse_lookup = (λ h. refl, λ h. refl)
same_domain_iff lookup reverse_lookup = (λ h. cc, λ h. cc)
same_domain_iff reverse_lookup lookup = (λ h. cc, λ h. cc)

empty_iff : (s : Bytes) → ((length s == 0) ≡ false) ↔ (s ≢ [])
empty_iff [] = (λ h. cc, λ h. absurd (h refl))
empty_iff (c ∷ s) = (λ h e. cc, λ h. ground arith)

-- A selector covers a name: every one; the same one but for the case of letters; or, in lookups, one
-- that ends with a dot and the selector's labels.
abbrev pub Covers : Kind → Domain → Bytes → Bytes → Type 0
Covers any domain text name = Unit
Covers exact domain text name = SameLetters text name
Covers suffix lookup text name = EndsWithLabels text name
Covers suffix reverse_lookup text name = ⊥

abbrev pub own_rank : Kind → ℕ
own_rank any = 1
own_rank suffix = 2
own_rank exact = 3

kind_rank_iff :
    (k : Kind) (text : Bytes) (domain : Domain) (name : Bytes) (n : ℕ)
    → (kind_rank k text domain name ≡ some n) ↔ (Covers k domain text name × (n ≡ own_rank k))
unfolding kind_rank
kind_rank_iff any text domain name n = (λ h. (tt, cc), λ h. ap some (sym h.1))
kind_rank_iff exact text domain name n = let t = case_equal_iff text name in ground arith
kind_rank_iff suffix text lookup name n = let t = suffix_matches_iff text name in ground arith
kind_rank_iff suffix text reverse_lookup name n = (λ h. cc, λ h. absurd h.0)

-- A selector matches a name of a domain exactly if it is of that domain, the name is not empty, and
-- the selector covers it: by `*`, by the same name but for the case of letters, or as `*.labels` by a
-- name that ends with a dot and these labels. The rank is 1, 3 or 2.
pub selector_matches_iff :
    (s : Selector) (domain : Domain) (name : Bytes) (n : ℕ)
    → (selector_matches s domain name ≡ some n) ↔ (
        ((name ≢ []) × (s.domain ≡ domain))
        × (Covers s.kind domain s.text name × (n ≡ own_rank s.kind)))
unfolding selector_matches
selector_matches_iff s domain name n =
    let k = kind_rank_iff s.kind s.text domain name n in
    let d = same_domain_iff s.domain domain in let e = empty_iff name in ground arith
