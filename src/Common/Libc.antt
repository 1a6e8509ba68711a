-- ===== src/Common/Libc.antt =====
-- The functions of the C library that the parsers of libchaos-net and libchaos-dns call, and the
-- search for a byte of a string, which <string.h> documents.
use macstab_chaos_testing_li.Prelude.{
  ℤ, Bool, ℕ, ◌≡◌, ◌≢◌, refl, sym, ap, Option, none, some, [], ◌∷◌, ◌++◌, arith, Bytes, ◌==◌,
  if◌then◌else◌, Bool-cases, Option-cases, All, inl, inr, ==_iff,
}

-- `strtoul`, `strtol` and `strtoll` with base 10: the number, and the text from `*end` on, with `strtoll`
-- also whether errno is ERANGE; `inet_pton`: the bytes of an
-- address, or no address, and `inet_ntop` back.
pub record Libc : Type 0 where
  pub strtoul : Bytes → ℕ × Bytes
  pub strtol : Bytes → ℤ × Bytes
  pub strtoll : Bytes → ℤ × Bytes × Bool
  pub inet_pton4 : Bytes → Option Bytes
  pub inet_pton6 : Bytes → Option Bytes
  pub inet_ntop4 : Bytes → Bytes
  pub inet_ntop6 : Bytes → Bytes

-- `strchr`: what stands before the first such byte, and behind it
unfoldable pub split_first : ℕ → Bytes → Option (Bytes × Bytes)
split_first c [] = none
split_first c (x ∷ s) =
    if x == c
    then some ([], s)
    else elim (split_first c s) [ none ↦ none | some (a, b) ↦ some (x ∷ a, b) ]

-- `strrchr`: what stands before the last such byte, and behind it
unfoldable pub split_last : ℕ → Bytes → Option (Bytes × Bytes)
split_last c [] = none
split_last c (x ∷ s) = elim (split_last c s) [
  | none ↦ if x == c then some ([], s) else none
  | some (a, b) ↦ some (x ∷ a, b)
]

-- The byte does not occur.
abbrev pub Lacks : ℕ → Bytes → Type 0
Lacks c s = All (λ x. x ≢ c) s

split_last-none : (c : ℕ) (s : Bytes) → Lacks c s → split_last c s ≡ none
unfolding split_last
split_last-none c [] h = refl
split_last-none c (x ∷ s) (n, h) =
    rw (split_last-none c s h, split_last) (ground (arith, ==_iff x c))

split_last-Lacks : (c : ℕ) (s : Bytes) → split_last c s ≡ none → Lacks c s
unfolding split_last
split_last-Lacks c [] h = tt
split_last-Lacks c (x ∷ s) h = elim (Option-cases (split_last c s)) [
  | inl e ↦ (ground (arith, ==_iff x c, rw (e, split_last) at h), split_last-Lacks c s e)
  | inr (p, e) ↦ absurd (ground (arith, rw (e, split_last) at h))
]

pub split_last-append :
    (c : ℕ) (a b : Bytes) → Lacks c b → split_last c (a ++ (c ∷ b)) ≡ some (a, b)
unfolding split_last
split_last-append c [] b h = rw (split_last-none c b h, split_last) (ground (arith, ==_iff c c))
split_last-append c (x ∷ a) b h = rw (split_last-append c a b h, split_last) refl

pair_parts :
    (a b a' b' : Bytes)
    → ◌≡◌ {A = Option (Bytes × Bytes)} (some (a, b)) (some (a', b'))
    → (a ≡ a') × (b ≡ b')
pair_parts a b a' b' h = (cc, cc)

pub split_last_sound :
    (c : ℕ) (s : Bytes) {a b : Bytes}
    → split_last c s ≡ some (a, b)
    → (s ≡ a ++ (c ∷ b)) × Lacks c b
unfolding split_last
split_last_sound c [] h = cc
split_last_sound c (x ∷ s) {a = a} {b = b} h = elim (Option-cases (split_last c s)) [
  | inl e ↦ elim (Bool-cases (x == c)) [
    | inl same ↦
        let (pa, pb) = pair_parts [] s a b (rw (e, same, split_last) at h) in
        let xc : x ≡ c = (==_iff x c).0 same in
        (rw (sym pa, sym pb, xc) refl, rw (sym pb) (split_last-Lacks c s e))
    | inr other ↦ absurd (ground (arith, rw (e, other, split_last) at h))
  ]
  | inr ((a', b'), e) ↦
      let (pa, pb) = pair_parts (x ∷ a') b' a b (rw (e, split_last) at h) in
      let (w, l) = split_last_sound c s e in
      (rw (sym pa, sym pb) (ap (λ t. x ∷ t) w), rw (sym pb) l)
]
