-- ===== src/Io/Path/Written.antt =====
-- The output buffer of `chaos_io_normalize_path` for a stack of components.
use mathlib.Core.List.{reverse-cons}
use macstab_chaos_testing_li.Prelude.{
  ℕ, ◌≡◌, ◌≢◌, refl, sym, ap, ◌∙◌, ◌||◌, List, [], ◌∷◌, ◌++◌, reverse, reverse-reverse, arith,
  Bytes, codes, bytes_eq, bytes_eq_iff, AllOf, All, AllOf-append, Bool-cases, inl, inr,
}
use macstab_chaos_testing_li.Io.Path.{drop_word, drop_one, separate, apply_component}
use macstab_chaos_testing_li.Io.Path.Components.{no_slash, visit, IsComponent}

-- The output buffer, reversed, for a stack of components.
abbrev pub written : List Bytes → Bytes
written [] = b'/' ∷ []
written (w ∷ []) = reverse w ++ (b'/' ∷ [])
written (w ∷ v ∷ stack) = reverse w ++ (b'/' ∷ written (v ∷ stack))

-- What stands in front of the separator of the top component.
abbrev pub below : List Bytes → Bytes
below [] = []
below (v ∷ stack) = written (v ∷ stack)

pub written-below :
    (w : Bytes) (stack : List Bytes) → written (w ∷ stack) ≡ reverse w ++ (b'/' ∷ below stack)
written-below w [] = refl
written-below w (v ∷ stack) = refl

-- Dropping a word, up to a slash that is not the first byte of the path or up to that byte.
drop_word-append :
    (w : Bytes) (x : ℕ) (out : Bytes)
    → AllOf no_slash w
    → drop_word (w ++ (b'/' ∷ x ∷ out)) ≡ b'/' ∷ x ∷ out
unfolding drop_word
drop_word-append [] x out h = refl
drop_word-append (c ∷ []) x out (hc, h) = ground arith
drop_word-append (c ∷ d ∷ w) x out (hc, h) = ground (arith, drop_word-append (d ∷ w) x out h)

drop_word_root : (w : Bytes) → AllOf no_slash w → drop_word (w ++ (b'/' ∷ [])) ≡ b'/' ∷ []
unfolding drop_word
drop_word_root [] h = refl
drop_word_root (c ∷ []) (hc, h) = ground arith
drop_word_root (c ∷ d ∷ w) (hc, h) = ground (arith, drop_word_root (d ∷ w) h)

written-cons : (stack : List Bytes) → (x : ℕ) × (out : Bytes) × (written stack ≡ x ∷ out)
written-cons [] = (b'/', [], refl)
written-cons (w ∷ stack) = go (reverse w) (written-below w stack)
  where
    go :
        (r : Bytes)
        → written (w ∷ stack) ≡ r ++ (b'/' ∷ below stack)
        → (x : ℕ) × (out : Bytes) × (written (w ∷ stack) ≡ x ∷ out)
    go [] e = (b'/', below stack, e)
    go (x ∷ r) e = (x, r ++ (b'/' ∷ below stack), e)

pub reverse-ne-nil : (w : Bytes) → w ≢ [] → reverse w ≢ []
reverse-ne-nil w ne e = ne (sym (reverse-reverse w) ∙ ap reverse e)

pub written-cons-cons :
    (w : Bytes) (stack : List Bytes)
    → w ≢ []
    → (x : ℕ) × (y : ℕ) × (out : Bytes) × (written (w ∷ stack) ≡ x ∷ y ∷ out)
written-cons-cons w stack ne = go (reverse w) (reverse-ne-nil w ne) (written-below w stack)
  where
    go :
        (r : Bytes)
        → r ≢ []
        → written (w ∷ stack) ≡ r ++ (b'/' ∷ below stack)
        → (x : ℕ) × (y : ℕ) × (out : Bytes) × (written (w ∷ stack) ≡ x ∷ y ∷ out)
    go [] n e = absurd (n refl)
    go (x ∷ []) n e = (x, b'/', below stack, e)
    go (x ∷ y ∷ r) n e = (x, y, r ++ (b'/' ∷ below stack), e)

pub AllOf-reverse : (w : Bytes) → AllOf no_slash w → AllOf no_slash (reverse w)
AllOf-reverse [] h = tt
AllOf-reverse (c ∷ w) (hc, h) =
    rw reverse-cons (AllOf-append no_slash (reverse w) (c ∷ []) (AllOf-reverse w h) (hc, tt))

-- `..` takes the top component off, and leaves the root.
up-written :
    (w : Bytes) (stack : List Bytes)
    → AllOf no_slash w
    → drop_one (drop_word (written (w ∷ stack))) ≡ written stack
unfolding drop_one
up-written w [] h = rw (drop_word_root (reverse w) (AllOf-reverse w h)) refl
up-written w (v ∷ stack) h =
    let (x, out, e) = written-cons (v ∷ stack) in
    rw (e, drop_word-append (reverse w) x out (AllOf-reverse w h)) refl

-- A component is written behind a separator, but for the one behind the root's slash.
separate-written :
    (w : Bytes) (stack : List Bytes)
    → All IsComponent stack
    → reverse w ++ separate (written stack) ≡ written (w ∷ stack)
unfolding separate
separate-written w [] h = refl
separate-written w (v ∷ stack) (c, h) =
    let (x, y, out, e) = written-cons-cons v stack c.filled in rw e refl

-- A round of the loop on the buffer is a visit on the stack.
pub apply_component-written :
    (w : Bytes) (stack : List Bytes)
    → All IsComponent stack
    → apply_component w (written stack) ≡ written (visit w stack)
unfolding apply_component
apply_component-written w stack h = elim (Bool-cases (bytes_eq w [] || bytes_eq w (codes "."))) [
  | inl skip ↦ rw skip refl
  | inr other ↦ elim (Bool-cases (bytes_eq w (codes ".."))) [
    | inl dots ↦ rw (other, dots) (up stack h)
    | inr name ↦ rw (other, name) (separate-written w stack h)
  ]
]
  where
    up :
        (st : List Bytes)
        → All IsComponent st
        → drop_one (drop_word (written st)) ≡ written (elim st [ [] ↦ [] | top ∷ rest ↦ rest ])
    up [] k = unfold drop_one drop_word in refl
    up (v ∷ st) (c, k) = up-written v st c.slash_free

pub visit-IsComponent :
    (w : Bytes) (stack : List Bytes)
    → AllOf no_slash w
    → All IsComponent stack
    → All IsComponent (visit w stack)
visit-IsComponent w stack h k = elim (Bool-cases (bytes_eq w [] || bytes_eq w (codes "."))) [
  | inl skip ↦ rw skip k
  | inr other ↦ elim (Bool-cases (bytes_eq w (codes ".."))) [
    | inl dots ↦ rw (other, dots) (pop stack k)
    | inr name ↦
        rw (other, name)
          (
            record {
              filled = λ e. let t = (bytes_eq_iff w []).1 e in absurd (ground arith);
              not_dot = λ e. let t = (bytes_eq_iff w (codes ".")).1 e in absurd (ground arith);
              not_dots = λ e. let t = (bytes_eq_iff w (codes "..")).1 e in absurd (ground arith);
              slash_free = h;
            },
            k,
          )
  ]
]
  where
    pop :
        (st : List Bytes)
        → All IsComponent st
        → All IsComponent (elim st [ [] ↦ [] | top ∷ rest ↦ rest ])
    pop [] p = tt
    pop (v ∷ st) (c, p) = p
