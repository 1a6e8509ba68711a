-- ===== src/Io/Path/Normalize.antt =====
-- src/core/chaos_io_internal.h: `chaos_io_normalize_path` beside a walk over components.
use mathlib.Core.List.{reverse-cons}
use macstab_chaos_testing_li.Prelude.{
  ℕ, zero, suc, ◌+◌, ◌≤◌, ◌<◌, ◌≡◌, refl, sym, ap, ◌∙◌, List, [], ◌∷◌, ◌++◌, reverse,
  reverse-append, reverse-reverse, append-nil, append_assoc, arith, Bytes, bytes_eq, ◌==◌, AllOf,
  All, length, Bool-cases, inl, inr, ◌⊎◌,
}
use macstab_chaos_testing_li.Io.Path.Written.{
  written, below, written-below, apply_component-written, visit-IsComponent,
}
use macstab_chaos_testing_li.Io.Path.{skip_slashes, component, normalize_from, normalize_path}
use macstab_chaos_testing_li.Io.Path.Components.{
  no_slash, split, visit, walk, render_tail, render, IsComponent,
}

-- What follows a component: nothing, or the parts behind the slash.
abbrev after : Bytes → List Bytes
after [] = []
after (c ∷ s) = split s

record Cut (s : Bytes) (r : Bytes × Bytes) : Type 0 where
  parts : split s ≡ r.0 ∷ after r.1
  slash_free : AllOf no_slash r.0
  stops : (r.1 ≡ []) ⊎ ((rest : Bytes) × (r.1 ≡ b'/' ∷ rest))
  sizes : length r.0 + length r.1 ≡ length s

component-Cut : (s : Bytes) → Cut s (component s)
unfolding component
component-Cut [] = record { parts = refl; slash_free = tt; stops = inl refl; sizes = omega arith }
component-Cut (c ∷ s) = elim (Bool-cases (c == b'/')) [
  | inl e ↦ rw e (record {
    parts = rw e refl;
    slash_free = tt;
    stops = inr (s, ground arith);
    sizes = omega arith;
  })
  | inr e ↦
      let k = component-Cut s in
      rw e (record {
        parts = rw (e, k.parts) refl;
        slash_free = (rw e refl, k.slash_free);
        stops = k.stops;
        sizes = omega (arith, k.sizes);
      })
]

walk_empty : (ws : List Bytes) (stack : List Bytes) → walk ([] ∷ ws) stack ≡ walk ws stack
unfolding bytes_eq
walk_empty ws stack = refl

walk-skip_slashes :
    (s : Bytes) (stack : List Bytes) → walk (split s) stack ≡ walk (split (skip_slashes s)) stack
unfolding skip_slashes
walk-skip_slashes [] stack = refl
walk-skip_slashes (c ∷ s) stack = elim (Bool-cases (c == b'/')) [
  | inl e ↦ rw e (walk_empty (split s) stack ∙ walk-skip_slashes s stack)
  | inr e ↦ rw e (rw e refl)
]

walk-after :
    (r : Bytes) (stack : List Bytes)
    → (r ≡ []) ⊎ ((rest : Bytes) × (r ≡ b'/' ∷ rest))
    → walk (after r) stack ≡ walk (split r) stack
walk-after r stack (inl e) = rw e (sym (walk_empty [] stack))
walk-after r stack (inr (rest, e)) = rw e (sym (walk_empty (split rest) stack))

-- A round reads at least one byte.
round_shorter : (s : Bytes) (c : ℕ) → length (component (skip_slashes (c ∷ s))).1 ≤ length s
unfolding skip_slashes component
round_shorter [] c = ground arith
round_shorter (d ∷ s) c = elim (Bool-cases (c == b'/')) [
  | inl e ↦ rw e (omega (arith, round_shorter s d))
  | inr e ↦ rw e (rw e (omega (arith, (component-Cut (d ∷ s)).sizes)))
]

pub normalize_from-walk :
    (n : ℕ) (s : Bytes) (stack : List Bytes)
    → length s < n
    → All IsComponent stack
    → (normalize_from n s (written stack) ≡ written (walk (split s) stack))
      × All IsComponent (walk (split s) stack)
unfolding normalize_from
normalize_from-walk zero s stack h k = absurd (omega arith)
normalize_from-walk (suc n) [] stack h k = (ap written (sym (walk_empty [] stack)), rw walk_empty k)
normalize_from-walk (suc n) (c ∷ s) stack h k =
    let t = skip_slashes (c ∷ s) in
    let (w, rest) = component t in
    let cut = component-Cut t in
    let shorter : length (component t).1 < n = omega (arith, round_shorter s c) in
    let v = visit (component t).0 stack in
    let walked : walk (split (c ∷ s)) stack ≡ walk (split (component t).1) v =
      walk-skip_slashes (c ∷ s) stack
      ∙ ap (λ (ws : List Bytes). walk ws stack) cut.parts
      ∙ walk-after (component t).1 v cut.stops in
    let (eq, ok) =
      normalize_from-walk n (component t).1 v shorter
        (visit-IsComponent (component t).0 stack cut.slash_free k) in
    (
      ap (normalize_from n (component t).1) (apply_component-written (component t).0 stack k)
          ∙ eq
          ∙ ap written (sym walked),
      rw walked ok,
    )

render_tail-concat :
    (ws : List Bytes) (w : Bytes) → render_tail (ws ++ w ∷ []) ≡ render_tail ws ++ (b'/' ∷ w)
render_tail-concat [] w = ap (λ (x : Bytes). b'/' ∷ x) (append-nil w)
render_tail-concat (v ∷ ws) w =
    rw (render_tail-concat ws w) (ap (λ (x : Bytes). b'/' ∷ x) (sym (append_assoc v _ _)))

reverse-below : (stack : List Bytes) → reverse (below stack) ≡ render_tail (reverse stack)
reverse-below [] = refl
reverse-below (w ∷ stack) =
    ap reverse (written-below w stack)
    ∙ rw (reverse-append, reverse-cons, reverse-reverse, reverse-below stack, reverse-cons)
        (append_assoc (render_tail (reverse stack)) (b'/' ∷ []) w
          ∙ sym (render_tail-concat (reverse stack) w))

render-concat : (ws : List Bytes) (w : Bytes) → render (ws ++ w ∷ []) ≡ render_tail (ws ++ w ∷ [])
render-concat [] w = refl
render-concat (v ∷ ws) w = refl

reverse-written : (stack : List Bytes) → reverse (written stack) ≡ render (reverse stack)
reverse-written [] = refl
reverse-written (w ∷ stack) =
    reverse-below (w ∷ stack) ∙ rw reverse-cons (sym (render-concat (reverse stack) w))

-- The components of an absolute path, outermost first.
abbrev pub resolved : Bytes → List Bytes
resolved s = reverse (walk (split s) [])

-- `chaos_io_normalize_path` gives an absolute path its normal form: the components that a walk from
-- the root ends at, each behind one slash.
pub normalize_path-resolved : (s : Bytes) → normalize_path (b'/' ∷ s) ≡ render (resolved s)
unfolding normalize_path
normalize_path-resolved s =
    ap reverse (normalize_from-walk (suc (length s)) s [] (omega arith) tt).0
    ∙ reverse-written (walk (split s) [])
