-- ===== src/Io/Path/Canonical.antt =====
-- src/core/chaos_io_internal.h: the normal form that `chaos_io_normalize_path` leaves.
use mathlib.Core.List.{reverse-cons}
use macstab_chaos_testing_li.Prelude.{
  suc, ◌≡◌, refl, sym, ap, ◌∙◌, true, List, [], ◌∷◌, ◌++◌, reverse, reverse-reverse, append-nil,
  append_assoc, arith, Bytes, codes, bytes_eq, bytes_eq_iff, AllOf, All, length, Bool-cases, inl,
  inr, ◌||◌,
}
use macstab_chaos_testing_li.Io.Path.{normalize_path}
use macstab_chaos_testing_li.Io.Path.Components.{
  no_slash, split, visit, walk, render_tail, render, IsComponent,
}
use macstab_chaos_testing_li.Io.Path.Normalize.{
  resolved, normalize_from-walk, normalize_path-resolved,
}

All-append {ℓ} : {A : Type ℓ} (P : A → Type 0) (a b : List A) → All P a → All P b → All P (a ++ b)
All-append P [] b h k = k
All-append P (x ∷ a) b (hx, h) k = (hx, All-append P a b h k)

All-reverse {ℓ} : {A : Type ℓ} (P : A → Type 0) (a : List A) → All P a → All P (reverse a)
All-reverse P [] h = tt
All-reverse P (x ∷ a) (hx, h) =
    rw reverse-cons (All-append P (reverse a) (x ∷ []) (All-reverse P a h) (hx, tt))

resolved-IsComponent : (s : Bytes) → All IsComponent (resolved s)
resolved-IsComponent s =
    All-reverse IsComponent (walk (split s) [])
      (normalize_from-walk (suc (length s)) s [] (omega arith) tt).1

split-append : (w : Bytes) (s : Bytes) → AllOf no_slash w → split (w ++ (b'/' ∷ s)) ≡ w ∷ split s
split-append [] s h = refl
split-append (c ∷ w) s (hc, h) = rw (split-append w s h) (ground arith)

split_whole : (w : Bytes) → AllOf no_slash w → split w ≡ w ∷ []
split_whole [] h = refl
split_whole (c ∷ w) (hc, h) = rw (split_whole w h) (ground arith)

split-render_tail :
    (ws : List Bytes) (w : Bytes)
    → IsComponent w
    → All IsComponent ws
    → split (w ++ render_tail ws) ≡ w ∷ ws
split-render_tail [] w c h = rw append-nil (split_whole w c.slash_free)
split-render_tail (v ∷ ws) w c (d, h) =
    split-append w (v ++ render_tail ws) c.slash_free
    ∙ ap (λ (x : List Bytes). w ∷ x) (split-render_tail ws v d h)

visit_component : (w : Bytes) (stack : List Bytes) → IsComponent w → visit w stack ≡ w ∷ stack
visit_component w stack c = elim (Bool-cases (bytes_eq w [] || bytes_eq w (codes "."))) [
  | inl skip ↦ absurd (dot skip)
  | inr other ↦ elim (Bool-cases (bytes_eq w (codes ".."))) [
    | inl dots ↦ absurd (c.not_dots ((bytes_eq_iff w (codes "..")).0 dots))
    | inr name ↦ rw (other, name) refl
  ]
]
  where
    dot : (bytes_eq w [] || bytes_eq w (codes ".")) ≡ true → ⊥
    dot e = elim (Bool-cases (bytes_eq w [])) [
      | inl nil ↦ c.filled ((bytes_eq_iff w []).0 nil)
      | inr rest ↦ c.not_dot ((bytes_eq_iff w (codes ".")).0 (rw rest at e))
    ]

walk_components : (ws stack : List Bytes) → All IsComponent ws → walk ws stack ≡ reverse ws ++ stack
walk_components [] stack h = refl
walk_components (w ∷ ws) stack (c, h) =
    ap (walk ws) (visit_component w stack c)
    ∙ walk_components ws (w ∷ stack) h
    ∙ rw reverse-cons (sym (append_assoc (reverse ws) (w ∷ []) stack))

-- A path in normal form is left as it is.
pub normalize_path-render :
    (ws : List Bytes) → All IsComponent ws → normalize_path (render ws) ≡ render ws
normalize_path-render [] h = normalize_path-resolved [] ∙ unfold bytes_eq in refl
normalize_path-render (w ∷ ws) (c, h) =
    normalize_path-resolved (w ++ render_tail ws)
    ∙ ap (λ (x : List Bytes). render (reverse (walk x []))) (split-render_tail ws w c h)
    ∙ ap (λ (x : List Bytes). render (reverse x)) (walk_components (w ∷ ws) [] (c, h))
    ∙ rw (append-nil, reverse-reverse) refl

-- `chaos_io_normalize_path` makes of every absolute path the path of the components that a walk from
-- the root ends at, none of them empty, `.`, `..` or holding a slash, and a second call changes
-- nothing.
pub normalize_path_canonical :
    (s : Bytes)
    → (normalize_path (b'/' ∷ s) ≡ render (resolved s))
      × All IsComponent (resolved s)
      × (normalize_path (normalize_path (b'/' ∷ s)) ≡ normalize_path (b'/' ∷ s))
normalize_path_canonical s =
    let e = normalize_path-resolved s in
    let c = resolved-IsComponent s in (e, c, rw e (normalize_path-render (resolved s) c))
