-- ===== src/Io/Path/Cover.antt =====
-- src/config/chaos_io_config.c: `chaos_io_prefix_covers` beside prefixes of components.
use mathlib.Core.Bool.{false≢true}
use macstab_chaos_testing_li.Prelude.{
  ℕ, ◌≡◌, ◌≢◌, ◌↔◌, refl, sym, ◌∙◌, Bool, true, false, Option, none, some, List, [], ◌∷◌, ◌++◌,
  append-nil, arith, Bytes, strip_prefix, AllOf, All,
}
use macstab_chaos_testing_li.Io.Path.{at_boundary, ends_with_slash, prefix_covers}
use macstab_chaos_testing_li.Io.Path.Components.{no_slash, render_tail, render, IsComponent}

-- One list of components begins another.
abbrev pub Begins : List Bytes → List Bytes → Type 0
Begins [] b = Unit {0}
Begins (w ∷ a) [] = ⊥
Begins (w ∷ a) (v ∷ b) = (w ≡ v) × Begins a b

-- The prefix is there and ends at a boundary of the path.
abbrev covered : Option Bytes → Bool
covered none = false
covered (some rest) = at_boundary rest

-- Nothing, or a slash and more.
abbrev Tail : Bytes → Type 0
Tail [] = Unit {0}
Tail (c ∷ s) = c ≡ b'/'

render_tail-Tail : (ws : List Bytes) → Tail (render_tail ws)
render_tail-Tail [] = tt
render_tail-Tail (w ∷ ws) = refl

-- Behind two texts without slashes: where the prefix ends at a boundary, the texts are equal.
strip_prefix_component :
    (w v ta tb : Bytes)
    → AllOf no_slash w
    → AllOf no_slash v
    → Tail ta
    → Tail tb
    → covered (strip_prefix (w ++ ta) (v ++ tb)) ≡ true
    → (w ≡ v) × (covered (strip_prefix ta tb) ≡ true)
unfolding strip_prefix
strip_prefix_component [] [] ta tb hw hv a b h = (refl, h)
strip_prefix_component [] (d ∷ v) [] tb hw (hd, hv) a b h = absurd (ground arith)
strip_prefix_component [] (d ∷ v) (x ∷ ta) tb hw (hd, hv) a b h = absurd (ground arith)
strip_prefix_component (c ∷ w) [] ta [] (hc, hw) hv a b h = absurd (ground arith)
strip_prefix_component (c ∷ w) [] ta (y ∷ tb) (hc, hw) hv a b h = absurd (ground arith)
strip_prefix_component (c ∷ w) (d ∷ v) ta tb (hc, hw) (hd, hv) a b h =
    ground (arith, strip_prefix_component w v ta tb hw hv a b)

strip_prefix_same : (w ta tb : Bytes) → strip_prefix (w ++ ta) (w ++ tb) ≡ strip_prefix ta tb
unfolding strip_prefix
strip_prefix_same [] ta tb = refl
strip_prefix_same (c ∷ w) ta tb = ground (arith, strip_prefix_same w ta tb)

covered→Begins :
    (a b : List Bytes)
    → All IsComponent a
    → All IsComponent b
    → covered (strip_prefix (render_tail a) (render_tail b)) ≡ true
    → Begins a b
unfolding strip_prefix
covered→Begins [] b ha hb h = tt
covered→Begins (w ∷ a) [] ha hb h = absurd (cc)
covered→Begins (w ∷ a) (v ∷ b) (cw, ha) (cv, hb) h =
    let (e, rest) =
      strip_prefix_component w v (render_tail a) (render_tail b) cw.slash_free cv.slash_free
        (render_tail-Tail a) (render_tail-Tail b) h in
    (e, covered→Begins a b ha hb rest)

Begins→covered :
    (a b : List Bytes) → Begins a b → covered (strip_prefix (render_tail a) (render_tail b)) ≡ true
unfolding strip_prefix
Begins→covered [] [] h = refl
Begins→covered [] (v ∷ b) h = refl
Begins→covered (w ∷ a) [] h = absurd h
Begins→covered (w ∷ a) (v ∷ b) (e, h) =
    rw (e, strip_prefix_same v (render_tail a) (render_tail b)) (Begins→covered a b h)

ends_with_slash-append :
    (s : Bytes) (c : ℕ) (w : Bytes) → ends_with_slash (s ++ (c ∷ w)) ≡ ends_with_slash (c ∷ w)
unfolding ends_with_slash
ends_with_slash-append [] c w = refl
ends_with_slash-append (x ∷ []) c w = refl
ends_with_slash-append (x ∷ y ∷ s) c w = ends_with_slash-append (y ∷ s) c w

slash_free-ends : (c : ℕ) (w : Bytes) → AllOf no_slash (c ∷ w) → ends_with_slash (c ∷ w) ≡ false
unfolding ends_with_slash
slash_free-ends c [] (h, k) = ground arith
slash_free-ends c (d ∷ w) (h, k) = slash_free-ends d w k

-- The path of one or more components does not end with a slash.
render_tail-ends :
    (w : Bytes) (ws : List Bytes)
    → All IsComponent (w ∷ ws)
    → ends_with_slash (render_tail (w ∷ ws)) ≡ false
render_tail-ends [] ws (c, h) = absurd (c.filled refl)
render_tail-ends (x ∷ w) [] (c, h) =
    rw append-nil (ends_with_slash-append (b'/' ∷ []) x w ∙ slash_free-ends x w c.slash_free)
render_tail-ends (x ∷ w) (v ∷ ws) (c, h) =
    ends_with_slash-append (b'/' ∷ x ∷ w) b'/' (v ++ render_tail ws) ∙ render_tail-ends v ws h

prefix_covers-covered :
    (prefix path : Bytes)
    → ends_with_slash prefix ≡ false
    → prefix_covers prefix path ≡ covered (strip_prefix prefix path)
unfolding prefix_covers
prefix_covers-covered prefix path h = ground arith

root_covers : (b : List Bytes) → prefix_covers (render []) (render b) ≡ true
unfolding prefix_covers strip_prefix
root_covers [] = refl
root_covers (v ∷ b) = ground arith

not_root :
    (w : Bytes) (a : List Bytes)
    → w ≢ []
    → covered (strip_prefix (render_tail (w ∷ a)) (render [])) ≡ false
unfolding strip_prefix
not_root [] a h = absurd (h refl)
not_root (c ∷ w) a h = refl

-- Between normal paths, `chaos_io_prefix_covers` holds exactly if the components of the prefix are
-- the first components of the path: `/foo` covers `/foo` and `/foo/bar` but not `/foobar`, and `/`
-- covers every path.
pub prefix_covers_iff :
    (a b : List Bytes)
    → All IsComponent a
    → All IsComponent b
    → (prefix_covers (render a) (render b) ≡ true) ↔ Begins a b
prefix_covers_iff [] b ha hb = (λ h. tt, λ h. root_covers b)
prefix_covers_iff (w ∷ a) [] (cw, ha) hb =
    let e =
      prefix_covers-covered (render_tail (w ∷ a)) (render []) (render_tail-ends w a (cw, ha))
      ∙ not_root w a cw.filled in
    (λ h. absurd (false≢true (sym e ∙ h)), λ h. absurd h)
prefix_covers_iff (w ∷ a) (v ∷ b) ha hb =
    let e =
      prefix_covers-covered (render_tail (w ∷ a)) (render_tail (v ∷ b)) (render_tail-ends w a ha) in
    (
      λ h. covered→Begins (w ∷ a) (v ∷ b) ha hb (sym e ∙ h),
      λ h. e ∙ Begins→covered (w ∷ a) (v ∷ b) h,
    )
