-- ===== src/Net/Rule/Fields.antt =====
-- How `chaos_net_split_rule_fields` cuts a line.
use macstab_chaos_testing_li.Prelude.{
  ◌≡◌, ◌↔◌, refl, sym, ap, ◌∙◌, Option, some, ◌∷◌, ◌++◌, arith, Bytes, Option-cases, inl, inr,
}
use macstab_chaos_testing_li.Common.Libc.{Lacks, split_last, split_last-append, split_last_sound}
use macstab_chaos_testing_li.Net.Rule.{cut_last}

-- the line that four fields make
abbrev pub joined : Bytes → Bytes → Bytes → Bytes → Bytes
joined selector op effect value = ((selector ++ (b':' ∷ op)) ++ (b':' ∷ effect)) ++ (b':' ∷ value)

same_fields :
    (a b c d a' b' c' d' : Bytes)
    → ◌≡◌ {A = Option (Bytes × Bytes × Bytes × Bytes)} (some (a, b, c, d)) (some (a', b', c', d'))
    → (a ≡ a') × (b ≡ b') × (c ≡ c') × (d ≡ d')
same_fields a b c d a' b' c' d' h = (cc, cc, cc, cc)

cut_last-joined :
    (selector op effect value : Bytes)
    → Lacks b':' op
    → Lacks b':' effect
    → Lacks b':' value
    → cut_last (joined selector op effect value) ≡ some (selector, op, effect, value)
unfolding cut_last
cut_last-joined selector op effect value o e v =
    rw
      (
        split_last-append b':' ((selector ++ (b':' ∷ op)) ++ (b':' ∷ effect)) value v,
        split_last-append b':' (selector ++ (b':' ∷ op)) effect e,
        split_last-append b':' selector op o,
        cut_last,
      )
      refl

cut_last_sound :
    (line selector op effect value : Bytes)
    → cut_last line ≡ some (selector, op, effect, value)
    → (line ≡ joined selector op effect value)
      × (Lacks b':' op × (Lacks b':' effect × Lacks b':' value))
unfolding cut_last
cut_last_sound line selector op effect value h = elim (Option-cases (split_last b':' line)) [
  | inl missed ↦ absurd (ground (arith, rw (missed, cut_last) at h))
  | inr ((front, v), e1) ↦ elim (Option-cases (split_last b':' front)) [
    | inl missed ↦ absurd (ground (arith, rw (e1, missed, cut_last) at h))
    | inr ((head, f), e2) ↦ elim (Option-cases (split_last b':' head)) [
      | inl missed ↦ absurd (ground (arith, rw (e1, e2, missed, cut_last) at h))
      | inr ((s, o), e3) ↦
          let (ps, po, pe, pv) =
            same_fields s o f v selector op effect value (rw (e1, e2, e3, cut_last) at h) in
          let (w1, l1) = split_last_sound b':' line e1 in
          let (w2, l2) = split_last_sound b':' front e2 in
          let (w3, l3) = split_last_sound b':' head e3 in
          (
            rw (sym ps, sym po, sym pe, sym pv)
                (w1 ∙ ap (λ t. t ++ (b':' ∷ v)) (w2 ∙ ap (λ t. t ++ (b':' ∷ f)) w3)),
            (rw (sym po) l3, (rw (sym pe) l2, rw (sym pv) l1)),
          )
    ]
  ]
]

-- A line splits into four fields exactly if it is the four with colons between them, and the last three
-- have none; the selector may hold any number of colons.
pub cut_last_iff :
    (line selector op effect value : Bytes)
    → (cut_last line ≡ some (selector, op, effect, value)) ↔ (
        (line ≡ joined selector op effect value)
        × (Lacks b':' op × (Lacks b':' effect × Lacks b':' value)))
unfolding cut_last
cut_last_iff line selector op effect value = (
  cut_last_sound line selector op effect value,
  λ h. ap cut_last h.0 ∙ cut_last-joined selector op effect value h.1.0 h.1.1.0 h.1.1.1,
)
