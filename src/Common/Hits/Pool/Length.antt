-- ===== src/Common/Hits/Pool/Length.antt =====
-- src/common/chaos_hits.h: how many entries `chaos_hits_assign` fills in.
use macstab_chaos_testing_li.Prelude.{
  ℕ, suc, ◌≡◌, refl, ap, List, [], ◌∷◌, Bytes, length, drop, ◌==◌, Bool-cases, Option-cases, inl,
  inr,
}
use macstab_chaos_testing_li.Common.Hits.Slot.{Slot, cleared, handed_out}
use macstab_chaos_testing_li.Common.Hits.Pool.{
  Ruled, find_kept, next_unused, modify, assign_from, assign,
}

length-assign_from :
    (pool : List Slot) (free : ℕ) (active : List Ruled) (texts : List Bytes)
    → length (assign_from pool free active texts).0 ≡ length texts
unfolding assign_from
length-assign_from pool free active [] = refl
length-assign_from pool free active (t ∷ texts) =
    let f = next_unused free (drop free pool) in
    elim (Option-cases (find_kept active t)) [
      | inr (i, e) ↦
          rw (e, assign_from)
            (ap suc (length-assign_from (modify handed_out i pool) free active texts))
      | inl e ↦ elim (Bool-cases (f == length pool)) [
        | inl full ↦ rw (e, full, assign_from) (ap suc (length-assign_from pool f active texts))
        | inr room ↦
            rw (e, room, assign_from)
              (ap suc
                (length-assign_from (modify (λ s. handed_out (cleared s)) f pool) f active texts))
      ]
    ]

pub length-assign :
    (pool : List Slot) (active : List Ruled) (texts : List Bytes)
    → length (assign pool active texts).0 ≡ length texts
unfolding assign
length-assign pool active texts = length-assign_from pool 0 active texts
