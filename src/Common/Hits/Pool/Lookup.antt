-- ===== src/Common/Hits/Pool/Lookup.antt =====
-- What the pool's operations leave at each index.
use macstab_chaos_testing_li.Prelude.{
  ℕ, zero, suc, ◌+◌, ◌-◌, ◌≤◌, ◌<◌, ◌≡◌, ◌≢◌, refl, sym, ap, ◌∙◌, true, false, not, ◌&&◌, Option,
  some, List, [], ◌∷◌, arith, if◌then◌else◌, length, drop, get_elem?, inl, inr, Bool-cases,
}
use macstab_chaos_testing_li.Common.Hits.Slot.{Slot, released}
use macstab_chaos_testing_li.Common.Hits.Pool.{next_unused, modify, holds, release_from, release}

pub get_elem?-modify_self :
    (f : Slot → Slot) (pool : List Slot) (i : ℕ) (s : Slot)
    → get_elem? pool i ≡ some s
    → get_elem? (modify f i pool) i ≡ some (f s)
unfolding modify
get_elem?-modify_self f [] i s h = cc
get_elem?-modify_self f (x ∷ pool) zero s h = ground arith
get_elem?-modify_self f (x ∷ pool) (suc i) s h = get_elem?-modify_self f pool i s h

pub get_elem?-modify_ne :
    (f : Slot → Slot) (pool : List Slot) (i j : ℕ)
    → i ≢ j
    → get_elem? (modify f i pool) j ≡ get_elem? pool j
unfolding modify
get_elem?-modify_ne f [] i j h = refl
get_elem?-modify_ne f (x ∷ pool) zero zero h = absurd (h refl)
get_elem?-modify_ne f (x ∷ pool) zero (suc j) h = refl
get_elem?-modify_ne f (x ∷ pool) (suc i) zero h = refl
get_elem?-modify_ne f (x ∷ pool) (suc i) (suc j) h =
    get_elem?-modify_ne f pool i j (λ e. h (ap suc e))

pub get_elem?-modify_inv :
    (f : Slot → Slot) (pool : List Slot) (i : ℕ) (t : Slot)
    → get_elem? (modify f i pool) i ≡ some t
    → (s : Slot) × (get_elem? pool i ≡ some s) × (t ≡ f s)
unfolding modify
get_elem?-modify_inv f [] i t h = cc
get_elem?-modify_inv f (x ∷ pool) zero t h = (x, refl, ground arith)
get_elem?-modify_inv f (x ∷ pool) (suc i) t h = get_elem?-modify_inv f pool i t h

pub length-modify :
    (f : Slot → Slot) (pool : List Slot) (i : ℕ) → length (modify f i pool) ≡ length pool
unfolding modify
length-modify f [] i = refl
length-modify f (x ∷ pool) zero = refl
length-modify f (x ∷ pool) (suc i) = ap suc (length-modify f pool i)

-- An unused slot at the index, counted from the front of the list.
pub record UnusedAt (slots : List Slot) (k : ℕ) : Type 0 where
  pub slot : Slot
  pub found : get_elem? slots k ≡ some slot
  pub unused : slot.used ≡ false

next_unused_used :
    (free : ℕ) (s : Slot) (slots : List Slot)
    → s.used ≡ true
    → next_unused free (s ∷ slots) ≡ next_unused (free + 1) slots
unfolding next_unused
next_unused_used free s slots h = rw h refl

next_unused_here :
    (free : ℕ) (s : Slot) (slots : List Slot) → s.used ≡ false → next_unused free (s ∷ slots) ≡ free
unfolding next_unused
next_unused_here free s slots h = rw h refl

-- The search stays inside the pool or stops at its end.
pub next_unused_bounds :
    (slots : List Slot) (free : ℕ)
    → (free ≤ next_unused free slots) × (next_unused free slots ≤ free + length slots)
unfolding next_unused
next_unused_bounds [] free = omega arith
next_unused_bounds (s ∷ slots) free = ground (arith, next_unused_bounds slots (free + 1))

-- Where it stops inside the pool there is an unused slot.
pub next_unused-UnusedAt :
    (slots : List Slot) (free k : ℕ)
    → next_unused free slots ≡ free + k
    → k < length slots
    → UnusedAt slots k
next_unused-UnusedAt [] free k h lt = absurd (omega arith)
next_unused-UnusedAt (s ∷ slots) free zero h lt = elim (Bool-cases s.used) [
  | inl e ↦
      absurd
        (omega (arith, sym (next_unused_used free s slots e), next_unused_bounds slots (free + 1)))
  | inr e ↦ record { slot = s; found = refl; unused = e }
]
next_unused-UnusedAt (s ∷ slots) free (suc k) h lt = elim (Bool-cases s.used) [
  | inl e ↦
      let u =
        next_unused-UnusedAt slots (free + 1) k
          (sym (next_unused_used free s slots e) ∙ h ∙ omega arith) (omega arith) in
      record { slot = u.slot; found = u.found; unused = u.unused }
  | inr e ↦ absurd (omega (arith, sym (next_unused_here free s slots e)))
]

pub get_elem?-drop :
    (n k m : ℕ) (pool : List Slot) → m ≡ n + k → get_elem? (drop n pool) k ≡ get_elem? pool m
get_elem?-drop zero k m pool e = ap (get_elem? pool) (omega arith)
get_elem?-drop (suc n) k m [] e = refl
get_elem?-drop (suc n) k zero (s ∷ pool) e = absurd (omega arith)
get_elem?-drop (suc n) k (suc m) (s ∷ pool) e = get_elem?-drop n k m pool (omega arith)

pub length-drop : (n : ℕ) (pool : List Slot) → length (drop n pool) ≡ length pool - n
length-drop zero pool = omega arith
length-drop (suc n) [] = omega arith
length-drop (suc n) (s ∷ pool) = omega (arith, length-drop n pool)

get_elem?-release_from :
    (i j m : ℕ) (pool : List Slot) (kept : List (Option ℕ)) (s : Slot)
    → m ≡ i + j
    → get_elem? pool j ≡ some s
    → get_elem? (release_from i pool kept) j
      ≡ some (if s.used && not (holds m kept) then released s else s)
unfolding release_from
get_elem?-release_from i j m [] kept s e h = cc
get_elem?-release_from i zero m (x ∷ pool) kept s e h =
    let at : m ≡ i = omega arith in rw at (ground arith)
get_elem?-release_from i (suc j) m (x ∷ pool) kept s e h =
    get_elem?-release_from (i + 1) j m pool kept s (omega arith) h

-- The loop of `chaos_hits_release` at one slot.
pub get_elem?-release :
    (j : ℕ) (pool : List Slot) (kept : List (Option ℕ)) (s : Slot)
    → get_elem? pool j ≡ some s
    → get_elem? (release pool kept) j
      ≡ some (if s.used && not (holds j kept) then released s else s)
unfolding release
get_elem?-release j pool kept s h = get_elem?-release_from 0 j j pool kept s (omega arith) h
