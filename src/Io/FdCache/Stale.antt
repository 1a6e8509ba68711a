-- ===== src/Io/FdCache/Stale.antt =====
-- src/config/chaos_io_fdcache.c: what a lookup of a descriptor gives after a path was stored for it, at once
-- or for a slot that was outdated before the store.
use macstab_chaos_testing_li.Prelude.{
  ℕ, ◌+◌, ◌%◌, ◌^◌, ◌<◌, ◌≡◌, ◌≢◌, ◌⊎◌, inl, inr, refl, sym, ap, ◌∙◌, Bool, true, false, ◌||◌,
  Option, none, some, List, [], ◌∷◌, arith, Bytes, ◌==◌, ltb, leb, if◌then◌else◌, length,
  Bool-cases,
}
use macstab_chaos_testing_li.Io.Path.{is_excluded_path}
use macstab_chaos_testing_li.Io.FdCache.{
  slots, max_path, Entry, Cache, no_entry, slot, table_created, fill, store_at, store, reset,
  read_entry, lookup, invalidate, Event, stored, invalidated, was_reset, happen, run,
}

-- how often the events outdate a slot
unfoldable pub bumps : ℕ → List Event → ℕ
bumps i [] = 0
bumps i (stored mapped fd path generation ∷ es) = bumps i es
bumps i (invalidated none ∷ es) = bumps i es
bumps i (invalidated (some fd) ∷ es) = let n = bumps i es in if i == slot fd then n + 1 else n
bumps i (was_reset ∷ es) = let n = bumps i es in if ltb i slots then n + 1 else n

store_at-generations :
    (mapped : Bool) (fd : Option ℕ) (p : Bytes) (g : ℕ) (c : Cache) (i : ℕ)
    → (store_at mapped fd p g c).generations i ≡ c.generations i
unfolding store_at
store_at-generations mapped none p g c i = refl
store_at-generations mapped (some f) p g c i =
    elim (Bool-cases (is_excluded_path (some p) || leb max_path (length p))) [
      | inl bad ↦ rw (bad, store_at) refl
      | inr good ↦ rw (good, store_at) (go (table_created mapped c.table))
    ]
  where
    go :
        (o : Option (ℕ → Entry))
        → (elim o as (λ _. Cache) [
          | none ↦ c
          | some t ↦ record c { table = some (fill f p g t) }
        ]).generations
            i
          ≡ c.generations i
    go none = refl
    go (some t) = refl

run-generations :
    (es : List Event) (c : Cache) (i : ℕ)
    → c.generations i < 2 ^ 32
    → (run es c).generations i ≡ (c.generations i + bumps i es) % 2 ^ 32
unfolding run happen bumps invalidate reset
run-generations [] c i h = omega arith
run-generations (stored mapped fd p g ∷ es) c i h =
    store_at-generations mapped fd p g (run es c) i ∙ run-generations es c i h
run-generations (invalidated none ∷ es) c i h = run-generations es c i h
run-generations (invalidated (some fd) ∷ es) c i h = ground (arith, run-generations es c i h)
run-generations (was_reset ∷ es) c i h = ground (arith, run-generations es c i h)

read_entry-stale : (fd size g : ℕ) (e : Entry) → e.generation ≢ g → read_entry fd size g e ≡ none
unfolding read_entry
read_entry-stale fd size g e h = ground arith

same_slot : (i : ℕ) → (i == i) ≡ true
same_slot i = ground arith

fill_even :
    (fd : ℕ) (p : Bytes) (g : ℕ) (t : ℕ → Entry)
    → (t (slot fd)).sequence % 2 ≡ 0
    → ((fill fd p g t (slot fd)).generation ≡ g)
      × ((fill fd p g t (slot fd)).path ≡ p)
      × ((fill fd p g t (slot fd)).fd_plus_one ≡ fd + 1)
      × ((fill fd p g t (slot fd)).sequence % 2 ≡ 0)
unfolding fill
fill_even fd p g t h =
    let yes_even : ((t (slot fd)).sequence % 2 == 0) ≡ true = ground arith in
    rw (yes_even, same_slot (slot fd), fill) (refl, refl, refl, omega (arith, h))

fill_odd :
    (fd : ℕ) (p : Bytes) (g : ℕ) (t : ℕ → Entry)
    → (t (slot fd)).sequence % 2 ≢ 0
    → fill fd p g t ≡ t
unfolding fill
fill_odd fd p g t h =
    let odd : ((t (slot fd)).sequence % 2 == 0) ≡ false = ground arith in rw (odd, fill) refl

lookup-stale :
    (fd size : ℕ) (t : ℕ → Entry) (gs : ℕ → ℕ)
    → (t (slot fd)).generation ≢ gs (slot fd)
    → lookup (some fd) size (record { table = some t; generations = gs }) ≡ none
unfolding lookup
lookup-stale fd size t gs h = elim (Bool-cases (size == 0)) [
  | inl e ↦ rw (e, lookup) refl
  | inr e ↦ rw (e, lookup) (read_entry-stale fd size (gs (slot fd)) (t (slot fd)) h)
]

module _ (fd : ℕ) (p : Bytes) (g size : ℕ) (gs : ℕ → ℕ) (old : g ≢ gs (slot fd)) where
  abbrev with_table : Option (ℕ → Entry) → Cache
  with_table o = record { table = o; generations = gs }

  fill-outdated :
      (t : ℕ → Entry)
      → (lookup (some fd) size (with_table (some (fill fd p g t))) ≡ none)
        ⊎ (lookup (some fd) size (with_table (some (fill fd p g t)))
            ≡ lookup (some fd) size (with_table (some t)))
  fill-outdated t = elim (Bool-cases ((t (slot fd)).sequence % 2 == 0)) [
    | inl e ↦
        let (same, _, _, _) = fill_even fd p g t (ground arith) in
        inl (lookup-stale fd size (fill fd p g t) gs (λ k. old (sym same ∙ k)))
    | inr e ↦
        inr
          (ap (λ u. lookup (some fd) size (with_table (some u))) (fill_odd fd p g t (ground arith)))
  ]

  stored-outdated :
      (mapped : Bool) (o : Option (ℕ → Entry))
      → let after : Cache = elim (table_created mapped o) as (λ _. Cache) [
        | none ↦ with_table o
        | some t ↦ with_table (some (fill fd p g t))
      ] in
        (lookup (some fd) size after ≡ none)
        ⊎ (lookup (some fd) size after ≡ lookup (some fd) size (with_table o))
  unfolding table_created
  stored-outdated mapped (some t) = fill-outdated t
  stored-outdated false none = inr refl
  stored-outdated true none =
      let (same, _, _, _) = fill_even fd p g (λ i. no_entry) (omega arith) in
      inl (lookup-stale fd size (fill fd p g (λ i. no_entry)) gs (λ k. old (sym same ∙ k)))

-- Where `readlink` gave a path for a descriptor and the descriptor's slot, whose generation is a
-- 32-bit number, was outdated meanwhile, by any events of which at least one and fewer than 2 ^ 32
-- outdate the slot: after the path is stored, a lookup of the descriptor finds nothing, or only
-- what it would find without that store.
pub store_at-outdated :
    (mapped : Bool) (fd : ℕ) (p : Bytes) (c : Cache) (es : List Event) (size : ℕ)
    → c.generations (slot fd) < 2 ^ 32
    → 0 < bumps (slot fd) es
    → bumps (slot fd) es < 2 ^ 32
    → (lookup (some fd) size (store_at mapped (some fd) p (c.generations (slot fd)) (run es c))
        ≡ none)
      ⊎ (lookup (some fd) size (store_at mapped (some fd) p (c.generations (slot fd)) (run es c))
          ≡ lookup (some fd) size (run es c))
unfolding store_at
store_at-outdated mapped fd p c es size h lo hi =
    elim (Bool-cases (is_excluded_path (some p) || leb max_path (length p))) [
      | inl bad ↦ rw (bad, store_at) (inr refl)
      | inr good ↦
          rw (good, store_at)
            (stored-outdated fd p (c.generations (slot fd)) size (run es c).generations
              (moved (c.generations (slot fd)) (bumps (slot fd) es) h lo hi
                (run-generations es c (slot fd) h))
              mapped (run es c).table)
    ]
  where
    moved : (g n : ℕ) {g' : ℕ} → g < 2 ^ 32 → 0 < n → n < 2 ^ 32 → g' ≡ (g + n) % 2 ^ 32 → g ≢ g'
    moved g n a b d e = omega (arith, e)

read_entry-filled :
    (fd size g : ℕ) (p : Bytes) (e : Entry)
    → (e.generation ≡ g) × (e.path ≡ p) × (e.fd_plus_one ≡ fd + 1) × (e.sequence % 2 ≡ 0)
    → length p < size
    → read_entry fd size g e ≡ some p
unfolding read_entry
read_entry-filled fd size g p e (a, b, d, s) fits = ground (arith, ap length b)

module _ (fd : ℕ) (p : Bytes) (size : ℕ) (gs : ℕ → ℕ) (fits : length p < size) where
  lookup-filled :
      (t : ℕ → Entry)
      → (t (slot fd)).sequence % 2 ≡ 0
      → lookup
          (some fd)
          size
          (record { table = some (fill fd p (gs (slot fd)) t); generations = gs })
        ≡ some p
  unfolding lookup
  lookup-filled t h =
      let room : (size == 0) ≡ false = ground arith in
      rw (room, lookup)
        (read_entry-filled fd size (gs (slot fd)) p _ (fill_even fd p (gs (slot fd)) t h) fits)

  lookup-created :
      (o : Option (ℕ → Entry))
      → ((t : ℕ → Entry) → o ≡ some t → (t (slot fd)).sequence % 2 ≡ 0)
      → lookup (some fd) size (elim (table_created true o) as (λ _. Cache) [
        | none ↦ record { table = o; generations = gs }
        | some t ↦ record { table = some (fill fd p (gs (slot fd)) t); generations = gs }
      ])
        ≡ some p
  unfolding table_created
  lookup-created none even = lookup-filled (λ i. no_entry) (omega arith)
  lookup-created (some t) even = lookup-filled t (even t refl)

-- A path just stored is found, if it is not an excluded path, is shorter than 4096 bytes and than the
-- caller's buffer, if the table exists or its mapping succeeds, and if no other write of the slot
-- is under way.
pub lookup-store :
    (c : Cache) (fd : ℕ) (p : Bytes) (size : ℕ)
    → is_excluded_path (some p) ≡ false
    → length p < max_path
    → length p < size
    → ((t : ℕ → Entry) → c.table ≡ some t → (t (slot fd)).sequence % 2 ≡ 0)
    → lookup (some fd) size (store true (some fd) p c) ≡ some p
unfolding store store_at
lookup-store c fd p size ok short fits even =
    let good : (is_excluded_path (some p) || leb max_path (length p)) ≡ false = ground arith in
    rw (good, store_at) (lookup-created fd p size c.generations fits c.table even)
