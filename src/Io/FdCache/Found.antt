-- ===== src/Io/FdCache/Found.antt =====
-- What a lookup in the cache of descriptor paths can find.
use mathlib.Core.Path.{subst}
use macstab_chaos_testing_li.Prelude.{
  ℕ, ◌+◌, ◌%◌, ◌<◌, ◌≡◌, ◌⊎◌, inl, inr, refl, sym, Bool, true, false, ◌||◌, Option, none, some,
  List, [], ◌∷◌, arith, Bytes, ◌==◌, leb, length, Bool-cases,
}
use macstab_chaos_testing_li.Io.Path.{is_excluded_path}
use macstab_chaos_testing_li.Io.FdCache.{
  max_path, Entry, Cache, empty, slot, table_created, fill, store_at, reset, read_entry, lookup,
  invalidate, Event, stored, invalidated, was_reset, happen, run,
}

-- The event puts the path into the cache for the descriptor.
abbrev pub Puts : ℕ → Bytes → Event → Type 0
Puts fd path (stored mapped (some f) p g) =
    (fd ≡ f) × (path ≡ p) × (is_excluded_path (some p) ≡ false) × (length p < max_path)
Puts fd path _ = ⊥

abbrev pub WasPut : ℕ → Bytes → List Event → Type 0
WasPut fd path [] = ⊥
WasPut fd path (e ∷ es) = Puts fd path e ⊎ WasPut fd path es

-- An entry that names a descriptor holds a path that was put there for it.
abbrev Named : List Event → Entry → Type 0
Named es e = (fd : ℕ) → e.fd_plus_one ≡ fd + 1 → WasPut fd e.path es

abbrev Justified : List Event → Option (ℕ → Entry) → Type 0
Justified es none = Unit {0}
Justified es (some t) = (i : ℕ) → Named es (t i)

later :
    (e : Event) (es : List Event) (o : Option (ℕ → Entry)) → Justified es o → Justified (e ∷ es) o
later e es none h = tt
later e es (some t) h = λ i fd k. inr (h i fd k)

table_created-Justified :
    (es : List Event) (mapped : Bool) (o : Option (ℕ → Entry))
    → Justified es o
    → Justified es (table_created mapped o)
unfolding table_created
table_created-Justified es mapped (some t) h = h
table_created-Justified es true none h = λ i fd k. absurd (omega (arith, k))
table_created-Justified es false none h = tt

fill-cases :
    (f : ℕ) (p : Bytes) (g : ℕ) (t : ℕ → Entry) (i : ℕ)
    → (fill f p g t i ≡ t i) ⊎ ((fill f p g t i).fd_plus_one ≡ f + 1) × ((fill f p g t i).path ≡ p)
unfolding fill
fill-cases f p g t i = elim (Bool-cases ((t (slot f)).sequence % 2 == 0)) [
  | inr odd ↦ inl (rw (odd, fill) refl)
  | inl even ↦ elim (Bool-cases (i == slot f)) [
    | inr other ↦ inl (rw (even, other, fill) refl)
    | inl here ↦ inr (rw (even, here, fill) (refl, refl))
  ]
]

module _ (es : List Event) (mapped : Bool) (f : ℕ) (p : Bytes) (g : ℕ) where
  abbrev now : Event
  now = stored mapped (some f) p g

  fill-Named :
      (t : ℕ → Entry)
      → is_excluded_path (some p) ≡ false
      → length p < max_path
      → ((i : ℕ) → Named es (t i))
      → (i : ℕ) → Named (now ∷ es) (fill f p g t i)
  fill-Named t ok short h i = elim (fill-cases f p g t i) [
    | inl same ↦ λ fd k. inr (subst (λ e. Named es e) (sym same) (h i) fd k)
    | inr (named, holds) ↦ λ fd k. inl (omega (arith, k, named), holds, ok, short)
  ]

  filled-Justified :
      (c : Cache) (o : Option (ℕ → Entry))
      → is_excluded_path (some p) ≡ false
      → length p < max_path
      → Justified es c.table
      → Justified es o
      → Justified
          (now ∷ es)
          (elim o as (λ _. Cache) [
            | none ↦ c
            | some t ↦ record c { table = some (fill f p g t) }
          ]).table
  filled-Justified c none ok short h k = later now es c.table h
  filled-Justified c (some t) ok short h k = fill-Named t ok short k

  store_at-Justified :
      (c : Cache)
      → Justified es c.table
      → Justified (now ∷ es) (store_at mapped (some f) p g c).table
  unfolding store_at
  store_at-Justified c h =
      elim (Bool-cases (is_excluded_path (some p) || leb max_path (length p))) [
        | inl bad ↦ rw (bad, store_at) (later now es c.table h)
        | inr good ↦
            rw (good, store_at)
              (filled-Justified c (table_created mapped c.table) (ground arith) (ground arith) h
                (table_created-Justified es mapped c.table h))
      ]

happen-Justified :
    (e : Event) (es : List Event) (c : Cache)
    → Justified es c.table
    → Justified (e ∷ es) (happen e c).table
unfolding happen store_at invalidate reset
happen-Justified (stored mapped none p g) es c h = later (stored mapped none p g) es c.table h
happen-Justified (stored mapped (some f) p g) es c h = store_at-Justified es mapped f p g c h
happen-Justified (invalidated none) es c h = later (invalidated none) es c.table h
happen-Justified (invalidated (some f)) es c h = later (invalidated (some f)) es c.table h
happen-Justified was_reset es c h = later was_reset es c.table h

run-Justified : (es : List Event) → Justified es (run es empty).table
unfolding run
run-Justified [] = tt
run-Justified (e ∷ es) = happen-Justified e es (run es empty) (run-Justified es)

read_entry-eq_some :
    (fd size g : ℕ) (e : Entry) {path : Bytes}
    → read_entry fd size g e ≡ some path
    → (e.fd_plus_one ≡ fd + 1) × (path ≡ e.path) × (length path < size)
unfolding read_entry
read_entry-eq_some fd size g e h = ground arith

lookup-WasPut_in :
    (es : List Event) (g : ℕ → ℕ) (o : Option (ℕ → Entry)) (fd size : ℕ) {path : Bytes}
    → Justified es o
    → lookup (some fd) size (record { table = o; generations = g }) ≡ some path
    → WasPut fd path es × (length path < size)
unfolding lookup
lookup-WasPut_in es g none fd size h e = absurd (ground arith)
lookup-WasPut_in es g (some t) fd size {path = path} h e = elim (Bool-cases (size == 0)) [
  | inl nothing ↦ absurd (ground arith)
  | inr room ↦
      let (named, holds, fits) =
        read_entry-eq_some fd size (g (slot fd)) (t (slot fd)) {path = path}
          (rw (room, lookup) at e) in
      (subst (λ p. WasPut fd p es) (sym holds) (h (slot fd) fd named), fits)
]

-- Whatever happened to the cache since the start, a path that a lookup finds was stored for this very
-- descriptor; it is not an excluded path, and it fits the caller's buffer.
pub lookup-WasPut :
    (es : List Event) (fd size : ℕ) {path : Bytes}
    → lookup (some fd) size (run es empty) ≡ some path
    → WasPut fd path es × (length path < size)
lookup-WasPut es fd size h =
    let c = run es empty in lookup-WasPut_in es c.generations c.table fd size (run-Justified es) h
