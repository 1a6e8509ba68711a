-- ===== src/Io/FdCache.antt =====
-- src/config/chaos_io_fdcache.c: the paths of open descriptors. A call is one step: what two threads
-- do to one slot at once is left to the sequence numbers, which the steps keep as the code does. A
-- negative descriptor is `none`; an array of slots is a function of the slot's number.
pub mod Found
pub mod Stale
use macstab_chaos_testing_li.Prelude.{
  ℕ, zero, suc, ◌+◌, ◌-◌, ◌%◌, ◌^◌, ◌≤◌, ◌<◌, Bool, true, false, not, ◌&&◌, ◌||◌, Option, none,
  some, List, [], ◌∷◌, Bytes, ◌==◌, ltb, leb, if◌then◌else◌, length,
}
use macstab_chaos_testing_li.Io.Path.{is_excluded_path}

-- `CHAOS_IO_FD_CACHE_SLOTS`
abbrev pub slots : ℕ
slots = 32

-- `CHAOS_IO_MAX_PATH`
abbrev pub max_path : ℕ
max_path = 4096

-- `chaos_io_fd_cache_entry_t`
pub record Entry : Type 0 where
  pub sequence : ℕ
  pub generation : ℕ
  pub fd_plus_one : ℕ
  pub path : Bytes

-- `g_chaos_io_fd_cache`, `none` while it is NULL, and `g_chaos_io_fd_generation`
pub record Cache : Type 0 where
  pub table : Option (ℕ → Entry)
  pub generations : ℕ → ℕ

-- a mapping that the kernel has just made
abbrev pub no_entry : Entry
no_entry = record { sequence = 0; generation = 0; fd_plus_one = 0; path = [] }

-- the state of a process that has used no descriptor yet
abbrev pub empty : Cache
empty = record { table = none; generations = λ i. 0 }

-- `chaos_io_fdcache_slot`
abbrev pub slot : ℕ → ℕ
slot fd = fd % slots

-- `a[i] = v`
abbrev pub write_at {ℓ} : {A : Type ℓ} → ℕ → A → (ℕ → A) → ℕ → A
write_at i v a j = if j == i then v else a j

-- `chaos_io_fdcache_table(1)`, `mapped` being whether a mapping succeeds
unfoldable pub table_created : Bool → Option (ℕ → Entry) → Option (ℕ → Entry)
table_created mapped (some t) = some t
table_created mapped none = if mapped then some (λ i. no_entry) else none

-- what `chaos_io_fdcache_store_at` does to the table
unfoldable pub fill : ℕ → Bytes → ℕ → (ℕ → Entry) → ℕ → Entry
fill fd path generation t =
    let e = t (slot fd) in
    if e.sequence % 2 == 0
    then write_at (slot fd)
        (record {
          sequence = (e.sequence + 2) % 2 ^ 32;
          generation = generation;
          fd_plus_one = fd + 1;
          path = path;
        })
        t
    else t

-- `chaos_io_fdcache_store_at`
unfoldable pub store_at : Bool → Option ℕ → Bytes → ℕ → Cache → Cache
unfolding table_created fill
store_at mapped none path generation c = c
store_at mapped (some fd) path generation c =
    if is_excluded_path (some path) || leb max_path (length path)
    then c
    else elim (table_created mapped c.table) [
      | none ↦ c
      | some t ↦ record c { table = some (fill fd path generation t) }
    ]

-- `chaos_io_fdcache_reset`
unfoldable pub reset : Cache → Cache
reset c = record c {
  generations = λ i. if ltb i slots then (c.generations i + 1) % 2 ^ 32 else c.generations i;
}

-- the entry that `chaos_io_fdcache_lookup` reads, in a call that no writer interrupts
unfoldable pub read_entry : ℕ → ℕ → ℕ → Entry → Option Bytes
read_entry fd size generation e =
    if not (e.sequence % 2 == 0) || not (e.fd_plus_one == fd + 1)
    then none
    else if ltb size (length e.path + 1)
    then none
    else if not (e.generation == generation)
    then none
    else some e.path

-- `chaos_io_fdcache_lookup`: the path that it copies
unfoldable pub lookup : Option ℕ → ℕ → Cache → Option Bytes
unfolding read_entry
lookup none size c = none
lookup (some fd) size c = if size == 0 then none else elim c.table [
  | none ↦ none
  | some t ↦ read_entry fd size (c.generations (slot fd)) (t (slot fd))
]

-- `chaos_io_fdcache_store`
unfoldable pub store : Bool → Option ℕ → Bytes → Cache → Cache
unfolding store_at
store mapped none path c = c
store mapped (some fd) path c = store_at mapped (some fd) path (c.generations (slot fd)) c

-- `chaos_io_fdcache_invalidate`
unfoldable pub invalidate : Option ℕ → Cache → Cache
invalidate none c = c
invalidate (some fd) c = record c {
  generations = write_at (slot fd) ((c.generations (slot fd) + 1) % 2 ^ 32) c.generations;
}

-- What `chaos_io_fdcache_resolve` does once `readlink` has returned; `generation` was read before.
unfoldable pub resolve_link : Bool → ℕ → Option Bytes → ℕ → ℕ → Cache → Option Bytes × Cache
unfolding store_at
resolve_link mapped fd none size generation c = (none, c)
resolve_link mapped fd (some link) size generation c =
    if leb size (length link) || is_excluded_path (some link)
    then (none, c)
    else (some link, store_at mapped (some fd) link generation c)

-- `chaos_io_fdcache_resolve` where nothing happens during the `readlink`, whose result is `link`
unfoldable pub resolve : Bool → Option ℕ → Option Bytes → ℕ → Cache → Option Bytes × Cache
unfolding lookup resolve_link
resolve mapped none link size c = (none, c)
resolve mapped (some fd) link size c =
    if leb fd 2 || ltb size 2 then (none, c) else elim (lookup (some fd) size c) [
      | some path ↦ (some path, c)
      | none ↦ resolve_link mapped fd link size (c.generations (slot fd)) c
    ]

-- What can happen to the cache, in a sequence with the latest event first.
pub data Event : Type 0 where
  stored : Bool → Option ℕ → Bytes → ℕ → Event
  invalidated : Option ℕ → Event
  was_reset : Event

unfoldable pub happen : Event → Cache → Cache
unfolding store_at invalidate reset
happen (stored mapped fd path generation) c = store_at mapped fd path generation c
happen (invalidated fd) c = invalidate fd c
happen was_reset c = reset c

unfoldable pub run : List Event → Cache → Cache
unfolding happen
run [] c = c
run (e ∷ es) c = happen e (run es c)
