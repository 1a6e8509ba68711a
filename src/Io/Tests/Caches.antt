-- ===== src/Io/Tests/Caches.antt =====
-- Runs and instances for the descriptor cache, the effects of a rule and the stamp of a file.
use macstab_chaos_testing_li.Prelude.{
  ℕ, ◌%◌, ◌^◌, ◌<◌, ◌≡◌, ◌≢◌, ◌⊎◌, refl, true, false, none, some, List, [], ◌∷◌, arith, Bytes,
  codes, bytes_eq, strip_prefix, length, get_elem?,
}
use macstab_chaos_testing_li.Common.Policy.Word.{no_policy}
use macstab_chaos_testing_li.Io.Path.{is_excluded_path}
use macstab_chaos_testing_li.Io.Rule.{write, Rule, bare_rule}
use macstab_chaos_testing_li.Io.Stamp.{FileStat, observed_mtime, IsPlain, observed_mtime-IsPlain}
use macstab_chaos_testing_li.Io.Actions.{corrupt_buffer_sample, fire_rule, should_trigger}
use macstab_chaos_testing_li.Io.Actions.Effects.{
  Lets, corrupt_buffer_sample-one_byte, should_trigger_gated,
}
use macstab_chaos_testing_li.Io.FdCache.{
  empty, slot, store_at, store, lookup, Event, stored, invalidated, run,
}
use macstab_chaos_testing_li.Io.FdCache.Found.{WasPut, lookup-WasPut}
use macstab_chaos_testing_li.Io.FdCache.Stale.{bumps, store_at-outdated, lookup-store}

abbrev data_file : Bytes
data_file = codes "/a"

abbrev history : List Event
history = stored true (some 5) data_file 0 ∷ invalidated (some 6) ∷ []

found : lookup (some 5) 9 (run history empty) ≡ some data_file
unfolding lookup run is_excluded_path strip_prefix bytes_eq
found = refl

lookup-WasPut_example : WasPut 5 data_file history × (length data_file < 9)
lookup-WasPut_example = lookup-WasPut history 5 9 found

abbrev closed : List Event
closed = invalidated (some 37) ∷ []

closed_lo : 0 < bumps (slot 5) closed
unfolding bumps
closed_lo = omega arith

closed_hi : bumps (slot 5) closed < 2 ^ 32
unfolding bumps
closed_hi = omega arith

store_at-outdated_example :
    (lookup
        (some 5)
        9
        (store_at true (some 5) data_file (empty.generations (slot 5)) (run closed empty))
      ≡ none)
    ⊎ (lookup
          (some 5)
          9
          (store_at true (some 5) data_file (empty.generations (slot 5)) (run closed empty))
        ≡ lookup (some 5) 9 (run closed empty))
store_at-outdated_example =
    store_at-outdated true 5 data_file empty closed 9 (omega arith) closed_lo closed_hi

not_excluded : is_excluded_path (some data_file) ≡ false
unfolding is_excluded_path strip_prefix bytes_eq
not_excluded = refl

lookup-store_example : lookup (some 5) 9 (store true (some 5) data_file empty) ≡ some data_file
lookup-store_example =
    lookup-store empty 5 data_file 9 not_excluded (omega arith) (omega arith) (λ t e. cc)

abbrev read_bytes : Bytes
read_bytes = 7 ∷ 8 ∷ []

corrupted : corrupt_buffer_sample read_bytes 3 1 ≡ 7 ∷ 10 ∷ []
unfolding corrupt_buffer_sample
corrupted = refl

corrupt_buffer_sample-one_byte_example :
    (length (corrupt_buffer_sample read_bytes 3 1) ≡ length read_bytes)
    × (3 % length read_bytes < length read_bytes)
    × ((j : ℕ)
        → 3 % length read_bytes ≢ j
        → get_elem? (corrupt_buffer_sample read_bytes 3 1) j ≡ get_elem? read_bytes j)
    × ((c : ℕ)
        → get_elem? read_bytes (3 % length read_bytes) ≡ some c
        → (d : ℕ) × (get_elem? (corrupt_buffer_sample read_bytes 3 1) (3 % length read_bytes)
            ≡ some d)
          × (d ≢ c)
          × (c < 256 → d < 256))
    × (corrupt_buffer_sample (corrupt_buffer_sample read_bytes 3 1) 3 1 ≡ read_bytes)
corrupt_buffer_sample-one_byte_example = corrupt_buffer_sample-one_byte 7 (8 ∷ []) 3 1

abbrev early : Rule
early = record (bare_rule data_file write) { policy = record no_policy { from_ms = 100 } }

should_trigger_gated_example :
    (Lets early 50 0 × (should_trigger early 50 0 [] ≡ fire_rule early []))
    ⊎ (¬ Lets early 50 0 × (should_trigger early 50 0 [] ≡ (false, [])))
should_trigger_gated_example = should_trigger_gated early 50 0 []

abbrev a_stat : FileStat
a_stat = record { sec = 1; nsec = 2; size = 3; ino = 4; dev = 5 }

observed_mtime-IsPlain_example : IsPlain (observed_mtime (some a_stat))
observed_mtime-IsPlain_example = observed_mtime-IsPlain a_stat
