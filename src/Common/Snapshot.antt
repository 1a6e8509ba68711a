-- ===== src/Common/Snapshot.antt =====
-- What the reloads of the libraries share: the sequence of a snapshot (src/common/chaos_hits.h), the
-- values of the cached stamp, and the outcomes of reading the rule file and of writing the status.
use macstab_chaos_testing_li.Prelude.{
  ℕ, ◌+◌, ◌%◌, ◌^◌, ◌≡◌, Bool, false, ◌&&◌, ◌||◌, Option, none, some, List, [], ◌∷◌, map, arith,
  Bytes, ◌==◌, if◌then◌else◌, get_elem?,
}
use macstab_chaos_testing_li.Common.Status.{StatusError, content_hash}
use macstab_chaos_testing_li.Common.Hits.Slot.{Slot}
use macstab_chaos_testing_li.Common.Hits.Pool.{Ruled}

-- `CHAOS_IO_MTIME_MISSING`, `CHAOS_IO_MTIME_RELOADING` and `CHAOS_IO_MTIME_UNKNOWN`, and the same three
-- values of the other libraries
abbrev pub missing : ℕ
missing = 0

abbrev pub reloading : ℕ
reloading = 0xffff_ffff_ffff_fffe

abbrev pub unknown : ℕ
unknown = 0xffff_ffff_ffff_ffff

-- the contents of a library's status file, such as /tmp/.chaos-io.status
pub data StatusFile : Type 0 where
  removed : StatusFile
  loaded : ℕ → StatusFile
  failed : StatusError → StatusFile

-- what `chaos_io_config_read_file` and its siblings return: the bytes with the flag that it sets, or -1, -2, -3
pub data ReadResult : Type 0 where
  bytes_read : Bytes → Bool → ReadResult
  transient at_limit no_access : ReadResult

-- What a load that publishes keeps of the file that it read, to know the file again: the hash of its
-- bytes, or 0 where the file is missing or cannot be read as a whole.
abbrev pub content_of : ℕ → ReadResult → ℕ
content_of observed (bytes_read bytes flag) = if observed == missing then 0 else content_hash bytes
content_of observed _ = 0

-- `chaos_snapshot_write_begin` and `chaos_snapshot_write_end`
unfoldable pub write_begin : ℕ → ℕ
write_begin sequence = if sequence % 2 == 0 then (sequence + 1) % 2 ^ 64 else sequence

unfoldable pub write_end : ℕ → ℕ
write_end sequence = if sequence % 2 == 0 then sequence else (sequence + 1) % 2 ^ 64

-- `chaos_snapshot_read_valid`, with the sequence that it reads now
unfoldable pub read_valid : ℕ → ℕ → Bool
read_valid sequence begin = begin % 2 == 0 && sequence == begin

-- A snapshot that was rewritten is complete again, and a copy begun before is not valid.
pub write_end-write_begin :
    (q : ℕ)
    → (write_end (write_begin q) % 2 ≡ 0) × (read_valid (write_end (write_begin q)) q ≡ false)
unfolding write_end write_begin read_valid
write_end-write_begin q = ground arith

-- A rewrite that begins twice has begun once.
pub write_begin_twice : (q : ℕ) → write_begin (write_begin q) ≡ write_begin q
unfolding write_begin
write_begin_twice q = ground arith

-- `memchr(buffer, '\0', size) != NULL`
unfoldable pub holds_nul : Bytes → Bool
holds_nul [] = false
holds_nul (c ∷ s) = c == 0 || holds_nul s

-- the generation of a rule's slot
abbrev pub slot_generation : Option ℕ → List Slot → ℕ
slot_generation none pool = 0
slot_generation (some i) pool = elim (get_elem? pool i) [ none ↦ 0 | some s ↦ s.generation ]

unfoldable pub pair_up : List (Option ℕ) → List Bytes → List Ruled
pair_up (h ∷ hs) (t ∷ ts) = (h, t) ∷ pair_up hs ts
pair_up _ _ = []

-- the texts of the parsed rules, and the rules themselves
abbrev pub texts_of {ℓ} : {R : Type ℓ} → List (R × Bytes) → List Bytes
texts_of rs = map (λ r. r.1) rs

abbrev pub rules_of {ℓ} : {R : Type ℓ} → List (R × Bytes) → List R
rules_of rs = map (λ r. r.0) rs
