-- ===== src/Io/Stamp.antt =====
-- src/config/chaos_io_config.c: the change stamp of the rule file. The fields of `struct stat` are
-- arguments, as the `uint64_t` that the code casts them to.
use Prim.Native.Nat.{bit_xor}
use macstab_chaos_testing_li.Prelude.{
  ℕ, ◌*◌, ◌%◌, ◌^◌, ◌≡◌, ◌≢◌, ◌||◌, Option, none, some, arith, ◌==◌, if◌then◌else◌, Bool-cases, inl,
  inr,
}
use macstab_chaos_testing_li.Common.Snapshot.{missing, reloading, unknown}

-- `chaos_io_config_normalize_mtime_hash`
unfoldable pub normalize_mtime_hash : ℕ → ℕ
normalize_mtime_hash value =
    if value == missing || value == reloading || value == unknown
    then bit_xor value 0x9e37_79b9_7f4a_7c15
    else value

-- the fields of `struct stat` that are hashed
pub record FileStat : Type 0 where
  pub sec : ℕ
  pub nsec : ℕ
  pub size : ℕ
  pub ino : ℕ
  pub dev : ℕ

-- `value ^= field; value *= 1099511628211;`
abbrev pub mix : ℕ → ℕ → ℕ
mix value field = bit_xor value field * 1099511628211 % 2 ^ 64

-- the fields, hashed in the code's order
abbrev pub fields_hash : FileStat → ℕ
fields_hash st =
    mix (mix (mix (mix (mix 1469598103934665603 st.sec) st.nsec) st.size) st.ino) st.dev

-- `chaos_io_config_hash_mtime`; `none` is NULL.
unfoldable pub hash_mtime : Option FileStat → ℕ
unfolding normalize_mtime_hash
hash_mtime none = missing
hash_mtime (some st) = normalize_mtime_hash (fields_hash st)

-- `chaos_io_config_observed_mtime`, with the result of `stat`, `none` where it fails
unfoldable pub observed_mtime : Option FileStat → ℕ
unfolding hash_mtime
observed_mtime none = missing
observed_mtime (some st) = hash_mtime (some st)

-- A stamp that the reload protocol does not give a meaning of its own.
abbrev pub IsPlain : ℕ → Type 0
IsPlain v = (v ≢ missing) × (v ≢ reloading) × (v ≢ unknown)

normalize-IsPlain : (v : ℕ) → IsPlain (normalize_mtime_hash v)
unfolding normalize_mtime_hash
normalize-IsPlain v = elim (Bool-cases (v == missing)) [
  | inl e ↦
      let at : v ≡ missing = ground arith in
      rw at ((λ k. ground arith), (λ k. ground arith), (λ k. ground arith))
  | inr a ↦ elim (Bool-cases (v == reloading)) [
    | inl e ↦
        let at : v ≡ reloading = ground arith in
        rw at ((λ k. ground arith), (λ k. ground arith), (λ k. ground arith))
    | inr b ↦ elim (Bool-cases (v == unknown)) [
      | inl e ↦
          let at : v ≡ unknown = ground arith in
          rw at ((λ k. ground arith), (λ k. ground arith), (λ k. ground arith))
      | inr c ↦
          rw (a, b, c, normalize_mtime_hash)
            ((λ k. ground arith), (λ k. ground arith), (λ k. ground arith))
    ]
  ]
]

-- The stamp of a file that is there, whatever its fields, is none of the three values that the
-- reload protocol uses for itself.
pub observed_mtime-IsPlain : (st : FileStat) → IsPlain (observed_mtime (some st))
unfolding observed_mtime hash_mtime
observed_mtime-IsPlain st = normalize-IsPlain (fields_hash st)
