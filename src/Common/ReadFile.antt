-- ===== src/Common/ReadFile.antt =====
-- `chaos_net_config_read_file`: the rule file read into the buffer. What the kernel answers is an
-- argument; a call that a signal interrupts is repeated and not among the answers.
use macstab_chaos_testing_li.Prelude.{
  ℕ, ◌≡◌, refl, sym, ap, ◌∙◌, Bool, Option, none, some, List, [], ◌∷◌, ◌++◌, arith, Bytes, ◌==◌,
  if◌then◌else◌, length, Bool-cases, inl, inr,
}
use macstab_chaos_testing_li.Common.Snapshot.{
  ReadResult, bytes_read, transient, at_limit, no_access,
}

-- what `open` answers: a descriptor, EACCES or EPERM, or another error
pub data Opened : Type 0 where
  opened denied not_opened : Opened

-- what `read` answers: bytes, EISDIR, or another error; the end of the file is the end of the answers.
pub data ReadStep : Type 0 where
  chunk : Bytes → ReadStep
  is_directory read_error : ReadStep

-- what `fstat` answers: no stamp, or one with `chaos_clock_stamp_is_recent` of it
abbrev pub Stamped : Type 0
Stamped = Option (ℕ × Bool)

-- the check behind the loop
unfoldable pub stamp_checked : ℕ → Bytes → Stamped → ReadResult
stamp_checked expected got none = transient
stamp_checked expected got (some (stamp, recent)) =
    if stamp == expected then bytes_read got recent else transient

module _ (max : ℕ) (expected : ℕ) where
  -- the loop, with the bytes that are in the buffer
  unfoldable pub read_steps : Bytes → List ReadStep → Stamped → ReadResult
  unfolding stamp_checked
  read_steps got [] st = stamp_checked expected got st
  read_steps got (is_directory ∷ rest) st = no_access
  read_steps got (read_error ∷ rest) st = transient
  read_steps got (chunk bytes ∷ rest) st =
      let more = read_steps (got ++ bytes) rest st in
      if length (got ++ bytes) == max then at_limit else more

  -- `chaos_net_config_read_file` with `CHAOS_NET_MAX_CONFIG_BYTES` and `expected_stamp`
  unfoldable pub read_file : Opened → List ReadStep → Stamped → ReadResult
  unfolding read_steps
  read_file opened steps st = read_steps [] steps st
  read_file denied steps st = no_access
  read_file not_opened steps st = transient

-- the bytes of the answers
abbrev pub contents : List ReadStep → Bytes
contents [] = []
contents (chunk bytes ∷ rest) = bytes ++ contents rest
contents (_ ∷ rest) = contents rest

append_assoc : (a b c : Bytes) → (a ++ b) ++ c ≡ a ++ (b ++ c)
append_assoc [] b c = refl
append_assoc (x ∷ a) b c = ap (λ t. x ∷ t) (append_assoc a b c)

append_nil : (a : Bytes) → a ++ [] ≡ a
append_nil [] = refl
append_nil (x ∷ a) = ap (λ t. x ∷ t) (append_nil a)

stamp_checked_sound :
    (expected : ℕ) (got : Bytes) (st : Stamped) {b : Bytes} {f : Bool}
    → stamp_checked expected got st ≡ bytes_read b f
    → (got ≡ b) × (st ≡ some (expected, f))
unfolding stamp_checked
stamp_checked_sound expected got none h = cc
stamp_checked_sound expected got (some (stamp, recent)) {b = b} {f = f} h =
    elim (Bool-cases (stamp == expected)) [
      | inr other ↦ absurd (ground (arith, rw (other, stamp_checked) at h))
      | inl same ↦
          let h' : bytes_read got recent ≡ bytes_read b f = rw (same, stamp_checked) at h in
          let at : stamp ≡ expected = ground arith in
          let flag : recent ≡ f = cc in (cc, rw (at, flag) refl)
    ]

module _ (max expected : ℕ) where
  read_steps_sound :
      (got : Bytes) (steps : List ReadStep) (st : Stamped) {b : Bytes} {f : Bool}
      → read_steps max expected got steps st ≡ bytes_read b f
      → (b ≡ got ++ contents steps) × (st ≡ some (expected, f))
  unfolding read_steps
  read_steps_sound got [] st h =
      let (e, t) = stamp_checked_sound expected got st h in (sym (append_nil got ∙ e), t)
  read_steps_sound got (is_directory ∷ rest) st h = cc
  read_steps_sound got (read_error ∷ rest) st h = cc
  read_steps_sound got (chunk bytes ∷ rest) st h =
      elim (Bool-cases (length (got ++ bytes) == max)) [
        | inl full ↦ absurd (ground (arith, rw (full, read_steps) at h))
        | inr room ↦
            let (e, t) = read_steps_sound (got ++ bytes) rest st (rw (room, read_steps) at h) in
            (e ∙ append_assoc got bytes (contents rest), t)
      ]

  -- A file counts as read only whole: the bytes are all that `read` gave, in order, up to its end, and
  -- the descriptor's stamp, taken after the last of them, is the one expected.
  pub read_file_whole :
      (o : Opened) (steps : List ReadStep) (st : Stamped) {b : Bytes} {f : Bool}
      → read_file max expected o steps st ≡ bytes_read b f
      → (b ≡ contents steps) × (st ≡ some (expected, f))
  unfolding read_file
  read_file_whole opened steps st h = read_steps_sound [] steps st h
  read_file_whole denied steps st h = cc
  read_file_whole not_opened steps st h = cc
