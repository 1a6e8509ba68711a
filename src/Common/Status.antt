-- ===== src/Common/Status.antt =====
-- src/common/chaos_status.h: the record of what a reload rejected.
mod Tests
use Prim.Native.Nat.{bit_xor}
use macstab_chaos_testing_li.Prelude.{
  ℕ, zero, suc, ◌*◌, ◌%◌, ◌^◌, ◌≤◌, ◌<◌, ◌≡◌, refl, Bool, true, false, not, ◌&&◌, ◌||◌, Option,
  none, some, [], ◌∷◌, arith, Bytes, ◌==◌, ltb, if◌then◌else◌, length, AllOf,
}

-- `CHAOS_STATUS_REASON_*`
pub data Reason : Type 0 where
  invalid too_many too_large unreadable nul unsupported : Reason

-- `chaos_status_error_t`
pub record StatusError : Type 0 where
  pub line : ℕ
  pub reason : Option Reason
  pub text : Bytes

-- `chaos_status_clear`
abbrev pub clear : StatusError
clear = record { line = 0; reason = none; text = [] }

-- the byte that the report shows
abbrev pub shown : ℕ → ℕ
shown c = if ltb c 0x20 || c == 0x7f then b' ' else c

-- the loop of `chaos_status_keep_line`, with the room that is left
unfoldable pub kept_text : ℕ → Bytes → Bytes
kept_text zero line = []
kept_text (suc room) [] = []
kept_text (suc room) (c ∷ line) =
    let rest = kept_text room line in if c == b'\n' then [] else shown c ∷ rest

-- `chaos_status_keep_line`
unfoldable pub keep_line : ℕ → Bytes → StatusError
unfolding kept_text
keep_line number line = record { line = number; reason = none; text = kept_text 200 line }

-- `chaos_status_reject`
abbrev pub reject : StatusError → Reason → StatusError
reject e why = record e { reason = some why }

-- A byte that cannot break a line of the report.
abbrev pub printable : ℕ → Bool
printable c = not (ltb c 0x20) && not (c == 0x7f)

kept_text-printable :
    (room : ℕ) (line : Bytes)
    → AllOf printable (kept_text room line) × (length (kept_text room line) ≤ room)
unfolding kept_text
kept_text-printable zero line = (tt, omega arith)
kept_text-printable (suc room) [] = (tt, omega arith)
kept_text-printable (suc room) (c ∷ line) = ground (arith, kept_text-printable room line)

-- Whatever a line holds, the text kept of it has at most 200 bytes, none of them a control byte, so
-- it stays on one line of the status and hits files.
keep_line-printable :
    (number : ℕ) (line : Bytes)
    → let e = keep_line number line in
      AllOf printable e.text × (length e.text ≤ 200) × (e.line ≡ number)
unfolding keep_line
keep_line-printable number line = let r = kept_text-printable 200 line in (r.0, r.1, refl)

-- the loop of `chaos_config_content_hash`
unfoldable pub hash_from : ℕ → Bytes → ℕ
hash_from hash [] = hash
hash_from hash (c ∷ bytes) = hash_from (bit_xor hash c * 1099511628211 % 2 ^ 64) bytes

-- `chaos_config_content_hash`
unfoldable pub content_hash : Bytes → ℕ
unfolding hash_from
content_hash bytes = hash_from 1469598103934665603 bytes
