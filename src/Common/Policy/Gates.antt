-- ===== src/Common/Policy/Gates.antt =====
-- src/common/chaos_policy.h: the window and size gates of a hit.
use macstab_chaos_testing_li.Prelude.{
  ℕ, ◌-◌, ◌^◌, ◌≤◌, ◌<◌, ◌≡◌, ◌≢◌, ◌↔◌, Bool, true, false, not, ◌&&◌, ◌||◌, arith, ◌==◌, ltb, leb,
  both_of_and, refl, if◌then◌else◌,
}
use macstab_chaos_testing_li.Common.Policy.Word.{Policy}

-- `CHAOS_POLICY_NO_SIZE`
abbrev pub no_size : ℕ
no_size = 2 ^ 64 - 1

-- `chaos_policy_window_open`, with the reading of `chaos_clock_realtime_ms` as an argument.
unfoldable pub window_open : Policy → ℕ → Bool
window_open p now =
    if p.from_ms == 0 && p.until_ms == 0
    then true
    else (p.from_ms == 0 || leb p.from_ms now) && (p.until_ms == 0 || ltb now p.until_ms)

-- `chaos_policy_size_ok`
unfoldable pub size_ok : Policy → ℕ → Bool
size_ok p size =
    if not p.has_size_above && not p.has_size_below
    then true
    else if size == no_size
    then false
    else (not p.has_size_above || ltb p.size_above size)
      && (not p.has_size_below || ltb size p.size_below)

-- The time lies in the half-open window of the bounds that are given.
abbrev pub InWindow : Policy → ℕ → Type 0
InWindow p now = (p.from_ms ≢ 0 → p.from_ms ≤ now) × (p.until_ms ≢ 0 → now < p.until_ms)

-- The size lies strictly between the bounds that are given; a call without a byte count meets none.
abbrev pub SizeFits : Policy → ℕ → Type 0
SizeFits p size =
    (p.has_size_above ≡ true → (p.size_above < size) × (size ≢ no_size))
    × (p.has_size_below ≡ true → (size < p.size_below) × (size ≢ no_size))

open_of_window : (p : Policy) (now : ℕ) → InWindow p now → window_open p now ≡ true
unfolding window_open
open_of_window p now h = ground arith

window_of_open : (p : Policy) (now : ℕ) → window_open p now ≡ true → InWindow p now
unfolding window_open
window_of_open p now h = ground arith

ok_of_fits : (p : Policy) (size : ℕ) → SizeFits p size → size_ok p size ≡ true
unfolding size_ok
ok_of_fits p size h = ground arith

fits_of_ok : (p : Policy) (size : ℕ) → size_ok p size ≡ true → SizeFits p size
unfolding size_ok
fits_of_ok p size h = ground arith

-- Both gates pass exactly the times and sizes that the qualifiers name: the window is closed at its
-- start and open at its end, `@size` bounds are strict, and a call without a byte count passes no
-- `@size` gate.
pub gates_iff :
    (p : Policy) (now size : ℕ)
    → ((window_open p now && size_ok p size) ≡ true) ↔ (InWindow p now × SizeFits p size)
gates_iff p now size = (
  λ h.
      let (a, b) = both_of_and (window_open p now) (size_ok p size) h in
      (window_of_open p now a, fits_of_ok p size b),
  λ h. rw (open_of_window p now h.0, ok_of_fits p size h.1) refl,
)
