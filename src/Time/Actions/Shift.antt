-- ===== src/Time/Actions/Shift.antt =====
-- src/time/chaos_time_actions.c: what `chaos_time_add_offset_ms` computes.
use native.Mathlib.Decide.{dec_lt}
use macstab_chaos_testing_li.Prelude.{
  ℕ, zero, suc, ◌+◌, ◌-◌, ◌*◌, ◌/◌, ◌%◌, ◌≤◌, ◌<◌, ℤ, pos, negsuc, ◌+ℤ◌, negate, difference, ◌≡◌,
  refl, ap, ◌∙◌, arith, true, false, leb, ◌==◌,
}
use macstab_chaos_testing_li.Time.Actions.{
  Timespec, second, carry, borrow, normalized, settle, add_offset_ms,
}

-- The time with a number of nanoseconds since the epoch.
abbrev pub from_total : ℕ → Timespec
from_total n = record { sec = pos (n / second); nsec = pos (n % second) }

-- A number of nanoseconds, moved by milliseconds and not below 0.
abbrev pub shifted : ℕ → ℤ → ℕ
shifted n (pos k) = n + k * 1_000_000
shifted n (negsuc k) = n - suc k * 1_000_000

from_total_parts :
    (a b : ℕ) → b < second → from_total (a * second + b) ≡ record { sec = pos a; nsec = pos b }
from_total_parts a b h =
    let p : (a * second + b) / second ≡ a = omega (arith, h) in
    let q : (a * second + b) % second ≡ b = omega (arith, h) in rw (p, q) refl

difference_pos : (m n : ℕ) → n ≤ m → difference m n ≡ pos (m - n)
difference_pos m n h = ground arith

difference_neg : (m n : ℕ) → m < n → difference m n ≡ negsuc (n - m - 1)
difference_neg m n h = ground arith

difference_step : (m n : ℕ) → difference m n +ℤ negate (pos 1) ≡ difference m (suc n)
difference_step m n = ground arith

-- a number of seconds beside one of nanoseconds
both : {a b c d : ℕ} → a ≡ b → c ≡ d → ◌≡◌ {A = ℤ × ℤ} (pos a, pos c) (pos b, pos d)
both e f = rw (e, f) refl

carry_stops : (fuel n : ℕ) (s : ℤ) → n < second → carry (suc fuel) s (pos n) ≡ (s, pos n)
unfolding carry
carry_stops fuel n s h = let no_more : leb second n ≡ false = ground arith in rw no_more refl

carry_more :
    (fuel s n : ℕ)
    → second ≤ n
    → carry (suc fuel) (pos s) (pos n) ≡ carry fuel (pos (s + 1)) (pos (n - second))
unfolding carry
carry_more fuel s n h = let more : leb second n ≡ true = ground arith in rw more refl

carry_stops_whole :
    (fuel s n : ℕ)
    → n < second
    → carry (suc fuel) (pos s) (pos n) ≡ (pos (s + n / second), pos (n % second))
carry_stops_whole fuel s n h = carry_stops fuel n (pos s) h ∙ both (omega arith) (omega arith)

-- Enough rounds carry every whole second.
carry_lem :
    (fuel s n : ℕ)
    → n < suc fuel * second
    → carry (suc fuel) (pos s) (pos n) ≡ (pos (s + n / second), pos (n % second))
carry_lem zero s n h = carry_stops_whole zero s n (omega arith)
carry_lem (suc fuel) s n h = elim (dec_lt n second) [
  | yes below ↦ carry_stops_whole (suc fuel) s n below
  | no above ↦
      carry_more (suc fuel) s n (omega arith)
      ∙ carry_lem fuel (s + 1) (n - second) (omega arith)
      ∙ both (omega arith) (omega arith)
]

borrow_stops : (fuel n : ℕ) (s : ℤ) → borrow (suc fuel) s (pos n) ≡ (s, pos n)
unfolding borrow
borrow_stops fuel n s = refl

-- One round pays a debt of less than a second.
borrow_once :
    (n : ℕ) (s : ℤ)
    → n < second
    → borrow 1 s (negsuc n) ≡ (s +ℤ negate (pos 1), pos (second - suc n))
unfolding borrow
borrow_once n s h = rw (difference_pos second (suc n) (omega arith)) refl

-- What the two loops make of a sum with less than two seconds of nanoseconds.
normalized_pos : (s n : ℕ) → normalized (pos s) (pos n) ≡ (pos (s + n / second), pos (n % second))
unfolding normalized
normalized_pos s n =
    let e = carry_lem (n / second) s n (omega arith) in
    rw e (borrow_stops (n % second / second) (n % second) (pos (s + n / second)))

normalized_small : (n : ℕ) (s : ℤ) → n < second → normalized s (pos n) ≡ (s, pos n)
unfolding normalized
normalized_small n s h = rw (carry_stops (n / second) n s h) (borrow_stops (n / second) n s)

normalized_neg :
    (n : ℕ) (s : ℤ)
    → suc n < second
    → normalized s (negsuc n) ≡ (s +ℤ negate (pos 1), pos (second - suc n))
unfolding normalized carry
normalized_neg n s h =
    let one_round : suc n / second ≡ 0 = omega arith in rw one_round (borrow_once n s (omega arith))

times :
    {a b c d : ℕ}
    → a ≡ b
    → c ≡ d
    → ◌≡◌ {A = Timespec}
        (record { sec = pos a; nsec = pos c })
        (record { sec = pos b; nsec = pos d })
times e f = rw (e, f) refl

nonzero : (k : ℕ) → (suc k == 0) ≡ false
nonzero k = ground arith

later :
    (s n k : ℕ)
    → add_offset_ms (record { sec = pos s; nsec = pos n }) (pos (suc k))
      ≡ settle (normalized (pos (s + suc k / 1000)) (pos (n + suc k % 1000 * 1_000_000)))
unfolding add_offset_ms
later s n k = rw (nonzero k) refl

forward : (n k : ℕ) → add_offset_ms (from_total n) (pos k) ≡ from_total (n + k * 1_000_000)
unfolding add_offset_ms
forward n zero = times (omega arith) (omega arith)
forward n (suc k) =
    later (n / second) (n % second) k
    ∙ ap settle (normalized_pos (n / second + suc k / 1000) (n % second + suc k % 1000 * 1_000_000))
    ∙ times (omega arith) (omega arith)

minus_pos : (m n : ℕ) → pos m +ℤ negate (pos n) ≡ difference m n
minus_pos m zero = ground arith
minus_pos m (suc n) = refl

earlier :
    (s n k : ℕ)
    → add_offset_ms (record { sec = pos s; nsec = pos n }) (negsuc k)
      ≡ settle (normalized (difference s (suc k / 1000)) (difference n (suc k % 1000 * 1_000_000)))
unfolding add_offset_ms
earlier s n k =
    rw (nonzero k, minus_pos s (suc k / 1000), minus_pos n (suc k % 1000 * 1_000_000)) refl

settle-difference :
    (s q n total : ℕ)
    → n < second
    → q * second + total ≡ s * second + n
    → settle (difference s q, pos n) ≡ from_total total
settle-difference s q n total h e =
    rw (difference_pos s q (omega (arith, h, e)))
      (times (omega (arith, h, e)) (omega (arith, h, e)))

settle_before : (s q n : ℕ) → s < q → settle (difference s q, pos n) ≡ from_total 0
settle_before s q n h = rw (difference_neg s q h) refl

epoch : {n : ℕ} → n ≡ 0 → from_total 0 ≡ from_total n
epoch e = rw e refl

-- Seconds and nanoseconds after a step back, before the clamp to the epoch.
settle_from :
    (s q n total : ℕ)
    → n < second
    → total ≡ s * second + n - q * second
    → settle (difference s q, pos n) ≡ from_total total
settle_from s q n total h e = elim (dec_lt s q) [
  | yes before ↦ settle_before s q n before ∙ epoch (omega (arith, h, e))
  | no after ↦ settle-difference s q n total h (omega (arith, h, e))
]

back : (n k : ℕ) → add_offset_ms (from_total n) (negsuc k) ≡ from_total (n - suc k * 1_000_000)
back n k =
    earlier (n / second) (n % second) k ∙ elim (dec_lt (n % second) (suc k % 1000 * 1_000_000)) [
      | yes owing ↦
          ap (λ z. settle (normalized (difference (n / second) (suc k / 1000)) z))
            (difference_neg (n % second) (suc k % 1000 * 1_000_000) owing)
          ∙ ap settle (
              normalized_neg (suc k % 1000 * 1_000_000 - n % second - 1)
                (difference (n / second) (suc k / 1000)) (omega arith))
          ∙ ap (λ z. settle (z, pos (second - suc (suc k % 1000 * 1_000_000 - n % second - 1))))
              (difference_step (n / second) (suc k / 1000))
          ∙ settle_from (n / second) (suc (suc k / 1000))
              (second - suc (suc k % 1000 * 1_000_000 - n % second - 1)) (n - suc k * 1_000_000)
              (omega arith) (omega arith)
      | no enough ↦
          ap (λ z. settle (normalized (difference (n / second) (suc k / 1000)) z))
            (difference_pos (n % second) (suc k % 1000 * 1_000_000) (omega arith))
          ∙ ap settle (
              normalized_small (n % second - suc k % 1000 * 1_000_000)
                (difference (n / second) (suc k / 1000)) (omega arith))
          ∙ settle_from (n / second) (suc k / 1000) (n % second - suc k % 1000 * 1_000_000)
              (n - suc k * 1_000_000) (omega arith) (omega arith)
    ]

-- A time moved by an offset is the time that many nanoseconds later, or earlier but not before the
-- epoch, with its nanoseconds below a second.
pub add_offset_ms_lem : (n : ℕ) (z : ℤ) → add_offset_ms (from_total n) z ≡ from_total (shifted n z)
add_offset_ms_lem n (pos k) = forward n k
add_offset_ms_lem n (negsuc k) = back n k

-- The milliseconds by which an offset moves a time back, 0 for one that moves it on.
abbrev pub moved_back : ℤ → ℕ
moved_back (pos k) = 0
moved_back (negsuc k) = suc k

shifted-negate :
    (n : ℕ) (z : ℤ) → moved_back z * 1_000_000 ≤ n → shifted (shifted n z) (negate z) ≡ n
shifted-negate n (pos zero) h = omega arith
shifted-negate n (pos (suc k)) h = omega arith
shifted-negate n (negsuc k) h = omega (arith, h)

-- Moving a time back by what it was moved gives the time again, if it was not moved back beyond
-- the epoch.
pub add_offset_ms-negate :
    (n : ℕ) (z : ℤ)
    → moved_back z * 1_000_000 ≤ n
    → add_offset_ms (add_offset_ms (from_total n) z) (negate z) ≡ from_total n
add_offset_ms-negate n z h =
    ap (λ t. add_offset_ms t (negate z)) (add_offset_ms_lem n z)
    ∙ add_offset_ms_lem (shifted n z) (negate z)
    ∙ ap from_total (shifted-negate n z h)
