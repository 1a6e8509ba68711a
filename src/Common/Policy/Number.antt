-- ===== src/Common/Policy/Number.antt =====
-- src/common/chaos_policy.h, `chaos_policy_parse_number`: plain decimals of 1 to 18 digits.
use native.Mathlib.Nat.{pow-suc, pow-le-pow_right}
use macstab_chaos_testing_li.Prelude.{
  ℕ, suc, ◌+◌, ◌-◌, ◌*◌, ◌%◌, ◌^◌, ◌≤◌, ◌<◌, ◌≡◌, refl, sym, ap, ◌∙◌, ◌↔◌, Bool, ◌&&◌, ◌||◌, true,
  Option, none, some, [], ◌∷◌, arith, Bytes, AllOf, length, ltb, leb, if◌then◌else◌,
}

abbrev pub is_digit : ℕ → Bool
is_digit c = leb b'0' c && leb c b'9'

-- The loop: `result` and `digits` are the loop's variables, and `uint64_t` wraps at 2 ^ 64.
number_from : Bytes → ℕ → ℕ → Option ℕ
number_from [] result digits = some result
number_from (c ∷ cs) result digits =
    if ltb c b'0' || ltb b'9' c || leb 18 digits
    then none
    else number_from cs ((result * 10 + (c - b'0')) % 2 ^ 64) (digits + 1)

unfoldable pub parse_number : Bytes → Option ℕ
unfolding number_from
parse_number [] = none
parse_number (c ∷ cs) = number_from (c ∷ cs) 0 0

-- The number that the digits spell behind `acc`, with no bound.
abbrev pub decimal : ℕ → Bytes → ℕ
decimal acc [] = acc
decimal acc (c ∷ cs) = decimal (acc * 10 + (c - b'0')) cs

-- One to eighteen digits and nothing else.
pub record IsNumeral (s : Bytes) : Type 0 where
  pub digits : AllOf is_digit s
  pub some_digit : 1 ≤ length s
  pub short : length s ≤ 18

ten_pow_step : (d r c : ℕ) → r < 10 ^ d → is_digit c ≡ true → r * 10 + (c - b'0') < 10 ^ suc d
ten_pow_step d r c h k = omega (arith, pow-suc 10 d, digit_le c k)
  where
    digit_le : (x : ℕ) → is_digit x ≡ true → x - b'0' ≤ 9
    digit_le x e = ground arith

ten_pow_le : (d : ℕ) → d ≤ 18 → 10 ^ d ≤ 10 ^ 18
ten_pow_le d h = pow-le-pow_right {n = 10} (omega arith) h

-- One round of the loop that does not refuse: the digit fits, and nothing wraps.
number_from_step :
    (c : ℕ) (cs : Bytes) (r d : ℕ) {v : ℕ}
    → r < 10 ^ d
    → d ≤ 18
    → number_from (c ∷ cs) r d ≡ some v
    → (is_digit c ≡ true) × (d < 18) × (number_from cs (r * 10 + (c - b'0')) (suc d) ≡ some v)
unfolding number_from
number_from_step c cs r d b k h = ground (arith, ten_pow_step d r c b, ten_pow_le (suc d))

number_from_sound :
    (s : Bytes) (r d : ℕ) {v : ℕ}
    → r < 10 ^ d
    → d ≤ 18
    → number_from s r d ≡ some v
    → AllOf is_digit s × (length s + d ≤ 18) × (v ≡ decimal r s) × (v < 10 ^ 18)
number_from_sound [] r d b k h = unfold number_from in ground (arith, ten_pow_le d k)
number_from_sound (c ∷ cs) r d {v} b k h =
    let (dig, room, rest) = number_from_step c cs r d b k h in
    let (all, len, val, bound) =
      number_from_sound cs (r * 10 + (c - b'0')) (suc d) (ten_pow_step d r c b dig) room rest in
    ((dig, all), omega arith, val, bound)

number_from_complete :
    (s : Bytes) (r d : ℕ)
    → r < 10 ^ d
    → length s + d ≤ 18
    → AllOf is_digit s
    → number_from s r d ≡ some (decimal r s)
unfolding number_from
number_from_complete [] r d b k h = refl
number_from_complete (c ∷ cs) r d b k (dig, h) =
    let next = ten_pow_step d r c b dig in
    ground (
      arith,
      next,
      ten_pow_le (suc d) (omega arith),
      number_from_complete cs (r * 10 + (c - b'0')) (suc d) next (omega arith) h,
    )

-- `parse_number` accepts exactly the texts of 1 to 18 decimal digits, and what it returns is the
-- number that they spell: no step of the `uint64_t` accumulation wraps.
pub parse_number_iff :
    (s : Bytes) (v : ℕ) → (parse_number s ≡ some v) ↔ (IsNumeral s × (v ≡ decimal 0 s))
unfolding parse_number
parse_number_iff [] v = (λ h. cc, λ h. absurd (omega (arith, h.0.some_digit)))
parse_number_iff (c ∷ cs) v = (
  λ h.
      let (all, len, val, _) = number_from_sound (c ∷ cs) 0 0 (omega arith) (omega arith) h in
      (record { digits = all; some_digit = omega arith; short = omega arith }, val),
  λ h.
      number_from_complete (c ∷ cs) 0 0 (omega arith) (omega (arith, h.0.short)) h.0.digits
      ∙ ap some (sym h.1),
)

-- Every number that is read is below 10 ^ 18, so it also fits an `int64_t`.
pub parse_number-lt : (s : Bytes) {v : ℕ} → parse_number s ≡ some v → v < 10 ^ 18
unfolding parse_number
parse_number-lt [] h = cc
parse_number-lt (c ∷ cs) h = (number_from_sound (c ∷ cs) 0 0 (omega arith) (omega arith) h).3
