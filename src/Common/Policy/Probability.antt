-- ===== src/Common/Policy/Probability.antt =====
-- src/common/chaos_policy.h, `chaos_policy_parse_probability`. The `double` that the C code computes
-- is the quotient of two numbers, both of which it holds exactly; the model keeps the two numbers,
-- and so leaves out the rounding of the one division.
use native.Mathlib.Nat.{pow-suc, pow-le-pow_right}
use macstab_chaos_testing_li.Prelude.{
  ℕ, suc, ◌+◌, ◌-◌, ◌*◌, ◌%◌, ◌^◌, ◌≤◌, ◌<◌, ◌≡◌, refl, sym, ap, Bool, true, false, not, ◌&&◌, ◌||◌,
  Option, none, some, [], ◌∷◌, ◌++◌, arith, Bytes, codes, ◌==◌, ltb, if◌then◌else◌, length, AllOf,
  Bool-cases, inl, inr,
}
use macstab_chaos_testing_li.Common.Policy.Number.{is_digit, decimal}

-- `over / under`
pub record Ratio : Type 0 where
  pub over : ℕ
  pub under : ℕ

abbrev pub blank_byte : ℕ → Bool
blank_byte c = c == b' ' || c == b'\t' || c == b'\r' || c == b'\n'

unfoldable pub skip_blank : Bytes → Bytes
skip_blank [] = []
skip_blank (c ∷ s) = if blank_byte c then skip_blank s else c ∷ s

-- The loop over the decimals: `decimals`, `scale`, and the text behind them; `none` is its `return`.
-- Decimals from the sixteenth on are read and dropped.
decimals_from : Bool → Bytes → ℕ → ℕ → Option (Ratio × Bytes)
decimals_from one [] decimals scale = some (record { over = decimals; under = scale }, [])
decimals_from one (c ∷ s) decimals scale = elim (is_digit c) [
  | false ↦ some (record { over = decimals; under = scale }, c ∷ s)
  | true ↦ elim (one && not (c == b'0')) [
    | true ↦ none
    | false ↦
        decimals_from one s
          (if ltb scale (10 ^ 15) then (decimals * 10 + (c - b'0')) % 2 ^ 64 else decimals)
          (if ltb scale (10 ^ 15) then scale * 10 else scale)
  ]
]

-- the part behind the first digit: the fraction, if there is a point
fraction : Bool → Bytes → Option (Ratio × Bytes)
fraction one [] = some (record { over = 0; under = 1 }, [])
fraction one (p ∷ []) = if p == b'.' then none else some (record { over = 0; under = 1 }, p ∷ [])
fraction one (p ∷ c ∷ s) =
    if p == b'.'
    then if is_digit c then decimals_from one (c ∷ s) 0 1 else none
    else some (record { over = 0; under = 1 }, p ∷ c ∷ s)

-- what follows: blanks to the end, and the value
finish : Bool → Ratio × Bytes → Option Ratio
finish one (r, rest) = elim (skip_blank rest) [
  | [] ↦ some (if one then record { over = 1; under = 1 } else r)
  | c ∷ s ↦ none
]

finish? : Bool → Option (Ratio × Bytes) → Option Ratio
finish? one none = none
finish? one (some r) = finish one r

unfoldable pub parse_probability : Bytes → Option Ratio
unfolding fraction decimals_from finish finish? skip_blank
parse_probability [] = none
parse_probability (c ∷ s) =
    if c == b'0' || c == b'1' then finish? (c == b'1') (fraction (c == b'1') s) else none

-- A number between 0 and 1.
abbrev pub IsProbability : Ratio → Type 0
IsProbability r = (0 < r.under) × (r.over ≤ r.under)

-- One more decimal keeps the quotient below 1, and nothing wraps.
decimal_step :
    (c d k : ℕ) → is_digit c ≡ true → d < k → k < 10 ^ 15 → (d * 10 + (c - b'0')) % 2 ^ 64 < k * 10
decimal_step c d k dig h b = ground arith

decimals_from-lt :
    (one : Bool) (s : Bytes) (d k : ℕ) {r : Ratio} {rest : Bytes}
    → d < k
    → decimals_from one s d k ≡ some (r, rest)
    → r.over < r.under
unfolding decimals_from
decimals_from-lt one [] d k h e = ground arith
decimals_from-lt one (c ∷ s) d k h e = elim (Bool-cases (is_digit c)) [
  | inl dig ↦ elim (Bool-cases (one && not (c == b'0'))) [
    | inl bad ↦ absurd (ground arith)
    | inr good ↦ elim (Bool-cases (ltb k (10 ^ 15))) [
      | inl room ↦
          decimals_from-lt one s _ _ (decimal_step c d k dig h (ground arith))
            (rw (dig, good, room, decimals_from) at e)
      | inr full ↦ decimals_from-lt one s d k h (rw (dig, good, full, decimals_from) at e)
    ]
  ]
  | inr other ↦ ground arith
]

fraction-IsProbability :
    (one : Bool) (s : Bytes) {r : Ratio} {rest : Bytes}
    → fraction one s ≡ some (r, rest)
    → r.over < r.under
unfolding fraction
fraction-IsProbability one [] e = ground arith
fraction-IsProbability one (p ∷ []) e = ground arith
fraction-IsProbability one (p ∷ c ∷ s) {r = r} {rest = rest} e =
    let below = decimals_from-lt one (c ∷ s) 0 1 {r = r} {rest = rest} (omega arith) in
    ground (arith, below)

finish-IsProbability :
    (one : Bool) (o : Option (Ratio × Bytes)) {r : Ratio}
    → ((q : Ratio × Bytes) → o ≡ some q → q.0.over < q.0.under)
    → finish? one o ≡ some r
    → IsProbability r
unfolding finish? finish
finish-IsProbability one none h e = cc
finish-IsProbability true (some (q, rest)) h e = ground arith
finish-IsProbability false (some (q, rest)) h e = ground (arith, h (q, rest) refl)

-- Whatever text is accepted, the value read is a number from 0 to 1.
pub parse_probability-IsProbability :
    (s : Bytes) {r : Ratio} → parse_probability s ≡ some r → IsProbability r
unfolding parse_probability
parse_probability-IsProbability [] e = cc
parse_probability-IsProbability (c ∷ s) e =
    finish-IsProbability (c == b'1') (fraction (c == b'1') s)
      (λ q h. fraction-IsProbability (c == b'1') s h) (ground arith)

scale_room : (n l : ℕ) → n + suc l ≤ 15 → 10 ^ n < 10 ^ 15
scale_room n l h =
    omega (arith, pow-le-pow_right {n = 10} (omega arith) {i = n} {j = 14} (omega arith))

decimals_from_complete :
    (ds : Bytes) (d n : ℕ)
    → AllOf is_digit ds
    → d < 10 ^ n
    → n + length ds ≤ 15
    → decimals_from false ds d (10 ^ n)
      ≡ some (record { over = decimal d ds; under = 10 ^ (n + length ds) }, [])
unfolding decimals_from
decimals_from_complete [] d n h b k =
    ap (λ e. some (record { over = d; under = 10 ^ e }, [])) {x = n} {y = n + 0} (omega arith)
decimals_from_complete (c ∷ ds) d n (hc, h) b k =
    let room = scale_room n (length ds) (omega arith) in
    let lt : d * 10 + (c - b'0') < 10 ^ n * 10 = ground arith in
    let e1 : (d * 10 + (c - b'0')) % 2 ^ 64 ≡ d * 10 + (c - b'0') = ground arith in
    let e2 : ltb (10 ^ n) (10 ^ 15) ≡ true = ground arith in
    let e3 : 10 ^ suc n ≡ 10 ^ n * 10 = pow-suc 10 n in
    let e4 : n + suc (length ds) ≡ suc n + length ds = omega arith in
    let step = decimals_from_complete ds (d * 10 + (c - b'0')) (suc n) h (rw e3 lt) (omega arith) in
    rw (hc, e2, e1, sym e3, e4, decimals_from) step

-- `0.` and up to fifteen digits reads as exactly the fraction that it writes.
pub parse_probability-decimal :
    (c : ℕ) (ds : Bytes)
    → AllOf is_digit (c ∷ ds)
    → length (c ∷ ds) ≤ 15
    → parse_probability (codes "0." ++ (c ∷ ds))
      ≡ some (record { over = decimal 0 (c ∷ ds); under = 10 ^ length (c ∷ ds) })
unfolding parse_probability
parse_probability-decimal c ds h k =
    let e : 0 + length (c ∷ ds) ≡ length (c ∷ ds) = omega arith in
    let all = decimals_from_complete (c ∷ ds) 0 0 h (omega arith) (omega arith) in
    ground (arith, all, e)
