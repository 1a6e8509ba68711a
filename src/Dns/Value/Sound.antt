-- ===== src/Dns/Value/Sound.antt =====
-- What the parsers of a value let through.
use mathlib.Core.Path.{subst}
use macstab_chaos_testing_li.Prelude.{
  ℕ, ◌≤◌, ◌<◌, ◌≡◌, ◌||◌, Option, none, some, arith, Bytes, ◌==◌, leb, length, Bool-cases,
  Option-cases, inl, inr,
}
use macstab_chaos_testing_li.Common.Policy.Probability.{
  Ratio, IsProbability, parse_probability, parse_probability-IsProbability,
}
use macstab_chaos_testing_li.Common.Libc.{Libc, split_last}
use macstab_chaos_testing_li.Common.RuleLine.{trim}
use macstab_chaos_testing_li.Dns.Value.{
  max_value, copy_text_value, with_text, parse_payload_probability, parse_limit,
}

pub copy_text_value_sound :
    (text : Bytes) (size : ℕ) {t : Bytes}
    → copy_text_value text size ≡ some t
    → (text ≡ t) × (0 < length text) × (length text < size)
unfolding copy_text_value
copy_text_value_sound text size {t = t} h =
    elim (Bool-cases (length text == 0 || leb size (length text))) [
      | inl bad ↦ absurd (ground (arith, rw (bad, copy_text_value) at h))
      | inr fits ↦
          let h' : some text ≡ some t = rw (fits, copy_text_value) at h in
          let q : text ≡ t = cc in (q, ground arith, ground arith)
    ]

same_pair :
    (a a' : Bytes) (p p' : Ratio)
    → ◌≡◌ {A = Option (Bytes × Ratio)} (some (a, p)) (some (a', p'))
    → (a ≡ a') × (p ≡ p')
same_pair a a' p p' h = (cc, cc)

with_text-IsProbability :
    (a b : Option Bytes) {payload : Bytes} {p : Ratio}
    → with_text a b ≡ some (payload, p)
    → IsProbability p
unfolding with_text
with_text-IsProbability none b h = cc
with_text-IsProbability (some a) none h = cc
with_text-IsProbability (some a) (some text) {payload = payload} {p = p} h =
    elim (Option-cases (parse_probability text)) [
      | inl missed ↦ absurd (ground (arith, rw (missed, with_text) at h))
      | inr (q, e) ↦
          let same = same_pair a payload q p (rw (e, with_text) at h) in
          subst IsProbability same.1 (parse_probability-IsProbability text e)
    ]

pub payload-IsProbability :
    (text : Bytes) {payload : Bytes} {p : Ratio}
    → parse_payload_probability text ≡ some (payload, p)
    → IsProbability p
unfolding parse_payload_probability
payload-IsProbability text {payload = payload} {p = p} h =
    elim (Option-cases (split_last b'@' text)) [
      | inl plain ↦ elim (Option-cases (copy_text_value text max_value)) [
        | inl missed ↦ absurd (ground (arith, rw (plain, missed, parse_payload_probability) at h))
        | inr (t, e) ↦
            let same =
              same_pair t payload (record { over = 1; under = 1 }) p
                (rw (plain, e, parse_payload_probability) at h) in
            subst IsProbability same.1 (omega arith, omega arith)
      ]
      | inr ((front, back), cut) ↦
          elim (Bool-cases (length front == 0 || leb max_value (length front))) [
            | inl bad ↦ absurd (ground (arith, rw (cut, bad, parse_payload_probability) at h))
            | inr fits ↦
                with_text-IsProbability (copy_text_value (trim front) max_value)
                  (copy_text_value back 64) (rw (cut, fits, parse_payload_probability) at h)
          ]
    ]

pub parse_limit_le :
    (libc : Libc) (text : Bytes) {n : ℕ}
    → parse_limit libc text ≡ some n
    → (0 < n) × (n ≤ 0xffff_ffff)
unfolding parse_limit
parse_limit_le libc text h = ground arith
