-- ===== src/Common/Sample.antt =====
-- A small C library for the runs.
use macstab_chaos_testing_li.Prelude.{
  pos, false, ℕ, ◌+◌, ◌-◌, ◌*◌, Option, none, some, [], ◌∷◌, Bytes, codes, bytes_eq, if◌then◌else◌,
}
use macstab_chaos_testing_li.Common.Policy.Number.{is_digit}
use macstab_chaos_testing_li.Common.Libc.{Libc}

-- decimal digits from the start of the text, which is what rule files hold
unfoldable pub digits_from : ℕ → Bytes → ℕ × Bytes
digits_from n [] = (n, [])
digits_from n (c ∷ s) =
    let rest = digits_from (n * 10 + (c - b'0')) s in if is_digit c then rest else (n, c ∷ s)

-- one address of each family
unfoldable pub one_address : Bytes → Bytes → Bytes → Option Bytes
one_address name bytes text = if bytes_eq text name then some bytes else none

abbrev pub home4 : Bytes
home4 = 10 ∷ 0 ∷ 0 ∷ 1 ∷ []

abbrev pub home6 : Bytes
home6 = 0 ∷ 0 ∷ 0 ∷ 0 ∷ 0 ∷ 0 ∷ 0 ∷ 0 ∷ 0 ∷ 0 ∷ 0 ∷ 0 ∷ 0 ∷ 0 ∷ 0 ∷ 1 ∷ []

abbrev pub sample_libc : Libc
sample_libc = record {
  strtoul = digits_from 0;
  strtol = λ s. (pos (digits_from 0 s).0, (digits_from 0 s).1);
  strtoll = λ s. (pos (digits_from 0 s).0, (digits_from 0 s).1, false);
  inet_pton4 = one_address (codes "10.0.0.1") home4;
  inet_pton6 = one_address (codes "::1") home6;
  inet_ntop4 = λ a. codes "10.0.0.1";
  inet_ntop6 = λ a. codes "::1";
}
