-- ===== src/Common/RuleLine.antt =====
-- What the rule parsers of the libraries have in common, each with its own static copy; the copy that
-- is modelled is the one of src/config/chaos_io_config.c.
use macstab_chaos_testing_li.Prelude.{
  ℕ, ◌≤◌, ◌≡◌, refl, not, ◌||◌, Option, none, some, List, [], ◌∷◌, reverse, arith, Bytes, bytes_eq,
  ◌==◌, ltb, if◌then◌else◌, length,
}
use macstab_chaos_testing_li.Common.Policy.Probability.{skip_blank}

-- `chaos_io_trim`
unfoldable pub trim : Bytes → Bytes
unfolding skip_blank
trim text = reverse (skip_blank (reverse (skip_blank text)))

-- `chaos_io_strip_comment`
unfoldable pub strip_comment : Bytes → Bytes
strip_comment [] = []
strip_comment (c ∷ s) = if c == b'#' then [] else c ∷ strip_comment s

-- the first entry of a table whose name the text is
unfoldable pub lookup_name {ℓ} : {A : Type ℓ} → List (Bytes × A) → Bytes → Option A
lookup_name [] text = none
lookup_name ((name, a) ∷ names) text = if bytes_eq text name then some a else lookup_name names text

unfoldable pub with_option {ℓ} : {A B : Type ℓ} → Option A → (A → B) → Option B
with_option none f = none
with_option (some a) f = some (f a)

pub with_option-eq_some {ℓ} :
    {A B : Type ℓ} (o : Option A) (f : A → B) {b : B}
    → with_option o f ≡ some b
    → (a : A) × (o ≡ some a) × (b ≡ f a)
unfolding with_option
with_option-eq_some none f h = cc
with_option-eq_some (some a) f h = (a, refl, cc)

-- `strtoul` with base 10: the number, and the text from `*end` on.
module _ (strtoul : Bytes → ℕ × Bytes) where
  -- `chaos_io_parse_latency`
  unfoldable pub parse_latency : Bytes → Option ℕ
  unfolding trim
  parse_latency text =
      let (value, rest) = strtoul text in
      if length rest == length text || not (bytes_eq (trim rest) [])
      then none
      else if ltb 0xffff_ffff value
      then none
      else some value

  pub parse_latency_le : (text : Bytes) {v : ℕ} → parse_latency text ≡ some v → v ≤ 0xffff_ffff
  unfolding parse_latency
  parse_latency_le text h = ground arith
