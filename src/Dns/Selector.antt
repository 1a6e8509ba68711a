-- ===== src/Dns/Selector.antt =====
-- src/dns/chaos_dns_config.c: the selector of a rule, and the names and addresses that it covers.
-- `tolower` is that of the C locale.
pub mod Covers
use macstab_chaos_testing_li.Prelude.{
  ℕ, ◌+◌, ◌-◌, Bool, true, false, not, ◌&&◌, ◌||◌, Option, none, some, [], ◌∷◌, Bytes, codes,
  bytes_eq, starts_with, strip_prefix, ◌==◌, ltb, leb, if◌then◌else◌, length, get_elem?, take, drop,
}
use macstab_chaos_testing_li.Common.Libc.{Libc, split_first}

-- `chaos_dns_selector_kind_t`
pub data Kind : Type 0 where
  any exact suffix : Kind

-- `chaos_dns_selector_domain_t`, less CHAOS_DNS_SELECTOR_DOMAIN_INVALID
pub data Domain : Type 0 where
  lookup reverse_lookup : Domain

-- `chaos_dns_selector_t`
pub record Selector : Type 0 where
  pub kind : Kind
  pub domain : Domain
  pub selector_len : ℕ
  pub text : Bytes

abbrev pub lower : ℕ → ℕ
lower c = if leb b'A' c && leb c b'Z' then c + 32 else c

-- `chaos_dns_ascii_case_equal`
unfoldable pub case_equal : Bytes → Bytes → Bool
case_equal [] [] = true
case_equal [] (d ∷ t) = false
case_equal (c ∷ s) [] = false
case_equal (c ∷ s) (d ∷ t) = lower c == lower d && case_equal s t

-- `chaos_dns_ascii_case_ends_with`
unfoldable pub case_ends_with : Bytes → Bytes → Bool
unfolding case_equal
case_ends_with text tail =
    if ltb (length text) (length tail)
    then false
    else case_equal (drop (length text - length tail) text) tail

-- the byte at a place, `\0` behind the end
abbrev pub byte_at : Bytes → ℕ → ℕ
byte_at s i = elim (get_elem? s i) [ none ↦ 0 | some c ↦ c ]

-- `CHAOS_DNS_MAX_TEXT`
abbrev pub max_text : ℕ
max_text = 256

module _ (libc : Libc) where
  -- the address without its brackets, which INET6_ADDRSTRLEN bounds
  unfoldable pub reverse_source : Bytes → Option Bytes
  reverse_source body =
      let n = length body in
      if byte_at body 0 == b'['
      then if leb n 2 || not (byte_at body (n - 1) == b']')
        then none
        else if leb 46 (n - 2)
        then none
        else some (take (n - 2) (drop 1 body))
      else if leb 46 n
      then none
      else some body

  unfoldable pub reverse_address : Bytes → Option Bytes
  reverse_address source = elim (libc.inet_pton4 source) [
    | some address ↦ some (libc.inet_ntop4 address)
    | none ↦ elim (libc.inet_pton6 source) [
      | some address ↦ some (libc.inet_ntop6 address)
      | none ↦ none
    ]
  ]

  -- `chaos_dns_parse_reverse_selector_body`, with the length of the whole selector
  unfoldable pub parse_reverse_selector_body : ℕ → Bytes → Option Selector
  unfolding reverse_source reverse_address
  parse_reverse_selector_body len body =
      if length body == 0
      then none
      else if bytes_eq body (codes "*")
      then some (record { kind = any; domain = reverse_lookup; selector_len = len; text = [] })
      else elim (reverse_source body) [
        | none ↦ none
        | some source ↦ elim (reverse_address source) [
          | none ↦ none
          | some text ↦
              some
                (record { kind = exact; domain = reverse_lookup; selector_len = len; text = text })
        ]
      ]

  -- the name of a `dns://` selector, without `*.`
  unfoldable pub name_selector : ℕ → Kind → Bytes → Option Selector
  unfolding split_first
  name_selector len kind body =
      if length body == 0 || leb max_text (length body)
      then none
      else elim (split_first b'*' body) [
        | some _ ↦ none
        | none ↦ some (record { kind = kind; domain = lookup; selector_len = len; text = body })
      ]

  unfoldable pub parse_lookup_body : ℕ → Bytes → Option Selector
  unfolding name_selector
  parse_lookup_body len body =
      if length body == 0
      then none
      else if bytes_eq body (codes "*")
      then some (record { kind = any; domain = lookup; selector_len = len; text = [] })
      else elim (strip_prefix (codes "*.") body) [
        | some rest ↦ name_selector len suffix rest
        | none ↦ name_selector len exact body
      ]

  -- `chaos_dns_selector_parse`
  unfoldable pub selector_parse : Bytes → Option Selector
  unfolding parse_lookup_body parse_reverse_selector_body
  selector_parse text =
      if length text == 0
      then none
      else if bytes_eq text (codes "*")
      then some (record { kind = any; domain = lookup; selector_len = length text; text = [] })
      else elim (strip_prefix (codes "dns://") text) [
        | some body ↦ parse_lookup_body (length text) body
        | none ↦ elim (strip_prefix (codes "rdns://") text) [
          | some body ↦ parse_reverse_selector_body (length text) body
          | none ↦ none
        ]
      ]

-- `==` on `chaos_dns_selector_domain_t`
abbrev pub same_domain : Domain → Domain → Bool
same_domain lookup lookup = true
same_domain reverse_lookup reverse_lookup = true
same_domain _ _ = false

-- the part of `chaos_dns_selector_matches_domain` on a suffix
unfoldable pub suffix_matches : Bytes → Bytes → Bool
unfolding case_ends_with
suffix_matches text name =
    if leb (length name) (length text)
    then false
    else case_ends_with name text && byte_at name (length name - length text - 1) == b'.'

unfoldable pub kind_rank : Kind → Bytes → Domain → Bytes → Option ℕ
unfolding suffix_matches case_equal
kind_rank any text domain name = some 1
kind_rank exact text domain name = if case_equal text name then some 3 else none
kind_rank suffix text lookup name = if suffix_matches text name then some 2 else none
kind_rank suffix text reverse_lookup name = none

-- `chaos_dns_selector_matches_domain`: `*rank_out`, or `none` where it returns 0
unfoldable pub selector_matches : Selector → Domain → Bytes → Option ℕ
unfolding kind_rank
selector_matches s domain name =
    if length name == 0 || not (same_domain s.domain domain)
    then none
    else kind_rank s.kind s.text domain name
