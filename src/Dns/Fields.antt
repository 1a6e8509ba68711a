-- ===== src/Dns/Fields.antt =====
-- src/dns/chaos_dns_config.c: how a rule line splits into its three fields.
use macstab_chaos_testing_li.Prelude.{
  Option, none, some, [], ◌∷◌, ◌++◌, Bytes, codes, strip_prefix, ◌==◌, if◌then◌else◌,
}
use macstab_chaos_testing_li.Common.Libc.{split_first}
use macstab_chaos_testing_li.Common.RuleLine.{trim}

-- where the selector of a line ends: what stands before the colon, and behind it
unfoldable pub after : Bytes → Option (Bytes × Bytes) → Option (Bytes × Bytes)
after scheme none = none
after scheme (some (selector, rest)) = some (scheme ++ selector, rest)

-- a colon has to follow the bracket
unfoldable pub bracketed : Option (Bytes × Bytes) → Option (Bytes × Bytes)
bracketed none = none
bracketed (some (host, [])) = none
bracketed (some (host, c ∷ rest)) =
    if c == b':' then some (codes "rdns://[" ++ (host ++ (b']' ∷ [])), rest) else none

unfoldable pub cut_selector : Bytes → Option (Bytes × Bytes)
unfolding after bracketed split_first
cut_selector line = elim (strip_prefix (codes "*:") line) [
  | some rest ↦ some (codes "*", rest)
  | none ↦ elim (strip_prefix (codes "dns://") line) [
    | some s ↦ after (codes "dns://") (split_first b':' s)
    | none ↦ elim (strip_prefix (codes "rdns://[") line) [
      | some s ↦ bracketed (split_first b']' s)
      | none ↦ elim (strip_prefix (codes "rdns://") line) [
        | some s ↦ after (codes "rdns://") (split_first b':' s)
        | none ↦ none
      ]
    ]
  ]
]

-- `chaos_dns_split_rule_fields`
unfoldable pub split_rule_fields : Bytes → Option (Bytes × Bytes × Bytes)
unfolding cut_selector split_first trim
split_rule_fields line = elim (cut_selector line) [
  | none ↦ none
  | some (selector, rest) ↦ elim (split_first b':' rest) [
    | none ↦ none
    | some (effect, value) ↦ some (trim selector, trim effect, trim value)
  ]
]
