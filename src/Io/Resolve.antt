-- ===== src/Io/Resolve.antt =====
-- src/config/chaos_io_config.c: the rule prefixes resolved through links. `realpath` is the C
-- library's: the resolved name, or `none` for NULL.
use macstab_chaos_testing_li.Prelude.{
  ℕ, zero, suc, ◌+◌, Bool, true, false, not, ◌&&◌, ◌||◌, Option, none, some, List, [], ◌∷◌, ◌++◌,
  Bytes, bytes_eq, ◌==◌, ltb, leb, if◌then◌else◌, length,
}
use macstab_chaos_testing_li.Io.Path.{normalize_path}
use macstab_chaos_testing_li.Io.Rule.{Rule}
use macstab_chaos_testing_li.Io.Select.{is_absolute}

-- `PATH_MAX` and `CHAOS_IO_MAX_RULE_PATH`
abbrev pub path_max : ℕ
path_max = 4096

abbrev pub max_rule_path : ℕ
max_rule_path = 1024

-- `strrchr(head, '/')`: what stands before the last slash, and the text from it on
unfoldable pub last_slash : Bytes → Option (Bytes × Bytes)
last_slash [] = none
last_slash (c ∷ s) = elim (last_slash s) [
  | some (h, r) ↦ some (c ∷ h, r)
  | none ↦ if c == b'/' then some ([], c ∷ s) else none
]

module _ (realpath : Bytes → Option Bytes) where
  -- The loop over the ancestors, `rest` being the path from behind `head` on.
  ancestor_from : ℕ → Bytes → Bytes → Option Bytes
  ancestor_from zero head rest = none
  ancestor_from (suc n) head rest = elim (last_slash head) [
    | none ↦ none
    | some ([], r) ↦ none
    | some (c ∷ h, r) ↦ elim (realpath (c ∷ h)) [
      | some out ↦
          if leb path_max (length out + length (r ++ rest))
          then none
          else some (normalize_path (out ++ (r ++ rest)))
      | none ↦ ancestor_from n (c ∷ h) (r ++ rest)
    ]
  ]

  -- `chaos_io_config_resolve_path`: the resolved name and `*whole`
  unfoldable pub resolve_path : Bytes → Option Bytes × Bool
  unfolding ancestor_from last_slash
  resolve_path path = elim (realpath path) [
    | some out ↦ (some out, true)
    | none ↦ (ancestor_from (length path) path [], false)
  ]

  -- the resolution of a rule that differs from its prefix and fits the field
  abbrev pub kept_resolution : Bytes → Option Bytes → Option Bytes
  kept_resolution prefix none = none
  kept_resolution prefix (some out) =
      if not (bytes_eq out prefix) && ltb (length out) max_rule_path then some out else none

  -- `!found || !whole || strcmp(resolved, rule->path_prefix) != 0`
  abbrev pub through_link : Bytes → Option Bytes × Bool → Bool
  through_link prefix (none, whole) = true
  through_link prefix (some out, whole) = not whole || not (bytes_eq out prefix)

  -- one round of `chaos_io_config_resolve_rules`: the rule, and whether it sets `links`
  unfoldable pub resolve_rule : Rule → Rule × Bool
  unfolding resolve_path
  resolve_rule r =
      if not (is_absolute r.path_prefix)
      then (record r { resolved_prefix = none }, false)
      else (let prefix = normalize_path r.path_prefix in
          let found = resolve_path prefix in
          (
            record r { path_prefix = prefix; resolved_prefix = kept_resolution prefix found.0 },
            through_link prefix found,
          ))

  -- `chaos_io_config_resolve_rules`: the rules and `links`
  unfoldable pub resolve_rules : List Rule → List Rule × Bool
  unfolding resolve_rule
  resolve_rules [] = ([], false)
  resolve_rules (r ∷ rs) =
      let (r', linked) = resolve_rule r in
      let (rs', links) = resolve_rules rs in (r' ∷ rs', linked || links)

  -- the condition of `chaos_io_config_links_moved` on one rule
  unfoldable pub rule_moved : Rule → Bool
  unfolding resolve_path
  rule_moved r = is_absolute r.path_prefix && (elim (resolve_path r.path_prefix).0 [
    | none ↦ false
    | some out ↦ not (bytes_eq out (elim r.resolved_prefix [ none ↦ r.path_prefix | some p ↦ p ]))
  ])

  unfoldable pub any_moved : List Rule → Bool
  unfolding rule_moved
  any_moved [] = false
  any_moved (r ∷ rs) = rule_moved r || any_moved rs
