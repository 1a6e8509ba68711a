-- ===== src/Io/Rule.antt =====
-- src/config/chaos_io_config.h and src/config/chaos_io_config.c: one rule and the line that states it.
-- The length fields of a rule, each set by `strlen` beside its string, are left out; an errno value
-- is the name that stands for it, since <errno.h> chooses the number.
pub mod Accepted
use macstab_chaos_testing_li.Prelude.{
  ℕ, zero, suc, Bool, true, false, not, ◌&&◌, ◌||◌, Option, none, some, List, [], ◌∷◌, reverse,
  Bytes, codes, bytes_eq, ◌==◌, ltb, leb, if◌then◌else◌, length,
}
use macstab_chaos_testing_li.Common.Policy.Word.{Policy, no_policy}
use macstab_chaos_testing_li.Common.Policy.Gates.{no_size}
use macstab_chaos_testing_li.Common.Policy.Probability.{Ratio, parse_probability}
use macstab_chaos_testing_li.Common.RuleLine.{
  trim, strip_comment, lookup_name, with_option, parse_latency,
}
use macstab_chaos_testing_li.Common.RuleFile.{Parsed, blank, parsed_rule, broken}

-- `chaos_io_operation_t`, less CHAOS_IO_OP_INVALID
pub data Operation : Type 0 where
  read write open_file close fsync fdatasync pread pwrite truncate allocate unlink rename_from
        rename_to :
      Operation

-- `chaos_io_effect_t`
pub data Effect : Type 0 where
  errno latency torn corrupt : Effect

-- The errno values that a rule can name.
pub data Errno : Type 0 where
  eio enospc edquot erofs eacces emfile enfile enoent : Errno

-- `chaos_io_rule_t`; `hit` is the number of the slot in the pool, `none` is NULL.
pub record Rule : Type 0 where
  pub path_prefix : Bytes
  pub operation : Operation
  pub effect : Effect
  pub errnum : Option Errno
  pub probability : Ratio
  pub latency_ms : ℕ
  pub policy : Policy
  pub call_size : ℕ
  pub resolved_prefix : Option Bytes
  pub hit : Option ℕ
  pub hit_generation : ℕ

abbrev pub operation_names : List (Bytes × Operation)
operation_names =
    (codes "read", read)
    ∷ (codes "write", write)
    ∷ (codes "open", open_file)
    ∷ (codes "close", close)
    ∷ (codes "fsync", fsync)
    ∷ (codes "fdatasync", fdatasync)
    ∷ (codes "pread", pread)
    ∷ (codes "pwrite", pwrite)
    ∷ (codes "truncate", truncate)
    ∷ (codes "allocate", allocate)
    ∷ (codes "unlink", unlink)
    ∷ (codes "rename_from", rename_from)
    ∷ (codes "rename_to", rename_to)
    ∷ []

-- `chaos_io_parse_operation`
unfoldable pub parse_operation : Bytes → Option Operation
unfolding lookup_name
parse_operation text = lookup_name operation_names text

abbrev pub errno_names : List (Bytes × Errno)
errno_names =
    (codes "EIO", eio)
    ∷ (codes "ENOSPC", enospc)
    ∷ (codes "EDQUOT", edquot)
    ∷ (codes "EROFS", erofs)
    ∷ (codes "EACCES", eacces)
    ∷ (codes "EMFILE", emfile)
    ∷ (codes "ENFILE", enfile)
    ∷ (codes "ENOENT", enoent)
    ∷ []

-- `chaos_io_parse_errno_name`
unfoldable pub parse_errno_name : Bytes → Option Errno
unfolding lookup_name
parse_errno_name text = lookup_name errno_names text

-- `chaos_io_parse_probability`
unfoldable pub parse_io_probability : Bytes → Option Ratio
parse_io_probability text = parse_probability text

-- `chaos_io_effect_allowed`
unfoldable pub effect_allowed : Operation → Effect → Bool
effect_allowed op errno = true
effect_allowed op latency = true
effect_allowed write torn = true
effect_allowed pwrite torn = true
effect_allowed op torn = false
effect_allowed read corrupt = true
effect_allowed pread corrupt = true
effect_allowed op corrupt = false

-- The tokenizer of `chaos_io_config_parse_line`, with the number of fields still to begin: it cuts at
-- a colon while there is one.
pub cons_head : ℕ → List Bytes → List Bytes
cons_head c [] = (c ∷ []) ∷ []
cons_head c (w ∷ ws) = (c ∷ w) ∷ ws

pub cut_fields : ℕ → Bytes → List Bytes
cut_fields n [] = [] ∷ []
cut_fields zero (c ∷ s) = (c ∷ s) ∷ []
cut_fields (suc n) (c ∷ s) = elim (c == b':') [
  | true ↦ [] ∷ cut_fields n s
  | false ↦ cons_head c (cut_fields (suc n) s)
]

-- What `memset`, `memcpy` and the operation field leave in the rule.
abbrev pub bare_rule : Bytes → Operation → Rule
bare_rule path op = record {
  path_prefix = path;
  operation = op;
  effect = errno;
  errnum = none;
  probability = record { over = 0; under = 1 };
  latency_ms = 0;
  policy = no_policy;
  call_size = 0;
  resolved_prefix = none;
  hit = none;
  hit_generation = 0;
}

-- `if (!chaos_io_effect_allowed(…)) return -1;`
allowed_only : Option Rule → Option Rule
allowed_only none = none
allowed_only (some r) = if effect_allowed r.operation r.effect then some r else none

as_parsed : Option Rule → Parsed Rule
as_parsed none = broken
as_parsed (some r) = parsed_rule r

-- `strtoul` with base 10: the number, and the text from `*end` on.
module _ (strtoul : Bytes → ℕ × Bytes) where
  -- the branches on the third field
  parse_effect : Rule → Bytes → Bytes → Option Rule
  parse_effect rule name parameter = elim (parse_errno_name name) [
    | some e ↦
        with_option (parse_io_probability parameter)
          (λ p. record rule { effect = errno; errnum = some e; probability = p })
    | none ↦
        if bytes_eq name (codes "LATENCY")
        then with_option (parse_latency strtoul parameter)
            (λ ms. record rule { effect = latency; latency_ms = ms })
        else if bytes_eq name (codes "TORN")
        then with_option (parse_io_probability parameter)
            (λ p. record rule { effect = torn; probability = p })
        else if bytes_eq name (codes "CORRUPT")
        then with_option (parse_io_probability parameter)
            (λ p. record rule { effect = corrupt; probability = p })
        else none
  ]

  -- what follows the trimming of the four fields
  parse_fields : Bytes → Bytes → Bytes → Bytes → Option Rule
  parse_fields path op name parameter =
      if bytes_eq path [] || bytes_eq op [] || bytes_eq name [] || bytes_eq parameter []
      then none
      else if leb 1024 (length path)
      then none
      else elim (parse_operation op) [
        | none ↦ none
        | some o ↦ allowed_only (parse_effect (bare_rule path o) name parameter)
      ]

  four_fields : List Bytes → Option Rule
  four_fields (a ∷ b ∷ c ∷ d ∷ []) = parse_fields (trim a) (trim b) (trim c) (trim d)
  four_fields _ = none

  unfoldable pub parse_line : Bytes → Parsed Rule
  unfolding parse_effect allowed_only parse_fields four_fields as_parsed with_option cut_fields
      cons_head trim strip_comment
  parse_line line = elim (trim (strip_comment line)) [
    | [] ↦ blank
    | c ∷ s ↦ as_parsed (four_fields (cut_fields 3 (c ∷ s)))
  ]
