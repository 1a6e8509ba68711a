-- ===== src/Time/Selector.antt =====
-- src/time/chaos_time_config.c: the selector of a rule, and the calls that it covers. <time.h> chooses the
-- numbers of the clocks, and a clock id is the bits of its 32-bit number.
use macstab_chaos_testing_li.Prelude.{
  ℕ, word_bits, Bool, false, not, ◌&&◌, ◌||◌, Option, none, some, List, [], ◌∷◌, Bytes, codes,
  bytes_eq, strip_prefix, ◌==◌, leb, if◌then◌else◌, length,
}
use macstab_chaos_testing_li.Common.Libc.{Libc}
use macstab_chaos_testing_li.Common.RuleLine.{trim, lookup_name}

-- `chaos_time_operation_t`, less CHAOS_TIME_OP_INVALID
pub data Operation : Type 0 where
  clock_gettime nanosleep usleep : Operation

-- `chaos_time_selector_kind_t`
pub data Kind : Type 0 where
  any operation clock : Kind

-- the clocks that have a name
pub data Clock : Type 0 where
  realtime monotonic monotonic_raw realtime_coarse monotonic_coarse boottime tai process_cputime
        thread_cputime :
      Clock

-- `chaos_time_selector_t`; `none` is CHAOS_TIME_OP_INVALID.
pub record Selector : Type 0 where
  pub kind : Kind
  pub target : Option Operation
  pub clock_id : ℕ
  pub selector_len : ℕ
  pub text : Bytes

-- `==` on `chaos_time_operation_t`, by its enumerators' numbers
abbrev pub operation_number : Operation → ℕ
operation_number clock_gettime = 0
operation_number nanosleep = 1
operation_number usleep = 2

abbrev pub targets : Option Operation → Operation → Bool
targets none op = false
targets (some o) op = operation_number o == operation_number op

-- `CHAOS_TIME_MAX_TEXT`
abbrev pub max_text : ℕ
max_text = 128

abbrev pub clock_names : List (Bytes × Clock)
clock_names =
    (codes "realtime", realtime)
    ∷ (codes "monotonic", monotonic)
    ∷ (codes "monotonic_raw", monotonic_raw)
    ∷ (codes "realtime_coarse", realtime_coarse)
    ∷ (codes "monotonic_coarse", monotonic_coarse)
    ∷ (codes "boottime", boottime)
    ∷ (codes "tai", tai)
    ∷ (codes "process_cputime_id", process_cputime)
    ∷ (codes "thread_cputime_id", thread_cputime)
    ∷ []

module _ (libc : Libc) (clock_number : Clock → ℕ) where
  -- `chaos_time_parse_clock_id`
  unfoldable pub parse_clock_id : Bytes → Option ℕ
  unfolding lookup_name trim
  parse_clock_id text = if length text == 0 then none else elim (lookup_name clock_names text) [
    | some c ↦ some (clock_number c)
    | none ↦
        let (value, rest) = libc.strtol text in
        if length rest == length text || not (bytes_eq (trim rest) [])
        then none
        else some (word_bits 32 value)
  ]

  -- the branch on `clock_gettime/`
  unfoldable pub clock_selector : ℕ → Bytes → Option Selector
  unfolding parse_clock_id
  clock_selector len text = elim (parse_clock_id text) [
    | none ↦ none
    | some id ↦
        if leb max_text (length text)
        then none
        else some (record {
          kind = clock;
          target = some clock_gettime;
          clock_id = id;
          selector_len = len;
          text = text;
        })
  ]

  abbrev pub operation_selector : ℕ → Operation → Selector
  operation_selector len op = record {
    kind = operation;
    target = some op;
    clock_id = 0;
    selector_len = len;
    text = [];
  }

  -- `chaos_time_selector_parse`
  unfoldable pub selector_parse : Bytes → Option Selector
  unfolding clock_selector
  selector_parse text =
      let n = length text in
      if n == 0
      then none
      else if bytes_eq text (codes "*")
      then some (record { kind = any; target = none; clock_id = 0; selector_len = n; text = [] })
      else if bytes_eq text (codes "clock_gettime")
      then some (operation_selector n clock_gettime)
      else elim (strip_prefix (codes "clock_gettime/") text) [
        | some id ↦ clock_selector n id
        | none ↦
            if bytes_eq text (codes "nanosleep")
            then some (operation_selector n nanosleep)
            else if bytes_eq text (codes "usleep")
            then some (operation_selector n usleep)
            else none
      ]

unfoldable pub kind_rank : Kind → Selector → Operation → ℕ → Option ℕ
kind_rank any s op id = some 1
kind_rank operation s op id = if targets s.target op then some 2 else none
kind_rank clock s op id = if targets s.target op && s.clock_id == id then some 3 else none

-- `chaos_time_selector_matches`: `*rank_out`, or `none` where it returns 0
unfoldable pub selector_matches : Selector → Operation → ℕ → Option ℕ
unfolding kind_rank
selector_matches s op id = kind_rank s.kind s op id
