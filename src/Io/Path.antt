-- ===== src/Io/Path.antt =====
-- src/core/chaos_io_internal.h, the helpers on path strings, and `chaos_io_prefix_covers` of
-- src/config/chaos_io_config.c. A buffer that is written in place is the list of its bytes; the
-- loop of `chaos_io_normalize_path` never writes ahead of what it reads, so its input is the rest of
-- the path and its output the bytes before `write_at`, held reversed.
pub mod Components
mod Written
pub mod Normalize
pub mod Canonical
pub mod Cover
use macstab_chaos_testing_li.Prelude.{
  ℕ, zero, suc, ◌+◌, ◌≤◌, Bool, true, false, not, ◌&&◌, ◌||◌, Option, none, some, [], ◌∷◌, ◌++◌,
  reverse, Bytes, codes, bytes_eq, strip_prefix, ◌==◌, ltb, if◌then◌else◌, length,
}

-- `while (path[read_at] == '/') ++read_at;`
pub skip_slashes : Bytes → Bytes
skip_slashes [] = []
skip_slashes (c ∷ s) = if c == b'/' then skip_slashes s else c ∷ s

-- the bytes from `start` to the next slash or the end, and what follows
pub component : Bytes → Bytes × Bytes
component [] = ([], [])
component (c ∷ s) = let r = component s in if c == b'/' then ([], c ∷ s) else (c ∷ r.0, r.1)

-- `while (write_at > 1U && path[write_at - 1U] != '/') --write_at;`
pub drop_word : Bytes → Bytes
drop_word [] = []
drop_word (c ∷ []) = c ∷ []
drop_word (c ∷ d ∷ out) = if c == b'/' then c ∷ d ∷ out else drop_word (d ∷ out)

-- `if (write_at > 1U) --write_at;`
pub drop_one : Bytes → Bytes
drop_one (c ∷ d ∷ out) = d ∷ out
drop_one out = out

-- `if (write_at > 1U) path[write_at++] = '/';`
pub separate : Bytes → Bytes
separate (c ∷ d ∷ out) = b'/' ∷ c ∷ d ∷ out
separate out = out

-- the branches of a round on the component that was read
pub apply_component : Bytes → Bytes → Bytes
apply_component w out =
    if bytes_eq w [] || bytes_eq w (codes ".")
    then out
    else if bytes_eq w (codes "..")
    then drop_one (drop_word out)
    else reverse w ++ separate out

pub normalize_from : ℕ → Bytes → Bytes → Bytes
normalize_from zero s out = out
normalize_from (suc n) [] out = out
normalize_from (suc n) (c ∷ s) out =
    let r = component (skip_slashes (c ∷ s)) in normalize_from n r.1 (apply_component r.0 out)

-- `chaos_io_normalize_path`; a path that is not absolute stays as it is.
unfoldable pub normalize_path : Bytes → Bytes
unfolding normalize_from apply_component separate drop_one drop_word component skip_slashes
normalize_path [] = []
normalize_path (c ∷ s) =
    if c == b'/' then reverse (normalize_from (suc (length s)) s (c ∷ [])) else c ∷ s

-- `path[i] == '\0' || path[i] == '/'` at the rest of the path from `i` on
abbrev pub at_boundary : Bytes → Bool
at_boundary [] = true
at_boundary (c ∷ s) = c == b'/'

-- `length > 0U && prefix[length - 1U] == '/'`
unfoldable pub ends_with_slash : Bytes → Bool
ends_with_slash [] = false
ends_with_slash (c ∷ []) = c == b'/'
ends_with_slash (c ∷ d ∷ s) = ends_with_slash (d ∷ s)

-- `chaos_io_prefix_covers`, called with the length of the prefix
unfoldable pub prefix_covers : Bytes → Bytes → Bool
unfolding ends_with_slash
prefix_covers prefix path = elim (strip_prefix prefix path) [
  | none ↦ false
  | some rest ↦ at_boundary rest || ends_with_slash prefix
]

-- `chaos_io_is_control_path`
unfoldable pub is_control_path : Bytes → Bool
is_control_path path =
    bytes_eq path (codes "/tmp/.chaos-io.conf")
    || (elim (strip_prefix (codes "/tmp/.chaos-") path) [ none ↦ false | some rest ↦ true ])

-- `chaos_io_has_reserved_prefix`
unfoldable pub has_reserved_prefix : Bytes → Bytes → Bool
has_reserved_prefix path prefix = elim (strip_prefix prefix path) [
  | none ↦ false
  | some rest ↦ at_boundary rest
]

-- `chaos_io_is_excluded_path`; `none` is NULL.
unfoldable pub is_excluded_path : Option Bytes → Bool
unfolding is_control_path has_reserved_prefix
is_excluded_path none = true
is_excluded_path (some []) = true
is_excluded_path (some (c ∷ s)) =
    is_control_path (c ∷ s)
    || has_reserved_prefix (c ∷ s) (codes "/proc")
    || has_reserved_prefix (c ∷ s) (codes "/sys")
    || has_reserved_prefix (c ∷ s) (codes "/dev")

-- `chaos_io_copy_path` into a buffer of `size` bytes; `none` where it does not fit
unfoldable pub copy_path : ℕ → Bytes → Option Bytes
copy_path size path =
    if size == 0 then none else if ltb size (length path + 1) then none else some path

-- `chaos_io_join_paths`
unfoldable pub join_paths : ℕ → Bytes → Bytes → Option Bytes
unfolding ends_with_slash
join_paths size [] path = none
join_paths size (b ∷ base) [] = none
join_paths size (b ∷ base) (p ∷ path) =
    let separator : Bytes = if ends_with_slash (b ∷ base) then [] else b'/' ∷ [] in
    if size == 0
    then none
    else if ltb size (length (b ∷ base) + length separator + length (p ∷ path) + 1)
    then none
    else some ((b ∷ base) ++ (separator ++ (p ∷ path)))
