-- ===== src/Io/Path/Components.antt =====
-- Paths as lists of components: the independent description of src/core's path helpers.
use macstab_chaos_testing_li.Prelude.{
  ℕ, ◌≢◌, Bool, not, ◌||◌, List, [], ◌∷◌, ◌++◌, Bytes, codes, bytes_eq, ◌==◌, if◌then◌else◌, AllOf,
}

abbrev pub no_slash : ℕ → Bool
no_slash c = not (c == b'/')

-- The parts of a text between its slashes.
abbrev pub prepend : ℕ → List Bytes → List Bytes
prepend c [] = (c ∷ []) ∷ []
prepend c (w ∷ ws) = (c ∷ w) ∷ ws

abbrev pub split : Bytes → List Bytes
split [] = [] ∷ []
split (c ∷ s) = if c == b'/' then [] ∷ split s else prepend c (split s)

-- What each part means to a stack of components, the innermost on top: nothing for an empty part
-- and `.`, the parent for `..` (the root has none), and otherwise one step down.
abbrev pub visit : Bytes → List Bytes → List Bytes
visit w stack =
    if bytes_eq w [] || bytes_eq w (codes ".")
    then stack
    else if bytes_eq w (codes "..")
    then (elim stack [ [] ↦ [] | top ∷ below ↦ below ])
    else w ∷ stack

abbrev pub walk : List Bytes → List Bytes → List Bytes
walk [] stack = stack
walk (w ∷ ws) stack = walk ws (visit w stack)

-- `/` before each component; the root is `/` alone.
abbrev pub render_tail : List Bytes → Bytes
render_tail [] = []
render_tail (w ∷ ws) = b'/' ∷ (w ++ render_tail ws)

abbrev pub render : List Bytes → Bytes
render [] = b'/' ∷ []
render (w ∷ ws) = render_tail (w ∷ ws)

-- A component as it stands in a normal path.
pub record IsComponent (w : Bytes) : Type 0 where
  pub filled : w ≢ []
  pub not_dot : w ≢ codes "."
  pub not_dots : w ≢ codes ".."
  pub slash_free : AllOf no_slash w
