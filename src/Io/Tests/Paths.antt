-- ===== src/Io/Tests/Paths.antt =====
-- Runs and instances for the paths and the selection of rules.
use macstab_chaos_testing_li.Prelude.{
  ◌≡◌, ◌↔◌, refl, true, false, some, List, [], ◌∷◌, arith, Bytes, codes, bytes_eq, strip_prefix,
  All,
}
use macstab_chaos_testing_li.Io.Path.{normalize_path, prefix_covers, is_excluded_path}
use macstab_chaos_testing_li.Io.Path.Components.{render, IsComponent}
use macstab_chaos_testing_li.Io.Path.Normalize.{resolved}
use macstab_chaos_testing_li.Io.Path.Canonical.{normalize_path_canonical}
use macstab_chaos_testing_li.Io.Path.Cover.{Begins, prefix_covers_iff}
use macstab_chaos_testing_li.Io.Rule.{read, write, Rule, bare_rule}
use macstab_chaos_testing_li.Io.Select.{applies, rule_prefix_matches, select_rule}
use macstab_chaos_testing_li.Io.Select.Best.{Selects, select_rule-Selects}

normal : normalize_path (codes "/a//./b/../c/") ≡ codes "/a/c"
unfolding normalize_path bytes_eq
normal = refl

excluded :
    (is_excluded_path (some (codes "/proc/1")) ≡ true)
    × (is_excluded_path (some (codes "/process")) ≡ false)
    × (is_excluded_path (some (codes "/tmp/.chaos-io.status")) ≡ true)
unfolding is_excluded_path strip_prefix bytes_eq
excluded = (refl, refl, refl)

normalize_path_canonical_example :
    (normalize_path (codes "/a/../b") ≡ render (resolved (codes "a/../b")))
    × All IsComponent (resolved (codes "a/../b"))
    × (normalize_path (normalize_path (codes "/a/../b")) ≡ normalize_path (codes "/a/../b"))
normalize_path_canonical_example = normalize_path_canonical (codes "a/../b")

abbrev foo : Bytes
foo = codes "foo"

foo-IsComponent : IsComponent foo
foo-IsComponent = record {
  filled = ground arith;
  not_dot = ground arith;
  not_dots = ground arith;
  slash_free = (refl, (refl, (refl, tt)));
}

prefix_covers_iff_example :
    (prefix_covers (render (foo ∷ [])) (render (foo ∷ foo ∷ [])) ≡ true)
    ↔ Begins (foo ∷ []) (foo ∷ foo ∷ [])
prefix_covers_iff_example =
    prefix_covers_iff (foo ∷ []) (foo ∷ foo ∷ []) (foo-IsComponent, tt)
      (foo-IsComponent, (foo-IsComponent, tt))

abbrev rules : List Rule
rules =
    bare_rule (codes "*") write
    ∷ bare_rule (codes "/a") write
    ∷ bare_rule (codes "/a") read
    ∷ bare_rule (codes "/a") write
    ∷ []

longest : select_rule rules write (codes "/a/b") ≡ some (bare_rule (codes "/a") write)
unfolding select_rule applies rule_prefix_matches prefix_covers strip_prefix bytes_eq
longest = refl

select_rule-Selects_example :
    Selects (applies write (codes "/a/b")) rules (select_rule rules write (codes "/a/b"))
select_rule-Selects_example = select_rule-Selects rules write (codes "/a/b")
