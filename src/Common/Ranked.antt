-- ===== src/Common/Ranked.antt =====
-- The selection of a rule by its selector: the loop of `chaos_net_config_select_better`, which
-- `chaos_dns_config_select_rule_domain` repeats. `rank` is what a rule's selector gets for the
-- call at hand, `none` where the loop continues with the next rule, and `size` is its `selector_len`.
pub mod Winner
use macstab_chaos_testing_li.Prelude.{
  ℕ, Bool, true, ◌&&◌, ◌||◌, Option, none, some, List, [], ◌∷◌, ◌==◌, ltb, if◌then◌else◌,
}

-- `*rule` with `chaos_net_best_rule_t`; without a best rule (`found` is 0) there is none.
pub record Best (R : Type 0) : Type 0 where
  pub rule : R
  pub rank : ℕ
  pub length : ℕ

-- `rank > best->rank || (rank == best->rank && length > best->length)`
abbrev pub higher : ℕ → ℕ → ℕ → ℕ → Bool
higher rank length best_rank best_length =
    ltb best_rank rank || (rank == best_rank && ltb best_length length)

module _ {R : Type 0} where
  abbrev pub beats : ℕ → ℕ → Option (Best R) → Bool
  beats rank length none = true
  beats rank length (some best) = higher rank length best.rank best.length

  module _ (rank : R → Option ℕ) (size : R → ℕ) where
    abbrev pub as_best : R → ℕ → Best R
    as_best r n = record { rule = r; rank = n; length = size r }

    -- what a round of the loop makes of the best rule
    unfoldable pub consider : R → Option ℕ → Option (Best R) → Option (Best R)
    consider r none best = best
    consider r (some n) best = if beats n (size r) best then some (as_best r n) else best

    -- `chaos_net_config_select_better`
    unfoldable pub select_better : List R → Option (Best R) → Option (Best R)
    unfolding consider
    select_better [] best = best
    select_better (r ∷ rs) best = select_better rs (consider r (rank r) best)
