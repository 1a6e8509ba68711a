-- ===== src/Net/Select/Winner.antt =====
-- The rule that libchaos-net finds for an endpoint, and the search that stops at one end of a
-- connection.
use macstab_chaos_testing_li.Prelude.{
  ℕ, ◌≡◌, refl, true, false, not, ◌&&◌, ◌||◌, Option, none, some, List, [], ◌∷◌, arith, ◌==◌, All,
  Bool-cases, Option-cases, inl, inr,
}
use macstab_chaos_testing_li.Common.Ranked.{Best, higher}
use macstab_chaos_testing_li.Common.Ranked.Winner.{
  NotOver, Selects, select_better-Selects, select_better_kept, not-Lower_of,
}
use macstab_chaos_testing_li.Net.Endpoint.{Endpoint, endpoint_matches, selector_rank}
use macstab_chaos_testing_li.Net.Endpoint.Covers.{endpoint_matches_iff}
use macstab_chaos_testing_li.Net.Rule.{Operation, Rule}
use macstab_chaos_testing_li.Net.Select.{
  number, rule_rank, rule_length, select_endpoint_rule, View, may_be_beaten, select_end,
  match_final_loaded, match_either_loaded,
}

-- The rule for an endpoint is of the operation and covers the endpoint; it has the highest rank of
-- those that do, of equal ranks the longest selector, and of these it is the first in the file. There
-- is none exactly if no rule of the operation covers the endpoint.
pub select_endpoint_rule-Selects :
    (rules : List Rule) (op : Operation) (e : Endpoint)
    → Selects (rule_rank op e) rule_length rules (select_endpoint_rule rules op e)
unfolding select_endpoint_rule
select_endpoint_rule-Selects rules op e = select_better-Selects (rule_rank op e) rule_length rules

-- a rule that the second loop passes, for the other end of the connection
one_unbeaten :
    (op : Operation) (e : Endpoint) (best : Best Rule) (q : Rule)
    → (number q.operation == number op
        && higher (selector_rank q.selector) (rule_length q) best.rank best.length)
      ≡ false
    → NotOver (rule_rank op e q) (rule_length q) best.rank best.length
unfolding rule_rank
one_unbeaten op e best q h = elim (Bool-cases (number q.operation == number op)) [
  | inr other ↦ rw (other, rule_rank) tt
  | inl same ↦ rw (same, rule_rank) (covered (endpoint_matches q.selector e) refl same)
]
  where
    covered :
        (o : Option ℕ)
        → endpoint_matches q.selector e ≡ o
        → (number q.operation == number op) ≡ true
        → NotOver o (rule_length q) best.rank best.length
    covered none m same = tt
    covered (some n) m same = rw (((endpoint_matches_iff q.selector e n).0 m).1) (
        not-Lower_of best.rank best.length (selector_rank q.selector) (rule_length q)
          (ground arith))

unbeaten :
    (op : Operation) (e : Endpoint) (best : Best Rule) (rules : List Rule)
    → may_be_beaten op best rules ≡ false
    → All (λ q. NotOver (rule_rank op e q) (rule_length q) best.rank best.length) rules
unfolding may_be_beaten
unbeaten op e best [] h = tt
unbeaten op e best (q ∷ rules) h =
    (one_unbeaten op e best q (ground arith), unbeaten op e best rules (ground arith))

select_end_kept :
    (rules : List Rule) (op : Operation) (second : Option Endpoint) (best : Best Rule)
    → may_be_beaten op best rules ≡ false
    → select_end rules op second (some best) ≡ some best
unfolding select_end
select_end_kept rules op none best h = refl
select_end_kept rules op (some e) best h =
    select_better_kept (rule_rank op e) rule_length rules best (unbeaten op e best rules h)

select_end_found :
    (rules : List Rule) (op : Operation) (e : Endpoint) {best : Best Rule}
    → select_endpoint_rule rules op e ≡ some best
    → select_end rules op (some e) none ≡ some best
unfolding select_end select_endpoint_rule
select_end_found rules op e h = h

-- Where the search for the first end of a connection alone returns a rule, the search over both ends
-- returns the same rule, whatever the second end is: the second need not be looked up.
pub match_final_decides :
    (v : View) (op : Operation) (e : Endpoint) (second : Option Endpoint) {r : Rule}
    → match_final_loaded v op e ≡ some r
    → match_either_loaded v op (some e) second ≡ some r
unfolding match_final_loaded match_either_loaded
match_final_decides v op e second {r = r} h = elim (Bool-cases v.parse_ok) [
  | inr bad ↦ absurd (ground (arith, rw (bad, match_final_loaded) at h))
  | inl ok ↦ elim (Option-cases (select_endpoint_rule v.rules op e)) [
    | inl missed ↦ absurd (ground (arith, rw (ok, missed, match_final_loaded) at h))
    | inr (best, found) ↦ elim (Bool-cases (may_be_beaten op best v.rules || not v.still_valid)) [
      | inl give_up ↦ absurd (ground (arith, rw (ok, found, give_up, match_final_loaded) at h))
      | inr sure ↦
          let same : some best.rule ≡ some r = rw (ok, found, sure, match_final_loaded) at h in
          let first = select_end_found v.rules op e found in
          let kept = select_end_kept v.rules op second best (ground arith) in
          let valid : v.still_valid ≡ true = ground arith in
          rw (ok, valid, first, kept, match_either_loaded) same
    ]
  ]
]
