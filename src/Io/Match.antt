-- ===== src/Io/Match.antt =====
-- src/config/chaos_io_config.c: the check of the rule file in front of a call, and the match of a path
-- against the active rules. The step of one thread is modelled: its compare-and-swap succeeds, and
-- no reload of another thread comes between the copy of a rule and its check. Due hits, which the
-- check also reports, change none of this state.
use mathlib.Core.Path.{subst}
use macstab_chaos_testing_li.Prelude.{
  ℕ, ◌≡◌, ◌≢◌, ◌⊎◌, inl, inr, refl, sym, ◌∙◌, Bool, true, false, not, ◌&&◌, ◌||◌, Option, none,
  some, List, arith, Bytes, ◌==◌, if◌then◌else◌, length, Bool-cases,
}
use macstab_chaos_testing_li.Common.Snapshot.{ReadResult, read_valid, reloading, unknown}
use macstab_chaos_testing_li.Io.Path.{is_excluded_path}
use macstab_chaos_testing_li.Io.Rule.{Operation, Rule}
use macstab_chaos_testing_li.Io.Select.{applies, select_rule}
use macstab_chaos_testing_li.Io.Select.Best.{Wins, Selects, select_rule-Selects}
use macstab_chaos_testing_li.Io.Reload.{State, snapshot, links_due, reload}
use macstab_chaos_testing_li.Io.Reload.Outcome.{reload_ends}

-- `chaos_io_config_checked_recently`; `recent` is what `chaos_clock_checked_recently` returns.
unfoldable pub checked_recently : Bool → ℕ → Bool
checked_recently recent cached = if cached == unknown || cached == reloading then false else recent

-- `chaos_io_config_active_state()->rule_count != 0U`
abbrev pub has_rules : State → Bool
has_rules s = not (length (snapshot s.active s).rules == 0)

-- `chaos_io_config_match_loaded`
unfoldable pub match_loaded : Operation → Bytes → State → Option Rule
match_loaded op path s =
    let n = snapshot s.active s in
    if length n.rules == 0 then none else elim (select_rule n.rules op path) [
      | none ↦ none
      | some r ↦ if read_valid n.sequence n.sequence then some r else none
    ]

-- What the surroundings answer to one check: the clock, `stat` and the read of the file.
pub record Answers : Type 0 where
  pub recent : Bool
  pub observed : ℕ
  pub file : ReadResult

module _ (strtoul : Bytes → ℕ × Bytes) (realpath : Bytes → Option Bytes) (supported : Rule → Bool)
    (now : ℕ) where
  -- `chaos_io_config_refresh`
  unfoldable pub refresh : Answers → State → State
  unfolding checked_recently
  refresh a s =
      if checked_recently a.recent s.cached
      then s
      else if s.cached == a.observed
          && not s.provisional
          && not (links_due now (snapshot s.active s))
      then s
      else if s.cached == reloading
      then s
      else reload strtoul realpath supported now a.observed s.cached a.file
          (record s { cached = reloading; provisional = false })

  -- `chaos_io_config_match_path`
  unfoldable pub match_path : Operation → Option Bytes → Answers → State → Option Rule × State
  unfolding refresh match_loaded
  match_path op none a s = (none, s)
  match_path op (some path) a s =
      if is_excluded_path (some path)
      then (none, s)
      else (let s' = refresh a s in
          if has_rules s' then (match_loaded op path s', s') else (none, s'))

  -- After a reload the stamp is the one of before or the one observed.
  reload_stamp :
      (observed previous : ℕ) (r : ReadResult) (s : State)
      → let s' = reload strtoul realpath supported now observed previous r s in
        (s'.cached ≡ previous) ⊎ (s'.cached ≡ observed)
  reload_stamp observed previous r s =
      elim (reload_ends strtoul realpath supported now observed previous r s) [
        | inl (e, kept) ↦ inl kept.stamp
        | inr (e, published) ↦ inr published.stamp
      ]

  -- While another thread holds the claim, a check changes nothing.
  pub refresh_busy : (a : Answers) (s : State) → s.cached ≡ reloading → refresh a s ≡ s
  unfolding refresh checked_recently
  refresh_busy a s h =
      let held : (s.cached == reloading) ≡ true = ground arith in
      elim (Bool-cases (checked_recently a.recent s.cached)) [
        | inl e ↦ rw (e, refresh) refl
        | inr e ↦
            elim (Bool-cases (
              s.cached == a.observed
              && not s.provisional
              && not (links_due now (snapshot s.active s)))) [
                | inl e' ↦ rw (e, e', refresh) refl
                | inr e' ↦ rw (e, e', held, refresh) refl
              ]
      ]

  -- A check never leaves behind the reload claim that it took: if no thread held it before and the
  -- observed stamp is not the claim's, none is held afterwards.
  pub refresh_claim :
      (a : Answers) (s : State)
      → s.cached ≢ reloading
      → a.observed ≢ reloading
      → (refresh a s).cached ≢ reloading
  unfolding refresh checked_recently
  refresh_claim a s h k = elim (Bool-cases (checked_recently a.recent s.cached)) [
    | inl e ↦ rw (e, refresh) h
    | inr e ↦
        elim (Bool-cases (
          s.cached == a.observed
          && not s.provisional
          && not (links_due now (snapshot s.active s)))) [
            | inl e' ↦ rw (e, e', refresh) h
            | inr e' ↦ elim (Bool-cases (s.cached == reloading)) [
              | inl e'' ↦ rw (e, e', e'', refresh) h
              | inr e'' ↦ rw (e, e', e'', refresh) after
            ]
          ]
  ]
    where
      after :
          (reload strtoul realpath supported now a.observed s.cached a.file
            (record s { cached = reloading; provisional = false })).cached
          ≢ reloading
      after e =
          elim (reload_stamp a.observed s.cached a.file
            (record s { cached = reloading; provisional = false })) [
              | inl old ↦ h (sym old ∙ e)
              | inr new ↦ k (sym new ∙ e)
            ]

  valid_copy :
      (test : Rule → Bool) (rules : List Rule) (b : Bool) (o : Option Rule) {r : Rule}
      → Selects test rules o
      → elim o as (λ _. Option Rule) [ none ↦ none | some q ↦ if b then some q else none ] ≡ some r
      → Wins test rules r
  valid_copy test rules b none w h = cc
  valid_copy test rules false (some q) w h = cc
  valid_copy test rules true (some q) {r = r} w h =
      let e : q ≡ r = cc in subst (λ x. Wins test rules x) e w

  found_at :
      (op : Operation) (path : Bytes) (s : State) {r : Rule}
      → match_loaded op path s ≡ some r
      → Wins (applies op path) (snapshot s.active s).rules r
  unfolding match_loaded
  found_at op path s h =
      let n = snapshot s.active s in
      elim (Bool-cases (length n.rules == 0)) [
        | inl e ↦ absurd (ground (arith, rw (e, match_loaded) at h))
        | inr e ↦
            valid_copy (applies op path) n.rules (read_valid n.sequence n.sequence)
              (select_rule n.rules op path) (select_rule-Selects n.rules op path)
              (rw (e, match_loaded) at h)
      ]

  -- A call gets a rule only for a path that is not excluded, and the rule is then the best of the
  -- active rules after the check: of the operation, with the longest prefix that covers the path,
  -- and the first of those.
  pub match_path-Wins :
      (op : Operation) (path : Bytes) (a : Answers) (s : State) {r : Rule}
      → (match_path op (some path) a s).0 ≡ some r
      → let s' = refresh a s in
        (is_excluded_path (some path) ≡ false)
        × ((match_path op (some path) a s).1 ≡ s')
        × Wins (applies op path) (snapshot s'.active s').rules r
  unfolding match_path
  match_path-Wins op path a s {r = r} h = elim (Bool-cases (is_excluded_path (some path))) [
    | inl e ↦ absurd (ground (arith, rw (e, match_path) at h))
    | inr e ↦ elim (Bool-cases (has_rules (refresh a s))) [
      | inr f ↦ absurd (ground (arith, rw (e, f, match_path) at h))
      | inl f ↦ (
        e,
        rw (e, f, match_path) refl,
        found_at op path (refresh a s) (rw (e, f, match_path) at h),
      )
    ]
  ]
