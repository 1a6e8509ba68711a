-- ===== src/Common/Reload.antt =====
-- The two snapshots of the rules, and the reload that fills the inactive one and publishes it, as
-- src/net/chaos_net_config.c and src/dns/chaos_dns_config.c each write it out: `refresh`,
-- `attach_hits`, `publish`, `reset_state` and `report` of the two agree word for word but for their
-- names. Barriers order the stores for other threads and are not steps here; due hits, which a check
-- also reports, change none of this state.
pub mod Publish
pub mod Outcome
pub mod Check
pub mod Fork
use macstab_chaos_testing_li.Prelude.{
  ℕ, ◌≡◌, Bool, true, false, not, ◌&&◌, ◌||◌, Option, none, some, List, [], ◌∷◌, map, Bytes, ◌==◌,
  if◌then◌else◌, length,
}
use macstab_chaos_testing_li.Common.Status.{
  too_large, unreadable, nul, StatusError, clear, reject, content_hash,
}
use macstab_chaos_testing_li.Common.Hits.Slot.{Slot}
use macstab_chaos_testing_li.Common.Hits.Pool.{Ruled, assign, release}
use macstab_chaos_testing_li.Common.RuleFile.{Grammar, Loaded, accepted, rejected, parse_file}
use macstab_chaos_testing_li.Common.Snapshot.{
  missing, reloading, unknown, StatusFile, removed, loaded, failed, ReadResult, bytes_read,
  transient, at_limit, no_access, write_begin, write_end, read_valid, holds_nul, slot_generation,
  pair_up, texts_of, rules_of,
}

-- What a library brings to its reload: how its rule lines read, and the stores of `hit` and
-- `hit_generation`, the last of which counts.
pub record Library (R : Type 0) : Type 0 where
  pub grammar : Grammar R
  pub with_hit : Option ℕ → ℕ → R → R
  pub with_hit_twice :
      (h k : Option ℕ) (g j : ℕ) (r : R) → with_hit h g (with_hit k j r) ≡ with_hit h g r

-- `chaos_net_config_state_t`; `hits` and `text` are one list of pairs.
pub record Snapshot (R : Type 0) : Type 0 where
  pub sequence : ℕ
  pub rules : List R
  pub parse_ok : Bool
  pub entries : List Ruled

-- The static variables that a reload uses; `active` is whether the index is 1.
pub record State (R : Type 0) : Type 0 where
  pub zeroth : Snapshot R
  pub first : Snapshot R
  pub active : Bool
  pub pool : List Slot
  pub pool_used : Bool
  pub cached : ℕ
  pub provisional : Bool
  pub content : ℕ
  pub error : StatusError
  pub status : StatusFile

-- What the surroundings answer to one check: the clock, `stat` and the read of the file.
pub record Answers : Type 0 where
  pub recent : Bool
  pub observed : ℕ
  pub file : ReadResult

-- `chaos_net_config_checked_recently`; `recent` is what `chaos_clock_checked_recently` returns.
unfoldable pub checked_recently : Bool → ℕ → Bool
checked_recently recent cached = if cached == unknown || cached == reloading then false else recent

module _ {R : Type 0} where
  -- `g_chaos_net_config_states[index]`
  abbrev pub snapshot : Bool → State R → Snapshot R
  snapshot false s = s.zeroth
  snapshot true s = s.first

  abbrev pub set_snapshot : Bool → Snapshot R → State R → State R
  set_snapshot false n s = record s { zeroth = n }
  set_snapshot true n s = record s { first = n }

  -- `chaos_net_config_reset_state`
  unfoldable pub reset_state : Bool → Snapshot R → Snapshot R
  unfolding write_begin
  reset_state ok n = record {
    sequence = write_begin n.sequence;
    rules = [];
    parse_ok = ok;
    entries = [];
  }

  -- `chaos_net_config_publish`
  unfoldable pub publish : Bool → Snapshot R → ℕ → State R → State R
  unfolding write_end
  publish next n stamp s =
      record (set_snapshot next (record n { sequence = write_end n.sequence }) s) {
        active = next;
        cached = stamp;
      }

  -- `chaos_net_config_report`
  abbrev pub report : ℕ → Snapshot R → StatusError → StatusFile
  report observed n error =
      if observed == missing
      then removed
      else if n.parse_ok
      then loaded (length n.rules)
      else failed error

  abbrev pub hit_slots : Snapshot R → List (Option ℕ)
  hit_slots n = map (λ e. e.0) n.entries

  -- `chaos_net_config_active_state()->rule_count != 0U`
  abbrev pub has_rules : State R → Bool
  has_rules s = not (length (snapshot s.active s).rules == 0)

  -- The branches that keep the active snapshot: the inactive one stays reset, and the claim is released
  -- with the stamp of before.
  unfoldable pub keep : ℕ → State R → State R
  unfolding reset_state
  keep previous s =
      let next = not s.active in
      record (set_snapshot next (reset_state true (snapshot next s)) s) { cached = previous }

  module _ (lib : Library R) where
    -- the loop at the end of `chaos_net_config_attach_hits`
    unfoldable pub tie : List Slot → List (Option ℕ) → List R → List R
    tie pool (h ∷ hs) (r ∷ rs) = lib.with_hit h (slot_generation h pool) r ∷ tie pool hs rs
    tie pool _ rs = rs

    -- `chaos_net_config_attach_hits` on the reset snapshot
    unfoldable pub fill :
        Snapshot R → List (R × Bytes) → Snapshot R → List Slot → Snapshot R × List Slot
    unfolding tie pair_up
    fill n rs old pool =
        let (hits, pool') = assign pool old.entries (texts_of rs) in
        (
          record n { rules = tie pool' hits (rules_of rs); entries = pair_up hits (texts_of rs) },
          pool',
        )

    -- `chaos_net_config_refresh` from `g_chaos_net_config_content = content` on
    unfoldable pub finish : ℕ → ℕ → Bool → List (R × Bytes) → StatusError → State R → State R
    unfolding fill reset_state publish
    finish observed content ok rs error s =
        let next = not s.active in
        let reset = reset_state true (snapshot next s) in
        let (n, pool) =
          fill (if ok then reset else reset_state false reset) rs (snapshot s.active s) s.pool in
        publish next n observed (record s {
          content = content;
          error = error;
          pool = release pool (hit_slots n);
          pool_used = s.pool_used || not (length rs == 0);
          status = report observed n error;
        })

    unfoldable pub finish_load : ℕ → ℕ → Loaded R → State R → State R
    unfolding finish
    finish_load observed content (accepted rs) s = finish observed content true rs clear s
    finish_load observed content (rejected e) s = finish observed content false [] e s

    -- what becomes of bytes that are there
    unfoldable pub load : Bytes → Loaded R
    unfolding holds_nul parse_file
    load bytes =
        if holds_nul bytes then rejected (reject clear nul) else parse_file lib.grammar bytes

    -- An empty file is not parsed, so the record of the last error stays.
    unfoldable pub reload_bytes : ℕ → ℕ → Bytes → Bool → State R → State R
    unfolding finish finish_load keep load
    reload_bytes observed previous bytes flag s =
        let content = content_hash bytes in
        let s' = record s { provisional = flag } in
        if observed == previous && content == s.content
        then keep previous s'
        else if length bytes == 0
        then finish observed content true [] s.error s'
        else finish_load observed content (load bytes) s'

    -- the branch on a file that is there, with the outcome of `chaos_net_config_read_file`
    unfoldable pub reload_file : ℕ → ℕ → ReadResult → State R → State R
    unfolding reload_bytes finish_load keep
    reload_file observed previous transient s = keep previous s
    reload_file observed previous (bytes_read bytes flag) s =
        reload_bytes observed previous bytes flag s
    reload_file observed previous at_limit s =
        finish_load observed 0 (rejected (reject clear too_large)) s
    reload_file observed previous no_access s =
        finish_load observed 0 (rejected (reject clear unreadable)) s

    -- `chaos_net_config_refresh` behind the claim
    unfoldable pub reload : ℕ → ℕ → ReadResult → State R → State R
    unfolding finish reload_file
    reload observed previous r s =
        if observed == missing
        then finish observed 0 true [] s.error s
        else reload_file observed previous r s

    -- `chaos_net_config_refresh`; it returns `has_rules` of the result. The step of one thread is
    -- modelled: its compare-and-swap succeeds.
    unfoldable pub refresh : Answers → State R → State R
    unfolding checked_recently reload
    refresh a s =
        if checked_recently a.recent s.cached
        then s
        else if a.observed == s.cached && not s.provisional
        then s
        else if s.cached == reloading
        then s
        else reload a.observed s.cached a.file
            (record s { cached = reloading; provisional = false })
