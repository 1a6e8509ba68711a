-- ===== src/Io/Reload.antt =====
-- src/config/chaos_io_config.c: the two snapshots of the rules, and the reload that fills the inactive
-- one and publishes it. The caller holds the claim (the cached stamp is `reloading`). The arrays
-- `hits` and `text` of a snapshot are one list of pairs as long as its rules; `rule_count` is its
-- length. Barriers order the stores for other threads and are not steps here.

pub mod Publish
pub mod Outcome
use macstab_chaos_testing_li.Prelude.{
  ℕ, zero, suc, ◌+◌, ◌-◌, ◌%◌, ◌^◌, Bool, true, false, not, ◌&&◌, ◌||◌, Option, none, some, List,
  [], ◌∷◌, map, Bytes, ◌==◌, leb, if◌then◌else◌, length, get_elem?,
}
use macstab_chaos_testing_li.Common.Status.{
  Reason, too_large, unreadable, nul, StatusError, clear, reject, content_hash,
}
use macstab_chaos_testing_li.Common.Snapshot.{
  missing, StatusFile, removed, loaded, failed, ReadResult, bytes_read, transient, at_limit,
  no_access, write_begin, write_end, read_valid, holds_nul, slot_generation, pair_up, texts_of,
  rules_of,
}
use macstab_chaos_testing_li.Common.Hits.Slot.{Slot}
use macstab_chaos_testing_li.Common.Hits.Pool.{Ruled, Assigned, assign, release}
use macstab_chaos_testing_li.Io.Rule.{Rule}
use macstab_chaos_testing_li.Common.RuleFile.{Loaded, accepted, rejected}
use macstab_chaos_testing_li.Io.Buffer.{parse_buffer}
use macstab_chaos_testing_li.Io.Resolve.{resolve_rules, any_moved}

-- `chaos_io_config_state_t`
pub record Snapshot : Type 0 where
  pub sequence : ℕ
  pub rules : List Rule
  pub parse_ok : Bool
  pub entries : List Ruled
  pub links : Bool
  pub resolved_ms : ℕ

-- The static variables that a reload uses; `active` is whether the index is 1.
pub record State : Type 0 where
  pub zeroth : Snapshot
  pub first : Snapshot
  pub active : Bool
  pub pool : List Slot
  pub pool_used : Bool
  pub cached : ℕ
  pub provisional : Bool
  pub content : ℕ
  pub error : StatusError
  pub status : StatusFile

-- `g_chaos_io_config_states[index]`
abbrev pub snapshot : Bool → State → Snapshot
snapshot false s = s.zeroth
snapshot true s = s.first

abbrev pub set_snapshot : Bool → Snapshot → State → State
set_snapshot false n s = record s { zeroth = n }
set_snapshot true n s = record s { first = n }

-- `chaos_io_config_reset_state`
unfoldable pub reset_state : Bool → Snapshot → Snapshot
unfolding write_begin
reset_state ok n = record {
  sequence = write_begin n.sequence;
  rules = [];
  parse_ok = ok;
  entries = [];
  links = false;
  resolved_ms = 0;
}

-- `chaos_io_config_publish`
unfoldable pub publish : Bool → Snapshot → ℕ → State → State
unfolding write_end
publish next n stamp s =
    record (set_snapshot next (record n { sequence = write_end n.sequence }) s) {
      active = next;
      cached = stamp;
    }

-- `now - state->resolved_ms >= CHAOS_IO_LINKS_RECHECK_MS`
abbrev pub links_due : ℕ → Snapshot → Bool
links_due now n = n.links && leb 1000 ((now + 2 ^ 64 - n.resolved_ms) % 2 ^ 64)

-- the loop at the end of `chaos_io_config_attach_hits`
unfoldable pub tie : List Slot → List (Option ℕ) → List Rule → List Rule
tie pool (h ∷ hs) (r ∷ rs) =
    record r { hit = h; hit_generation = slot_generation h pool } ∷ tie pool hs rs
tie pool _ rs = rs

-- `chaos_io_config_report`, where the file is there
abbrev pub report : Snapshot → StatusError → StatusFile
report n error = if n.parse_ok then loaded (length n.rules) else failed error

abbrev pub hit_slots : Snapshot → List (Option ℕ)
hit_slots n = map (λ e. e.0) n.entries

-- `strtoul` and `realpath` are the C library's, `supported` is CHAOS_IO_RULE_SUPPORTED, and `now` is
-- the reading of `chaos_hits_now_ms`.
module _ (strtoul : Bytes → ℕ × Bytes) (realpath : Bytes → Option Bytes) (supported : Rule → Bool)
    (now : ℕ) where
  -- what becomes of the bytes: the rules with their texts, or the record of their rejection
  unfoldable pub load : Bytes → Loaded Rule
  unfolding holds_nul
  load bytes =
      if holds_nul bytes then rejected (reject clear nul) else parse_buffer strtoul supported bytes

  -- `chaos_io_config_resolve_rules` and `chaos_io_config_attach_hits` on the reset snapshot
  unfoldable pub fill : Snapshot → List (Rule × Bytes) → Snapshot → List Slot → Snapshot × List Slot
  unfolding tie pair_up
  fill n rs old pool =
      let (rules, links) = resolve_rules realpath (rules_of rs) in
      let (hits, pool') = assign pool old.entries (texts_of rs) in
      (
        record n {
          rules = tie pool' hits rules;
          entries = pair_up hits (texts_of rs);
          links = links;
          resolved_ms = now;
        },
        pool',
      )

  -- the part of `chaos_io_config_reload` from `chaos_io_config_resolve_rules` on
  unfoldable pub finish_load : ℕ → ℕ → Loaded Rule → State → State
  unfolding fill reset_state publish
  finish_load observed content (accepted rs) s =
      let next = not s.active in
      let (n, pool) = fill (reset_state true (snapshot next s)) rs (snapshot s.active s) s.pool in
      publish next n observed (record s {
        content = content;
        error = clear;
        pool = release pool (hit_slots n);
        pool_used = s.pool_used || not (length rs == 0);
        status = report n clear;
      })
  finish_load observed content (rejected e) s =
      let next = not s.active in
      let (n, pool) = fill (reset_state false (snapshot next s)) [] (snapshot s.active s) s.pool in
      publish next n observed (record s {
        content = content;
        error = e;
        pool = release pool (hit_slots n);
        status = report n e;
      })

  -- the branch on a missing file
  unfoldable pub unload : State → State
  unfolding reset_state publish
  unload s =
      let next = not s.active in
      let n = reset_state true (snapshot next s) in
      publish next n missing
        (record s { content = 0; pool = release s.pool (hit_slots n); status = removed })

  -- the branches that keep the active snapshot: the inactive one stays reset, and the claim is
  -- released with the stamp of before
  unfoldable pub keep : ℕ → State → State
  unfolding reset_state
  keep previous s =
      let next = not s.active in
      record (set_snapshot next (reset_state true (snapshot next s)) s) { cached = previous }

  -- what `chaos_io_config_links_moved` leaves where it finds nothing moved
  unfoldable pub rechecked : State → State
  rechecked s =
      let old = snapshot s.active s in
      if links_due now old then set_snapshot s.active (record old { resolved_ms = now }) s else s

  -- `chaos_io_config_links_moved`
  unfoldable pub links_moved : State → Bool
  links_moved s = let old = snapshot s.active s in links_due now old && any_moved realpath old.rules

  unfoldable pub reload_bytes : ℕ → ℕ → Bytes → Bool → State → State
  unfolding finish_load keep rechecked links_moved load
  reload_bytes observed previous bytes flag s =
      let content = content_hash bytes in
      let s' = record s { provisional = flag } in
      if observed == previous && content == s.content
      then if links_moved s'
        then finish_load observed content (load bytes) s'
        else keep previous (rechecked s')
      else finish_load observed content (load bytes) s'

  -- `chaos_io_config_reload`, with the outcome of `chaos_io_config_read_file`
  unfoldable pub reload : ℕ → ℕ → ReadResult → State → State
  unfolding unload reload_bytes finish_load keep load
  reload observed previous r s = if observed == missing then unload s else elim r [
    | transient ↦ keep previous s
    | bytes_read bytes flag ↦ reload_bytes observed previous bytes flag s
    | at_limit ↦ finish_load observed 0 (rejected (reject clear too_large)) s
    | no_access ↦ finish_load observed 0 (rejected (reject clear unreadable)) s
  ]
