-- ===== src/Common/Reload/Outcome.antt =====
-- src/net/chaos_net_config.c, `chaos_net_config_refresh` behind its claim, and its siblings: what readers see
-- after it.
use mathlib.Core.Path.{subst}
use macstab_chaos_testing_li.Prelude.{
  ℕ, ◌≡◌, ◌⊎◌, inl, inr, refl, sym, ap, Bool, true, false, not, ◌&&◌, ◌||◌, Option, none, some,
  List, [], ◌∷◌, map, arith, Bytes, ◌==◌, if◌then◌else◌, length, Bool-cases,
}
use macstab_chaos_testing_li.Common.Status.{
  StatusError, clear, reject, too_large, unreadable, content_hash,
}
use macstab_chaos_testing_li.Common.Hits.Slot.{Slot}
use macstab_chaos_testing_li.Common.Hits.Pool.{assign}
use macstab_chaos_testing_li.Common.Hits.Pool.Length.{length-assign}
use macstab_chaos_testing_li.Common.RuleFile.{Loaded, accepted, rejected}
use macstab_chaos_testing_li.Common.Snapshot.{
  missing, content_of, ReadResult, bytes_read, transient, at_limit, no_access, pair_up,
  slot_generation, texts_of, rules_of, write_begin_twice,
}
use macstab_chaos_testing_li.Common.Reload.{
  Library, Snapshot, State, snapshot, reset_state, publish, keep, tie, fill, finish, finish_load,
  load, reload_bytes, reload_file, reload,
}
use macstab_chaos_testing_li.Common.Reload.Publish.{
  IsKept, IsPublished, publish-IsPublished, keep-IsKept, IsPublished-provisional,
}

pair_up-texts :
    (hits : List (Option ℕ)) (texts : List Bytes)
    → length hits ≡ length texts
    → map (λ e. e.1) (pair_up hits texts) ≡ texts
unfolding pair_up
pair_up-texts [] [] h = refl
pair_up-texts [] (t ∷ ts) h = absurd (omega (arith, h))
pair_up-texts (i ∷ hits) [] h = absurd (omega (arith, h))
pair_up-texts (i ∷ hits) (t ∷ ts) h = ap (λ l. t ∷ l) (pair_up-texts hits ts (omega (arith, h)))

module _ {R : Type 0} (lib : Library R) where
  -- the rule as the file states it, without its hit slot
  abbrev pub stated : R → R
  stated r = lib.with_hit none 0 r

  map-tie :
      (pool : List Slot) (hits : List (Option ℕ)) (rs : List R)
      → map stated (tie lib pool hits rs) ≡ map stated rs
  unfolding tie
  map-tie pool [] rs = refl
  map-tie pool (h ∷ hits) [] = refl
  map-tie pool (h ∷ hits) (r ∷ rs) =
      rw (lib.with_hit_twice none h 0 (slot_generation h pool) r, map-tie pool hits rs) refl

  -- What a reader of the snapshot sees: the rules of the file with their texts, in the file's order, or
  -- no rule.
  pub record Holds (ok : Bool) (rs : List (R × Bytes)) (n : Snapshot R) : Type 0 where
    pub flag : n.parse_ok ≡ ok
    pub rules : map stated n.rules ≡ map stated (rules_of rs)
    pub texts : map (λ e. e.1) n.entries ≡ texts_of rs

  abbrev pub Shows : Loaded R → Snapshot R → Type 0
  Shows (accepted rs) n = Holds true rs n
  Shows (rejected e) n = Holds false [] n

  fill-Holds :
      (ok : Bool) (rs : List (R × Bytes)) (n old : Snapshot R) (pool : List Slot)
      → n.parse_ok ≡ ok
      → Holds ok rs (fill lib n rs old pool).0
  unfolding fill
  fill-Holds ok rs n old pool h = record {
    flag = h;
    rules =
        map-tie (assign pool old.entries (texts_of rs)).1 (assign pool old.entries (texts_of rs)).0
          (rules_of rs);
    texts =
        pair_up-texts (assign pool old.entries (texts_of rs)).0 (texts_of rs)
          (length-assign pool old.entries (texts_of rs));
  }

  publish-Holds :
      (b ok : Bool) (rs : List (R × Bytes)) (n : Snapshot R) (stamp : ℕ) (s : State R)
      → Holds ok rs n
      → Holds ok rs (snapshot b (publish b n stamp s))
  unfolding publish
  publish-Holds false ok rs n stamp s h = record { flag = h.flag; rules = h.rules; texts = h.texts }
  publish-Holds true ok rs n stamp s h = record { flag = h.flag; rules = h.rules; texts = h.texts }

  -- a load's end: the publication, and what it shows
  abbrev Ended : ℕ → ℕ → Bool → List (R × Bytes) → State R → State R → Type 0
  Ended observed content ok rs s s' =
      IsPublished s.active observed content s s' × Holds ok rs (snapshot (not s.active) s')

  finish-Ended :
      (observed content : ℕ) (ok : Bool) (rs : List (R × Bytes)) (error : StatusError) (s : State R)
      → Ended observed content ok rs s (finish lib observed content ok rs error s)
  unfolding finish fill reset_state
  finish-Ended observed content true rs error s =
      let reset = reset_state true (snapshot (not s.active) s) in
      (
        publish-IsPublished s.active observed s _ (fill lib reset rs (snapshot s.active s) s.pool).0
            (refl, refl) refl refl,
        publish-Holds (not s.active) true rs (fill lib reset rs (snapshot s.active s) s.pool).0
            observed _ (fill-Holds true rs reset (snapshot s.active s) s.pool refl),
      )
  finish-Ended observed content false rs error s =
      let reset = reset_state false (reset_state true (snapshot (not s.active) s)) in
      (
        publish-IsPublished s.active observed s _ (fill lib reset rs (snapshot s.active s) s.pool).0
            (refl, refl) (write_begin_twice (snapshot (not s.active) s).sequence) refl,
        publish-Holds (not s.active) false rs (fill lib reset rs (snapshot s.active s) s.pool).0
            observed _ (fill-Holds false rs reset (snapshot s.active s) s.pool refl),
      )

  -- What the file says, for a reader who knows nothing of snapshots: `none` where it could not be read
  -- this time.
  abbrev pub file_says : ℕ → ReadResult → Option (Loaded R)
  file_says observed transient = if observed == missing then some (accepted []) else none
  file_says observed (bytes_read bytes flag) =
      if observed == missing || length bytes == 0 then some (accepted []) else some (load lib bytes)
  file_says observed at_limit =
      if observed == missing then some (accepted []) else some (rejected (reject clear too_large))
  file_says observed no_access =
      if observed == missing then some (accepted []) else some (rejected (reject clear unreadable))

  -- The file is there, and could not be read this time, or has the stamp of before and bytes with the
  -- hash that is kept of the last load.
  abbrev pub stays : ℕ → ℕ → ReadResult → State R → Bool
  stays observed previous transient s = not (observed == missing)
  stays observed previous (bytes_read bytes flag) s =
      not (observed == missing) && (observed == previous && content_hash bytes == s.content)
  stays observed previous _ s = false

  -- The publication shows what the file says, and the hash of its bytes is kept.
  pub record IsReloaded (observed : ℕ) (r : ReadResult) (s s' : State R) : Type 0 where
    pub says : Loaded R
    pub said : file_says observed r ≡ some says
    pub published : IsPublished s.active observed (content_of observed r) s s'
    pub shown : Shows says (snapshot (not s.active) s')

  abbrev Ends : Bool → ℕ → ℕ → ReadResult → State R → State R → Type 0
  Ends true observed previous r s s' = IsKept s.active previous s s'
  Ends false observed previous r s s' = IsReloaded observed r s s'

  keeping :
      {observed c c' : ℕ} (s : State R) {s' : State R}
      → c ≡ c'
      → IsPublished s.active observed c s s'
      → IsPublished s.active observed c' s s'
  keeping {observed} s {s'} e p = subst (λ k. IsPublished s.active observed k s s') e p

  -- a rejection, or rules
  load-Reloaded :
      (observed content : ℕ) (r : ReadResult) (l : Loaded R) (s : State R)
      → file_says observed r ≡ some l
      → content ≡ content_of observed r
      → IsReloaded observed r s (finish_load lib observed content l s)
  unfolding finish_load
  load-Reloaded observed content r (accepted rs) s e c =
      let (p, h) = finish-Ended observed content true rs clear s in
      record { says = accepted rs; said = e; published = keeping s c p; shown = h }
  load-Reloaded observed content r (rejected x) s e c =
      let (p, h) = finish-Ended observed content false [] x s in
      record { says = rejected x; said = e; published = keeping s c p; shown = h }

  nothing-Reloaded :
      (observed content : ℕ) (r : ReadResult) (s : State R)
      → file_says observed r ≡ some (accepted [])
      → content ≡ content_of observed r
      → IsReloaded observed r s (finish lib observed content true [] s.error s)
  nothing-Reloaded observed content r s e c =
      let (p, h) = finish-Ended observed content true [] s.error s in
      record { says = accepted []; said = e; published = keeping s c p; shown = h }

  drop_flag :
      (flag : Bool) (observed : ℕ) (r : ReadResult) (s s' : State R)
      → IsReloaded observed r (record s { provisional = flag }) s'
      → IsReloaded observed r s s'
  drop_flag flag observed r s s' w = record {
    says = w.says;
    said = w.said;
    published =
        IsPublished-provisional s.active flag observed (content_of observed r) s s' w.published;
    shown = w.shown;
  }

  bytes-Ends :
      (observed previous : ℕ) (bytes : Bytes) (flag : Bool) (s : State R)
      → (observed == missing) ≡ false
      → Ends
          (observed == previous && content_hash bytes == s.content)
          observed
          previous
          (bytes_read bytes flag)
          s
          (reload_bytes lib observed previous bytes flag s)
  unfolding reload_bytes
  bytes-Ends observed previous bytes flag s there =
      let s' : State R = record s { provisional = flag } in
      elim (Bool-cases (observed == previous && content_hash bytes == s.content)) [
        | inl e ↦ rw (e, reload_bytes) (keep-IsKept flag previous s)
        | inr e ↦ elim (Bool-cases (length bytes == 0)) [
          | inl empty ↦
              rw (e, empty, reload_bytes)
                (drop_flag flag observed (bytes_read bytes flag) s _ (
                  nothing-Reloaded observed (content_hash bytes) (bytes_read bytes flag) s'
                    (rw (there, empty) refl) (rw there refl)))
          | inr full ↦
              rw (e, full, reload_bytes)
                (drop_flag flag observed (bytes_read bytes flag) s _ (
                  load-Reloaded observed (content_hash bytes) (bytes_read bytes flag)
                    (load lib bytes) s' (rw (there, full) refl) (rw there refl)))
        ]
      ]

  missing-Ends :
      (observed previous : ℕ) (r : ReadResult) (s : State R)
      → (observed == missing) ≡ true
      → Ends
          (stays observed previous r s)
          observed
          previous
          r
          s
          (finish lib observed 0 true [] s.error s)
  missing-Ends observed previous transient s e =
      rw e (nothing-Reloaded observed 0 transient s (rw e refl) refl)
  missing-Ends observed previous (bytes_read b f) s e =
      subst
        (λ c.
          Ends (not c && (observed == previous && content_hash b == s.content)) observed previous
            (bytes_read b f) s (finish lib observed 0 true [] s.error s))
        (sym e) (nothing-Reloaded observed 0 (bytes_read b f) s (rw e refl) (rw e refl))
  missing-Ends observed previous at_limit s e =
      nothing-Reloaded observed 0 at_limit s (rw e refl) refl
  missing-Ends observed previous no_access s e =
      nothing-Reloaded observed 0 no_access s (rw e refl) refl

  there-Ends :
      (observed previous : ℕ) (r : ReadResult) (s : State R)
      → (observed == missing) ≡ false
      → Ends
          (stays observed previous r s)
          observed
          previous
          r
          s
          (reload_file lib observed previous r s)
  unfolding reload_file
  there-Ends observed previous transient s e =
      subst (λ c. Ends (not c) observed previous transient s (keep previous s)) (sym e)
        (keep-IsKept s.provisional previous s)
  there-Ends observed previous (bytes_read b f) s e =
      subst
        (λ c.
          Ends (not c && (observed == previous && content_hash b == s.content)) observed previous
            (bytes_read b f) s (reload_bytes lib observed previous b f s))
        (sym e) (bytes-Ends observed previous b f s e)
  there-Ends observed previous at_limit s e =
      load-Reloaded observed 0 at_limit (rejected (reject clear too_large)) s (rw e refl) refl
  there-Ends observed previous no_access s e =
      load-Reloaded observed 0 no_access (rejected (reject clear unreadable)) s (rw e refl) refl

  abbrev either_way : ℕ → ℕ → ReadResult → State R → Bool → State R
  either_way observed previous r s b =
      if b then finish lib observed 0 true [] s.error s else reload_file lib observed previous r s

  reload-Ends :
      (observed previous : ℕ) (r : ReadResult) (s : State R)
      → Ends (stays observed previous r s) observed previous r s (reload lib observed previous r s)
  unfolding reload
  reload-Ends observed previous r s = elim (Bool-cases (observed == missing)) [
    | inl gone ↦
        subst (Ends (stays observed previous r s) observed previous r s)
          (sym (ap (either_way observed previous r s) gone))
          (missing-Ends observed previous r s gone)
    | inr there ↦
        subst (Ends (stays observed previous r s) observed previous r s)
          (sym (ap (either_way observed previous r s) there))
          (there-Ends observed previous r s there)
  ]

  -- The reload implements reading the file anew, up to the hash that it knows the file by. If the file is
  -- there and could not be read this time, or has the stamp of before and bytes whose hash is the one
  -- that the state keeps, then the snapshot that readers see, the pool, the status file and the kept
  -- hash are those of before, and the stamp of before is back. In every other case what readers see
  -- afterwards is what the file says, its rules in order with their texts or no rules where it is
  -- missing, empty or refused, in a complete snapshot with the stamp observed that the status file
  -- agrees with; what readers see in the old snapshot is untouched; and the state keeps the hash of the
  -- bytes read, or 0 where the file is missing, too large or not readable.
  pub reload_refines :
      (observed previous : ℕ) (r : ReadResult) (s : State R)
      → let s' = reload lib observed previous r s in
        ((stays observed previous r s ≡ true) × IsKept s.active previous s s')
        ⊎ ((stays observed previous r s ≡ false) × IsReloaded observed r s s')
  reload_refines observed previous r s = elim (Bool-cases (stays observed previous r s)) [
    | inl h ↦ inl (
      h,
      subst (λ b. Ends b observed previous r s (reload lib observed previous r s)) h
          (reload-Ends observed previous r s),
    )
    | inr h ↦ inr (
      h,
      subst (λ b. Ends b observed previous r s (reload lib observed previous r s)) h
          (reload-Ends observed previous r s),
    )
  ]
