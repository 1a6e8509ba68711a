-- ===== src/Common/Reload/Check.antt =====
-- The check of the rule file in front of a call.
use mathlib.Core.Path.{subst}
use macstab_chaos_testing_li.Prelude.{
  ℕ, ◌≡◌, ◌≢◌, inl, inr, refl, ◌∙◌, sym, Bool, true, false, not, ◌&&◌, some, arith, ◌==◌,
  Bool-cases,
}
use macstab_chaos_testing_li.Common.RuleFile.{Loaded}
use macstab_chaos_testing_li.Common.Snapshot.{
  missing, reloading, ReadResult, bytes_read, transient, at_limit, no_access,
}
use macstab_chaos_testing_li.Common.Reload.{
  Snapshot, Library, State, Answers, snapshot, set_snapshot, checked_recently, reload, reload_file,
  keep, refresh,
}
use macstab_chaos_testing_li.Common.Reload.Outcome.{Shows, file_says, stays, reload_refines}

module _ {R : Type 0} (lib : Library R) where
  -- the state behind the claim
  abbrev claimed : State R → State R
  claimed s = record s { cached = reloading; provisional = false }

  refresh_reloads :
      (a : Answers) (s : State R)
      → checked_recently a.recent s.cached ≡ false
      → (a.observed == s.cached && not s.provisional) ≡ false
      → (s.cached == reloading) ≡ false
      → refresh lib a s ≡ reload lib a.observed s.cached a.file (claimed s)
  unfolding refresh
  refresh_reloads a s e f g = rw (e, f, g, refresh) refl

  -- what says something is no passing failure, and a new stamp is not the old one
  new_goes :
      (observed previous : ℕ) (r : ReadResult) (s : State R) {l : Loaded R}
      → observed ≢ previous
      → file_says lib observed r ≡ some l
      → stays lib observed previous r s ≡ false
  new_goes observed previous transient s ne e = elim (Bool-cases (observed == missing)) [
    | inl gone ↦ rw gone refl
    | inr there ↦ absurd (ground (arith, rw there at e))
  ]
  new_goes observed previous (bytes_read b f) s ne e =
      let differ : (observed == previous) ≡ false = ground arith in ground (arith, differ)
  new_goes observed previous at_limit s ne e = refl
  new_goes observed previous no_access s ne e = refl

  -- A changed rule file is in force after the next check that looks at it: if the last check was not
  -- just now, the stamp of the file is a new one, no other thread is reloading, and the file can be
  -- read or is gone, then readers see afterwards what the file says, with the stamp observed.
  pub refresh_catches_up :
      (a : Answers) (s : State R) {l : Loaded R}
      → checked_recently a.recent s.cached ≡ false
      → a.observed ≢ s.cached
      → s.cached ≢ reloading
      → file_says lib a.observed a.file ≡ some l
      → let s' = refresh lib a s in (s'.cached ≡ a.observed) × Shows lib l (snapshot s'.active s')
  refresh_catches_up a s {l = l} old new free says =
      let moved : (a.observed == s.cached && not s.provisional) ≡ false = ground arith in
      let idle : (s.cached == reloading) ≡ false = ground arith in
      let goes = new_goes a.observed s.cached a.file (claimed s) new says in
      subst (λ s'. (s'.cached ≡ a.observed) × Shows lib l (snapshot s'.active s'))
        (sym (refresh_reloads a s old moved idle))
        (elim (reload_refines lib a.observed s.cached a.file (claimed s)) [
          | inl (still, k) ↦ absurd (ground (arith, goes, still))
          | inr (w, done) ↦
              let same : done.says ≡ l = cc in
              (
                done.published.stamp,
                subst
                    (λ i.
                      Shows lib l (snapshot i (reload lib a.observed s.cached a.file (claimed s))))
                    (sym done.published.index)
                    (subst
                      (λ x. Shows lib x (
                        snapshot (not s.active)
                          (reload lib a.observed s.cached a.file (claimed s))))
                      same done.shown),
              )
        ])

  kept_provisional :
      (b : Bool) (n : Snapshot R) (s : State R) → (set_snapshot b n s).provisional ≡ s.provisional
  kept_provisional false n s = refl
  kept_provisional true n s = refl

  -- A check that finds the stamp of the last load, and nothing provisional, changes nothing.
  refresh_settled :
      (b : Answers) (s : State R)
      → b.observed ≡ s.cached
      → s.provisional ≡ false
      → refresh lib b s ≡ s
  unfolding refresh
  refresh_settled b s e p = elim (Bool-cases (checked_recently b.recent s.cached)) [
    | inl recent ↦ rw (recent, refresh) refl
    | inr old ↦
        let same : (b.observed == s.cached && not s.provisional) ≡ true = ground (arith, e, p) in
        rw (old, same, refresh) refl
  ]

  -- Where the second read of a provisional load fails in passing, while the file is there with the stamp
  -- of that load, a further check with that stamp changes nothing, whatever the file holds by then.
  reread_not_retried :
      (a b : Answers) (s : State R)
      → checked_recently a.recent s.cached ≡ false
      → s.provisional ≡ true
      → s.cached ≢ reloading
      → s.cached ≢ missing
      → a.observed ≡ s.cached
      → a.file ≡ transient
      → b.observed ≡ s.cached
      → refresh lib b (refresh lib a s) ≡ refresh lib a s
  unfolding reload reload_file keep
  reread_not_retried a b s old due free there same failed again =
      let open_case : (a.observed == s.cached && not s.provisional) ≡ false = ground (arith, due) in
      let idle : (s.cached == reloading) ≡ false = ground arith in
      let here : (a.observed == missing) ≡ false = ground arith in
      let left : refresh lib a s ≡ keep s.cached (claimed s) =
        refresh_reloads a s old open_case idle ∙ rw (here, failed) refl in
      rw left (
        refresh_settled b (keep s.cached (claimed s)) again
          (kept_provisional (not s.active) _ (claimed s)))
