-- ===== src/Io/Reload/Outcome.antt =====
-- src/config/chaos_io_config.c: what `chaos_io_config_reload` leaves for readers, branch by branch.
use mathlib.Core.Path.{subst}
use macstab_chaos_testing_li.Prelude.{
  ℕ, ◌≡◌, ◌⊎◌, inl, inr, refl, sym, ◌∙◌, Bool, true, false, not, ◌&&◌, Option, arith, Bytes, ◌==◌,
  Bool-cases,
}
use macstab_chaos_testing_li.Common.Status.{clear, reject, too_large, unreadable, content_hash}
use macstab_chaos_testing_li.Common.Snapshot.{
  content_of, ReadResult, at_limit, bytes_read, missing, no_access, transient,
}
use macstab_chaos_testing_li.Io.Rule.{Rule}
use macstab_chaos_testing_li.Common.RuleFile.{Loaded, accepted, rejected}
use macstab_chaos_testing_li.Io.Reload.{
  State, snapshot, set_snapshot, reset_state, links_due, fill, finish_load, unload, keep, rechecked,
  links_moved, reload_bytes, reload, load,
}
use macstab_chaos_testing_li.Io.Reload.Publish.{
  IsKept, IsPublished, publish-IsPublished, Unpublished, stamp_back, touched, untouched,
  IsPublished-from, IsKept-from, same_snapshot,
}

module _ (strtoul : Bytes → ℕ × Bytes) (realpath : Bytes → Option Bytes) (supported : Rule → Bool)
    (now : ℕ) where
  unload-IsPublished :
      (s : State) → IsPublished s.active missing 0 s (unload strtoul realpath supported now s)
  unfolding unload reset_state
  unload-IsPublished s =
      publish-IsPublished s.active missing s _ (reset_state true (snapshot (not s.active) s))
        (refl, refl) refl (inl (refl, refl))

  finish_load-IsPublished :
      (observed content : ℕ) (l : Loaded Rule) (s : State)
      → IsPublished s.active observed content s
          (finish_load strtoul realpath supported now observed content l s)
  unfolding finish_load fill reset_state
  finish_load-IsPublished observed content (accepted rs) s =
      publish-IsPublished s.active observed s _ _ (refl, refl) refl (inr refl)
  finish_load-IsPublished observed content (rejected e) s =
      publish-IsPublished s.active observed s _ _ (refl, refl) refl (inr refl)

  keep-IsKept :
      (a : Bool) (previous : ℕ) (s s₀ : State)
      → Unpublished a s s₀
      → IsKept a previous s (keep strtoul realpath supported now previous s₀)
  unfolding keep
  keep-IsKept a previous s s₀ u =
      let after : Bool → State = (λ b.
        record (set_snapshot (not b) (reset_state true (snapshot (not b) s₀)) s₀) {
          cached = previous;
        }) in
      subst (λ b. IsKept a previous s (after b)) (sym u.index)
        (stamp_back a previous s s₀ (reset_state true (snapshot (not a) s₀)) u)

  rechecked-Unpublished :
      (s : State) → Unpublished s.active s (rechecked strtoul realpath supported now s)
  unfolding rechecked
  rechecked-Unpublished s = elim (Bool-cases (links_due now (snapshot s.active s))) [
    | inr e ↦ rw (e, rechecked) (untouched s)
    | inl e ↦ rw (e, rechecked) (touched s.active now s refl)
  ]

  -- The file is there, and could not be read this time, or has the stamp of before and bytes with the
  -- hash that is kept of the last load, while no recheck of the links is due or none has moved.
  abbrev pub stays : ℕ → ℕ → ReadResult → State → Bool
  stays observed previous transient s = not (observed == missing)
  stays observed previous (bytes_read bytes flag) s =
      not (observed == missing)
      && ((observed == previous && content_hash bytes == s.content)
          && not (links_moved strtoul realpath supported now s))
  stays observed previous _ s = false

  abbrev Ends : Bool → ℕ → ℕ → ℕ → State → State → Type 0
  Ends true observed content previous s s' = IsKept s.active previous s s'
  Ends false observed content previous s s' = IsPublished s.active observed content s s'

  links_moved-provisional :
      (flag : Bool) (s : State)
      → links_moved strtoul realpath supported now (record s { provisional = flag })
        ≡ links_moved strtoul realpath supported now s
  unfolding links_moved
  links_moved-provisional flag s = rw (same_snapshot s.active flag s) refl

  bytes-Ends :
      (observed previous : ℕ) (bytes : Bytes) (flag : Bool) (s : State)
      → Ends
          ((observed == previous && content_hash bytes == s.content)
            && not (links_moved strtoul realpath supported now s))
          observed
          (content_hash bytes)
          previous
          s
          (reload_bytes strtoul realpath supported now observed previous bytes flag s)
  unfolding reload_bytes
  bytes-Ends observed previous bytes flag s =
      let s' : State = record s { provisional = flag } in
      let new = IsPublished-from s.active flag observed (content_hash bytes) s _ (
        finish_load-IsPublished observed (content_hash bytes)
          (load strtoul realpath supported now bytes) s') in
      elim (Bool-cases (observed == previous && content_hash bytes == s.content)) [
        | inr e ↦ rw (e, reload_bytes) new
        | inl e ↦ elim (Bool-cases (links_moved strtoul realpath supported now s)) [
          | inl m ↦ let m' = links_moved-provisional flag s ∙ m in rw (e, m, m', reload_bytes) new
          | inr m ↦
              let m' = links_moved-provisional flag s ∙ m in
              rw (e, m, m', reload_bytes)
                (IsKept-from s.active flag previous s _ (
                  keep-IsKept s.active previous s' (rechecked strtoul realpath supported now s')
                    (rechecked-Unpublished s')))
        ]
      ]

  missing-Ends :
      (observed previous : ℕ) (r : ReadResult) (s : State)
      → observed ≡ missing
      → Ends
          (stays observed previous r s)
          observed
          (content_of observed r)
          previous
          s
          (reload strtoul realpath supported now observed previous r s)
  unfolding reload
  missing-Ends observed previous transient s e = rw e (unload-IsPublished s)
  missing-Ends observed previous (bytes_read b f) s e = rw e (unload-IsPublished s)
  missing-Ends observed previous at_limit s e = rw e (unload-IsPublished s)
  missing-Ends observed previous no_access s e = rw e (unload-IsPublished s)

  there-Ends :
      (observed previous : ℕ) (r : ReadResult) (s : State)
      → (observed == missing) ≡ false
      → Ends
          (stays observed previous r s)
          observed
          (content_of observed r)
          previous
          s
          (reload strtoul realpath supported now observed previous r s)
  unfolding reload
  there-Ends observed previous transient s e =
      rw (e, reload) (keep-IsKept s.active previous s s (untouched s))
  there-Ends observed previous (bytes_read b f) s e =
      rw (e, reload) (bytes-Ends observed previous b f s)
  there-Ends observed previous at_limit s e =
      rw (e, reload) (finish_load-IsPublished observed 0 (rejected (reject clear too_large)) s)
  there-Ends observed previous no_access s e =
      rw (e, reload) (finish_load-IsPublished observed 0 (rejected (reject clear unreadable)) s)

  -- Whatever the file holds and however it reads, a reload ends the claim in one of two ways. If the file
  -- is there and the read fails in passing, or the file is there with the stamp of before and bytes
  -- whose hash is the one that the state keeps, while no recheck of the links is due or none has moved:
  -- then the snapshot that readers see, the pool, the status file and the kept hash stay, and the stamp
  -- of before is back. In every other case the other snapshot, complete and in agreement with the status
  -- file, becomes the active one with the stamp observed; what readers see in the old one stays; and the
  -- state keeps the hash of the bytes read, or 0 where the file is missing, too large or not readable.
  pub reload_ends :
      (observed previous : ℕ) (r : ReadResult) (s : State)
      → let s' = reload strtoul realpath supported now observed previous r s in
        ((stays observed previous r s ≡ true) × IsKept s.active previous s s')
        ⊎ ((stays observed previous r s ≡ false)
            × IsPublished s.active observed (content_of observed r) s s')
  reload_ends observed previous r s =
      let ends : Ends (stays observed previous r s) observed (content_of observed r) previous s
          (reload strtoul realpath supported now observed previous r s) =
        elim (Bool-cases (observed == missing)) [
          | inl gone ↦ missing-Ends observed previous r s (ground arith)
          | inr there ↦ there-Ends observed previous r s there
        ] in
      elim (Bool-cases (stays observed previous r s)) [
        | inl h ↦ inl (h, at_end h ends)
        | inr h ↦ inr (h, at_end h ends)
      ]
    where
      at_end :
          {b : Bool}
          → stays observed previous r s ≡ b
          → Ends
              (stays observed previous r s)
              observed
              (content_of observed r)
              previous
              s
              (reload strtoul realpath supported now observed previous r s)
          → Ends b observed
              (content_of observed r)
              previous
              s
              (reload strtoul realpath supported now observed previous r s)
      at_end h e =
          subst
            (λ c.
              Ends c observed (content_of observed r) previous s
                (reload strtoul realpath supported now observed previous r s))
            h e
