-- ===== src/Common/Reload/Publish.antt =====
-- What one publication, and one release of the claim without it, mean for the readers of the snapshots.
use macstab_chaos_testing_li.Prelude.{ℕ, ◌%◌, ◌≡◌, refl, Bool, true, false, not}
use macstab_chaos_testing_li.Common.Snapshot.{write_end-write_begin, write_begin, read_valid}
use macstab_chaos_testing_li.Common.Reload.{
  Snapshot, State, snapshot, set_snapshot, publish, report, keep, reset_state,
}

module _ {R : Type 0} where
  -- `a` is whether the index is 1 before the call. Nothing is published.
  pub record IsKept (a : Bool) (previous : ℕ) (s s' : State R) : Type 0 where
    pub index : s'.active ≡ a
    pub view : snapshot a s' ≡ snapshot a s
    pub stamp : s'.cached ≡ previous
    pub pool : s'.pool ≡ s.pool
    pub status : s'.status ≡ s.status
    pub content : s'.content ≡ s.content

  -- The other snapshot is active now; it is complete, and agrees with the status file; `content` is kept. The one that
  -- was active is untouched, so that a copy begun there stays valid, while a copy that was begun in
  -- the rewritten snapshot does not.
  pub record IsPublished (a : Bool) (observed content : ℕ) (s s' : State R) : Type 0 where
    pub index : s'.active ≡ not a
    pub old_view : snapshot a s' ≡ snapshot a s
    pub complete : (snapshot (not a) s').sequence % 2 ≡ 0
    pub overtaken : read_valid (snapshot (not a) s').sequence (snapshot (not a) s).sequence ≡ false
    pub stamp : s'.cached ≡ observed
    pub kept : s'.content ≡ content
    pub told : s'.status ≡ report observed (snapshot (not a) s') s'.error

  pub publish-IsPublished :
      (a : Bool) (observed : ℕ) (s s₀ : State R) (n : Snapshot R)
      → (s₀.zeroth ≡ s.zeroth) × (s₀.first ≡ s.first)
      → n.sequence ≡ write_begin (snapshot (not a) s).sequence
      → s₀.status ≡ report observed n s₀.error
      → IsPublished a observed s₀.content s (publish (not a) n observed s₀)
  unfolding publish
  publish-IsPublished false observed s s₀ n (e, f) q t = record {
    index = refl;
    old_view = e;
    complete = rw q (write_end-write_begin s.first.sequence).0;
    overtaken = rw q (write_end-write_begin s.first.sequence).1;
    stamp = refl;
    kept = refl;
    told = t;
  }
  publish-IsPublished true observed s s₀ n (e, f) q t = record {
    index = refl;
    old_view = f;
    complete = rw q (write_end-write_begin s.zeroth.sequence).0;
    overtaken = rw q (write_end-write_begin s.zeroth.sequence).1;
    stamp = refl;
    kept = refl;
    told = t;
  }

  put_back :
      (a flag : Bool) (previous : ℕ) (s : State R) (n : Snapshot R)
      → s.active ≡ a
      → IsKept a previous s
          (record (set_snapshot (not a) n (record s { provisional = flag })) { cached = previous })
  put_back false flag previous s n e = record {
    index = e;
    view = refl;
    stamp = refl;
    pool = refl;
    status = refl;
    content = refl;
  }
  put_back true flag previous s n e = record {
    index = e;
    view = refl;
    stamp = refl;
    pool = refl;
    status = refl;
    content = refl;
  }

  pub keep-IsKept :
      (flag : Bool) (previous : ℕ) (s : State R)
      → IsKept s.active previous s (keep previous (record s { provisional = flag }))
  unfolding keep
  keep-IsKept flag previous s =
      put_back s.active flag previous s
        (reset_state true (snapshot (not s.active) (record s { provisional = flag }))) refl

  pub IsPublished-provisional :
      (a flag : Bool) (observed content : ℕ) (s s' : State R)
      → IsPublished a observed content (record s { provisional = flag }) s'
      → IsPublished a observed content s s'
  IsPublished-provisional false flag observed content s s' p = record {
    index = p.index;
    old_view = p.old_view;
    complete = p.complete;
    overtaken = p.overtaken;
    stamp = p.stamp;
    kept = p.kept;
    told = p.told;
  }
  IsPublished-provisional true flag observed content s s' p = record {
    index = p.index;
    old_view = p.old_view;
    complete = p.complete;
    overtaken = p.overtaken;
    stamp = p.stamp;
    kept = p.kept;
    told = p.told;
  }
