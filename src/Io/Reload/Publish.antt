-- ===== src/Io/Reload/Publish.antt =====
-- What one publication, and one release of the claim without it, mean for the readers of the snapshots.
use macstab_chaos_testing_li.Prelude.{ℕ, ◌%◌, ◌≡◌, ◌⊎◌, refl, Bool, true, false, not, []}
use macstab_chaos_testing_li.Common.Snapshot.{
  write_end-write_begin, read_valid, removed, write_begin,
}
use macstab_chaos_testing_li.Io.Reload.{Snapshot, State, snapshot, set_snapshot, publish, report}

-- What a reader copies from a snapshot, and the sequence that it checks.
pub record SameView (n n' : Snapshot) : Type 0 where
  pub sequence : n'.sequence ≡ n.sequence
  pub rules : n'.rules ≡ n.rules
  pub entries : n'.entries ≡ n.entries
  pub parse_ok : n'.parse_ok ≡ n.parse_ok

-- `a` is whether the index is 1 before the call. Nothing is published.
pub record IsKept (a : Bool) (previous : ℕ) (s s' : State) : Type 0 where
  pub index : s'.active ≡ a
  pub view : SameView (snapshot a s) (snapshot a s')
  pub stamp : s'.cached ≡ previous
  pub pool : s'.pool ≡ s.pool
  pub status : s'.status ≡ s.status
  pub content : s'.content ≡ s.content

-- The other snapshot is active now; it is complete, and agrees with the status file; `content` is kept. The one that was
-- active is untouched, so that a copy begun there stays valid, while a copy that was begun in the
-- rewritten snapshot does not.
pub record IsPublished (a : Bool) (observed content : ℕ) (s s' : State) : Type 0 where
  pub index : s'.active ≡ not a
  pub old_view : SameView (snapshot a s) (snapshot a s')
  pub complete : (snapshot (not a) s').sequence % 2 ≡ 0
  pub overtaken : read_valid (snapshot (not a) s').sequence (snapshot (not a) s).sequence ≡ false
  pub stamp : s'.cached ≡ observed
  pub kept : s'.content ≡ content
  pub told :
      (s'.status ≡ removed × ((snapshot (not a) s').rules ≡ []))
      ⊎ (s'.status ≡ report (snapshot (not a) s') s'.error)

pub same_view : (n : Snapshot) → SameView n n
same_view n = record { sequence = refl; rules = refl; entries = refl; parse_ok = refl }

-- Both snapshots are those of another state.
abbrev pub SameSnapshots : State → State → Type 0
SameSnapshots s s₀ = (s₀.zeroth ≡ s.zeroth) × (s₀.first ≡ s.first)

-- The status agrees with the snapshot.
abbrev pub Told : State → Snapshot → Type 0
Told s n = (s.status ≡ removed × (n.rules ≡ [])) ⊎ (s.status ≡ report n s.error)

pub publish-IsPublished :
    (a : Bool) (observed : ℕ) (s s₀ : State) (n : Snapshot)
    → SameSnapshots s s₀
    → n.sequence ≡ write_begin (snapshot (not a) s).sequence
    → Told s₀ n
    → IsPublished a observed s₀.content s (publish (not a) n observed s₀)
unfolding publish
publish-IsPublished false observed s s₀ n (e, f) q t = record {
  index = refl;
  old_view = rw e (same_view s.zeroth);
  complete = rw q (write_end-write_begin s.first.sequence).0;
  overtaken = rw q (write_end-write_begin s.first.sequence).1;
  stamp = refl;
  kept = refl;
  told = t;
}
publish-IsPublished true observed s s₀ n (e, f) q t = record {
  index = refl;
  old_view = rw f (same_view s.first);
  complete = rw q (write_end-write_begin s.zeroth.sequence).0;
  overtaken = rw q (write_end-write_begin s.zeroth.sequence).1;
  stamp = refl;
  kept = refl;
  told = t;
}

-- what a call that publishes nothing may change
pub record Unpublished (a : Bool) (s s₀ : State) : Type 0 where
  pub index : s₀.active ≡ a
  pub view : SameView (snapshot a s) (snapshot a s₀)
  pub pool : s₀.pool ≡ s.pool
  pub status : s₀.status ≡ s.status
  pub content : s₀.content ≡ s.content

pub stamp_back :
    (a : Bool) (previous : ℕ) (s s₀ : State) (n : Snapshot)
    → Unpublished a s s₀
    → IsKept a previous s (record (set_snapshot (not a) n s₀) { cached = previous })
stamp_back false previous s s₀ n u = record {
  index = u.index;
  view = u.view;
  stamp = refl;
  pool = u.pool;
  status = u.status;
  content = u.content;
}
stamp_back true previous s s₀ n u = record {
  index = u.index;
  view = u.view;
  stamp = refl;
  pool = u.pool;
  status = u.status;
  content = u.content;
}

touched_view : (n : Snapshot) (ms : ℕ) → SameView n (record n { resolved_ms = ms })
touched_view n ms = record { sequence = refl; rules = refl; entries = refl; parse_ok = refl }

pub touched :
    (a : Bool) (ms : ℕ) (s : State)
    → s.active ≡ a
    → Unpublished a s (set_snapshot a (record (snapshot a s) { resolved_ms = ms }) s)
touched false ms s e = record {
  index = e;
  view = touched_view s.zeroth ms;
  pool = refl;
  status = refl;
  content = refl;
}
touched true ms s e = record {
  index = e;
  view = touched_view s.first ms;
  pool = refl;
  status = refl;
  content = refl;
}

pub untouched : (s : State) → Unpublished s.active s s
untouched s = record {
  index = refl;
  view = same_view (snapshot s.active s);
  pool = refl;
  status = refl;
  content = refl;
}

-- The flag that the read sets is none of what a reload is judged by.
pub IsPublished-from :
    (a flag : Bool) (observed content : ℕ) (s s' : State)
    → IsPublished a observed content (record s { provisional = flag }) s'
    → IsPublished a observed content s s'
IsPublished-from false flag observed content s s' p = record {
  index = p.index;
  old_view = p.old_view;
  complete = p.complete;
  overtaken = p.overtaken;
  stamp = p.stamp;
  kept = p.kept;
  told = p.told;
}
IsPublished-from true flag observed content s s' p = record {
  index = p.index;
  old_view = p.old_view;
  complete = p.complete;
  overtaken = p.overtaken;
  stamp = p.stamp;
  kept = p.kept;
  told = p.told;
}

pub IsKept-from :
    (a flag : Bool) (previous : ℕ) (s s' : State)
    → IsKept a previous (record s { provisional = flag }) s'
    → IsKept a previous s s'
IsKept-from false flag previous s s' p = record {
  index = p.index;
  view = p.view;
  stamp = p.stamp;
  pool = p.pool;
  status = p.status;
  content = p.content;
}
IsKept-from true flag previous s s' p = record {
  index = p.index;
  view = p.view;
  stamp = p.stamp;
  pool = p.pool;
  status = p.status;
  content = p.content;
}

pub same_snapshot :
    (a flag : Bool) (s : State) → snapshot a (record s { provisional = flag }) ≡ snapshot a s
same_snapshot false flag s = refl
same_snapshot true flag s = refl
