-- ===== src/Common/Reload/Fork.antt =====
-- `chaos_net_config_after_fork`: the child of a process one thread of which may be reloading. The
-- counters of the hits file are left out.
use macstab_chaos_testing_li.Prelude.{◌≡◌, ◌≢◌, refl, ◌∙◌, some, arith, ◌==◌, if◌then◌else◌}
use macstab_chaos_testing_li.Common.Hits.Pool.{pool_after_fork}
use macstab_chaos_testing_li.Common.RuleFile.{Loaded}
use macstab_chaos_testing_li.Common.Snapshot.{reloading, unknown}
use macstab_chaos_testing_li.Common.Reload.{
  Library, State, Answers, snapshot, hit_slots, refresh, checked_recently,
}
use macstab_chaos_testing_li.Common.Reload.Outcome.{Shows, file_says}
use macstab_chaos_testing_li.Common.Reload.Check.{refresh_catches_up}

module _ {R : Type 0} where
  -- `chaos_net_config_after_fork`
  unfoldable pub after_fork : State R → State R
  after_fork s = record s {
    cached = if s.cached == reloading then unknown else s.cached;
    pool = if s.pool_used then pool_after_fork s.pool (hit_slots (snapshot s.active s)) else s.pool;
  }

  -- A child that was forked while a thread of its parent was reloading is not stuck with the claim: its
  -- next check takes over what the file says, if the file can be read or is gone and its stamp is not
  -- the one that stands for none.
  pub fork_catches_up :
      (lib : Library R) (a : Answers) (s : State R) {l : Loaded R}
      → s.cached ≡ reloading
      → a.observed ≢ unknown
      → file_says lib a.observed a.file ≡ some l
      → let s' = refresh lib a (after_fork s) in
        (s'.cached ≡ a.observed) × Shows lib l (snapshot s'.active s')
  unfolding after_fork checked_recently
  fork_catches_up lib a s held new says =
      let c : (after_fork s).cached ≡ unknown = rw held refl in
      refresh_catches_up lib a (after_fork s) (rw c refl) (λ e. new (e ∙ c))
        (λ e. ground (arith, c, e)) says
