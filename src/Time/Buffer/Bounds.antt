-- ===== src/Time/Buffer/Bounds.antt =====
-- What an accepted rule file of libchaos-time can hold.
use macstab_chaos_testing_li.Prelude.{ℕ, ◌≤◌, ◌≡◌, refl, List, Bytes, length, All}
use macstab_chaos_testing_li.Common.Policy.Word.{Policy}
use macstab_chaos_testing_li.Common.Policy.Gates.{no_size}
use macstab_chaos_testing_li.Common.Libc.{Libc}
use macstab_chaos_testing_li.Common.RuleFile.{accepted}
use macstab_chaos_testing_li.Common.RuleFile.Bounds.{parse_file_bounded}
use macstab_chaos_testing_li.Time.Selector.{Clock}
use macstab_chaos_testing_li.Time.Rule.{Effect, errno, latency, offset, regress, Errno, Rule}
use macstab_chaos_testing_li.Time.Rule.Effects.{HasParameter}
use macstab_chaos_testing_li.Time.Rule.Accepted.{IsRule, parse_time_line-IsRule}
use macstab_chaos_testing_li.Time.Buffer.{max_rules, time_grammar, parse_buffer}

module _ (libc : Libc) (clock_number : Clock → ℕ) (errno_number : Errno → ℕ) where
  -- A rule of the snapshot, as the wrappers find it.
  pub record IsLoaded (r : Rule) : Type 0 where
    pub well_formed : IsRule libc clock_number errno_number r
    pub no_bytes_yet : r.call_size ≡ no_size

  HasParameter-with_policy :
      (f : Effect) (r : Rule) (p : Policy)
      → HasParameter libc clock_number errno_number f r
      → HasParameter libc clock_number errno_number f (record r { policy = p; call_size = no_size })
  HasParameter-with_policy errno r p h = h
  HasParameter-with_policy latency r p h = h
  HasParameter-with_policy offset r p h = h
  HasParameter-with_policy regress r p h = h

  -- Of an accepted buffer, whatever its bytes, at most 256 rules are kept, and each of them is well
  -- formed and without a byte count of a call.
  pub parse_time_buffer-IsLoaded :
      (buffer : Bytes) {rs : List (Rule × Bytes)}
      → parse_buffer libc clock_number errno_number buffer ≡ accepted rs
      → (length rs ≤ max_rules) × All (λ r. IsLoaded r.0) rs
  unfolding parse_buffer
  parse_time_buffer-IsLoaded buffer h =
      parse_file_bounded (time_grammar libc clock_number errno_number)
        (IsRule libc clock_number errno_number) IsLoaded
        (λ line r. parse_time_line-IsRule libc clock_number errno_number line)
        (λ p r w fits. record {
          well_formed = record {
            stated = w.stated;
            probable = w.probable;
            permitted = w.permitted;
            parameter = HasParameter-with_policy r.effect r p w.parameter;
          };
          no_bytes_yet = refl;
        })
        buffer h
