-- ===== src/Io/Buffer/Bounds.antt =====
-- What an accepted rule file of libchaos-io can hold.
use macstab_chaos_testing_li.Prelude.{ℕ, ◌≤◌, ◌≡◌, refl, Bool, true, List, Bytes, length, All}
use macstab_chaos_testing_li.Common.Policy.Gates.{no_size}
use macstab_chaos_testing_li.Common.RuleFile.{accepted}
use macstab_chaos_testing_li.Common.RuleFile.Bounds.{parse_file_bounded}
use macstab_chaos_testing_li.Io.Rule.{Rule}
use macstab_chaos_testing_li.Io.Rule.Accepted.{IsRule, parse_line-IsRule}
use macstab_chaos_testing_li.Io.Buffer.{max_rules, io_grammar, parse_buffer}

module _ (strtoul : Bytes → ℕ × Bytes) (supported : Rule → Bool) where
  -- A rule of the snapshot, as the wrappers find it.
  pub record IsLoaded (r : Rule) : Type 0 where
    pub well_formed : IsRule r
    pub applicable : supported r ≡ true
    pub no_bytes_yet : r.call_size ≡ no_size

  -- Of an accepted buffer, whatever its bytes, at most 256 rules are kept, and each of them is well
  -- formed, supported by the build, and without a byte count of a call.
  pub parse_buffer-IsLoaded :
      (buffer : Bytes) {rs : List (Rule × Bytes)}
      → parse_buffer strtoul supported buffer ≡ accepted rs
      → (length rs ≤ max_rules) × All (λ r. IsLoaded r.0) rs
  unfolding parse_buffer
  parse_buffer-IsLoaded buffer h =
      parse_file_bounded (io_grammar strtoul supported) IsRule IsLoaded
        (λ line r. parse_line-IsRule strtoul line)
        (λ p r w fits. record {
          well_formed = record {
            path_filled = w.path_filled;
            path_short = w.path_short;
            probable = w.probable;
            latency_fits = w.latency_fits;
            permitted = w.permitted;
            parameter = w.parameter;
          };
          applicable = fits;
          no_bytes_yet = refl;
        })
        buffer h
