-- ===== src/Net/Buffer/Bounds.antt =====
-- What an accepted rule file of libchaos-net can hold.
use macstab_chaos_testing_li.Prelude.{◌≤◌, ◌≡◌, refl, Bool, true, List, Bytes, length, All}
use macstab_chaos_testing_li.Common.Policy.Gates.{no_size}
use macstab_chaos_testing_li.Common.Libc.{Libc}
use macstab_chaos_testing_li.Common.RuleFile.{accepted}
use macstab_chaos_testing_li.Common.RuleFile.Bounds.{parse_file_bounded}
use macstab_chaos_testing_li.Net.Rule.{Rule}
use macstab_chaos_testing_li.Net.Rule.Accepted.{IsRule, parse_net_line-IsRule}
use macstab_chaos_testing_li.Net.Buffer.{max_rules, net_grammar, parse_buffer}

module _ (libc : Libc) (supported : Rule → Bool) where
  -- A rule of the snapshot, as the wrappers find it.
  pub record IsLoaded (r : Rule) : Type 0 where
    pub well_formed : IsRule libc r
    pub applicable : supported r ≡ true
    pub no_bytes_yet : r.call_size ≡ no_size

  -- Of an accepted buffer, whatever its bytes, at most 256 rules are kept, and each of them is well
  -- formed, supported by the build, and without a byte count of a call.
  pub parse_net_buffer-IsLoaded :
      (buffer : Bytes) {rs : List (Rule × Bytes)}
      → parse_buffer libc supported buffer ≡ accepted rs
      → (length rs ≤ max_rules) × All (λ r. IsLoaded r.0) rs
  unfolding parse_buffer
  parse_net_buffer-IsLoaded buffer h =
      parse_file_bounded (net_grammar libc supported) (IsRule libc) IsLoaded
        (λ line r. parse_net_line-IsRule libc line)
        (λ p r w fits. record {
          well_formed = record {
            stated = w.stated;
            selectable = w.selectable;
            permitted = w.permitted;
            probable = w.probable;
            latency_fits = w.latency_fits;
            chunk_fits = w.chunk_fits;
            parameters = w.parameters;
          };
          applicable = fits;
          no_bytes_yet = refl;
        })
        buffer h
