-- ===== src/Dns/Buffer/Bounds.antt =====
-- What an accepted rule file of libchaos-dns can hold.
use macstab_chaos_testing_li.Prelude.{◌≤◌, ◌≡◌, refl, List, Bytes, length, All}
use macstab_chaos_testing_li.Common.Policy.Word.{Policy}
use macstab_chaos_testing_li.Common.Policy.Gates.{no_size}
use macstab_chaos_testing_li.Common.Libc.{Libc}
use macstab_chaos_testing_li.Common.RuleFile.{accepted}
use macstab_chaos_testing_li.Common.RuleFile.Bounds.{parse_file_bounded}
use macstab_chaos_testing_li.Dns.Rule.{
  Effect, gai, latency, rewrite, service, override, filter_family, limit, shuffle, Rule,
}
use macstab_chaos_testing_li.Dns.Rule.Effects.{HasParameter}
use macstab_chaos_testing_li.Dns.Rule.Accepted.{IsRule, parse_dns_line-IsRule}
use macstab_chaos_testing_li.Dns.Buffer.{max_rules, dns_grammar, parse_buffer}

module _ (libc : Libc) where
  -- A rule of the snapshot, as the lookups find it.
  pub record IsLoaded (r : Rule) : Type 0 where
    pub well_formed : IsRule libc r
    pub no_bytes_yet : r.call_size ≡ no_size

  HasParameter-with_policy :
      (f : Effect) (r : Rule) (p : Policy)
      → HasParameter libc f r
      → HasParameter libc f (record r { policy = p; call_size = no_size })
  HasParameter-with_policy gai r p h = h
  HasParameter-with_policy latency r p h = h
  HasParameter-with_policy rewrite r p h = h
  HasParameter-with_policy service r p h = h
  HasParameter-with_policy override r p h = h
  HasParameter-with_policy filter_family r p h = h
  HasParameter-with_policy limit r p h = h
  HasParameter-with_policy shuffle r p h = h

  -- Of an accepted buffer, whatever its bytes, at most 256 rules are kept, and each of them is well
  -- formed and without a byte count of a call.
  pub parse_dns_buffer-IsLoaded :
      (buffer : Bytes) {rs : List (Rule × Bytes)}
      → parse_buffer libc buffer ≡ accepted rs
      → (length rs ≤ max_rules) × All (λ r. IsLoaded r.0) rs
  unfolding parse_buffer
  parse_dns_buffer-IsLoaded buffer h =
      parse_file_bounded (dns_grammar libc) (IsRule libc) IsLoaded
        (λ line r. parse_dns_line-IsRule libc line)
        (λ p r w fits. record {
          well_formed = record {
            stated = w.stated;
            permitted = w.permitted;
            probable = w.probable;
            parameter = HasParameter-with_policy r.effect r p w.parameter;
          };
          no_bytes_yet = refl;
        })
        buffer h
