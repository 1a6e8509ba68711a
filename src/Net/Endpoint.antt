-- ===== src/Net/Endpoint.antt =====
-- src/net/chaos_net_endpoint.c: the endpoint that a rule selects or that a socket has, and which of the
-- one kind cover which of the other. The members of the union are three fields; `kind` says
-- which of them the code reads.
pub mod Covers
use macstab_chaos_testing_li.Prelude.{
  ℕ, zero, suc, Bool, true, false, not, ◌&&◌, ◌||◌, Option, none, some, List, [], ◌∷◌, Bytes, codes,
  bytes_eq, strip_prefix, ◌==◌, ltb, leb, if◌then◌else◌, length,
}
use macstab_chaos_testing_li.Common.Libc.{Libc, split_first, split_last}

-- `chaos_net_endpoint_kind_t`, less CHAOS_NET_ENDPOINT_INVALID
pub data Kind : Type 0 where
  any tcp4 tcp6 udp4 udp6 unix : Kind

-- `==` on `chaos_net_endpoint_kind_t`, by its enumerators' numbers
abbrev pub kind_number : Kind → ℕ
kind_number any = 0
kind_number tcp4 = 1
kind_number tcp6 = 2
kind_number udp4 = 3
kind_number udp6 = 4
kind_number unix = 5

-- `chaos_net_endpoint_t`
pub record Endpoint : Type 0 where
  pub kind : Kind
  pub selector_len : ℕ
  pub port : ℕ
  pub wildcard_host : Bool
  pub ipv4 : Bytes
  pub ipv6 : Bytes
  pub text : Bytes

abbrev pub zero_bytes : ℕ → Bytes
zero_bytes zero = []
zero_bytes (suc n) = 0 ∷ zero_bytes n

-- what `memset` leaves
abbrev pub no_endpoint : Endpoint
no_endpoint = record {
  kind = any;
  selector_len = 0;
  port = 0;
  wildcard_host = false;
  ipv4 = zero_bytes 4;
  ipv6 = zero_bytes 16;
  text = [];
}

-- `CHAOS_NET_MAX_TEXT`
abbrev pub max_text : ℕ
max_text = 256

module _ (libc : Libc) where
  -- `chaos_net_parse_port`
  unfoldable pub parse_port : Bytes → Option ℕ
  parse_port [] = none
  parse_port (c ∷ s) =
      let (value, rest) = libc.strtoul (c ∷ s) in
      if not (bytes_eq rest []) || ltb 65535 value then none else some value

  unfoldable pub with_port : Option ℕ → Endpoint → Option Endpoint
  with_port none e = none
  with_port (some n) e = some (record e { port = n })

  -- the address before the port, which INET_ADDRSTRLEN bounds
  unfoldable pub ipv4_host : Bytes → Endpoint → Option Endpoint
  ipv4_host host e =
      if bytes_eq host (codes "*")
      then some (record e { wildcard_host = true })
      else if leb 16 (length host)
      then none
      else elim (libc.inet_pton4 host) [
        | none ↦ none
        | some address ↦ some (record e { ipv4 = address })
      ]

  -- `chaos_net_parse_ipv4_selector`
  unfoldable pub parse_ipv4_selector : Bytes → Kind → Endpoint → Option Endpoint
  unfolding parse_port with_port ipv4_host
  parse_ipv4_selector body kind e = elim (split_last b':' body) [
    | none ↦ none
    | some ([], port) ↦ none
    | some (c ∷ s, port) ↦ elim (ipv4_host (c ∷ s) e) [
      | none ↦ none
      | some e' ↦ with_port (parse_port port) (record e' { kind = kind })
    ]
  ]

  -- what follows the bracket: the address, which INET6_ADDRSTRLEN bounds, and a colon with the port
  unfoldable pub ipv6_host : Bytes → Bytes → Endpoint → Option Endpoint
  unfolding parse_port with_port
  ipv6_host host (c ∷ port) e =
      if not (c == b':') || length host == 0 || leb 46 (length host)
      then none
      else elim (libc.inet_pton6 host) [
        | none ↦ none
        | some address ↦ with_port (parse_port port) (record e { ipv6 = address })
      ]
  ipv6_host host [] e = none

  -- `chaos_net_parse_ipv6_selector`
  unfoldable pub parse_ipv6_selector : Bytes → Kind → Endpoint → Option Endpoint
  unfolding ipv6_host parse_port with_port
  parse_ipv6_selector [] kind e = none
  parse_ipv6_selector (c ∷ s) kind e =
      if c == b'*'
      then elim s [
        | [] ↦ none
        | d ∷ port ↦
            if d == b':'
            then with_port (parse_port port) (record e { kind = kind; wildcard_host = true })
            else none
      ]
      else if not (c == b'[')
      then none
      else elim (split_first b']' s) [
        | none ↦ none
        | some (host, rest) ↦ ipv6_host host rest (record e { kind = kind })
      ]

  -- the branch on `unix://`
  unfoldable pub parse_unix_selector : Bytes → Endpoint → Option Endpoint
  parse_unix_selector body e =
      if length body == 0 || leb max_text (length body)
      then none
      else some (record e { kind = unix; text = body })

  -- the schemes in the order of their tests
  unfoldable pub parse_scheme : Bytes → Endpoint → Option Endpoint
  unfolding parse_ipv4_selector parse_ipv6_selector parse_unix_selector
  parse_scheme text e = elim (strip_prefix (codes "tcp4://") text) [
    | some body ↦ parse_ipv4_selector body tcp4 e
    | none ↦ elim (strip_prefix (codes "tcp6://") text) [
      | some body ↦ parse_ipv6_selector body tcp6 e
      | none ↦ elim (strip_prefix (codes "udp4://") text) [
        | some body ↦ parse_ipv4_selector body udp4 e
        | none ↦ elim (strip_prefix (codes "udp6://") text) [
          | some body ↦ parse_ipv6_selector body udp6 e
          | none ↦ elim (strip_prefix (codes "unix://") text) [
            | some body ↦ parse_unix_selector body e
            | none ↦ none
          ]
        ]
      ]
    ]
  ]

  -- `chaos_net_endpoint_parse_selector`
  unfoldable pub parse_selector : Bytes → Option Endpoint
  unfolding parse_scheme
  parse_selector text =
      if length text == 0
      then none
      else if bytes_eq text (codes "*")
      then some (record no_endpoint { selector_len = length text })
      else parse_scheme text (record no_endpoint { selector_len = length text })

-- the cases of the switch, with the comparison of the addresses
unfoldable pub host_rank : Bool → Endpoint → Endpoint → Option ℕ
host_rank same s e =
    if not (s.port == e.port)
    then none
    else if s.wildcard_host
    then some 2
    else if same
    then some 3
    else none

-- the branch on two UNIX-domain endpoints
unfoldable pub unix_rank : Endpoint → Endpoint → Option ℕ
unix_rank s e =
    if bytes_eq s.text (codes "*") then some 2 else if bytes_eq s.text e.text then some 4 else none

-- the branches on the selector's kind
unfoldable pub kind_rank : Kind → Endpoint → Endpoint → Option ℕ
unfolding host_rank unix_rank
kind_rank any s e = some 1
kind_rank unix s e = if kind_number unix == kind_number e.kind then unix_rank s e else none
kind_rank tcp4 s e =
    if kind_number tcp4 == kind_number e.kind then host_rank (bytes_eq s.ipv4 e.ipv4) s e else none
kind_rank udp4 s e =
    if kind_number udp4 == kind_number e.kind then host_rank (bytes_eq s.ipv4 e.ipv4) s e else none
kind_rank tcp6 s e =
    if kind_number tcp6 == kind_number e.kind then host_rank (bytes_eq s.ipv6 e.ipv6) s e else none
kind_rank udp6 s e =
    if kind_number udp6 == kind_number e.kind then host_rank (bytes_eq s.ipv6 e.ipv6) s e else none

-- `chaos_net_endpoint_matches`: `*rank_out`, or `none` where it returns 0
unfoldable pub endpoint_matches : Endpoint → Endpoint → Option ℕ
unfolding kind_rank
endpoint_matches s e = kind_rank s.kind s e

unfoldable pub rank_of : Kind → Endpoint → ℕ
rank_of any s = 1
rank_of unix s = if bytes_eq s.text (codes "*") then 2 else 4
rank_of _ s = if s.wildcard_host then 2 else 3

-- `chaos_net_endpoint_selector_rank`
unfoldable pub selector_rank : Endpoint → ℕ
unfolding rank_of
selector_rank s = rank_of s.kind s
