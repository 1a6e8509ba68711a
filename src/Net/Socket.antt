-- ===== src/Net/Socket.antt =====
-- src/net/chaos_net_endpoint.c: the endpoint of a socket. The kernel's answers to getsockopt,
-- getsockname and getpeername are arguments; errno, which the code saves around them, is left out.
use macstab_chaos_testing_li.Prelude.{
  ℕ, Bool, true, false, Option, none, some, [], ◌∷◌, Bytes, bytes_eq, ◌==◌, if◌then◌else◌, take,
  drop,
}
use macstab_chaos_testing_li.Net.Endpoint.{
  Kind, tcp4, tcp6, udp4, udp6, unix, Endpoint, no_endpoint,
}

-- the families and types that the code compares with; `type` has lost SOCK_CLOEXEC and SOCK_NONBLOCK
pub data Family : Type 0 where
  inet inet6 local other_family : Family

pub data SocketType : Type 0 where
  stream dgram other_type : SocketType

-- `chaos_net_endpoint_from_socket_spec`, with the flags masked off
unfoldable pub from_socket_spec : Family → SocketType → Option Endpoint
from_socket_spec inet stream = some (record no_endpoint { kind = tcp4; wildcard_host = true })
from_socket_spec inet dgram = some (record no_endpoint { kind = udp4; wildcard_host = true })
from_socket_spec inet other_type = none
from_socket_spec inet6 stream = some (record no_endpoint { kind = tcp6; wildcard_host = true })
from_socket_spec inet6 dgram = some (record no_endpoint { kind = udp6; wildcard_host = true })
from_socket_spec inet6 other_type = none
from_socket_spec local type = some (record no_endpoint { kind = unix; text = b'*' ∷ [] })
from_socket_spec other_family type = none

-- `chaos_net_endpoint_kind_from_socket`, with the type that getsockopt finds
unfoldable pub kind_from_socket : Option SocketType → Family → Option Kind
kind_from_socket none family = none
kind_from_socket (some stream) inet = some tcp4
kind_from_socket (some dgram) inet = some udp4
kind_from_socket (some stream) inet6 = some tcp6
kind_from_socket (some dgram) inet6 = some udp6
kind_from_socket (some type) local = some unix
kind_from_socket (some type) family = none

-- a `struct sockaddr` with its length: a family's fields where the length admits them
pub data Sockaddr : Type 0 where
  -- `sin_port` in host order, and `sin_addr`
  sockaddr_in : ℕ → Bytes → Sockaddr
  -- `sin6_port` in host order, and `sin6_addr`
  sockaddr_in6 : ℕ → Bytes → Sockaddr
  -- the bytes of `sun_path` as far as the length goes
  sockaddr_un : Bytes → Sockaddr
  -- NULL, too short for its family, or of another family
  unusable : Sockaddr

-- `IN6_IS_ADDR_V4MAPPED`
unfoldable pub is_v4_mapped : Bytes → Bool
is_v4_mapped address =
    bytes_eq (take 12 address) (0 ∷ 0 ∷ 0 ∷ 0 ∷ 0 ∷ 0 ∷ 0 ∷ 0 ∷ 0 ∷ 0 ∷ 0xff ∷ 0xff ∷ [])

abbrev pub as_v4 : Kind → Kind
as_v4 tcp6 = tcp4
as_v4 _ = udp4

-- the branch on AF_INET6
unfoldable pub from_ipv6 : Kind → ℕ → Bytes → Endpoint
unfolding is_v4_mapped
from_ipv6 kind port address =
    if is_v4_mapped address
    then record no_endpoint { kind = as_v4 kind; port = port; ipv4 = drop 12 address }
    else record no_endpoint { kind = kind; port = port; ipv6 = address }

-- the loop over an abstract name, and the name up to `\0` of another one
unfoldable pub at_signs : Bytes → Bytes
at_signs [] = []
at_signs (c ∷ s) = (if c == 0 then b'@' else c) ∷ at_signs s

unfoldable pub before_nul : Bytes → Bytes
before_nul [] = []
before_nul (c ∷ s) = if c == 0 then [] else c ∷ before_nul s

-- `path_max`: what is there of `sun_path`, which has 108 bytes
unfoldable pub unix_text : Bytes → Bytes
unfolding at_signs before_nul
unix_text path = elim (take 108 path) [
  | [] ↦ []
  | c ∷ s ↦ if c == 0 then at_signs (c ∷ s) else before_nul (c ∷ s)
]

-- `chaos_net_endpoint_from_sockaddr`, with `fd_is_socket` and the type that getsockopt finds
unfoldable pub from_sockaddr : Option SocketType → Sockaddr → Bool → Option Endpoint
unfolding kind_from_socket from_ipv6 unix_text
from_sockaddr type unusable is_socket = none
from_sockaddr type (sockaddr_in port address) is_socket = elim (kind_from_socket type inet) [
  | none ↦ none
  | some k ↦ some (record no_endpoint { kind = k; port = port; ipv4 = address })
]
from_sockaddr type (sockaddr_in6 port address) is_socket = elim (kind_from_socket type inet6) [
  | none ↦ none
  | some k ↦ some (from_ipv6 k port address)
]
from_sockaddr type (sockaddr_un path) is_socket =
    if is_socket
    then some (record no_endpoint { kind = unix; text = unix_text path })
    else elim (kind_from_socket type local) [
      | none ↦ none
      | some k ↦ some (record no_endpoint { kind = k; text = unix_text path })
    ]

-- what getsockname or getpeername answers: the address, or errno, which says whether it is no socket
pub data EndAnswer : Type 0 where
  end_address : Sockaddr → EndAnswer
  end_error : Bool → EndAnswer

-- `chaos_net_endpoint_from_end_fd`: the return value with the endpoint, and `*not_socket`
unfoldable pub from_end_fd : Option SocketType → EndAnswer → Option Endpoint × Bool
unfolding from_sockaddr
from_end_fd type (end_error no_socket) = (none, no_socket)
from_end_fd type (end_address a) = (from_sockaddr type a true, false)

-- `chaos_net_endpoint_from_activity_fd`, with the answers for the two ends
unfoldable pub from_activity_fd : Option SocketType → EndAnswer → EndAnswer → Option Endpoint
unfolding from_end_fd
from_activity_fd type near far = elim (from_end_fd type near).0 [
  | some e ↦ some e
  | none ↦ (from_end_fd type far).0
]
