-- ===== src/Net/Endpoint/Covers.antt =====
-- Which endpoints a selector covers, and with which rank.
use macstab_chaos_testing_li.Prelude.{
  ℕ, ◌≡◌, ◌↔◌, refl, sym, ap, ◌∙◌, ==_iff, Bool, true, Option, none, some, arith, codes, bytes_eq,
  bytes_eq_iff, ◌==◌, if◌then◌else◌, ◌⊎◌,
}
use macstab_chaos_testing_li.Net.Endpoint.{
  Kind, any, tcp4, tcp6, udp4, udp6, unix, kind_number, Endpoint, host_rank, unix_rank, kind_rank,
  endpoint_matches, rank_of, selector_rank,
}

-- The addresses of a kind agree.
abbrev pub SameAddress : Kind → Endpoint → Endpoint → Type 0
SameAddress tcp4 s e = s.ipv4 ≡ e.ipv4
SameAddress udp4 s e = s.ipv4 ≡ e.ipv4
SameAddress tcp6 s e = s.ipv6 ≡ e.ipv6
SameAddress udp6 s e = s.ipv6 ≡ e.ipv6
SameAddress _ s e = ⊥

-- The selector is `*`; or the two are of one kind, and of the same path, or the selector's is `*`; or
-- they have the same port and address, or the selector any address.
abbrev pub Covers : Kind → Endpoint → Endpoint → Type 0
Covers any s e = Unit
Covers unix s e = (e.kind ≡ unix) × ((s.text ≡ codes "*") ⊎ (s.text ≡ e.text))
Covers k s e = (e.kind ≡ k) × ((s.port ≡ e.port) × ((s.wildcard_host ≡ true) ⊎ SameAddress k s e))

abbrev kind_of : ℕ → Kind
kind_of n =
    if n == 1
    then tcp4
    else if n == 2
    then tcp6
    else if n == 3
    then udp4
    else if n == 4
    then udp6
    else if n == 5
    then unix
    else any

kind_of-kind_number : (k : Kind) → kind_of (kind_number k) ≡ k
kind_of-kind_number any = refl
kind_of-kind_number tcp4 = refl
kind_of-kind_number tcp6 = refl
kind_of-kind_number udp4 = refl
kind_of-kind_number udp6 = refl
kind_of-kind_number unix = refl

pub kind_number-eq : (k j : Kind) → kind_number k ≡ kind_number j → j ≡ k
kind_number-eq k j h = sym (kind_of-kind_number j) ∙ (ap kind_of (sym h) ∙ kind_of-kind_number k)

pub kind_test_iff : (k j : Kind) → ((kind_number k == kind_number j) ≡ true) ↔ (j ≡ k)
kind_test_iff k j = (
  λ h. kind_number-eq k j ((==_iff (kind_number k) (kind_number j)).0 h),
  λ e. (==_iff (kind_number k) (kind_number j)).1 (ap kind_number (sym e)),
)

host_rank_iff :
    (same : Bool) {P : Type 0} (s e : Endpoint) (n : ℕ)
    → (same ≡ true) ↔ P
    → (host_rank same s e ≡ some n) ↔ (
        ((s.port ≡ e.port) × ((s.wildcard_host ≡ true) ⊎ P))
        × (n ≡ (if s.wildcard_host then 2 else 3)))
unfolding host_rank
host_rank_iff same s e n h = ground arith

unix_rank_iff :
    (s e : Endpoint) (n : ℕ)
    → (unix_rank s e ≡ some n) ↔ (
        ((s.text ≡ codes "*") ⊎ (s.text ≡ e.text))
        × (n ≡ (if bytes_eq s.text (codes "*") then 2 else 4)))
unfolding unix_rank
unix_rank_iff s e n = ground (arith, bytes_eq_iff s.text (codes "*"), bytes_eq_iff s.text e.text)

-- a test in front of a match
guarded_iff :
    (t : Bool) {P Q S : Type 0} (o : Option ℕ) (n : ℕ)
    → (t ≡ true) ↔ P
    → (o ≡ some n) ↔ (Q × S)
    → ((if t then o else none) ≡ some n) ↔ ((P × Q) × S)
guarded_iff t o n p q = ground arith

-- A selector and an endpoint match exactly if the selector covers the endpoint, and the rank of the
-- match is the selector's own rank.
pub endpoint_matches_iff :
    (s e : Endpoint) (n : ℕ)
    → (endpoint_matches s e ≡ some n) ↔ (Covers s.kind s e × (n ≡ selector_rank s))
unfolding endpoint_matches selector_rank
endpoint_matches_iff s e n = by_kind s.kind
  where
    by_kind : (k : Kind) → (kind_rank k s e ≡ some n) ↔ (Covers k s e × (n ≡ rank_of k s))
    by_kind any = (λ h. (tt, cc), λ h. ap some (sym h.1))
    by_kind unix =
        guarded_iff (kind_number unix == kind_number e.kind) (unix_rank s e) n
          (kind_test_iff unix e.kind) (unix_rank_iff s e n)
    by_kind tcp4 =
        guarded_iff (kind_number tcp4 == kind_number e.kind)
          (host_rank (bytes_eq s.ipv4 e.ipv4) s e) n (kind_test_iff tcp4 e.kind)
          (host_rank_iff (bytes_eq s.ipv4 e.ipv4) s e n (bytes_eq_iff s.ipv4 e.ipv4))
    by_kind udp4 =
        guarded_iff (kind_number udp4 == kind_number e.kind)
          (host_rank (bytes_eq s.ipv4 e.ipv4) s e) n (kind_test_iff udp4 e.kind)
          (host_rank_iff (bytes_eq s.ipv4 e.ipv4) s e n (bytes_eq_iff s.ipv4 e.ipv4))
    by_kind tcp6 =
        guarded_iff (kind_number tcp6 == kind_number e.kind)
          (host_rank (bytes_eq s.ipv6 e.ipv6) s e) n (kind_test_iff tcp6 e.kind)
          (host_rank_iff (bytes_eq s.ipv6 e.ipv6) s e n (bytes_eq_iff s.ipv6 e.ipv6))
    by_kind udp6 =
        guarded_iff (kind_number udp6 == kind_number e.kind)
          (host_rank (bytes_eq s.ipv6 e.ipv6) s e) n (kind_test_iff udp6 e.kind)
          (host_rank_iff (bytes_eq s.ipv6 e.ipv6) s e n (bytes_eq_iff s.ipv6 e.ipv6))
