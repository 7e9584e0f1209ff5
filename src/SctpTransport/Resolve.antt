-- ===== src/SctpTransport/Resolve.antt =====
-- `ResolveIpv4Address`. What `inet_pton` and `getaddrinfo` answer is an argument.
use proto_test_msquic.Prelude.{
  ℕ, Bool, ◌&&◌, List, [], ◌∷◌, Option, none, some, Result, ok, err, leb, if◌then◌else◌,
}
use proto_test_msquic.Config.Text.{Text}

-- An entry of `getaddrinfo`: whether it is of AF_INET, its length, and the address.
pub record AddressInfo : Type 0 where
  pub is_inet : Bool
  pub address_length : ℕ
  pub address : ℕ

-- `sockaddr_in`
pub record SocketAddress : Type 0 where
  pub address : ℕ
  pub port : ℕ

pub data ResolveError : Type 0 where
  failed_to_resolve no_ipv4_address : ResolveError

-- `sizeof(sockaddr_in)`
abbrev pub socket_address_size : ℕ
socket_address_size = 16

unfoldable pub first_inet : ℕ → List AddressInfo → Result ResolveError SocketAddress
first_inet port [] = err no_ipv4_address
first_inet port (info ∷ infos) =
    let rest = first_inet port infos in
    if info.is_inet && leb socket_address_size info.address_length
    then ok (record { address = info.address; port = port })
    else rest

unfoldable pub resolve_ipv4_address :
    (Text → Option ℕ)
    → (Text → Option (List AddressInfo))
    → Text
    → ℕ
    → Result ResolveError SocketAddress
unfolding first_inet
resolve_ipv4_address parse look_up host port = elim (parse host) [
  | some address ↦ ok (record { address = address; port = port })
  | none ↦ elim (look_up host) [ none ↦ err failed_to_resolve | some infos ↦ first_inet port infos ]
]
