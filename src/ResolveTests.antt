-- ===== src/ResolveTests.antt =====
-- Domain names and ports on examples.
use brilliance_network.Prelude.{
  ℕ, ◌≡◌, refl, Bool, Option, none, some, List, [], ◌∷◌, ◌==◌, if◌then◌else◌, arith, done, panic,
}
use brilliance_network.Channel.{ok, err}
use brilliance_network.Resolve.{
  colon, plus, split, ParseIntError, to_digit, parse_digits, parse_u16, port_error,
  ipv6_is_not_supported, SocketAddr, resolve_domain, resolve_pieces, resolve_connect_domain,
}
use brilliance_network.Resolve.Ports.{resolve_with_port, resolve_without_port}

-- The host `a` has an address, `b` one of version 6, and others none.
abbrev lookup_ip : List ℕ → Option (List ℕ)
lookup_ip [] = none
lookup_ip (c ∷ cs) =
    if c == 97
    then some (4 ∷ 6 ∷ [])
    else if c == 98
    then some (6 ∷ [])
    else if c == 99
    then some []
    else none

abbrev is_ipv6 : ℕ → Bool
is_ipv6 n = n == 6

abbrev address : ℕ → ℕ → SocketAddr ℕ
address ip port = record { ip = ip; port = port }

resolve_with_port_example :
    resolve_connect_domain lookup_ip is_ipv6 (97 ∷ colon ∷ 56 ∷ 48 ∷ []) 25565
    ≡ done (ok (address 4 80))
unfolding resolve_domain
resolve_with_port_example =
    resolve_with_port lookup_ip is_ipv6 (97 ∷ []) 8 (0 ∷ []) 25565 refl
      (omega arith, (omega arith, tt))

resolve_without_port_example :
    resolve_connect_domain lookup_ip is_ipv6 (97 ∷ []) 25565 ≡ done (ok (address 4 25565))
unfolding resolve_domain
resolve_without_port_example =
    resolve_without_port lookup_ip is_ipv6 (97 ∷ []) 25565 (λ e. omega (arith, e))

refused :
    (resolve_connect_domain lookup_ip is_ipv6 (98 ∷ []) 1 ≡ done (err ipv6_is_not_supported))
    × (resolve_connect_domain lookup_ip is_ipv6 (99 ∷ []) 1 ≡ panic)
    × (resolve_connect_domain lookup_ip is_ipv6 (100 ∷ []) 1 ≡ panic)
    × (resolve_connect_domain lookup_ip is_ipv6 (97 ∷ colon ∷ []) 1
        ≡ done (err (port_error ParseIntError.empty)))
    × (resolve_connect_domain lookup_ip is_ipv6 (97 ∷ colon ∷ 97 ∷ []) 1
        ≡ done (err (port_error ParseIntError.invalid_digit)))
    × (resolve_connect_domain lookup_ip is_ipv6 (97 ∷ colon ∷ plus ∷ 55 ∷ []) 1
        ≡ done (ok (address 4 7)))
unfolding resolve_connect_domain resolve_pieces resolve_domain split parse_u16 parse_digits to_digit
refused = (refl, refl, refl, refl, refl, refl)
