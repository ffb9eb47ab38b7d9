-- ===== src/Resolve.antt =====
-- src/client.rs: `resolve_connect_domain`. A text is the list of the codes of its characters. The
-- resolver of the crate `trust_dns_resolver` is a parameter: it gives no list where it fails.
pub mod Ports
use brilliance_network.Prelude.{
  ℕ, ◌+◌, ◌-◌, ◌*◌, ◌^◌, Bool, Option, none, some, List, [], ◌∷◌, ltb, leb, ◌&&◌, ◌==◌,
  if◌then◌else◌, Outcome, done, panic, or_panic, ◌>>=◌,
}
use brilliance_network.Channel.{Decoded, ok, err}

abbrev pub colon : ℕ
colon = 58

abbrev pub plus : ℕ
plus = 43

abbrev pub digit_zero : ℕ
digit_zero = 48

-- `split(":")` of the standard library: one piece more than there are colons.
unfoldable pub split : List ℕ → List (List ℕ)
split [] = [] ∷ []
split (c ∷ cs) =
    let pieces = split cs in
    if c == colon
    then [] ∷ pieces
    else (elim pieces [ [] ↦ (c ∷ []) ∷ [] | piece ∷ rest ↦ (c ∷ piece) ∷ rest ])

-- `IntErrorKind` of the standard library, as far as a `u16` has it.
pub data ParseIntError : Type 0 where
  empty : ParseIntError
  invalid_digit : ParseIntError
  pos_overflow : ParseIntError

-- `char::to_digit(10)`.
unfoldable pub to_digit : ℕ → Option ℕ
to_digit c = if leb digit_zero c && ltb c (digit_zero + 10) then some (c - digit_zero) else none

-- The loop of `u16::from_str`.
unfoldable pub parse_digits : ℕ → List ℕ → Decoded ℕ ParseIntError
parse_digits result [] = ok result
parse_digits result (c ∷ cs) = elim (to_digit c) [
  | none ↦ err ParseIntError.invalid_digit
  | some x ↦
      if ltb (result * 10 + x) (2 ^ 16)
      then parse_digits (result * 10 + x) cs
      else err ParseIntError.pos_overflow
]

-- `u16::from_str`: a leading plus is taken where digits follow.
unfoldable pub parse_u16 : List ℕ → Decoded ℕ ParseIntError
parse_u16 [] = err ParseIntError.empty
parse_u16 (c ∷ []) = parse_digits 0 (c ∷ [])
parse_u16 (c ∷ d ∷ cs) = if c == plus then parse_digits 0 (d ∷ cs) else parse_digits 0 (c ∷ d ∷ cs)

-- `port error: {}` and `ipv6 is not supported`.
pub data ResolveError : Type 0 where
  port_error : ParseIntError → ResolveError
  ipv6_is_not_supported : ResolveError

pub record SocketAddr (Ip : Type 0) : Type 0 where
  pub ip : Ip
  pub port : ℕ

module _ {Ip : Type 0} (lookup_ip : List ℕ → Option (List Ip)) (is_ipv6 : Ip → Bool) where
  -- The part after the port is known: the first address that the resolver gives.
  unfoldable pub resolve_domain : List ℕ → ℕ → Outcome (Decoded (SocketAddr Ip) ResolveError)
  resolve_domain domain port = do
    response ← or_panic (lookup_ip domain)
    elim response [
      | [] ↦ panic
      | address ∷ rest ↦
          if is_ipv6 address
          then done (err ipv6_is_not_supported)
          else done (ok (record { ip = address; port = port }))
    ]

  unfoldable pub resolve_pieces :
      List (List ℕ) → List ℕ → ℕ → Outcome (Decoded (SocketAddr Ip) ResolveError)
  unfolding resolve_domain
  resolve_pieces (domain ∷ port ∷ []) input default_port = elim (parse_u16 port) [
    | ok p ↦ resolve_domain domain p
    | err e ↦ done (err (port_error e))
  ]
  resolve_pieces collection input default_port = resolve_domain input default_port

  unfoldable pub resolve_connect_domain :
      List ℕ → ℕ → Outcome (Decoded (SocketAddr Ip) ResolveError)
  unfolding split resolve_pieces
  resolve_connect_domain input default_port = resolve_pieces (split input) input default_port
