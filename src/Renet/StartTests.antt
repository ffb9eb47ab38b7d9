-- ===== src/Renet/StartTests.antt =====
-- The start of a UDP client and of a UDP server on examples.
use Prim.Native.String.{String}
use brilliance_network.Prelude.{
  ℕ, ◌≡◌, refl, Bool, true, false, Option, none, some, List, [], ◌∷◌, if◌then◌else◌, Outcome, done,
  panic,
}
use brilliance_network.Channel.{queues, Decoded, ok, err}
use brilliance_network.Resolve.{
  colon, split, ParseIntError, parse_u16, port_error, resolve_domain, resolve_pieces,
  resolve_connect_domain,
}
use brilliance_network.Renet.Channels.{connection_config}
use brilliance_network.Renet.Client
use brilliance_network.Renet.Client.{RenetClientNetwork}
use brilliance_network.Renet.Server
use brilliance_network.Renet.Server.{RenetServerNetwork, fresh_cell}
use brilliance_network.Renet.Start.{
  Sockets, StartError, path_error, set_nonblocking_error, client_socket, server_socket,
  start_client, start_server,
}

-- A socket is a number; `flag` says whether it can be made not to block.
abbrev sockets : Bool → Sockets ℕ ℕ ℕ ℕ
sockets flag = record {
  create = ok 1;
  set_send_buffer_size = λ n s. ok s;
  set_recv_buffer_size = λ n s. ok s;
  set_nonblocking = λ b s. if flag then ok s else err 9;
  bind = λ addr s. ok s;
  into = λ s. s;
  local_addr = λ s. ok s;
}

abbrev lookup_ip : List ℕ → Option (List ℕ)
lookup_ip name = some (4 ∷ [])

abbrev is_ipv6 : ℕ → Bool
is_ipv6 n = false

-- The crate keeps the bytes of a tick, and the transport the number of the client.
abbrev half_second : ℕ
half_second = 500

abbrev start :
    Bool → List ℕ → Outcome (Decoded (RenetClientNetwork queues ℕ ℕ ℕ ℕ ℕ String) (StartError ℕ))
unfolding start_client
start flag ip_port =
    start_client (sockets flag) queues half_second (λ config. config.available_bytes_per_tick)
      (some 123) lookup_ip is_ipv6 0 (λ now auth socket. ok auth.client_id) "" ip_port

started :
    (start true (97 ∷ []) ≡ done (ok (Client.new queues 1048576 123 "")))
    × (start false (97 ∷ []) ≡ done (err (set_nonblocking_error 9)))
    × (start true (97 ∷ colon ∷ [])
        ≡ done (err (path_error (97 ∷ colon ∷ []) (port_error ParseIntError.empty))))
unfolding start start_client client_socket connection_config Client.new resolve_connect_domain
    resolve_pieces resolve_domain split parse_u16
started = (refl, refl, refl)

abbrev serve : Bool → Option ℕ → Outcome (RenetServerNetwork queues ℕ ℕ ℕ ℕ)
unfolding start_server
serve flag addr =
    start_server (sockets flag) queues half_second (λ config. config.available_bytes_per_tick)
      (some 123) (λ text. addr) (λ config socket. ok config.max_clients) (λ i. fresh_cell queues) []

served :
    (serve true (some 7) ≡ done (Server.new queues 1048576 64 (λ i. fresh_cell queues)))
    × (serve false (some 7) ≡ panic)
    × (serve true none ≡ panic)
unfolding serve start_server server_socket connection_config Server.new
served = (refl, refl, refl)
