-- ===== src/Renet/Start.antt =====
-- `new` of src/renet/client.rs and of src/renet/server.rs. The crates `socket2`, `renet` and
-- `renet_netcode`, and the clock of the system, are parameters. A result of theirs is `Decoded`.
use brilliance_network.Prelude.{
  ℕ, ◌*◌, ◌%◌, ◌^◌, Bool, true, Option, none, List, [], ◌∷◌, Outcome, done, or_panic, ◌>>=◌,
}
use brilliance_network.Channel.{Flume, Decoded, ok, err, try_as, unwrap_ok}
use brilliance_network.Resolve.{ResolveError, SocketAddr, resolve_connect_domain}
use brilliance_network.Renet.Channels.{ConnectionConfig, connection_config, protocol_id}
use brilliance_network.Renet.Client
use brilliance_network.Renet.Client.{RenetClientNetwork}
use brilliance_network.Renet.Server
use brilliance_network.Renet.Server.{RenetServerNetwork, Cell}

-- A socket of IPv4 for datagrams, and what can be asked of it.
pub record Sockets (Sock Udp Addr Err : Type 0) : Type 0 where
  pub create : Decoded Sock Err
  pub set_send_buffer_size : ℕ → Sock → Decoded Sock Err
  pub set_recv_buffer_size : ℕ → Sock → Decoded Sock Err
  pub set_nonblocking : Bool → Sock → Decoded Sock Err
  pub bind : Addr → Sock → Decoded Sock Err
  pub into : Sock → Udp
  pub local_addr : Udp → Decoded Addr Err

-- The texts `Path {} error: {}`, `Socket create error: {}` and so on.
pub data StartError (Err : Type 0) : Type 0 where
  path_error : (ip_port : List ℕ) → ResolveError → StartError Err
  socket_create_error : Err → StartError Err
  set_send_buffer_error : Err → StartError Err
  set_recv_buffer_error : Err → StartError Err
  set_nonblocking_error : Err → StartError Err
  bind_error : Err → StartError Err

-- `ClientAuthentication::Unsecure`.
pub record Unsecure (Ip : Type 0) : Type 0 where
  pub server_addr : SocketAddr Ip
  pub client_id : ℕ
  pub user_data : Option (List ℕ)
  pub protocol_id : ℕ

-- `ServerConfig`, without authentication.
pub record ServerConfig (Addr : Type 0) : Type 0 where
  pub current_time : ℕ
  pub max_clients : ℕ
  pub protocol_id : ℕ
  pub public_addresses : List Addr

abbrev pub buffer_size : ℕ
buffer_size = 8 * 1024 * 1024

module _ {Sock Udp Addr Err : Type 0} (sockets : Sockets Sock Udp Addr Err) where
  -- The socket of a client; `any` is the address `0.0.0.0:0`.
  unfoldable pub client_socket : Addr → Decoded Udp (StartError Err)
  client_socket any = try_as socket_create_error sockets.create (λ s.
      try_as set_send_buffer_error (sockets.set_send_buffer_size buffer_size s) (λ s.
        try_as set_recv_buffer_error (sockets.set_recv_buffer_size buffer_size s) (λ s.
          try_as set_nonblocking_error (sockets.set_nonblocking true s)
            (λ s. try_as bind_error (sockets.bind any s) (λ s. ok (sockets.into s))))))

  -- The socket of a server, where every failure panics.
  unfoldable pub server_socket : Addr → Outcome Udp
  server_socket addr = do
    created ← unwrap_ok sockets.create
    sending ← unwrap_ok (sockets.set_send_buffer_size buffer_size created)
    receiving ← unwrap_ok (sockets.set_recv_buffer_size buffer_size sending)
    waiting ← unwrap_ok (sockets.set_nonblocking true receiving)
    bound ← unwrap_ok (sockets.bind addr waiting)
    done (sockets.into bound)

  -- `now` are the milliseconds since the epoch; a clock before it panics.
  module _ (F : Flume) {C T Duration : Type 0} (half_second : Duration)
      (renet : ConnectionConfig Duration → C) (now : Option ℕ) where
    -- `RenetClientNetwork::new`.
    unfoldable pub start_client :
        {Ip M E E' D : Type 0}
        → (lookup_ip : List ℕ → Option (List Ip)) → (is_ipv6 : Ip → Bool) → (any : Addr)
        → (transport : ℕ → Unsecure Ip → Udp → Decoded T Err) → D
        → List ℕ
        → Outcome (Decoded (RenetClientNetwork F C T M E E' D) (StartError Err))
    unfolding client_socket Client.new
    start_client lookup_ip is_ipv6 any transport default ip_port = do
      let client = renet (connection_config half_second)
      resolved ← resolve_connect_domain lookup_ip is_ipv6 ip_port 25565
      elim resolved [
        | err e ↦ done (err (path_error ip_port e))
        | ok server_addr ↦ (do
          current_time ← or_panic now
          let authentication : Unsecure _ = record {
            server_addr = server_addr;
            client_id = current_time % 2 ^ 64;
            user_data = none;
            protocol_id = protocol_id;
          }
          elim (client_socket any) [
            | err e ↦ done (err e)
            | ok socket ↦ (do
              netcode ← unwrap_ok (transport current_time authentication socket)
              done (ok (Client.new F client netcode default)))
          ])
      ]

    -- `RenetServerNetwork::new`; `parse` reads the address.
    unfoldable pub start_server :
        {M E' : Type 0}
        → (parse : List ℕ → Option Addr) → (transport : ServerConfig Addr → Udp → Decoded T Err)
        → (ℕ → Cell F M)
        → List ℕ
        → Outcome (RenetServerNetwork F C T M E')
    unfolding server_socket Server.new
    start_server parse transport cells ip_port = do
      let server = renet (connection_config half_second)
      addr ← or_panic (parse ip_port)
      socket ← server_socket addr
      current_time ← or_panic now
      own_addr ← unwrap_ok (sockets.local_addr socket)
      let server_config : ServerConfig Addr = record {
        current_time = current_time;
        max_clients = 64;
        protocol_id = protocol_id;
        public_addresses = own_addr ∷ [];
      }
      netcode ← unwrap_ok (transport server_config socket)
      done (Server.new F server netcode cells)
