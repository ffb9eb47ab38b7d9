-- ===== src/Tokio/Start.antt =====
-- `new` of src/tokio/client.rs and of src/tokio/server.rs, with the loop that accepts connections. The
-- streams of the crate `tokio` are parameters.
use brilliance_network.Prelude.{
  ℕ, ◌≡◌, sym, ◌∙◌, ap, Bool, true, Option, none, some, List, [], ◌∷◌, ◌++◌, collect, Outcome, done,
  ◌>>=◌,
}
use mathlib.Core.List.{append-nil, append_assoc}
use brilliance_network.Channel.{Flume, IsFifo, Decoded, ok, try_as, unwrap_ok}
use brilliance_network.Resolve.{ResolveError, SocketAddr, resolve_connect_domain}
use brilliance_network.Tokio.Client
use brilliance_network.Tokio.Client.{TokioClient}
use brilliance_network.Tokio.Connection.{Cell}
use brilliance_network.Tokio.Server
use brilliance_network.Tokio.Server.{TokioServer}

-- `Rd` and `W` are the halves of a stream, for the two tasks of a client.
pub record Streams (Ip Stream Rd W Err : Type 0) : Type 0 where
  pub connect : SocketAddr Ip → Decoded Stream Err
  pub set_nodelay : Bool → Stream → Decoded Stream Err
  pub into_split : Stream → Rd × W

-- The error of the address, `Connection to {} failed: {}` and `Failed to set TCP_NODELAY: {}`.
pub data StartError (Ip Err : Type 0) : Type 0 where
  resolve_failed : ResolveError → StartError Ip Err
  connection_failed : SocketAddr Ip → Err → StartError Ip Err
  set_nodelay_failed : Err → StartError Ip Err

-- The client that `TokioClient::new` gives, with the halves that its tasks are spawned with.
unfoldable pub start_client :
    (F : Flume) {Ip Stream Rd W Err M E D : Type 0}
    → Streams Ip Stream Rd W Err
    → (lookup_ip : List ℕ → Option (List Ip)) → (is_ipv6 : Ip → Bool) → D
    → List ℕ
    → Outcome (Decoded (TokioClient F M E D × Rd × W) (StartError Ip Err))
unfolding Client.new
start_client F streams lookup_ip is_ipv6 default ip_port = do
  resolved ← resolve_connect_domain lookup_ip is_ipv6 ip_port 25565
  done (
      try_as resolve_failed resolved (λ addr.
        try_as (connection_failed addr) (streams.connect addr) (λ stream.
          try_as set_nodelay_failed (streams.set_nodelay true stream) (λ stream.
            let (reader, writer) = streams.into_split stream in
            ok (Client.new F default, reader, writer)))))

module _ (F : Flume) {Stream Addr : Type 0} where
  -- The accept loop over what the listener gives: an error, of which there is none here, is logged.
  unfoldable pub accept_loop :
      List (Option (Stream × Addr)) → F.Channel (Stream × Addr) → F.Channel (Stream × Addr)
  accept_loop [] queue = queue
  accept_loop (none ∷ arrivals) queue = accept_loop arrivals queue
  accept_loop (some arrival ∷ arrivals) queue = elim (F.send arrival queue) [
    | none ↦ queue
    | some longer ↦ accept_loop arrivals longer
  ]

  -- `TokioServer::new`: `bind` gives the listener, which the accept loop takes.
  unfoldable pub start_server :
      {Listener Err M E : Type 0}
      → (bind : List ℕ → Decoded Listener Err) → (ℕ → Cell F M)
      → List ℕ
      → Outcome (TokioServer F M E Stream Addr × Listener)
  unfolding Server.new
  start_server bind cells ip_port = do
    listener ← unwrap_ok (bind ip_port)
    done (Server.new F F.unbounded cells, listener)

  abbrev pub arrived : Option (Stream × Addr) → List (Stream × Addr)
  arrived none = []
  arrived (some a) = a ∷ []

  -- As long as the server is there, all connections that arrive stand in the queue, in their order.
  pub accept_loop-pending :
      IsFifo F
      → (arrivals : List (Option (Stream × Addr))) (queue : F.Channel (Stream × Addr))
      → F.is_open queue ≡ true
      → F.pending (accept_loop arrivals queue) ≡ F.pending queue ++ collect arrived arrivals
  unfolding accept_loop collect
  accept_loop-pending laws [] queue o = sym (append-nil (F.pending queue))
  accept_loop-pending laws (none ∷ arrivals) queue o = accept_loop-pending laws arrivals queue o
  accept_loop-pending laws (some a ∷ arrivals) queue o =
      let (longer, sent, queued, o') = laws.send-open a queue o in
      rw (sent, accept_loop)
        (accept_loop-pending laws arrivals longer o'
          ∙ ap (λ l. l ++ collect arrived arrivals) queued
          ∙ append_assoc (F.pending queue) (a ∷ []) (collect arrived arrivals))
