-- ===== src/Tokio/Server.antt =====
-- src/tokio/server.rs: the TCP server by the interface of src/server.rs. A `HashMap` is the list of
-- its entries; the order of `to_remove` alone depends on theirs.
pub mod Removal
pub mod Accept
pub mod Due
pub mod Step
pub mod History
use Prim.Native.String.{String}
use brilliance_network.Prelude.{
  ℕ, ◌+◌, ◌%◌, ◌^◌, Bool, true, false, not, Option, none, some, List, [], ◌∷◌, ◌++◌, leb, ◌==◌,
  if◌then◌else◌, length,
}
pub use brilliance_network.Server.{ConnectionMessages, connect, disconnect}
use brilliance_network.Channel.{Flume, send_ok}
use brilliance_network.Tokio.Connection.{Cell, ErrorText}
use brilliance_network.Tokio.Entries.{insert, remove, lookup}

pub record TokioServerConnection : Type 0 where
  pub client_id : ℕ
  pub ip : String
  pub cell : ℕ

-- The server, with the cells of its connections and the streams for which tasks were spawned, each
-- with the cell of its connection. `Stream` and `Addr` are types of the crate `tokio`.
pub record TokioServer (F : Flume) (M E Stream Addr : Type 0) : Type 0 where
  pub new_connections_rx : F.Channel (Stream × Addr)
  pub connections : List (ℕ × TokioServerConnection)
  pub channel_connections : F.Channel (ConnectionMessages TokioServerConnection)
  pub channel_errors : F.Channel (ErrorText E)
  pub next_client_id : ℕ
  pub cells : ℕ → Cell F M
  pub next_cell : ℕ
  pub spawned : List (Stream × ℕ)

module _ {F : Flume} {M : Type 0} where
  unfoldable pub set_cell : ℕ → Cell F M → (ℕ → Cell F M) → ℕ → Cell F M
  set_cell at c cells i = if i == at then c else cells i

  -- Whether a connection with this cell is due at the time `now`.
  unfoldable pub should_remove : ℕ → Cell F M → Bool
  should_remove now c = elim c.disconnect_at [ some at ↦ leb at now | none ↦ not c.connected ]

  -- `now` is what `Instant::now()` gives when the loop is at a connection.
  unfoldable pub to_remove :
      (TokioServerConnection → ℕ) → (ℕ → Cell F M) → List (ℕ × TokioServerConnection) → List ℕ
  to_remove now cells [] = []
  to_remove now cells ((id, conn) ∷ m) =
      let rest = to_remove now cells m in
      if should_remove (now conn) (cells conn.cell) then id ∷ rest else rest

-- The flag and the queues that a new connection starts with.
abbrev pub fresh_cell : (F : Flume) {M : Type 0} → Cell F M
fresh_cell F = record {
  connected = true;
  disconnect_at = none;
  client_messages = F.unbounded;
  outgoing = F.unbounded;
}

module _ (F : Flume) {M E Stream Addr : Type 0} where
  unfoldable pub new : F.Channel (Stream × Addr) → (ℕ → Cell F M) → TokioServer F M E Stream Addr
  new new_connections_rx cells = record {
    new_connections_rx = new_connections_rx;
    connections = [];
    channel_connections = F.unbounded;
    channel_errors = F.unbounded;
    next_client_id = 1;
    cells = cells;
    next_cell = 0;
    spawned = [];
  }

  -- `addr.to_string()` and `stream.set_nodelay(true).ok()` are of the crate `tokio`.
  module _ (to_string : Addr → String) (set_nodelay : Stream → Stream) where
    -- One turn of the loop over new connections.
    unfoldable pub accept_one :
        Stream × Addr → TokioServer F M E Stream Addr → TokioServer F M E Stream Addr
    accept_one (stream, addr) s =
        let id = s.next_client_id in
        let connection : TokioServerConnection = record {
          client_id = id;
          ip = to_string addr;
          cell = s.next_cell;
        } in
        record s {
          next_client_id = (id + 1) % 2 ^ 64;
          cells = set_cell s.next_cell (fresh_cell F) s.cells;
          next_cell = s.next_cell + 1;
          spawned = s.spawned ++ (set_nodelay stream, s.next_cell) ∷ [];
          connections = insert id connection s.connections;
          channel_connections = send_ok F (connect connection) s.channel_connections;
        }

    unfoldable pub accept_all :
        List (Stream × Addr) → TokioServer F M E Stream Addr → TokioServer F M E Stream Addr
    accept_all [] s = s
    accept_all (a ∷ as') s = accept_all as' (accept_one a s)

    -- The first part of `step`.
    unfoldable pub accept_new : TokioServer F M E Stream Addr → TokioServer F M E Stream Addr
    unfolding accept_all
    accept_new s =
        let (arrived, left) = F.drain s.new_connections_rx in
        accept_all arrived (record s { new_connections_rx = left })

  unfoldable pub remove_one : ℕ → TokioServer F M E Stream Addr → TokioServer F M E Stream Addr
  remove_one id s = elim (lookup id s.connections) [
    | none ↦ s
    | some conn ↦ record s {
      connections = remove id s.connections;
      cells = set_cell conn.cell (record (s.cells conn.cell) { connected = false }) s.cells;
      channel_connections = send_ok F (disconnect id "Disconnected") s.channel_connections;
    }
  ]

  unfoldable pub remove_all : List ℕ → TokioServer F M E Stream Addr → TokioServer F M E Stream Addr
  remove_all [] s = s
  remove_all (id ∷ ids) s = remove_all ids (remove_one id s)

  unfoldable pub step :
      (to_string : Addr → String)
      → (set_nodelay : Stream → Stream) → (now : TokioServerConnection → ℕ)
      → TokioServer F M E Stream Addr
      → TokioServer F M E Stream Addr
  step to_string set_nodelay now s =
      let t = accept_new to_string set_nodelay s in
      remove_all (to_remove now t.cells t.connections) t

  unfoldable pub drain_connections :
      TokioServer F M E Stream Addr
      → List (ConnectionMessages TokioServerConnection) × TokioServer F M E Stream Addr
  drain_connections s =
      let (events, left) = F.drain s.channel_connections in
      (events, record s { channel_connections = left })

  unfoldable pub drain_errors :
      TokioServer F M E Stream Addr → List (ErrorText E) × TokioServer F M E Stream Addr
  drain_errors s =
      let (errors, left) = F.drain s.channel_errors in (errors, record s { channel_errors = left })

  unfoldable pub connections_count : TokioServer F M E Stream Addr → ℕ
  connections_count s = length s.connections
