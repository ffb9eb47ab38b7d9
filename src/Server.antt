-- ===== src/Server.antt =====
-- src/server.rs: what a server tells of its connections, over either transport. `C` is its type of
-- connections. A `u64` is a number, and the operations of the two traits are those of each transport.
use Prim.Native.String.{String}
use brilliance_network.Prelude.{ℕ}

pub data ConnectionMessages (C : Type 0) : Type 0 where
  connect : (connection : C) → ConnectionMessages C
  disconnect : (client_id : ℕ) (reason : String) → ConnectionMessages C
