-- ===== src/Renet/Server/Cells.antt =====
-- The cells of the connections of the UDP server.
use brilliance_network.Prelude.{ℕ, ◌≡◌, ◌≢◌, arith}
use brilliance_network.Channel.{Flume}
use brilliance_network.Renet.Server.{Cell, set_cell}

module _ {F : Flume} {M : Type 0} where
  pub set_cell_same : (at : ℕ) (c : Cell F M) (cells : ℕ → Cell F M) → set_cell at c cells at ≡ c
  unfolding set_cell
  set_cell_same at c cells = ground arith

  pub set_cell_other :
      (at : ℕ) (c : Cell F M) (cells : ℕ → Cell F M) (i : ℕ)
      → i ≢ at
      → set_cell at c cells i ≡ cells i
  unfolding set_cell
  set_cell_other at c cells i h = ground (arith, h)
