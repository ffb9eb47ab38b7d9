-- ===== src/Renet/Server/Retain.antt =====
-- The last part of `step` of the UDP server: which connections stay in the table, and which clients the
-- crate `renet` is told to disconnect.
use brilliance_network.Prelude.{
  ℕ, ◌≡◌, refl, sym, ◌∙◌, ap, Bool, true, false, not, List, [], ◌∷◌, ◌++◌, if◌then◌else◌, collect,
}
use brilliance_network.Channel.{Flume}
use brilliance_network.Renet.Server.{
  ServerCrates, RenetServerConnection, RenetServerNetwork, Cell, is_to_disconnect,
}
use brilliance_network.Renet.Server.Step.{retain}

module _ {F : Flume} {M : Type 0} (now : RenetServerConnection → ℕ × ℕ) (cells : ℕ → Cell F M) where
  -- A connection stays where it is not due when the clock is read for the second time.
  unfoldable pub stays : ℕ × RenetServerConnection → List (ℕ × RenetServerConnection)
  unfolding is_to_disconnect
  stays e = if is_to_disconnect (now e.1).1 (cells e.1.cell) then [] else e ∷ []

  -- Its client is disconnected where it is due the first time.
  unfoldable pub ends : ℕ × RenetServerConnection → List ℕ
  unfolding is_to_disconnect
  ends e = if is_to_disconnect (now e.1).0 (cells e.1.cell) then e.1.client_id ∷ [] else []

keep_first :
    {A : Type 0} (b : Bool) (a : A) {kept rest : List A}
    → kept ≡ rest
    → (if not b then a ∷ kept else kept) ≡ (if b then [] else a ∷ []) ++ rest
keep_first true a h = h
keep_first false a h = ap (λ l. a ∷ l) h

module _ {S T Duration Err Reason Addr : Type 0}
    (api : ServerCrates S T Duration Err Reason Addr) where
  unfoldable pub disconnect_all : List ℕ → S → S
  disconnect_all [] s = s
  disconnect_all (i ∷ is) s = disconnect_all is (api.disconnect i s)

  disconnect_first :
      (b : Bool) (i : ℕ) (is : List ℕ) (s : S)
      → disconnect_all ((if b then i ∷ [] else []) ++ is) s
        ≡ disconnect_all is (if b then api.disconnect i s else s)
  unfolding disconnect_all
  disconnect_first true i is s = refl
  disconnect_first false i is s = refl

  -- `retain` keeps the connections that are not due when the clock is read for the second time, in
  -- their order, and disconnects the clients of those that are due the first time.
  pub retain_lem :
      (F : Flume) {M : Type 0} (now : RenetServerConnection → ℕ × ℕ)
      (m : List (ℕ × RenetServerConnection)) (n : RenetServerNetwork F S T M Err)
      → (retain F api now m n).0 ≡ collect (stays now n.cells) m
        × ((retain F api now m n).1 ≡ disconnect_all (collect (ends now n.cells) m) n.server)
  unfolding retain collect stays ends disconnect_all
  retain_lem F now [] n = (refl, refl)
  retain_lem F now ((key, c) ∷ m) n =
      let first = is_to_disconnect (now c).0 (n.cells c.cell) in
      let after : RenetServerNetwork F S T _ Err = record n {
        server = if first then api.disconnect c.client_id n.server else n.server;
      } in
      let (kept, told) = retain_lem F now m after in
      (
        keep_first (is_to_disconnect (now c).1 (n.cells c.cell)) (key, c) kept,
        told ∙ sym (disconnect_first first c.client_id (collect (ends now n.cells) m) n.server),
      )
