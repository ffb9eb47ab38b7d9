-- ===== src/Tokio/Server/Removal.antt =====
-- How a step of the server removes the connections that are due.
use mathlib.Core.List.{append_assoc, append-nil, map}
use brilliance_network.Prelude.{
  ℕ, ◌≡◌, refl, sym, ◌∙◌, ap, subst, inl, inr, true, some, List, [], ◌∷◌, ◌++◌, if◌then◌else◌,
  Bool-cases,
}
use brilliance_network.Channel.{Flume, IsFifo, pending-send_ok}
use brilliance_network.Tokio.Connection.{Cell}
use brilliance_network.Tokio.Entries.{
  remove, lookup, Distinct, lookup-middle, remove-middle, Distinct-middle, Distinct-remove,
}
use brilliance_network.Tokio.Server.{
  TokioServer, TokioServerConnection, ConnectionMessages, disconnect, should_remove, to_remove,
  remove_one, remove_all,
}

module _ {F : Flume} {M : Type 0} where
  -- The connections that are not due.
  unfoldable pub kept :
      (TokioServerConnection → ℕ)
      → (ℕ → Cell F M)
      → List (ℕ × TokioServerConnection)
      → List (ℕ × TokioServerConnection)
  kept now cells [] = []
  kept now cells ((id, conn) ∷ m) =
      let rest = kept now cells m in
      if should_remove (now conn) (cells conn.cell) then rest else (id, conn) ∷ rest

unfoldable pub gone : ℕ → ConnectionMessages TokioServerConnection
gone id = disconnect id "Disconnected"

module _ (F : Flume) (laws : IsFifo F) {M E Stream Addr : Type 0} where
  -- The state `t` is `s` with these connections, and with these events announced since.
  pub record Announced (conns : List (ℕ × TokioServerConnection))
      (events : List (ConnectionMessages TokioServerConnection))
      (s t : TokioServer F M E Stream Addr) : Type 0 where
    pub table : t.connections ≡ conns
    pub announced : F.pending t.channel_connections ≡ F.pending s.channel_connections ++ events
    pub heard : F.is_open t.channel_connections ≡ true
    pub same_next : t.next_client_id ≡ s.next_client_id
    pub same_cells : t.next_cell ≡ s.next_cell

  pub remove_one_lem :
      (id : ℕ) (conn : TokioServerConnection) (s : TokioServer F M E Stream Addr)
      → lookup id s.connections ≡ some conn
      → F.is_open s.channel_connections ≡ true
      → Announced (remove id s.connections) (gone id ∷ []) s (remove_one F id s)
  unfolding remove_one gone
  remove_one_lem id conn s e o =
      let (queued, h) =
        pending-send_ok F laws (disconnect id "Disconnected") s.channel_connections o in
      rw (e, remove_one)
        (record {
          table = refl;
          announced = queued;
          heard = h;
          same_next = refl;
          same_cells = refl;
        })

  Announced-trans :
      {cs ds : List (ℕ × TokioServerConnection)}
      {xs ys : List (ConnectionMessages TokioServerConnection)}
      {s t u : TokioServer F M E Stream Addr}
      → Announced cs xs s t
      → Announced ds ys t u
      → Announced ds (xs ++ ys) s u
  Announced-trans {xs = xs} {ys = ys} {s = s} a b = record {
    table = b.table;
    announced =
        b.announced
        ∙ ap (λ zs. zs ++ ys) a.announced
        ∙ append_assoc (F.pending s.channel_connections) xs ys;
    heard = b.heard;
    same_next = b.same_next ∙ a.same_next;
    same_cells = b.same_cells ∙ a.same_cells;
  }

  pub remove_all_lem :
      (now : TokioServerConnection → ℕ) (cells : ℕ → Cell F M)
      (pre xs : List (ℕ × TokioServerConnection)) (s : TokioServer F M E Stream Addr)
      → s.connections ≡ pre ++ xs
      → Distinct (pre ++ xs)
      → F.is_open s.channel_connections ≡ true
      → Announced
          (pre ++ kept now cells xs)
          (map gone (to_remove now cells xs))
          s
          (remove_all F (to_remove now cells xs) s)
  unfolding kept to_remove remove_all
  remove_all_lem now cells pre [] s e d o = record {
    table = e;
    announced = sym (append-nil (F.pending s.channel_connections));
    heard = o;
    same_next = refl;
    same_cells = refl;
  }
  remove_all_lem now cells pre ((id, conn) ∷ m) s e d o =
      elim (Bool-cases (should_remove (now conn) (cells conn.cell))) [
        | inl due ↦
            let fresh = Distinct-middle id conn pre m d in
            let found : lookup id s.connections ≡ some conn =
              rw e (lookup-middle id conn pre m fresh) in
            let first = remove_one_lem id conn s found o in
            let left : (remove_one F id s).connections ≡ pre ++ m =
              first.table ∙ rw e (remove-middle id conn pre m fresh) in
            rw due (
              Announced-trans first (
                remove_all_lem now cells pre m (remove_one F id s) left
                  (Distinct-remove (id, conn) pre m d) first.heard))
        | inr stays ↦
            let shift = append_assoc pre ((id, conn) ∷ []) m in
            let later =
              remove_all_lem now cells (pre ++ (id, conn) ∷ []) m s (e ∙ sym shift)
                (subst Distinct (sym shift) d) o in
            rw stays (
              subst
                (λ cs.
                  Announced cs (map gone (to_remove now cells m)) s
                    (remove_all F (to_remove now cells m) s))
                (append_assoc pre ((id, conn) ∷ []) (kept now cells m)) later)
      ]
