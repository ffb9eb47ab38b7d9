-- ===== src/Tokio/Server/Step.antt =====
-- A whole step of the server: what becomes of its table, and which events it announces.
use Prim.Native.String.{String}
use mathlib.Core.List.{append-nil}
use brilliance_network.Prelude.{
  ℕ, ◌+◌, ◌^◌, ◌<◌, ◌≡◌, ◌≢◌, false, refl, ◌∙◌, ap, subst, inl, inr, List, [], ◌∷◌, ◌++◌, arith,
  map, length, All, All-weaken, Bool-cases,
}
use brilliance_network.Channel.{Flume, IsFifo}
use brilliance_network.Tokio.Connection.{Cell}
use brilliance_network.Tokio.Entries.{Distinct}
use brilliance_network.Tokio.Server.{
  TokioServer, TokioServerConnection, fresh_cell, should_remove, to_remove, remove_all, accept_all,
  accept_new, step,
}
use brilliance_network.Tokio.Server.Removal.{kept, gone, remove_all_lem}
use brilliance_network.Tokio.Server.Due.{
  Parted, overdue, Parted-kept, to_remove-overdue, remove_all-clears, remove_all-spawned, tasks,
  accept_all-spawned,
}
use brilliance_network.Tokio.Server.Accept.{
  IsValid, Accepted, entries, welcome, accept_all-Accepted,
}

module _ {F : Flume} {M : Type 0} (now : TokioServerConnection → ℕ) where
  kept-All :
      (P : ℕ × TokioServerConnection → Type 0) (cells : ℕ → Cell F M)
      (xs : List (ℕ × TokioServerConnection))
      → All P xs
      → All P (kept now cells xs)
  unfolding kept
  kept-All P cells [] a = tt
  kept-All P cells (e ∷ m) a = ground (arith, kept-All P cells m a.1)

  kept-Distinct :
      (cells : ℕ → Cell F M) (xs : List (ℕ × TokioServerConnection))
      → Distinct xs
      → Distinct (kept now cells xs)
  unfolding kept
  kept-Distinct cells [] d = tt
  kept-Distinct cells (e ∷ m) d =
      ground (arith, kept-All (λ x. x.0 ≢ e.0) cells m d.0, kept-Distinct cells m d.1)

  -- Who is due depends on the cells of the connections alone.
  due-same :
      (c d : ℕ → Cell F M) (xs : List (ℕ × TokioServerConnection))
      → All (λ e. c e.1.cell ≡ d e.1.cell) xs
      → (kept now c xs ≡ kept now d xs)
        × (to_remove now c xs ≡ to_remove now d xs)
        × (overdue now c xs ≡ overdue now d xs)
  unfolding kept to_remove overdue
  due-same c d [] a = (refl, refl, refl)
  due-same c d ((id, conn) ∷ m) a =
      let (k, t, o) = due-same c d m a.1 in
      rw (ap (should_remove {F = F} (now conn)) a.0, k, t, o) (refl, refl, refl)

  -- No new connection is due.
  due-fresh :
      (c : ℕ → Cell F M) (xs : List (ℕ × TokioServerConnection))
      → All (λ e. c e.1.cell ≡ fresh_cell F) xs
      → (kept now c xs ≡ xs) × (to_remove now c xs ≡ []) × (overdue now c xs ≡ [])
  unfolding kept to_remove overdue should_remove
  due-fresh c [] a = (refl, refl, refl)
  due-fresh c ((id, conn) ∷ m) a =
      let (k, t, o) = due-fresh c m a.1 in
      rw (ap (should_remove {F = F} (now conn)) a.0, k, t, o) (refl, refl, refl)

  due-append :
      (c : ℕ → Cell F M) (xs ys : List (ℕ × TokioServerConnection))
      → (kept now c (xs ++ ys) ≡ kept now c xs ++ kept now c ys)
        × (to_remove now c (xs ++ ys) ≡ to_remove now c xs ++ to_remove now c ys)
        × (overdue now c (xs ++ ys) ≡ overdue now c xs ++ overdue now c ys)
  unfolding kept to_remove overdue
  due-append c [] ys = (refl, refl, refl)
  due-append c ((id, conn) ∷ m) ys =
      let (k, t, o) = due-append c m ys in
      elim (Bool-cases (should_remove (now conn) (c conn.cell))) [
        | inl due ↦ rw (due, k, t, o) (refl, refl, refl)
        | inr stays ↦ rw (stays, k, t, o) (refl, refl, refl)
      ]

module _ (F : Flume) (laws : IsFifo F) {M E Stream Addr : Type 0} (to_string : Addr → String)
    (set_nodelay : Stream → Stream) (now : TokioServerConnection → ℕ) where
  -- Once the connections that have arrived are in, those that are due are removed.
  removed :
      (s u : TokioServer F M E Stream Addr) (new : List (ℕ × TokioServerConnection))
      → Accepted F laws new s u
      → All (λ e. e.1.cell < s.next_cell) s.connections
      → let t = remove_all F (to_remove now u.cells u.connections) u in
        (t.connections ≡ kept now s.cells s.connections ++ new)
        × (F.pending t.channel_connections
            ≡ F.pending s.channel_connections
              ++ map welcome new
              ++ map gone (to_remove now s.cells s.connections))
        × IsValid F laws t
        × (t.next_client_id ≡ s.next_client_id + length new)
        × All (λ e. (t.cells e.1.cell).connected ≡ false) (overdue now s.cells s.connections)
        × (t.spawned ≡ u.spawned)
  removed s u new a below =
      let r =
        remove_all_lem F laws now u.cells [] u.connections u refl a.valid.distinct a.valid.heard in
      let (split_kept, split_due, split_over) = due-append now u.cells s.connections new in
      let older =
        All-weaken (λ e. e.1.cell < s.next_cell) (λ e. u.cells e.1.cell ≡ s.cells e.1.cell)
          s.connections (λ e b. a.older e.1.cell b) below in
      let (old_kept, old_due, old_over) = due-same now u.cells s.cells s.connections older in
      let (new_kept, new_due, new_over) = due-fresh now u.cells new a.newer in
      let due : to_remove now u.cells u.connections ≡ to_remove now s.cells s.connections =
        ap (to_remove now u.cells) a.table
        ∙ split_due
        ∙ rw (old_due, new_due) (append-nil (to_remove now s.cells s.connections)) in
      let over : overdue now u.cells u.connections ≡ overdue now s.cells s.connections =
        ap (overdue now u.cells) a.table
        ∙ split_over
        ∙ rw (old_over, new_over) (append-nil (overdue now s.cells s.connections)) in
      (
        r.table ∙ ap (kept now u.cells) a.table ∙ split_kept ∙ rw (old_kept, new_kept) refl,
        r.announced
            ∙ ap (λ ids. F.pending u.channel_connections ++ map gone ids) due
            ∙ ap (λ xs. xs ++ map gone (to_remove now s.cells s.connections)) a.announced,
        record {
          distinct = rw r.table (kept-Distinct now u.cells u.connections a.valid.distinct);
          ids =
              rw (r.table, r.same_next)
                (kept-All now (λ e. e.0 < u.next_client_id) u.cells u.connections a.valid.ids);
          addresses =
              rw (r.table, r.same_cells)
                (kept-All now (λ e. e.1.cell < u.next_cell) u.cells u.connections
                  a.valid.addresses);
          heard = r.heard;
        },
        r.same_next ∙ a.counted,
        subst
            (All (λ e.
              ((remove_all F (to_remove now u.cells u.connections) u).cells e.1.cell).connected
              ≡ false))
            over
            (remove_all-clears F laws now u.cells [] u.connections u refl a.valid.distinct
              a.valid.heard),
        remove_all-spawned F laws (to_remove now u.cells u.connections) u,
      )

  pub step_exact :
      (s : TokioServer F M E Stream Addr)
      → IsValid F laws s
      → s.next_client_id + length (F.pending s.new_connections_rx) < 2 ^ 64
      → let new = entries to_string s.next_client_id s.next_cell (F.pending s.new_connections_rx) in
        let t = step F to_string set_nodelay now s in
        (t.connections ≡ kept now s.cells s.connections ++ new)
        × (F.pending t.channel_connections
            ≡ F.pending s.channel_connections
              ++ map welcome new
              ++ map gone (to_remove now s.cells s.connections))
        × IsValid F laws t
        × (t.next_client_id ≡ s.next_client_id + length new)
        × All (λ e. (t.cells e.1.cell).connected ≡ false) (overdue now s.cells s.connections)
        × (t.spawned ≡ s.spawned ++ tasks set_nodelay s.next_cell (F.pending s.new_connections_rx))
  unfolding step accept_new
  step_exact s v h =
      let (arrived, left) = F.drain s.new_connections_rx in
      let s' = record s { new_connections_rx = left } in
      let v' : IsValid F laws s' = record {
        distinct = v.distinct;
        ids = v.ids;
        addresses = v.addresses;
        heard = v.heard;
      } in
      let all : arrived ≡ F.pending s.new_connections_rx =
        laws.drain-pending s.new_connections_rx in
      let few : s.next_client_id + length arrived < 2 ^ 64 = rw all h in
      let (table, told, valid, counted, cleared, spawned) =
        removed s' (accept_all F to_string set_nodelay arrived s') _
          (accept_all-Accepted F laws to_string set_nodelay arrived s' few v') v.addresses in
      rw (← all) (
        table,
        told,
        valid,
        counted,
        cleared,
        spawned ∙ accept_all-spawned to_string set_nodelay arrived s',
      )

  -- In a valid state, while the ids do not run out, a step parts the connections of the table. Due is
  -- each whose time to end is set and has come, or whose flag is cleared while no time is set. Those
  -- that are not due stay, in their order, and one is added for each stream that has arrived, with the
  -- next ids and cells, and its tasks are spawned. It announces the new connections in the order of
  -- their arrival, and then the end of each that was due, and the flags of these are cleared. It leaves
  -- a valid state, and as many ids are given out as streams have arrived.
  pub step_lem :
      (s : TokioServer F M E Stream Addr)
      → IsValid F laws s
      → s.next_client_id + length (F.pending s.new_connections_rx) < 2 ^ 64
      → let new = entries to_string s.next_client_id s.next_cell (F.pending s.new_connections_rx) in
        let t = step F to_string set_nodelay now s in
        (stay : List (ℕ × TokioServerConnection)) × (due : List (ℕ × TokioServerConnection))
        × Parted now s.cells s.connections stay due
        × (t.connections ≡ stay ++ new)
        × (F.pending t.channel_connections
            ≡ F.pending s.channel_connections ++ map welcome new ++ map (λ e. gone e.0) due)
        × All (λ e. (t.cells e.1.cell).connected ≡ false) due
        × (t.spawned ≡ s.spawned ++ tasks set_nodelay s.next_cell (F.pending s.new_connections_rx))
        × IsValid F laws t
        × (t.next_client_id ≡ s.next_client_id + length new)
  step_lem s v h =
      let new = entries to_string s.next_client_id s.next_cell (F.pending s.new_connections_rx) in
      let (table, told, valid, counted, cleared, spawned) = step_exact s v h in
      (
        kept now s.cells s.connections,
        overdue now s.cells s.connections,
        Parted-kept now s.cells s.connections,
        table,
        told
            ∙ ap (λ l. F.pending s.channel_connections ++ map welcome new ++ l)
                (to_remove-overdue now s.cells s.connections),
        cleared,
        spawned,
        valid,
        counted,
      )
