-- ===== src/Tokio/Server/Accept.antt =====
-- How a step of the server takes in the connections that have arrived.
use Prim.Native.String.{String}
use mathlib.Core.List.{append_assoc, append-nil}
use brilliance_network.Prelude.{
  ℕ, ◌+◌, ◌%◌, ◌^◌, ◌<◌, ◌≤◌, ◌≡◌, refl, sym, ◌∙◌, ap, subst, true, List, [], ◌∷◌, ◌++◌, arith, map,
  length, All, All-append, All-weaken,
}
use brilliance_network.Channel.{Flume, IsFifo, pending-send_ok}
use brilliance_network.Tokio.Connection.{Cell}
use brilliance_network.Tokio.Entries.{Distinct, insert-fresh, Distinct-snoc, NotKey-of_below}
use brilliance_network.Tokio.Server.{
  TokioServer, TokioServerConnection, ConnectionMessages, connect, fresh_cell, set_cell, accept_one,
  accept_all,
}

-- The entries of connections that arrive, with the ids and the cells that follow these.
pub entries :
    {Stream Addr : Type 0}
    → (Addr → String)
    → (id cell : ℕ) → List (Stream × Addr)
    → List (ℕ × TokioServerConnection)
entries to_string id cell [] = []
entries to_string id cell ((stream, addr) ∷ arrived) =
    (id, record { client_id = id; ip = to_string addr; cell = cell })
    ∷ entries to_string (id + 1) (cell + 1) arrived

pub length-entries :
    {Stream Addr : Type 0} (to_string : Addr → String) (id cell : ℕ)
    (arrived : List (Stream × Addr))
    → length (entries to_string id cell arrived) ≡ length arrived
unfolding entries
length-entries to_string id cell [] = refl
length-entries to_string id cell ((stream, addr) ∷ arrived) =
    omega (arith, length-entries to_string (id + 1) (cell + 1) arrived)

unfoldable pub welcome : ℕ × TokioServerConnection → ConnectionMessages TokioServerConnection
welcome e = connect e.1

set_cell-other :
    {F : Flume} {M : Type 0} (at i : ℕ) (c : Cell F M) (cells : ℕ → Cell F M)
    → i < at
    → set_cell at c cells i ≡ cells i
unfolding set_cell
set_cell-other at i c cells h = ground arith

set_cell-same :
    {F : Flume} {M : Type 0} (at : ℕ) (c : Cell F M) (cells : ℕ → Cell F M)
    → set_cell at c cells at ≡ c
unfolding set_cell
set_cell-same at c cells = ground arith

module _ (F : Flume) (laws : IsFifo F) {M E Stream Addr : Type 0} where
  -- The table has one entry for each id, each with an id and a cell that were given out before.
  pub record IsValid (s : TokioServer F M E Stream Addr) : Type 0 where
    pub distinct : Distinct s.connections
    pub ids : All (λ e. e.0 < s.next_client_id) s.connections
    pub addresses : All (λ e. e.1.cell < s.next_cell) s.connections
    pub heard : F.is_open s.channel_connections ≡ true

  pub record Accepted (new : List (ℕ × TokioServerConnection)) (s t : TokioServer F M E Stream Addr)
      : Type 0 where
    pub table : t.connections ≡ s.connections ++ new
    pub announced :
        F.pending t.channel_connections ≡ F.pending s.channel_connections ++ map welcome new
    pub valid : IsValid t
    pub older : (i : ℕ) → i < s.next_cell → t.cells i ≡ s.cells i
    pub newer : All (λ e. t.cells e.1.cell ≡ fresh_cell F) new
    pub counted : t.next_client_id ≡ s.next_client_id + length new

  Accepted-trans :
      {e : ℕ × TokioServerConnection} {es : List (ℕ × TokioServerConnection)}
      {s t u : TokioServer F M E Stream Addr}
      → Accepted (e ∷ []) s t
      → Accepted es t u
      → s.next_cell ≤ t.next_cell
      → e.1.cell < t.next_cell
      → Accepted (e ∷ es) s u
  Accepted-trans {e = e} {es = es} {s = s} a b grows inside = record {
    table = b.table ∙ ap (λ xs. xs ++ es) a.table ∙ append_assoc s.connections (e ∷ []) es;
    announced =
        b.announced
        ∙ ap (λ xs. xs ++ map welcome es) a.announced
        ∙ append_assoc (F.pending s.channel_connections) (welcome e ∷ []) (map welcome es);
    valid = b.valid;
    older = λ i h. b.older i (omega arith) ∙ a.older i h;
    newer = (b.older e.1.cell inside ∙ a.newer.0, b.newer);
    counted = omega (arith, a.counted, b.counted);
  }

  module _ (to_string : Addr → String) (set_nodelay : Stream → Stream) where
    accept_one-Accepted :
        (stream : Stream) (addr : Addr) (s : TokioServer F M E Stream Addr)
        → s.next_client_id + 1 < 2 ^ 64
        → IsValid s
        → Accepted
            (entries to_string s.next_client_id s.next_cell ((stream, addr) ∷ []))
            s
            (accept_one F to_string set_nodelay (stream, addr) s)
    unfolding accept_one entries welcome
    accept_one-Accepted stream addr s h v =
        let id = s.next_client_id in
        let conn : TokioServerConnection = record {
          client_id = id;
          ip = to_string addr;
          cell = s.next_cell;
        } in
        let fresh = NotKey-of_below id s.connections v.ids in
        let table = insert-fresh id conn s.connections fresh in
        let next : (id + 1) % 2 ^ 64 ≡ id + 1 = omega arith in
        let (queued, heard) = pending-send_ok F laws (connect conn) s.channel_connections v.heard in
        record {
          table = table;
          announced = queued;
          valid = record {
            distinct = rw table (Distinct-snoc id conn s.connections v.distinct fresh);
            ids =
                rw (table, next)
                  (All-append (λ e. e.0 < id + 1) s.connections ((id, conn) ∷ [])
                    (All-weaken (λ e. e.0 < id) (λ e. e.0 < id + 1) s.connections
                      (λ e b. omega arith) v.ids)
                    (omega arith, tt));
            addresses = rw table (
                All-append (λ e. e.1.cell < s.next_cell + 1) s.connections ((id, conn) ∷ [])
                  (All-weaken (λ e. e.1.cell < s.next_cell) (λ e. e.1.cell < s.next_cell + 1)
                    s.connections (λ e b. omega arith) v.addresses)
                  (omega arith, tt));
            heard = heard;
          };
          older = λ i b. set_cell-other s.next_cell i (fresh_cell F) s.cells b;
          newer = (set_cell-same s.next_cell (fresh_cell F) s.cells, tt);
          counted = next;
        }

    pub accept_all-Accepted :
        (arrived : List (Stream × Addr)) (s : TokioServer F M E Stream Addr)
        → s.next_client_id + length arrived < 2 ^ 64
        → IsValid s
        → Accepted
            (entries to_string s.next_client_id s.next_cell arrived)
            s
            (accept_all F to_string set_nodelay arrived s)
    unfolding entries accept_all accept_one
    accept_all-Accepted [] s h v = record {
      table = sym (append-nil s.connections);
      announced = sym (append-nil (F.pending s.channel_connections));
      valid = v;
      older = λ i b. refl;
      newer = tt;
      counted = omega arith;
    }
    accept_all-Accepted ((stream, addr) ∷ arrived) s h v =
        let t = accept_one F to_string set_nodelay (stream, addr) s in
        let next : t.next_client_id ≡ s.next_client_id + 1 = omega arith in
        let first = accept_one-Accepted stream addr s (omega arith) v in
        let rest = accept_all-Accepted arrived t (omega arith) first.valid in
        Accepted-trans first
          (subst
            (λ k.
              Accepted (entries to_string k (s.next_cell + 1) arrived) t
                (accept_all F to_string set_nodelay arrived t))
            next rest)
          (omega arith) (omega arith)
