-- ===== src/Tokio/Server/History.antt =====
-- The server over many steps, with the tasks of its connections and the accept loop between them.
use Prim.Native.String.{String}
use brilliance_network.Prelude.{
  ℕ, ◌+◌, ◌^◌, ◌<◌, ◌≡◌, refl, ◌∙◌, ap, inl, inr, List, [], ◌∷◌, ◌++◌, arith, map, length,
  length-append, Bool-cases,
}
use brilliance_network.Channel.{Flume, IsFifo}
use brilliance_network.Tokio.Connection.{Cell}
use brilliance_network.Tokio.Server.{
  TokioServer, TokioServerConnection, ConnectionMessages, connect, disconnect, should_remove,
  to_remove, step, new, drain_connections, connections_count,
}
use brilliance_network.Tokio.Server.Removal.{kept, gone}
use brilliance_network.Tokio.Server.Accept.{IsValid, entries, length-entries, welcome}
use brilliance_network.Tokio.Server.Step.{step_exact}

-- What happens before a step: the accept loop has queued streams, and the tasks have left the cells in
-- some state.
pub record Round (F : Flume) (M Stream Addr : Type 0) : Type 0 where
  pub arrived : F.Channel (Stream × Addr)
  pub cells : ℕ → Cell F M
  pub now : TokioServerConnection → ℕ

pub connects : List (ConnectionMessages TokioServerConnection) → ℕ
connects [] = 0
connects (connect c ∷ xs) = 1 + connects xs
connects (disconnect id reason ∷ xs) = connects xs

pub disconnects : List (ConnectionMessages TokioServerConnection) → ℕ
disconnects [] = 0
disconnects (connect c ∷ xs) = disconnects xs
disconnects (disconnect id reason ∷ xs) = 1 + disconnects xs

counts-append :
    (xs ys : List (ConnectionMessages TokioServerConnection))
    → (connects (xs ++ ys) ≡ connects xs + connects ys)
      × (disconnects (xs ++ ys) ≡ disconnects xs + disconnects ys)
unfolding connects disconnects
counts-append [] ys = (omega arith, omega arith)
counts-append (connect c ∷ xs) ys = let (a, b) = counts-append xs ys in (omega (arith, a), b)
counts-append (disconnect id reason ∷ xs) ys =
    let (a, b) = counts-append xs ys in (a, omega (arith, b))

counts-welcome :
    (es : List (ℕ × TokioServerConnection))
    → (connects (map welcome es) ≡ length es) × (disconnects (map welcome es) ≡ 0)
unfolding connects disconnects welcome
counts-welcome [] = (refl, refl)
counts-welcome (e ∷ es) = let (a, b) = counts-welcome es in (omega (arith, a), b)

counts-gone :
    (ids : List ℕ) → (connects (map gone ids) ≡ 0) × (disconnects (map gone ids) ≡ length ids)
unfolding connects disconnects gone
counts-gone [] = (refl, refl)
counts-gone (id ∷ ids) = let (a, b) = counts-gone ids in (a, omega (arith, b))

length-kept :
    {F : Flume} {M : Type 0} (now : TokioServerConnection → ℕ) (cells : ℕ → Cell F M)
    (xs : List (ℕ × TokioServerConnection))
    → length (kept now cells xs) + length (to_remove now cells xs) ≡ length xs
unfolding kept to_remove
length-kept now cells [] = refl
length-kept now cells ((id, conn) ∷ m) =
    let rest = length-kept now cells m in
    elim (Bool-cases (should_remove (now conn) (cells conn.cell))) [
      | inl due ↦ rw due (omega (arith, rest))
      | inr stays ↦ rw stays (omega (arith, rest))
    ]

balance :
    (events : List (ConnectionMessages TokioServerConnection))
    (es : List (ℕ × TokioServerConnection)) (ids : List ℕ)
    (xs left ys : List (ℕ × TokioServerConnection))
    → events ≡ map welcome es ++ map gone ids
    → ys ≡ left ++ es
    → length left + length ids ≡ length xs
    → length xs + connects events ≡ disconnects events + length ys
balance events es ids xs left ys e t k =
    let (a, b) = counts-append (map welcome es) (map gone ids) in
    let (w, w') = counts-welcome es in
    let (g, g') = counts-gone ids in
    let ins = ap connects e in
    let outs = ap disconnects e in
    let all = ap length t ∙ length-append left es in
    omega (arith, a, b, w, w', g, g', ins, outs, all, k)

module _ (F : Flume) {M Stream Addr : Type 0} where
  unfoldable pub arrivals : List (Round F M Stream Addr) → ℕ
  arrivals [] = 0
  arrivals (r ∷ rs) = length (F.pending r.arrived) + arrivals rs

module _ (F : Flume) {M E Stream Addr : Type 0} where
  -- The state that a step meets.
  before : Round F M Stream Addr → TokioServer F M E Stream Addr → TokioServer F M E Stream Addr
  before r s = record s { new_connections_rx = r.arrived; cells = r.cells }

  module _ (to_string : Addr → String) (set_nodelay : Stream → Stream) where
    -- The events that the program has drained, after each step, and the last state.
    pub run :
        TokioServer F M E Stream Addr
        → List (Round F M Stream Addr)
        → List (ConnectionMessages TokioServerConnection) × TokioServer F M E Stream Addr
    run s [] = ([], s)
    run s (r ∷ rs) =
        let (events, t) = drain_connections F (step F to_string set_nodelay r.now (before r s)) in
        let (later, last) = run t rs in (events ++ later, last)

    module _ (laws : IsFifo F) where
      -- One step, and what is drained after it.
      round_lem :
          (s : TokioServer F M E Stream Addr) (r : Round F M Stream Addr)
          → IsValid F laws s
          → F.pending s.channel_connections ≡ []
          → s.next_client_id + length (F.pending r.arrived) < 2 ^ 64
          → let (events, t) =
              drain_connections F (step F to_string set_nodelay r.now (before r s)) in
            (length s.connections + connects events ≡ disconnects events + length t.connections)
            × IsValid F laws t
            × (F.pending t.channel_connections ≡ [])
            × (t.next_client_id ≡ s.next_client_id + length (F.pending r.arrived))
      unfolding before drain_connections
      round_lem s r v none_left few =
          let s' = before r s in
          let v' : IsValid F laws s' = record {
            distinct = v.distinct;
            ids = v.ids;
            addresses = v.addresses;
            heard = v.heard;
          } in
          let (table, announced, valid, given, _, _) =
            step_exact F laws to_string set_nodelay r.now s' v' few in
          let u = step F to_string set_nodelay r.now s' in
          let es = entries to_string s.next_client_id s.next_cell (F.pending r.arrived) in
          let ids = to_remove r.now r.cells s.connections in
          let drained : (F.drain u.channel_connections).0 ≡ map welcome es ++ map gone ids =
            laws.drain-pending u.channel_connections
            ∙ announced
            ∙ ap (λ xs. xs ++ map welcome es ++ map gone ids) none_left in
          (
            balance (F.drain u.channel_connections).0 es ids s.connections
                (kept r.now r.cells s.connections) u.connections drained table
                (length-kept r.now r.cells s.connections),
            record {
              distinct = valid.distinct;
              ids = valid.ids;
              addresses = valid.addresses;
              heard = laws.drain-is_open u.channel_connections ∙ valid.heard;
            },
            laws.drain-empty u.channel_connections,
            omega (
              arith,
              given,
              length-entries to_string s.next_client_id s.next_cell (F.pending r.arrived),
            ),
          )

      run_lem :
          (s : TokioServer F M E Stream Addr) (rs : List (Round F M Stream Addr))
          → IsValid F laws s
          → F.pending s.channel_connections ≡ []
          → s.next_client_id + arrivals F rs < 2 ^ 64
          → let (events, t) = run s rs in
            (length s.connections + connects events ≡ disconnects events + length t.connections)
            × IsValid F laws t
      unfolding run arrivals connects disconnects
      run_lem s [] v e h = (omega arith, v)
      run_lem s (r ∷ rs) v e h =
          let (count, valid, drained, given) = round_lem s r v e (omega arith) in
          let (events, t) = drain_connections F (step F to_string set_nodelay r.now (before r s)) in
          let (counts, last) = run_lem t rs valid drained (omega (arith, given)) in
          let (a, b) = counts-append events (run t rs).0 in
          (omega (arith, a, b, count, counts), last)

      -- From a new server on, over any steps with any streams that arrive and whatever the tasks do to
      -- the flags and the times of the connections between them, while fewer than 2^64 ids are used:
      -- the table stays valid, and as many connections are in it as have been announced and have not
      -- been announced to end.
      pub run-new-connections_count :
          (rx : F.Channel (Stream × Addr)) (cells : ℕ → Cell F M)
          (rs : List (Round F M Stream Addr))
          → 1 + arrivals F rs < 2 ^ 64
          → let (events, t) = run (new F rx cells) rs in
            (connects events ≡ disconnects events + connections_count F t) × IsValid F laws t
      unfolding new connections_count
      run-new-connections_count rx cells rs h =
          let (count, valid) =
            run_lem (new F rx cells) rs
              (record { distinct = tt; ids = tt; addresses = tt; heard = laws.unbounded-is_open })
              laws.unbounded-pending h in
          (omega (arith, count), valid)
