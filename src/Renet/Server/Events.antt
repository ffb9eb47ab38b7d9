-- ===== src/Renet/Server/Events.antt =====
-- What the UDP server does with the events of the crate `renet`.
use mathlib.Core.List.{append_assoc}
use brilliance_network.Prelude.{
  ℕ, suc, ◌+◌, ◌<◌, ◌≡◌, ◌≢◌, refl, ◌∙◌, ap, inl, inr, Bool-cases, true, none, some, List, [], ◌∷◌,
  ◌++◌, ◌==◌, length, All, arith,
}
use brilliance_network.Channel.{Flume, IsFifo}
use brilliance_network.Server.{ConnectionMessages, connect, disconnect}
use brilliance_network.Tokio.Entries.{insert, remove}
use brilliance_network.Renet.Run.{ran, while_some, while_some_lem}
use brilliance_network.Renet.Server.{
  ServerEvent, client_connected, client_disconnected, ServerCrates, RenetServerConnection,
  RenetServerNetwork, fresh_cell, set_cell, create,
}
use brilliance_network.Renet.Server.Cells.{set_cell_same, set_cell_other}
use brilliance_network.Renet.Server.Step.{next_event, on_event}

-- The messages that wait, by client and channel, and the events, both oldest first. To receive one
-- leaves all others.
pub record IsServerBox {S T Duration Err Reason Addr : Type 0}
    (api : ServerCrates S T Duration Err Reason Addr) : Type 0 where
  pub inbox : S → ℕ → ℕ → List (List ℕ)
  pub events : S → List (ServerEvent Reason)
  pub receive-empty : (i k : ℕ) (s : S) → inbox s i k ≡ [] → api.receive_message i k s ≡ none
  pub receive-cons :
      (i k : ℕ) (s : S) (m : List ℕ) (ms : List (List ℕ))
      → inbox s i k ≡ m ∷ ms
      → (t : S) × (api.receive_message i k s ≡ some (m, t))
        × (inbox t i k ≡ ms)
        × ((l : ℕ) → l ≢ k → inbox t i l ≡ inbox s i l)
        × ((j l : ℕ) → j ≢ i → inbox t j l ≡ inbox s j l)
        × (events t ≡ events s)
  pub get_event-empty : (s : S) → events s ≡ [] → api.get_event s ≡ none
  pub get_event-cons :
      (s : S) (e : ServerEvent Reason) (es : List (ServerEvent Reason))
      → events s ≡ e ∷ es
      → (t : S) × (api.get_event s ≡ some (e, t))
        × (events t ≡ es)
        × ((i k : ℕ) → inbox t i k ≡ inbox s i k)

-- The table of one who only reads what the server tells of its connections.
unfoldable pub replay :
    List (ConnectionMessages RenetServerConnection)
    → List (ℕ × RenetServerConnection)
    → List (ℕ × RenetServerConnection)
replay [] m = m
replay (connect c ∷ ms) m = replay ms (insert c.client_id c m)
replay (disconnect id reason ∷ ms) m = replay ms (remove id m)

-- How many clients have connected.
abbrev pub connects : {Reason : Type 0} → List (ServerEvent Reason) → ℕ
connects [] = 0
connects (client_connected id ∷ es) = suc (connects es)
connects (client_disconnected id reason ∷ es) = connects es

module _ {S T Duration Err Reason Addr : Type 0}
    (api : ServerCrates S T Duration Err Reason Addr) where
  -- What the server tells of some events: a new connection has the address that the transport gives
  -- its client, and the next free cell.
  unfoldable pub announced :
      T → ℕ → List (ServerEvent Reason) → List (ConnectionMessages RenetServerConnection)
  announced t cell [] = []
  announced t cell (client_connected id ∷ es) =
      let rest = announced t (cell + 1) es in
      elim (api.client_addr id t) [
        | none ↦ []
        | some addr ↦
            connect (record { client_id = id; ip = api.addr_to_string addr; cell = cell }) ∷ rest
      ]
  announced t cell (client_disconnected id reason ∷ es) =
      disconnect id (api.reason_to_string reason) ∷ announced t cell es

  -- The transport knows the address of a client that has connected.
  abbrev pub HasAddr : T → ServerEvent Reason → Type 0
  HasAddr t (client_connected id) = (addr : Addr) × (api.client_addr id t ≡ some addr)
  HasAddr t (client_disconnected id reason) = Unit {0}

  module _ (F : Flume) (laws : IsFifo F) {M : Type 0} (box : IsServerBox api) where
    open box use {inbox, events}

    -- The events `es` are still to come, of those that stood there when the state was `n`.
    pub record Coming (n : RenetServerNetwork F S T M Err) (es : List (ServerEvent Reason))
        (s : RenetServerNetwork F S T M Err) : Type 0 where
      pub left : events s.server ≡ es
      pub known : All (HasAddr n.transport) es
      pub told :
          F.pending s.channel_connections ++ announced n.transport s.next_cell es
          ≡ F.pending n.channel_connections ++ announced n.transport n.next_cell (events n.server)
      pub table :
          replay (announced n.transport s.next_cell es) s.connections
          ≡ replay (announced n.transport n.next_cell (events n.server)) n.connections
      pub counted : s.next_cell + connects es ≡ n.next_cell + connects (events n.server)
      pub is_open : F.is_open s.channel_connections ≡ true
      pub same : s.transport ≡ n.transport
      pub errors : s.channel_errors ≡ n.channel_errors
      pub grown : ¬ (s.next_cell < n.next_cell)
      pub cells : (i : ℕ) → i < n.next_cell → s.cells i ≡ n.cells i
      pub fresh : (i : ℕ) → ¬ (i < n.next_cell) → i < s.next_cell → s.cells i ≡ fresh_cell F
      pub waiting : (i k : ℕ) → inbox s.server i k ≡ inbox n.server i k

    Coming-last : (n s : RenetServerNetwork F S T M Err) → Coming n [] s → next_event F api s ≡ none
    unfolding next_event
    Coming-last n s p = rw (box.get_event-empty s.server p.left, next_event) refl

    Coming-more :
        (n : RenetServerNetwork F S T M Err) (e : ServerEvent Reason)
        (es : List (ServerEvent Reason)) (s : RenetServerNetwork F S T M Err)
        → Coming n (e ∷ es) s
        → (t u : RenetServerNetwork F S T M Err) × (next_event F api s ≡ some (e, t))
          × (on_event F api e t ≡ ran u)
          × Coming n es u
    unfolding next_event on_event create announced replay
    Coming-more n (client_connected id) es s p =
        let (server, got, now, keeps) =
          box.get_event-cons s.server (client_connected id) es p.left in
        let (addr, at) = p.known.0 in
        let c : RenetServerConnection = record {
          client_id = id;
          ip = api.addr_to_string addr;
          cell = s.next_cell;
        } in
        let (events', sent, queued, o) =
          laws.send-open (connect c) s.channel_connections p.is_open in
        let rest = announced n.transport (s.next_cell + 1) es in
        (
          record s { server = server },
          record s {
            server = server;
            cells = set_cell s.next_cell (fresh_cell F) s.cells;
            next_cell = s.next_cell + 1;
            channel_connections = events';
            connections = insert id c s.connections;
          },
          rw (got, next_event) refl,
          rw (p.same, at, sent, on_event) refl,
          record {
            left = now;
            known = p.known.1;
            told =
                ap (λ l. l ++ rest) queued
                ∙ append_assoc (F.pending s.channel_connections) (connect c ∷ []) rest
                ∙ (rw (at, announced) at p.told);
            table = rw (at, announced) at p.table;
            counted = omega (arith, p.counted);
            is_open = o;
            same = p.same;
            errors = p.errors;
            grown = λ h. p.grown (omega arith);
            cells = λ i h.
                set_cell_other s.next_cell _ s.cells i (λ e. p.grown (omega arith)) ∙ p.cells i h;
            fresh = λ i h b. elim (Bool-cases (i == s.next_cell)) [
              | inl e ↦
                  let e' : i ≡ s.next_cell = ground arith in
                  ap (set_cell s.next_cell (fresh_cell F) s.cells) e'
                  ∙ set_cell_same s.next_cell (fresh_cell F) s.cells
              | inr d ↦
                  set_cell_other s.next_cell (fresh_cell F) s.cells i (ground arith)
                  ∙ p.fresh i h (ground arith)
            ];
            waiting = λ i k. keeps i k ∙ p.waiting i k;
          },
        )
    Coming-more n (client_disconnected id reason) es s p =
        let (server, got, now, keeps) =
          box.get_event-cons s.server (client_disconnected id reason) es p.left in
        let gone = disconnect id (api.reason_to_string reason) in
        let (events', sent, queued, o) = laws.send-open gone s.channel_connections p.is_open in
        let rest = announced n.transport s.next_cell es in
        (
          record s { server = server },
          record s {
            server = server;
            channel_connections = events';
            connections = remove id s.connections;
          },
          rw (got, next_event) refl,
          rw (sent, on_event) refl,
          record {
            left = now;
            known = p.known.1;
            told =
                ap (λ l. l ++ rest) queued
                ∙ append_assoc (F.pending s.channel_connections) (gone ∷ []) rest
                ∙ p.told;
            table = p.table;
            counted = p.counted;
            is_open = o;
            same = p.same;
            errors = p.errors;
            grown = p.grown;
            cells = p.cells;
            fresh = p.fresh;
            waiting = λ i k. keeps i k ∙ p.waiting i k;
          },
        )

    -- With more fuel than events, all of them are handled.
    pub events_lem :
        (n : RenetServerNetwork F S T M Err) (fuel : ℕ)
        → F.is_open n.channel_connections ≡ true
        → All (HasAddr n.transport) (events n.server)
        → length (events n.server) < fuel
        → (t : RenetServerNetwork F S T M Err) × (while_some
              (next_event F api)
              (on_event F api)
              fuel
              n
            ≡ ran t)
          × Coming n [] t
    events_lem n fuel o known h =
        while_some_lem (next_event F api) (on_event F api) (Coming n) (Coming-last n)
          (Coming-more n) fuel (events n.server) n h
          (record {
            left = refl;
            known = known;
            told = refl;
            table = refl;
            counted = refl;
            is_open = o;
            same = refl;
            errors = refl;
            grown = λ h. omega arith;
            cells = λ i h. refl;
            fresh = λ i h b. absurd (h b);
            waiting = λ i k. refl;
          })
