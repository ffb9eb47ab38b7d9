-- ===== src/Renet/Memory.antt =====
-- The crates `renet` and `renet_netcode` in memory, for the examples: a client is what waits for it and
-- what it has sent.
use Prim.Native.String.{String}
use mathlib.Core.List.{append-nil}
use brilliance_network.Prelude.{
  true, collect, collect-snoc, ◌≡◌, ◌≢◌, ◌∙◌, ap, ◌&&◌, ℕ, refl, Bool, true, Option, none, some,
  List, [], ◌∷◌, ◌++◌, ◌==◌, if◌then◌else◌, arith,
}
use brilliance_network.Fixed.{Fixed, thousandths}
use brilliance_network.Renet.Client.{ClientCrates}
use brilliance_network.Renet.Server.{ServerCrates, ServerEvent}
use brilliance_network.Renet.Server.Events.{IsServerBox}
use brilliance_network.Renet.EndToEnd.{IsOutbox}
use brilliance_network.Renet.Client.Receiving.{IsInbox}

pub record MemoryClient : Type 0 where
  pub inbox : ℕ → List (List ℕ)
  pub sent : List (ℕ × List ℕ)
  pub is_disconnected : Bool

-- The transport fails where it holds a reason.
abbrev pub memory_client : ClientCrates MemoryClient (Option ℕ) Fixed ℕ ℕ ℕ
memory_client = record {
  is_disconnected = λ c. c.is_disconnected;
  rtt = λ c. thousandths 30;
  bytes_received_per_sec = λ c. thousandths 0;
  bytes_sent_per_sec = λ c. thousandths 0;
  packet_loss = λ c. thousandths 0;
  update = λ delta c. c;
  send_message = λ k m c. record c { sent = c.sent ++ (k, m) ∷ [] };
  receive_message = λ k c. elim (c.inbox k) [
    | [] ↦ none
    | m ∷ ms ↦ some (m, record c { inbox = λ j. if j == k then ms else c.inbox j })
  ];
  transport_update = λ delta t c. (t, t, c);
  send_packets = λ t c. (none, t, c);
  disconnect_reason = λ t. t;
  disconnect = λ t. some 0;
}

unfoldable pub IsInbox_memory : IsInbox memory_client
IsInbox_memory = record {
  inbox = λ c. c.inbox;
  receive-empty = λ k c e. rw e refl;
  receive-cons = λ k c m ms e. (
    record c { inbox = λ j. if j == k then ms else c.inbox j },
    rw e refl,
    ground arith,
    λ j d. ground arith,
  );
}

pub record MemoryServer : Type 0 where
  pub inbox : ℕ → ℕ → List (List ℕ)
  pub events : List (ServerEvent String)
  pub sent : List (ℕ × ℕ × List ℕ)
  pub disconnected : List ℕ

-- `addr` gives the addresses of the clients.
abbrev pub memory_server_at : (ℕ → Option ℕ) → ServerCrates MemoryServer (Option ℕ) ℕ ℕ String ℕ
memory_server_at addr = record {
  update = λ delta s. s;
  transport_update = λ delta t s. (t, t, s);
  receive_message = λ i k s. elim (s.inbox i k) [
    | [] ↦ none
    | m ∷ ms ↦ some (m, record s { inbox = λ j l. if j == i && l == k then ms else s.inbox j l })
  ];
  get_event = λ s. elim (s.events) [ [] ↦ none | e ∷ es ↦ some (e, record s { events = es }) ];
  client_addr = λ i t. addr i;
  send_packets = λ t s. (t, s);
  send_message = λ i k m s. record s { sent = s.sent ++ (i, k, m) ∷ [] };
  disconnect = λ i s. record s { disconnected = s.disconnected ++ i ∷ [] };
  is_connected = λ i s. true;
  connected_clients = λ s. 0;
  addr_to_string = λ i. "127.0.0.1";
  reason_to_string = λ r. r;
}

-- Every client has its number as its address.
abbrev pub memory_server : ServerCrates MemoryServer (Option ℕ) ℕ ℕ String ℕ
memory_server = memory_server_at some

unfoldable pub IsServerBox_memory : (addr : ℕ → Option ℕ) → IsServerBox (memory_server_at addr)
IsServerBox_memory addr = record {
  inbox = λ s. s.inbox;
  events = λ s. s.events;
  receive-empty = λ i k s e. rw e refl;
  receive-cons = λ i k s m ms e. (
    record s { inbox = λ j l. if j == i && l == k then ms else s.inbox j l },
    rw e refl,
    ground arith,
    (λ l d. ground arith),
    (λ j l d. ground arith),
    refl,
  );
  get_event-empty = λ s e. rw e refl;
  get_event-cons = λ s e es h. (record s { events = es }, rw h refl, refl, λ i k. refl);
}

abbrev pub sent_to : ℕ → ℕ → ℕ × ℕ × List ℕ → List (List ℕ)
sent_to i k (j, l, m) = if j == i && l == k then m ∷ [] else []

pub sent_to_same : (i k : ℕ) (m : List ℕ) → sent_to i k (i, k, m) ≡ m ∷ []
sent_to_same i k m = ground arith

pub sent_to_other : (i k l : ℕ) (m : List ℕ) → l ≢ k → sent_to i l (i, k, m) ≡ []
sent_to_other i k l m d = ground (arith, d)

unfoldable pub IsOutbox_memory : (addr : ℕ → Option ℕ) → IsOutbox (memory_server_at addr)
IsOutbox_memory addr = record {
  outbox = λ s i k. collect (sent_to i k) s.sent;
  takes = λ s i k m. true;
  send_message-same = λ i k m s h.
      collect-snoc (sent_to i k) s.sent (i, k, m)
      ∙ ap (λ l. collect (sent_to i k) s.sent ++ l) (sent_to_same i k m);
  send_message-other = λ i k m s l h d.
      collect-snoc (sent_to i l) s.sent (i, k, m)
      ∙ ap (λ r. collect (sent_to i l) s.sent ++ r) (sent_to_other i k l m d)
      ∙ append-nil (collect (sent_to i l) s.sent);
}
