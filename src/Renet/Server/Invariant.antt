-- ===== src/Renet/Server/Invariant.antt =====
-- The table of the UDP server: what every step keeps.
use brilliance_network.Prelude.{
  ℕ, ◌+◌, ◌<◌, ◌≡◌, ◌≢◌, refl, sym, ◌∙◌, subst, true, false, List, [], ◌∷◌, ◌++◌, ◌==◌,
  if◌then◌else◌, All, All-weaken, All-both, collect, inl, inr, Bool-cases, ==_iff, arith,
}
use brilliance_network.Channel.{Flume}
use brilliance_network.Server.{connect}
use brilliance_network.Tokio.Entries.{insert, remove}
use brilliance_network.Renet.Server.{
  ServerEvent, client_connected, client_disconnected, ServerCrates, RenetServerConnection,
  RenetServerNetwork, Cell, is_to_disconnect,
}
use brilliance_network.Renet.Server.Events.{replay, announced, connects, HasAddr}
use brilliance_network.Renet.Server.Delivery.{Apart}
use brilliance_network.Renet.Server.Retain.{stays}

-- An entry has its client's number as its key, and its cell is in use.
abbrev pub IsEntry : ℕ → ℕ × RenetServerConnection → Type 0
IsEntry bound e = (e.1.client_id ≡ e.0) × (e.1.cell < bound)

-- All entries are such, and no two share a client or a cell.
abbrev pub IsTable : ℕ → List (ℕ × RenetServerConnection) → Type 0
IsTable bound m = All (IsEntry bound) m × Apart m

All-insert :
    (P : ℕ × RenetServerConnection → Type 0) (k : ℕ) (c : RenetServerConnection)
    (m : List (ℕ × RenetServerConnection))
    → P (k, c)
    → All P m
    → All P (insert k c m)
unfolding insert
All-insert P k c [] p h = (p, tt)
All-insert P k c ((j, d) ∷ m) p h = elim (Bool-cases (j == k)) [
  | inl e ↦ rw e (p, h.1)
  | inr e ↦ rw e (h.0, All-insert P k c m p h.1)
]

All-remove :
    (P : ℕ × RenetServerConnection → Type 0) (k : ℕ) (m : List (ℕ × RenetServerConnection))
    → All P m
    → All P (remove k m)
unfolding remove
All-remove P k [] h = tt
All-remove P k ((j, d) ∷ m) h = elim (Bool-cases (j == k)) [
  | inl e ↦ rw e h.1
  | inr e ↦ rw e (h.0, All-remove P k m h.1)
]

IsEntry-suc : (b : ℕ) (e : ℕ × RenetServerConnection) → IsEntry b e → IsEntry (b + 1) e
IsEntry-suc b e h = (h.0, omega (arith, h.1))

Apart-remove : (k : ℕ) (m : List (ℕ × RenetServerConnection)) → Apart m → Apart (remove k m)
unfolding remove
Apart-remove k [] h = tt
Apart-remove k ((j, d) ∷ m) h = elim (Bool-cases (j == k)) [
  | inl e ↦ rw e h.1
  | inr e ↦ rw e (All-remove _ k m h.0, Apart-remove k m h.1)
]

-- A connection with a cell that was not in use.
Apart-insert :
    (b : ℕ) (c : RenetServerConnection) (m : List (ℕ × RenetServerConnection))
    → c.cell ≡ b
    → All (IsEntry b) m
    → Apart m
    → Apart (insert c.client_id c m)
unfolding insert
Apart-insert b c [] new es h = (tt, tt)
Apart-insert b c ((j, d) ∷ m) new es h = elim (Bool-cases (j == c.client_id)) [
  | inl e ↦
      let same : j ≡ c.client_id = (==_iff j c.client_id).0 e in
      rw e (
        All-both _ _ _ m
            (λ x x' y. ((λ q. omega (arith, q, new, x'.1)), λ q. y.1 (q ∙ sym same ∙ sym es.0.0)))
            es.1 h.0,
        h.1,
      )
  | inr e ↦
      let other : j ≢ c.client_id = ground arith in
      rw e (
        All-insert _ c.client_id c m
            ((λ q. omega (arith, q, new, es.0.1)), λ q. other (sym es.0.0 ∙ sym q)) h.0,
        Apart-insert b c m new es.1 h.1,
      )
]

pub IsTable-insert :
    (b : ℕ) (c : RenetServerConnection) (m : List (ℕ × RenetServerConnection))
    → c.cell ≡ b
    → IsTable b m
    → IsTable (b + 1) (insert c.client_id c m)
IsTable-insert b c m new h = (
  All-insert (IsEntry (b + 1)) c.client_id c m (refl, omega (arith, new))
      (All-weaken _ _ m (IsEntry-suc b) h.0),
  Apart-insert b c m new h.0 h.1,
)

pub IsTable-remove :
    (b k : ℕ) (m : List (ℕ × RenetServerConnection)) → IsTable b m → IsTable b (remove k m)
IsTable-remove b k m h = (All-remove (IsEntry b) k m h.0, Apart-remove k m h.1)

-- What the server tells of events keeps the table.
pub IsTable-replay :
    {S T Duration Err Reason Addr : Type 0} (api : ServerCrates S T Duration Err Reason Addr)
    (t : T) (es : List (ServerEvent Reason)) (b : ℕ) (m : List (ℕ × RenetServerConnection))
    → All (HasAddr api t) es
    → IsTable b m
    → IsTable (b + connects es) (replay (announced api t b es) m)
unfolding replay announced
IsTable-replay api t [] b m known h = subst (λ k. IsTable k m) (omega arith) h
IsTable-replay api t (client_connected id ∷ es) b m known h =
    let (addr, at) = known.0 in
    let c : RenetServerConnection = record {
      client_id = id;
      ip = api.addr_to_string addr;
      cell = b;
    } in
    let added = IsTable-insert b c m refl h in
    let rest = IsTable-replay api t es (b + 1) (insert id c m) known.1 added in
    let told : announced api t b (client_connected id ∷ es)
        ≡ connect c ∷ announced api t (b + 1) es =
      rw (at, announced) refl in
    rw told (
      subst (λ k. IsTable k (replay (announced api t (b + 1) es) (insert id c m))) (omega arith)
        rest)
IsTable-replay api t (client_disconnected id reason ∷ es) b m known h =
    IsTable-replay api t es b (remove id m) known.1 (IsTable-remove b id m h)

module _ {F : Flume} {M : Type 0} (now : RenetServerConnection → ℕ × ℕ) (cells : ℕ → Cell F M) where
  pub All-stays :
      (P : ℕ × RenetServerConnection → Type 0) (m : List (ℕ × RenetServerConnection))
      → All P m
      → All P (collect (stays now cells) m)
  unfolding collect stays
  All-stays P [] h = tt
  All-stays P (e ∷ m) h =
      elim (is_to_disconnect (now e.1).1 (cells e.1.cell))
        as (λ b. All P ((if b then [] else e ∷ []) ++ collect (stays now cells) m)) [
          | true ↦ All-stays P m h.1
          | false ↦ (h.0, All-stays P m h.1)
        ]

  Apart-stays :
      (m : List (ℕ × RenetServerConnection)) → Apart m → Apart (collect (stays now cells) m)
  unfolding collect stays
  Apart-stays [] h = tt
  Apart-stays (e ∷ m) h =
      elim (is_to_disconnect (now e.1).1 (cells e.1.cell))
        as (λ b. Apart ((if b then [] else e ∷ []) ++ collect (stays now cells) m)) [
          | true ↦ Apart-stays m h.1
          | false ↦ (All-stays _ m h.0, Apart-stays m h.1)
        ]

  pub IsTable-stays :
      (b : ℕ) (m : List (ℕ × RenetServerConnection))
      → IsTable b m
      → IsTable b (collect (stays now cells) m)
  IsTable-stays b m h = (All-stays (IsEntry b) m h.0, Apart-stays m h.1)

module _ (F : Flume) {S T M Err : Type 0} where
  -- The table is sound, and the queues have receivers.
  pub record IsValid (n : RenetServerNetwork F S T M Err) : Type 0 where
    pub table : IsTable n.next_cell n.connections
    pub heard : (i : ℕ) → i < n.next_cell → F.is_open (n.cells i).client_messages ≡ true
    pub told : F.is_open n.channel_connections ≡ true
    pub faults : F.is_open n.channel_errors ≡ true
