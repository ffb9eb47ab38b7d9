-- ===== src/Renet/Server/View.antt =====
-- What one can know of the table of the UDP server who only reads what the server tells.
use brilliance_network.Prelude.{
  ℕ, ◌+◌, ◌≡◌, refl, sym, ◌∙◌, ap, true, false, Bool, Option, none, some, List, [], ◌∷◌, ◌++◌, ◌==◌,
  if◌then◌else◌, All, All-both, collect, inl, inr, Bool-cases, arith,
}
use brilliance_network.Channel.{Flume}
use brilliance_network.Server.{ConnectionMessages, connect, disconnect}
use brilliance_network.Tokio.Entries.{insert, remove, lookup, NotKey, Distinct}
use brilliance_network.Renet.Server.{
  ServerEvent, client_connected, client_disconnected, ServerCrates, RenetServerConnection, Cell,
  is_to_disconnect,
}
use brilliance_network.Renet.Server.Events.{replay, announced, HasAddr}
use brilliance_network.Renet.Server.Retain.{stays}
use brilliance_network.Renet.Server.Invariant.{IsTable, IsTable-insert, IsTable-remove}

-- The last word on a client counts.
unfoldable pub follow :
    List (ConnectionMessages RenetServerConnection)
    → (ℕ → Option RenetServerConnection)
    → ℕ
    → Option RenetServerConnection
follow [] f i = f i
follow (connect c ∷ ms) f i = follow ms (λ j. if j == c.client_id then some c else f j) i
follow (disconnect id reason ∷ ms) f i = follow ms (λ j. if j == id then none else f j) i

pub follow-append :
    (xs ys : List (ConnectionMessages RenetServerConnection)) (f : ℕ → Option RenetServerConnection)
    (i : ℕ)
    → follow (xs ++ ys) f i ≡ follow ys (follow xs f) i
unfolding follow
follow-append [] ys f i = refl
follow-append (connect c ∷ xs) ys f i = follow-append xs ys _ i
follow-append (disconnect id reason ∷ xs) ys f i = follow-append xs ys _ i

-- Whom `f` knows, `g` knows too, as the same connection.
abbrev pub IsWithin :
    (ℕ → Option RenetServerConnection) → (ℕ → Option RenetServerConnection) → Type 0
IsWithin f g = (i : ℕ) (c : RenetServerConnection) → f i ≡ some c → g i ≡ some c

IsWithin-set :
    (k : ℕ) (o : Option RenetServerConnection) (f g : ℕ → Option RenetServerConnection)
    → IsWithin f g
    → IsWithin (λ j. if j == k then o else f j) (λ j. if j == k then o else g j)
IsWithin-set k o f g h i c e = elim (Bool-cases (i == k)) [
  | inl y ↦ rw y (rw y at e)
  | inr y ↦ rw y (h i c (rw y at e))
]

pub IsWithin-follow :
    (ms : List (ConnectionMessages RenetServerConnection)) (f g : ℕ → Option RenetServerConnection)
    → IsWithin f g
    → IsWithin (follow ms f) (follow ms g)
unfolding follow
IsWithin-follow [] f g h = h
IsWithin-follow (connect c ∷ ms) f g h =
    IsWithin-follow ms _ _ (IsWithin-set c.client_id (some c) f g h)
IsWithin-follow (disconnect id reason ∷ ms) f g h =
    IsWithin-follow ms _ _ (IsWithin-set id none f g h)

follow-ext :
    (ms : List (ConnectionMessages RenetServerConnection)) (f g : ℕ → Option RenetServerConnection)
    → ((j : ℕ) → f j ≡ g j)
    → (i : ℕ) → follow ms f i ≡ follow ms g i
unfolding follow
follow-ext [] f g h i = h i
follow-ext (connect c ∷ ms) f g h i =
    follow-ext ms _ _ (λ j. ap (λ o. if j == c.client_id then some c else o) (h j)) i
follow-ext (disconnect id reason ∷ ms) f g h i =
    follow-ext ms _ _ (λ j. ap (λ o. if j == id then none else o) (h j)) i

lookup-insert :
    (i k : ℕ) (c : RenetServerConnection) (m : List (ℕ × RenetServerConnection))
    → lookup i (insert k c m) ≡ (if i == k then some c else lookup i m)
unfolding lookup insert
lookup-insert i k c [] = ground arith
lookup-insert i k c ((j, d) ∷ m) = ground (arith, lookup-insert i k c m)

lookup-NotKey : (k : ℕ) (m : List (ℕ × RenetServerConnection)) → NotKey k m → lookup k m ≡ none
unfolding lookup
lookup-NotKey k [] h = refl
lookup-NotKey k ((j, d) ∷ m) h = ground (arith, lookup-NotKey k m h.1, h.0)

lookup-remove :
    (i k : ℕ) (m : List (ℕ × RenetServerConnection))
    → Distinct m
    → lookup i (remove k m) ≡ (if i == k then none else lookup i m)
unfolding lookup remove
lookup-remove i k [] h = ground arith
lookup-remove i k ((j, d) ∷ m) h = ground (arith, lookup-remove i k m h.1, lookup-NotKey j m h.0)

pub Distinct-of_IsTable : (b : ℕ) (m : List (ℕ × RenetServerConnection)) → IsTable b m → Distinct m
Distinct-of_IsTable b [] h = tt
Distinct-of_IsTable b (e ∷ m) h = (
  All-both _ _ _ m (λ d entry apart q. apart.1 (entry.0 ∙ q ∙ sym h.0.0.0)) h.0.1 h.1.0,
  Distinct-of_IsTable b m (h.0.1, h.1.1),
)

-- The table follows what the server tells.
pub lookup-replay :
    {S T Duration Err Reason Addr : Type 0} (api : ServerCrates S T Duration Err Reason Addr)
    (t : T) (es : List (ServerEvent Reason)) (b : ℕ) (m : List (ℕ × RenetServerConnection)) (i : ℕ)
    → All (HasAddr api t) es
    → IsTable b m
    → let ms = announced api t b es in lookup i (replay ms m) ≡ follow ms (λ j. lookup j m) i
unfolding replay announced follow
lookup-replay api t [] b m i known h = refl
lookup-replay api t (client_connected id ∷ es) b m i known h =
    let (addr, at) = known.0 in
    let c : RenetServerConnection = record {
      client_id = id;
      ip = api.addr_to_string addr;
      cell = b;
    } in
    let told : announced api t b (client_connected id ∷ es)
        ≡ connect c ∷ announced api t (b + 1) es =
      rw (at, announced) refl in
    let rest =
      lookup-replay api t es (b + 1) (insert id c m) i known.1 (IsTable-insert b c m refl h) in
    rw told (rest ∙ follow-ext (announced api t (b + 1) es) _ _ (λ j. lookup-insert j id c m) i)
lookup-replay api t (client_disconnected id reason ∷ es) b m i known h =
    lookup-replay api t es b (remove id m) i known.1 (IsTable-remove b id m h)
    ∙ follow-ext (announced api t b es) _ _ (λ j. lookup-remove j id m (Distinct-of_IsTable b m h))
        i

lookup-first :
    (b : Bool) (i j : ℕ) (e c : RenetServerConnection) (rest m : List (ℕ × RenetServerConnection))
    → (lookup i rest ≡ some c → lookup i m ≡ some c)
    → lookup j m ≡ none
    → lookup i ((if b then [] else (j, e) ∷ []) ++ rest) ≡ some c
    → lookup i ((j, e) ∷ m) ≡ some c
unfolding lookup
lookup-first true i j e c rest m f n h = ground (arith, f h, n)
lookup-first false i j e c rest m f n h = elim (Bool-cases (j == i)) [
  | inl y ↦ rw y (rw y at h)
  | inr y ↦ rw y (f (rw y at h))
]

module _ {F : Flume} {M : Type 0} (now : RenetServerConnection → ℕ × ℕ) (cells : ℕ → Cell F M) where
  -- `retain` only takes connections away.
  pub lookup-stays :
      (m : List (ℕ × RenetServerConnection)) (i : ℕ) (c : RenetServerConnection)
      → Distinct m
      → lookup i (collect (stays now cells) m) ≡ some c
      → lookup i m ≡ some c
  unfolding collect stays
  lookup-stays [] i c d h = h
  lookup-stays ((j, e) ∷ m) i c d h =
      lookup-first (is_to_disconnect (now e).1 (cells e.cell)) i j e c (collect (stays now cells) m)
        m (lookup-stays m i c d.1) (lookup-NotKey j m d.0) h
