-- ===== src/Channel.antt =====
-- The unbounded queues of the crate `flume`, by which tasks hand values to one another, and the
-- crate `bincode`, which turns messages into bytes. Neither is part of the repository: both are
-- parameters, with the documented behaviour that the theorems use.
use mathlib.Core.List.{append-nil}
use brilliance_network.Prelude.{
  Outcome, done, panic, refl, ◌∙◌, collect, ℕ, ◌≡◌, Bool, true, false, Option, none, some, List, [],
  ◌∷◌, ◌++◌,
}

-- `send` gives `none` where no receiver is left.
pub record Flume : Type 1 where
  pub Channel : Type 0 → Type 0
  pub unbounded : {A : Type 0} → Channel A
  pub send : {A : Type 0} → A → Channel A → Option (Channel A)
  pub try_recv : {A : Type 0} → Channel A → Option (A × Channel A)
  pub drain : {A : Type 0} → Channel A → List A × Channel A
  -- What has been sent and not been received, oldest first; and whether a receiver is left.
  pub pending : {A : Type 0} → Channel A → List A
  pub is_open : {A : Type 0} → Channel A → Bool

-- A queue keeps its order, loses nothing and makes nothing up.
pub record IsFifo (F : Flume) : Type 1 where
  pub unbounded-pending : {A : Type 0} → F.pending (F.unbounded {A = A}) ≡ []
  pub unbounded-is_open : {A : Type 0} → F.is_open (F.unbounded {A = A}) ≡ true
  pub send-open :
      {A : Type 0} (a : A) (c : F.Channel A)
      → F.is_open c ≡ true
      → (d : F.Channel A) × (F.send a c ≡ some d)
        × (F.pending d ≡ F.pending c ++ a ∷ [])
        × (F.is_open d ≡ true)
  pub send-closed : {A : Type 0} (a : A) (c : F.Channel A) → F.is_open c ≡ false → F.send a c ≡ none
  pub try_recv-empty : {A : Type 0} (c : F.Channel A) → F.pending c ≡ [] → F.try_recv c ≡ none
  pub try_recv-cons :
      {A : Type 0} (a : A) (xs : List A) (c : F.Channel A)
      → F.pending c ≡ a ∷ xs
      → (d : F.Channel A) × (F.try_recv c ≡ some (a, d))
        × (F.pending d ≡ xs)
        × (F.is_open d ≡ F.is_open c)
  pub drain-pending : {A : Type 0} (c : F.Channel A) → (F.drain c).0 ≡ F.pending c
  pub drain-empty : {A : Type 0} (c : F.Channel A) → F.pending (F.drain c).1 ≡ []
  pub drain-is_open : {A : Type 0} (c : F.Channel A) → F.is_open (F.drain c).1 ≡ F.is_open c

module _ (F : Flume) where
  -- `send(value).ok()`: a failure is ignored, and the value is dropped.
  unfoldable pub send_ok : {A : Type 0} → A → F.Channel A → F.Channel A
  send_ok a c = elim (F.send a c) [ none ↦ c | some d ↦ d ]

  module _ (laws : IsFifo F) where
    pub pending-send_ok :
        {A : Type 0} (a : A) (c : F.Channel A)
        → F.is_open c ≡ true
        → (F.pending (send_ok a c) ≡ F.pending c ++ a ∷ []) × (F.is_open (send_ok a c) ≡ true)
    unfolding send_ok
    pending-send_ok a c o = let (d, e, p, q) = laws.send-open a c o in rw (e, send_ok) (p, q)

-- The result of a decoder: the value, or the text of its error.
pub data Decoded (A E : Type 0) : Type 0 where
  ok : A → Decoded A E
  err : E → Decoded A E

-- `map_err(..)?`: `message` makes the error's text.
abbrev pub try_as : {A B E R : Type 0} → (E → R) → Decoded A E → (A → Decoded B R) → Decoded B R
try_as message (ok a) next = next a
try_as message (err e) next = err (message e)

-- `unwrap` on a `Result`.
abbrev pub unwrap_ok : {A E : Type 0} → Decoded A E → Outcome A
unwrap_ok (ok a) = done a
unwrap_ok (err e) = panic

-- `bincode::serialize` and `bincode::deserialize`, at the messages `M`. Bytes are numbers, and `E`
-- is the text of an error. The source unwraps what `serialize` gives, which is total here.
pub record Codec (M E : Type 0) : Type 0 where
  pub serialize : M → List ℕ
  pub deserialize : List ℕ → Decoded M E

pub record IsRoundTrip {M E : Type 0} (c : Codec M E) : Type 0 where
  pub deserialize-serialize : (m : M) → c.deserialize (c.serialize m) ≡ ok m

-- What bytes decode to.
module _ {M E : Type 0} (codec : Codec M E) where
  unfoldable pub value_of : List ℕ → List M
  value_of x = elim (codec.deserialize x) [ ok m ↦ m ∷ [] | err e ↦ [] ]

  pub collect-value_of-ok :
      (x : List ℕ) (m : M) → codec.deserialize x ≡ ok m → collect value_of (x ∷ []) ≡ m ∷ []
  unfolding collect value_of
  collect-value_of-ok x m e = append-nil (value_of x) ∙ rw (e, value_of) refl

  pub collect-value_of-err :
      (x : List ℕ) (e : E) → codec.deserialize x ≡ err e → collect value_of (x ∷ []) ≡ []
  unfolding collect value_of
  collect-value_of-err x e h = append-nil (value_of x) ∙ rw (h, value_of) refl

-- A queue as the list of what it holds, with a flag for its receivers.
abbrev pub queues : Flume
queues = record {
  Channel = λ A. List A × Bool;
  unbounded = ([], true);
  send = λ a c. elim c.1 [ true ↦ some (c.0 ++ a ∷ [], true) | false ↦ none ];
  try_recv = λ c. elim c.0 [ [] ↦ none | a ∷ xs ↦ some (a, (xs, c.1)) ];
  drain = λ c. (c.0, ([], c.1));
  pending = λ c. c.0;
  is_open = λ c. c.1;
}
