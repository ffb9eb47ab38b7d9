-- ===== src/Tokio/Server/Due.antt =====
-- Which connections a step of the server finds due, and what becomes of their flags and of the tasks.
use Prim.Native.String.{String}
use mathlib.Core.List.{append-nil, append_assoc, map}
use brilliance_network.Prelude.{
  ℕ, ◌+◌, ◌≤◌, ◌≡◌, refl, sym, ◌∙◌, ap, subst, ◌⊎◌, inl, inr, true, false, none, some, List, [],
  ◌∷◌, ◌++◌, arith, if◌then◌else◌, All, Bool-cases, Option-cases,
}
use brilliance_network.Channel.{Flume, IsFifo}
use brilliance_network.Tokio.Connection.{Cell}
use brilliance_network.Tokio.Entries.{
  lookup, Distinct, lookup-middle, remove-middle, Distinct-middle, Distinct-remove,
}
use brilliance_network.Tokio.Server.{
  TokioServer, TokioServerConnection, set_cell, should_remove, to_remove, remove_one, remove_all,
  accept_one, accept_all,
}
use brilliance_network.Tokio.Server.Removal.{kept, gone, remove_one_lem}

module _ {F : Flume} {M : Type 0} where
  -- A connection is due once the time has come that was set for its end, and where none was set, once
  -- its flag is cleared.
  abbrev pub IsDue : ℕ → Cell F M → Type 0
  IsDue now c =
      ((at : ℕ) × (c.disconnect_at ≡ some at) × (at ≤ now))
      ⊎ ((c.disconnect_at ≡ none) × (c.connected ≡ false))

  -- Of these entries, those of the first list stay and those of the second are due, in their order.
  pub data Parted (now : TokioServerConnection → ℕ) (cells : ℕ → Cell F M)
      : (entries stay due : List (ℕ × TokioServerConnection)) → Type 0 where
    nil : Parted now cells [] [] []
    ends :
        {e : ℕ × TokioServerConnection} {m stay due : List (ℕ × TokioServerConnection)}
        → IsDue (now e.1) (cells e.1.cell)
        → Parted now cells m stay due
        → Parted now cells (e ∷ m) stay (e ∷ due)
    stays :
        {e : ℕ × TokioServerConnection} {m stay due : List (ℕ × TokioServerConnection)}
        → ¬ IsDue (now e.1) (cells e.1.cell)
        → Parted now cells m stay due
        → Parted now cells (e ∷ m) (e ∷ stay) due

  should_remove-IsDue : (now : ℕ) (c : Cell F M) → should_remove now c ≡ true → IsDue now c
  unfolding should_remove
  should_remove-IsDue now c h = elim (Option-cases c.disconnect_at) [
    | inl e ↦ inr (e, ground (arith, e, h))
    | inr (at, e) ↦ inl (at, e, ground (arith, e, h))
  ]

  should_remove-not_IsDue : (now : ℕ) (c : Cell F M) → should_remove now c ≡ false → ¬ IsDue now c
  unfolding should_remove
  should_remove-not_IsDue now c h (inl (at, e, b)) = ground (arith, e, h, b)
  should_remove-not_IsDue now c h (inr (e, b)) = ground (arith, e, h, b)

  -- The connections that are due.
  unfoldable pub overdue :
      (TokioServerConnection → ℕ)
      → (ℕ → Cell F M)
      → List (ℕ × TokioServerConnection)
      → List (ℕ × TokioServerConnection)
  overdue now cells [] = []
  overdue now cells ((id, conn) ∷ m) =
      let rest = overdue now cells m in
      if should_remove (now conn) (cells conn.cell) then (id, conn) ∷ rest else rest

  pub Parted-kept :
      (now : TokioServerConnection → ℕ) (cells : ℕ → Cell F M)
      (xs : List (ℕ × TokioServerConnection))
      → Parted now cells xs (kept now cells xs) (overdue now cells xs)
  unfolding kept overdue
  Parted-kept now cells [] = nil
  Parted-kept now cells ((id, conn) ∷ m) =
      elim (Bool-cases (should_remove (now conn) (cells conn.cell))) [
        | inl h ↦
            rw h
              (ends (should_remove-IsDue (now conn) (cells conn.cell) h) (Parted-kept now cells m))
        | inr h ↦ rw h (
            stays (should_remove-not_IsDue (now conn) (cells conn.cell) h)
              (Parted-kept now cells m))
      ]

  pub to_remove-overdue :
      (now : TokioServerConnection → ℕ) (cells : ℕ → Cell F M)
      (xs : List (ℕ × TokioServerConnection))
      → map gone (to_remove now cells xs) ≡ map (λ e. gone e.0) (overdue now cells xs)
  unfolding to_remove overdue
  to_remove-overdue now cells [] = refl
  to_remove-overdue now cells ((id, conn) ∷ m) =
      elim (Bool-cases (should_remove (now conn) (cells conn.cell))) [
        | inl h ↦ rw h (ap (λ l. gone id ∷ l) (to_remove-overdue now cells m))
        | inr h ↦ rw h (to_remove-overdue now cells m)
      ]

module _ (F : Flume) (laws : IsFifo F) {M E Stream Addr : Type 0} where
  -- A flag that is cleared stays so.
  remove_one-false :
      (i id : ℕ) (s : TokioServer F M E Stream Addr)
      → (s.cells i).connected ≡ false
      → ((remove_one F id s).cells i).connected ≡ false
  unfolding remove_one set_cell
  remove_one-false i id s h = ground (arith, h)

  remove_all-false :
      (i : ℕ) (ids : List ℕ) (s : TokioServer F M E Stream Addr)
      → (s.cells i).connected ≡ false
      → ((remove_all F ids s).cells i).connected ≡ false
  unfolding remove_all
  remove_all-false i [] s h = h
  remove_all-false i (id ∷ ids) s h =
      remove_all-false i ids (remove_one F id s) (remove_one-false i id s h)

  remove_one-clears :
      (id : ℕ) (conn : TokioServerConnection) (s : TokioServer F M E Stream Addr)
      → lookup id s.connections ≡ some conn
      → ((remove_one F id s).cells conn.cell).connected ≡ false
  unfolding remove_one set_cell
  remove_one-clears id conn s e = rw (e, remove_one) (ground arith)

  -- The flags of the connections that are due are cleared.
  pub remove_all-clears :
      (now : TokioServerConnection → ℕ) (cells : ℕ → Cell F M)
      (pre xs : List (ℕ × TokioServerConnection)) (s : TokioServer F M E Stream Addr)
      → s.connections ≡ pre ++ xs
      → Distinct (pre ++ xs)
      → F.is_open s.channel_connections ≡ true
      → All
          (λ e. ((remove_all F (to_remove now cells xs) s).cells e.1.cell).connected ≡ false)
          (overdue now cells xs)
  unfolding to_remove overdue remove_all
  remove_all-clears now cells pre [] s e d o = tt
  remove_all-clears now cells pre ((id, conn) ∷ m) s e d o =
      elim (Bool-cases (should_remove (now conn) (cells conn.cell))) [
        | inl due ↦
            let fresh = Distinct-middle id conn pre m d in
            let found : lookup id s.connections ≡ some conn =
              rw e (lookup-middle id conn pre m fresh) in
            let first = remove_one_lem F laws id conn s found o in
            let left : (remove_one F id s).connections ≡ pre ++ m =
              first.table ∙ rw e (remove-middle id conn pre m fresh) in
            rw due (
              remove_all-false conn.cell (to_remove now cells m) (remove_one F id s)
                  (remove_one-clears id conn s found),
              remove_all-clears now cells pre m (remove_one F id s) left
                  (Distinct-remove (id, conn) pre m d) first.heard,
            )
        | inr remains ↦
            let shift = append_assoc pre ((id, conn) ∷ []) m in
            rw remains (
              remove_all-clears now cells (pre ++ (id, conn) ∷ []) m s (e ∙ sym shift)
                (subst Distinct (sym shift) d) o)
      ]

  remove_one-spawned :
      (id : ℕ) (s : TokioServer F M E Stream Addr) → (remove_one F id s).spawned ≡ s.spawned
  unfolding remove_one
  remove_one-spawned id s = ground arith

  pub remove_all-spawned :
      (ids : List ℕ) (s : TokioServer F M E Stream Addr) → (remove_all F ids s).spawned ≡ s.spawned
  unfolding remove_all
  remove_all-spawned [] s = refl
  remove_all-spawned (id ∷ ids) s =
      remove_all-spawned ids (remove_one F id s) ∙ remove_one-spawned id s

-- The streams that arrive, each with the next cell: what the tasks are spawned with.
pub tasks :
    {Stream Addr : Type 0} → (Stream → Stream) → ℕ → List (Stream × Addr) → List (Stream × ℕ)
tasks set_nodelay cell [] = []
tasks set_nodelay cell ((stream, addr) ∷ arrived) =
    (set_nodelay stream, cell) ∷ tasks set_nodelay (cell + 1) arrived

pub accept_all-spawned :
    {F : Flume} {M E Stream Addr : Type 0} (to_string : Addr → String)
    (set_nodelay : Stream → Stream) (arrived : List (Stream × Addr))
    (s : TokioServer F M E Stream Addr)
    → (accept_all F to_string set_nodelay arrived s).spawned
      ≡ s.spawned ++ tasks set_nodelay s.next_cell arrived
unfolding tasks accept_all accept_one
accept_all-spawned to_string set_nodelay [] s = sym (append-nil s.spawned)
accept_all-spawned {F = F} to_string set_nodelay ((stream, addr) ∷ arrived) s =
    accept_all-spawned to_string set_nodelay arrived
      (accept_one F to_string set_nodelay (stream, addr) s)
    ∙ append_assoc s.spawned ((set_nodelay stream, s.next_cell) ∷ [])
        (tasks set_nodelay (s.next_cell + 1) arrived)
