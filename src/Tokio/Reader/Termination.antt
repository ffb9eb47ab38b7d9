-- ===== src/Tokio/Reader/Termination.antt =====
-- A reader task ends: each frame takes four bytes at least off the stream.
use brilliance_network.Prelude.{
  ℕ, zero, suc, ◌<◌, ◌≡◌, refl, ◌⊎◌, inl, inr, ◌∙◌, ap, some, List, arith, length, length-append,
}
use brilliance_network.Tokio.Frame.{ok, ByteReader, IsReader, read_frame}
use brilliance_network.Tokio.Frame.RoundTrip.{encode, read_frame-ok, length-encode, IoResult-cases}
use brilliance_network.Tokio.Reader.Steps.{read_loop-err, read_loop-stops, read_loop-continues}
use brilliance_network.Tokio.Reader.{Flow, continues, stops, read_loop}

module _ {Rd S : Type 0} (r : ByteReader Rd) (rl : IsReader r) (handle : Rd → List ℕ → S → Flow S)
    (fail : S → S) where
  open rl use {contents}

  read_frame-shrinks :
      (s t : Rd) (p : List ℕ)
      → read_frame r s ≡ ok (p, t)
      → length (contents t) < length (contents s)
  read_frame-shrinks s t p e =
      let (_, front) = read_frame-ok r rl s t p e in
      omega (arith, ap length front, length-append (encode p) (contents t), length-encode p)

  Flow-cases : (x : Flow S) → ((t : S) × (x ≡ stops t)) ⊎ ((t : S) × (x ≡ continues t))
  Flow-cases (stops t) = inl (t, refl)
  Flow-cases (continues t) = inr (t, refl)

  -- With more fuel than bytes to come the task ends: in a state in which the stream had failed, or
  -- in one in which a frame made it stop. What each frame keeps held until then.
  pub read_loop_ends :
      (P : S → Type 0)
      → ((next : Rd) (p : List ℕ) (u t : S) → P u → handle next p u ≡ continues t → P t)
      → (fuel : ℕ) (at : Rd) (s : S) → length (contents at) < fuel
      → P s
      → (t : S) × (read_loop r handle fail fuel at s ≡ some t)
        × (((u : S) × P u × (t ≡ fail u))
            ⊎ ((u : S) × (next : Rd) × (p : List ℕ) × P u × (handle next p u ≡ stops t)))
  read_loop_ends P keep zero at s h inv = absurd (omega arith)
  read_loop_ends P keep (suc fuel) at s h inv = elim (IoResult-cases (read_frame r at)) [
    | inl (e, failed) ↦ (fail s, read_loop-err r handle fail fuel at s e failed, inl (s, inv, refl))
    | inr ((p, next), got) ↦ elim (Flow-cases (handle next p s)) [
      | inl (t, stopped) ↦ (
        t,
        read_loop-stops r handle fail fuel at s next p t got stopped,
        inr (s, next, p, inv, stopped),
      )
      | inr (t, more) ↦
          let shorter = read_frame-shrinks at next p got in
          let (u, ends, why) =
            read_loop_ends P keep fuel next t (omega arith) (keep next p s t inv more) in
          (u, read_loop-continues r handle fail fuel at s next p t got more ∙ ends, why)
    ]
  ]
