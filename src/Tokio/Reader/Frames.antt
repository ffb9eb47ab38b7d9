-- ===== src/Tokio/Reader/Frames.antt =====
-- A reader task over a stream that holds whole frames.
use mathlib.Core.List.{append-nil, append_assoc}
use brilliance_network.Prelude.{
  ℕ, suc, ◌+◌, ◌≡◌, refl, ◌∙◌, List, [], ◌∷◌, ◌++◌, arith, length, All,
}
use brilliance_network.Tokio.Frame.{ByteReader, IsReader}
use brilliance_network.Tokio.Frame.RoundTrip.{encode, encode_all, Fits, read_frame-encode}
use brilliance_network.Tokio.Reader.Steps.{read_loop-continues}
use brilliance_network.Tokio.Reader.{Flow, continues, read_loop}

module _ {Rd S : Type 0} (r : ByteReader Rd) (rl : IsReader r) (handle : Rd → List ℕ → S → Flow S)
    (fail : S → S) where
  open rl use {contents}

  -- If each frame keeps a relation between what has been handled and the state, the loop gets to the
  -- end of the frames with that relation.
  pub read_loop_frames :
      (P : List (List ℕ) → S → Type 0)
      → ((done : List (List ℕ)) (next : Rd) (p : List ℕ) (s : S)
          → P done s
          → (t : S) × (handle next p s ≡ continues t) × P (done ++ p ∷ []) t)
      → (done ps : List (List ℕ)) (rest : List ℕ) (at : Rd) (s : S) (fuel : ℕ) → All Fits ps
      → contents at ≡ encode_all ps ++ rest
      → P done s
      → (next : Rd) × (t : S) × (read_loop r handle fail (length ps + fuel) at s
          ≡ read_loop r handle fail fuel next t)
        × (contents next ≡ rest)
        × P (done ++ ps) t
  unfolding encode_all
  read_loop_frames P keep done [] rest at s fuel fits e inv =
      let z : 0 + fuel ≡ fuel = omega arith in (at, s, rw z refl, e, rw append-nil inv)
  read_loop_frames P keep done (p ∷ ps) rest at s fuel fits e inv =
      let more : suc (length ps) + fuel ≡ suc (length ps + fuel) = omega arith in
      let front : contents at ≡ encode p ++ (encode_all ps ++ rest) =
        e ∙ append_assoc (encode p) (encode_all ps) rest in
      let (next, got, left) = read_frame-encode r rl at p (encode_all ps ++ rest) fits.0 front in
      let (t, handled, kept) = keep done next p s inv in
      let (last, u, loops, end, whole) =
        read_loop_frames P keep (done ++ p ∷ []) ps rest next t fuel fits.1 left kept in
      (
        last,
        u,
        rw more (read_loop-continues r handle fail _ at s next p t got handled ∙ loops),
        end,
        rw (← append_assoc done (p ∷ []) ps) whole,
      )
