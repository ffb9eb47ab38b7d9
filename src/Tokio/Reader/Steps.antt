-- ===== src/Tokio/Reader/Steps.antt =====
-- One round of a reader task, by how its frame goes.
use brilliance_network.Prelude.{ℕ, suc, ◌≡◌, some, List}
use brilliance_network.Tokio.Frame.{IoError, ok, err, ByteReader, read_frame}
use brilliance_network.Tokio.Reader.{Flow, continues, stops, read_loop}

pub continues-injective : {S : Type 0} (s t : S) → continues s ≡ continues t → s ≡ t
continues-injective s t e = cc

pub stops-ne-continues : {S : Type 0} (s t : S) → ¬ (stops s ≡ continues t)
stops-ne-continues s t e = cc

module _ {Rd S : Type 0} (r : ByteReader Rd) (handle : Rd → List ℕ → S → Flow S) (fail : S → S)
    (fuel : ℕ) (at : Rd) (s : S) where
  pub read_loop-err :
      (e : IoError)
      → read_frame r at ≡ err e
      → read_loop r handle fail (suc fuel) at s ≡ some (fail s)
  unfolding read_loop
  read_loop-err e h = rw (h, read_loop)

  pub read_loop-stops :
      (next : Rd) (p : List ℕ) (t : S)
      → read_frame r at ≡ ok (p, next)
      → handle next p s ≡ stops t
      → read_loop r handle fail (suc fuel) at s ≡ some t
  unfolding read_loop
  read_loop-stops next p t h k = rw (h, k, read_loop)

  pub read_loop-continues :
      (next : Rd) (p : List ℕ) (t : S)
      → read_frame r at ≡ ok (p, next)
      → handle next p s ≡ continues t
      → read_loop r handle fail (suc fuel) at s ≡ read_loop r handle fail fuel next t
  unfolding read_loop
  read_loop-continues next p t h k = rw (h, k, read_loop)
