-- ===== src/Tokio/Frame.antt =====
-- src/tokio/mod.rs: length-prefixed frames. The streams of the crate `tokio` are parameters.
pub mod RoundTrip
use brilliance_network.Prelude.{
  ℕ, ◌*◌, ◌/◌, ◌%◌, ◌^◌, ◌<◌, ◌≡◌, Bool, List, [], ◌∷◌, ◌++◌, ltb, if◌then◌else◌, length,
}

-- `failed` is an error of the stream; `invalid_data len` is the error that `read_frame` makes.
pub data IoError : Type 0 where
  failed : IoError
  invalid_data : ℕ → IoError

pub data IoResult (A : Type 0) : Type 0 where
  ok : A → IoResult A
  err : IoError → IoResult A

infixl 5 ◌>>=◌
abbrev pub ◌>>=◌ : {A B : Type 0} → IoResult A → (A → IoResult B) → IoResult B
ok a >>= f = f a
err e >>= f = err e

-- `AsyncWriteExt` and `AsyncReadExt`, as far as they are used.
pub record ByteWriter (W : Type 0) : Type 0 where
  pub write_u32_le : W → ℕ → IoResult W
  pub write_all : W → List ℕ → IoResult W
  pub flush : W → IoResult W

pub record ByteReader (Rd : Type 0) : Type 0 where
  pub read_u32_le : Rd → IoResult (ℕ × Rd)
  pub read_exact : Rd → ℕ → IoResult (List ℕ × Rd)

-- The bytes of a `u32`, the lowest first.
abbrev pub le_bytes : ℕ → List ℕ
le_bytes n = n % 256 ∷ (n / 2 ^ 8 % 256) ∷ (n / 2 ^ 16 % 256) ∷ (n / 2 ^ 24 % 256) ∷ []

-- What is written stands behind what was written before, in a buffer at first: a part of it may go over
-- the stream at any time, and after a flush all of it has.
pub record IsWriter {W : Type 0} (w : ByteWriter W) : Type 0 where
  pub written : W → List ℕ
  pub on_stream : W → List ℕ
  pub write_u32_le-written :
      (s : W) (n : ℕ) {t : W}
      → w.write_u32_le s n ≡ ok t
      → n < 2 ^ 32
      → written t ≡ written s ++ le_bytes n
  pub write_all-written :
      (s : W) (xs : List ℕ) {t : W} → w.write_all s xs ≡ ok t → written t ≡ written s ++ xs
  pub flush-written : (s : W) {t : W} → w.flush s ≡ ok t → written t ≡ written s
  pub flush-on_stream : (s : W) {t : W} → w.flush s ≡ ok t → on_stream t ≡ written t

-- A reader takes from the front of what is still to come on the stream, and can read what is there.
pub record IsReader {Rd : Type 0} (r : ByteReader Rd) : Type 0 where
  pub contents : Rd → List ℕ
  pub read_u32_le-ok :
      (s : Rd) (n : ℕ) {t : Rd}
      → r.read_u32_le s ≡ ok (n, t)
      → (n < 2 ^ 32) × (contents s ≡ le_bytes n ++ contents t)
  pub read_u32_le-full :
      (s : Rd) (n : ℕ) (rest : List ℕ)
      → n < 2 ^ 32
      → contents s ≡ le_bytes n ++ rest
      → (t : Rd) × (r.read_u32_le s ≡ ok (n, t)) × (contents t ≡ rest)
  pub read_exact-ok :
      (s : Rd) (n : ℕ) (xs : List ℕ) {t : Rd}
      → r.read_exact s n ≡ ok (xs, t)
      → (length xs ≡ n) × (contents s ≡ xs ++ contents t)
  pub read_exact-full :
      (s : Rd) (xs rest : List ℕ)
      → contents s ≡ xs ++ rest
      → (t : Rd) × (r.read_exact s (length xs) ≡ ok (xs, t)) × (contents t ≡ rest)

-- 16 MB.
abbrev pub max_frame_size : ℕ
max_frame_size = 16 * 1024 * 1024

abbrev pub frame_message : ℕ
frame_message = 0x00

abbrev pub frame_ping : ℕ
frame_ping = 0x01

abbrev pub frame_pong : ℕ
frame_pong = 0x02

module _ {W : Type 0} (w : ByteWriter W) where
  -- `data.len() as u32` wraps.
  unfoldable pub write_frame : W → List ℕ → IoResult W
  write_frame s payload = do t ← w.write_u32_le s (length payload % 2 ^ 32); w.write_all t payload

module _ {Rd : Type 0} (r : ByteReader Rd) where
  unfoldable pub read_frame : Rd → IoResult (List ℕ × Rd)
  read_frame s = do
    (len, t) ← r.read_u32_le s
    if ltb max_frame_size len then err (invalid_data len) else r.read_exact t len
