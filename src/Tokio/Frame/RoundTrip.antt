-- ===== src/Tokio/Frame/RoundTrip.antt =====
-- Frames written on one side and read on the other.
use mathlib.Core.List.{append_assoc}
use brilliance_network.Prelude.{
  ℕ, ◌+◌, ◌%◌, ◌^◌, ◌≤◌, ◌<◌, ◌≡◌, refl, sym, ◌⊎◌, ◌∙◌, ap, if◌then◌else◌, List, [], ◌∷◌, ◌++◌,
  arith, ltb, length, length-append, inl, inr, true, false, Bool-cases,
}
use brilliance_network.Tokio.Frame.{
  IoResult, IoError, ok, err, invalid_data, ◌>>=◌, ByteWriter, ByteReader, IsWriter, IsReader,
  le_bytes, max_frame_size, write_frame, read_frame,
}

-- The bytes of a frame.
unfoldable pub encode : List ℕ → List ℕ
encode payload = le_bytes (length payload % 2 ^ 32) ++ payload

unfoldable pub encode_all : List (List ℕ) → List ℕ
unfolding encode
encode_all [] = []
encode_all (p ∷ ps) = encode p ++ encode_all ps

abbrev pub Fits : List ℕ → Type 0
Fits payload = length payload ≤ max_frame_size

err-ne-ok : {A : Type 0} (e : IoError) (a : A) → ¬ (err e ≡ ok a)
err-ne-ok e a h = cc

pub IoResult-cases :
    {A : Type 0} (x : IoResult A) → ((e : IoError) × (x ≡ err e)) ⊎ ((a : A) × (x ≡ ok a))
IoResult-cases (err e) = inl (e, refl)
IoResult-cases (ok a) = inr (a, refl)

pub length-encode : (p : List ℕ) → length (encode p) ≡ 4 + length p
unfolding encode
length-encode p = omega arith

-- Inversion of a bind that succeeds.
>>=-eq-ok :
    {A B : Type 0} (m : IoResult A) (k : A → IoResult B) {b : B}
    → (m >>= k) ≡ ok b
    → (a : A) × (m ≡ ok a) × (k a ≡ ok b)
>>=-eq-ok (ok a) k h = (a, refl, h)
>>=-eq-ok (err e) k h = cc

module _ {W : Type 0} (w : ByteWriter W) (wl : IsWriter w) where
  open wl use {written}

  -- A frame that is written without an error puts the length of its payload, modulo 2^32, and then
  -- the payload behind what was written before.
  pub write_frame-written :
      (s t : W) (p : List ℕ) → write_frame w s p ≡ ok t → written t ≡ written s ++ encode p
  unfolding write_frame encode
  write_frame-written s t p e =
      let (u, a, b) = >>=-eq-ok (w.write_u32_le s (length p % 2 ^ 32)) (λ v. w.write_all v p) e in
      wl.write_all-written u p b
      ∙ ap (λ xs. xs ++ p) (wl.write_u32_le-written s _ a (omega arith))
      ∙ append_assoc (written s) (le_bytes (length p % 2 ^ 32)) p

module _ {Rd : Type 0} (r : ByteReader Rd) (rl : IsReader r) where
  open rl use {contents}

  -- A payload within the limit is read back from its frame, and the rest stays to be read.
  pub read_frame-encode :
      (s : Rd) (p rest : List ℕ)
      → Fits p
      → contents s ≡ encode p ++ rest
      → (t : Rd) × (read_frame r s ≡ ok (p, t)) × (contents t ≡ rest)
  unfolding read_frame encode
  read_frame-encode s p rest h e =
      let n = length p in
      let small : n % 2 ^ 32 ≡ n = omega arith in
      let (u, a, b) = rl.read_u32_le-full s n (p ++ rest) (omega arith) (rw small at e) in
      let (t, c, d) = rl.read_exact-full u p rest b in
      let fits : ltb max_frame_size n ≡ false = ground arith in (t, rw (a, fits) c, d)

  -- A payload over the limit, and below 4 GiB, is refused by the reader of its frame.
  pub read_frame_too_long :
      (s : Rd) (p rest : List ℕ)
      → max_frame_size < length p
      → length p < 2 ^ 32
      → contents s ≡ encode p ++ rest
      → read_frame r s ≡ err (invalid_data (length p))
  unfolding read_frame encode
  read_frame_too_long s p rest h k e =
      let n = length p in
      let small : n % 2 ^ 32 ≡ n = omega arith in
      let (u, a, _) = rl.read_u32_le-full s n (p ++ rest) k (rw small at e) in
      let long : ltb max_frame_size n ≡ true = ground arith in rw (a, long) refl

  -- What is read is a frame at the front of the stream, within the limit.
  pub read_frame-ok :
      (s t : Rd) (p : List ℕ)
      → read_frame r s ≡ ok (p, t)
      → Fits p × (contents s ≡ encode p ++ contents t)
  unfolding read_frame encode
  read_frame-ok s t p e =
      let (a, b, c) =
        >>=-eq-ok (r.read_u32_le s)
          (λ a. if ltb max_frame_size a.0 then err (invalid_data a.0) else r.read_exact a.1 a.0)
          e in
      read_payload a.0 a.1 b c
    where
      read_payload :
          (n : ℕ) (u : Rd)
          → r.read_u32_le s ≡ ok (n, u)
          → (if ltb max_frame_size n then err (invalid_data n) else r.read_exact u n) ≡ ok (p, t)
          → Fits p × (contents s ≡ (le_bytes (length p % 2 ^ 32) ++ p) ++ contents t)
      read_payload n u b c = elim (Bool-cases (ltb max_frame_size n)) [
        | inl long ↦ absurd (err-ne-ok (invalid_data n) (p, t) (rw long at c))
        | inr fits ↦
            let (small, front) = rl.read_u32_le-ok s n b in
            let (len, body) = rl.read_exact-ok u n p (rw fits at c) in
            let whole : length p % 2 ^ 32 ≡ n = omega arith in
            (ground arith, rw (whole, front, body) (sym (append_assoc (le_bytes n) p (contents t))))
      ]

  -- A stream that is at its end fails.
  pub read_frame_at_end : (at : Rd) → contents at ≡ [] → (e : IoError) × (read_frame r at ≡ err e)
  read_frame_at_end at e = elim (IoResult-cases (read_frame r at)) [
    | inl failed ↦ failed
    | inr ((p, next), got) ↦ absurd (
        omega (
          arith,
          ap length (read_frame-ok at next p got).1,
          ap length e,
          length-append (encode p) (contents next),
          length-encode p,
        ))
  ]
