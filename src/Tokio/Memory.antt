-- ===== src/Tokio/Memory.antt =====
-- Queues and streams in memory, for the examples: they satisfy the laws that the theorems ask of the
-- crates `flume` and `tokio`.
use brilliance_network.Prelude.{
  ℕ, zero, suc, ◌+◌, ◌*◌, ◌/◌, ◌%◌, ◌^◌, ◌≤◌, ◌<◌, ◌≡◌, refl, sym, ap, subst, ◌∙◌, inl, inr, ◌&&◌,
  Bool-cases, Bool, true, false, none, some, List, [], ◌∷◌, ◌++◌, arith, leb, ltb, if◌then◌else◌,
  length, length-append, take, drop,
}
use brilliance_network.Channel.{IsFifo, Codec, IsRoundTrip, Decoded, queues}
use brilliance_network.Tokio.Frame.{
  IoResult, ok, err, failed, ByteWriter, ByteReader, IsWriter, IsReader, le_bytes,
}

pub send-open_queues :
    {A : Type 0} (a : A) (c : List A × Bool)
    → c.1 ≡ true
    → (d : List A × Bool) × (queues.send a c ≡ some d) × (d.0 ≡ c.0 ++ a ∷ []) × (d.1 ≡ true)
send-open_queues a (xs, true) h = ((xs ++ a ∷ [], true), refl, refl, refl)
send-open_queues a (xs, false) h = cc

pub send-closed_queues :
    {A : Type 0} (a : A) (c : List A × Bool) → c.1 ≡ false → queues.send a c ≡ none
send-closed_queues a (xs, true) h = cc
send-closed_queues a (xs, false) h = refl

pub try_recv-empty_queues : {A : Type 0} (c : List A × Bool) → c.0 ≡ [] → queues.try_recv c ≡ none
try_recv-empty_queues ([], b) h = refl
try_recv-empty_queues (x ∷ xs, b) h = cc

pub try_recv-cons_queues :
    {A : Type 0} (a : A) (xs : List A) (c : List A × Bool)
    → c.0 ≡ a ∷ xs
    → (d : List A × Bool) × (queues.try_recv c ≡ some (a, d)) × (d.0 ≡ xs) × (d.1 ≡ c.1)
try_recv-cons_queues a xs c h = ((xs, c.1), rw h refl, refl, refl)

pub IsFifo_queues : IsFifo queues
IsFifo_queues = record {
  unbounded-pending = refl;
  unbounded-is_open = refl;
  send-open = send-open_queues;
  send-closed = send-closed_queues;
  try_recv-empty = try_recv-empty_queues;
  try_recv-cons = try_recv-cons_queues;
  drain-pending = λ c. refl;
  drain-empty = λ c. refl;
  drain-is_open = λ c. refl;
}

-- A sink is the bytes that it was given.
abbrev pub sink : ByteWriter (List ℕ)
sink = record {
  write_u32_le = λ s n. ok (s ++ le_bytes n);
  write_all = λ s xs. ok (s ++ xs);
  flush = λ s. ok s;
}

pub ok-injective : {A : Type 0} {a b : A} → ok a ≡ ok b → a ≡ b
ok-injective h = cc

unfoldable pub IsWriter_sink : IsWriter sink
IsWriter_sink = record {
  written = λ s. s;
  on_stream = λ s. s;
  write_u32_le-written = λ s n e h. sym (ok-injective e);
  write_all-written = λ s xs e. sym (ok-injective e);
  flush-written = λ s e. sym (ok-injective e);
  flush-on_stream = λ s e. refl;
}

err-ne-ok : {A : Type 0} {a : A} → ¬ (err failed ≡ ok a)
err-ne-ok h = cc

-- A source is the bytes that are to come.
abbrev pub u32_of : ℕ → ℕ → ℕ → ℕ → ℕ
u32_of a b c d = a + b * 2 ^ 8 + c * 2 ^ 16 + d * 2 ^ 24

abbrev pub is_byte : ℕ → Bool
is_byte n = ltb n 256

abbrev pub read_u32 : List ℕ → IoResult (ℕ × List ℕ)
read_u32 (a ∷ b ∷ c ∷ d ∷ rest) =
    if is_byte a && is_byte b && is_byte c && is_byte d
    then ok (u32_of a b c d, rest)
    else err failed
read_u32 xs = err failed

abbrev pub source : ByteReader (List ℕ)
source = record {
  read_u32_le = read_u32;
  read_exact = λ s n. if leb n (length s) then ok (take n s, drop n s) else err failed;
}

take-append : (xs rest : List ℕ) → take (length xs) (xs ++ rest) ≡ xs
take-append [] rest = refl
take-append (x ∷ xs) rest = ap (◌∷◌ x) (take-append xs rest)

drop-append_all : (xs rest : List ℕ) → drop (length xs) (xs ++ rest) ≡ rest
drop-append_all [] rest = refl
drop-append_all (x ∷ xs) rest = drop-append_all xs rest

take-++-drop : (n : ℕ) (xs : List ℕ) → xs ≡ take n xs ++ drop n xs
take-++-drop zero xs = refl
take-++-drop (suc n) [] = refl
take-++-drop (suc n) (x ∷ xs) = ap (◌∷◌ x) (take-++-drop n xs)

length-take : (n : ℕ) (xs : List ℕ) → n ≤ length xs → length (take n xs) ≡ n
length-take zero xs h = refl
length-take (suc n) [] h = absurd (omega arith)
length-take (suc n) (x ∷ xs) h = omega (arith, length-take n xs)

pub read_u32-full :
    (n : ℕ) (rest : List ℕ) → n < 2 ^ 32 → read_u32 (le_bytes n ++ rest) ≡ ok (n, rest)
read_u32-full n rest h =
    let bytes : is_byte (n % 256)
          && is_byte (n / 2 ^ 8 % 256)
          && is_byte (n / 2 ^ 16 % 256)
          && is_byte (n / 2 ^ 24 % 256)
        ≡ true =
      ground arith in
    let value : u32_of (n % 256) (n / 2 ^ 8 % 256) (n / 2 ^ 16 % 256) (n / 2 ^ 24 % 256) ≡ n =
      omega arith in
    rw (bytes, value) refl

le_bytes-u32_of :
    (a b c d : ℕ)
    → is_byte a && is_byte b && is_byte c && is_byte d ≡ true
    → (u32_of a b c d < 2 ^ 32) × (a ∷ b ∷ c ∷ d ∷ [] ≡ le_bytes (u32_of a b c d))
le_bytes-u32_of a b c d h =
    let small : (a < 256) × (b < 256) × (c < 256) × (d < 256) = ground arith in
    let n = u32_of a b c d in
    let e0 : n % 256 ≡ a = omega (arith, small) in
    let e1 : n / 2 ^ 8 % 256 ≡ b = omega (arith, small) in
    let e2 : n / 2 ^ 16 % 256 ≡ c = omega (arith, small) in
    let e3 : n / 2 ^ 24 % 256 ≡ d = omega (arith, small) in
    (omega (arith, small), rw (e0, e1, e2, e3) refl)

pub read_u32-ok :
    (s : List ℕ) (n : ℕ) {t : List ℕ}
    → read_u32 s ≡ ok (n, t)
    → (n < 2 ^ 32) × (s ≡ le_bytes n ++ t)
read_u32-ok [] n e = cc
read_u32-ok (a ∷ []) n e = cc
read_u32-ok (a ∷ b ∷ []) n e = cc
read_u32-ok (a ∷ b ∷ c ∷ []) n e = cc
read_u32-ok (a ∷ b ∷ c ∷ d ∷ rest) n {t} e =
    elim (Bool-cases (is_byte a && is_byte b && is_byte c && is_byte d)) [
      | inl bytes ↦
          let same : (u32_of a b c d, rest) ≡ (n, t) = ok-injective (sym (rw bytes refl) ∙ e) in
          let (below, front) = le_bytes-u32_of a b c d bytes in
          (
            subst (λ k. k < 2 ^ 32) (ap (λ p. p.0) same) below,
            ap (λ xs. xs ++ rest) front ∙ ap (λ p. le_bytes p.0 ++ p.1) same,
          )
      | inr wide ↦ absurd (err-ne-ok (sym (rw wide refl) ∙ e))
    ]

pub read_exact-ok_source :
    (s : List ℕ) (n : ℕ) (xs : List ℕ) {t : List ℕ}
    → source.read_exact s n ≡ ok (xs, t)
    → (length xs ≡ n) × (s ≡ xs ++ t)
read_exact-ok_source s n xs {t} e = elim (Bool-cases (leb n (length s))) [
  | inl enough ↦
      let same : (take n s, drop n s) ≡ (xs, t) = ok-injective (sym (rw enough refl) ∙ e) in
      (
        ap length (sym (ap (λ p. p.0) same)) ∙ length-take n s (ground arith),
        take-++-drop n s ∙ ap (λ p. p.0 ++ p.1) same,
      )
  | inr short ↦ absurd (err-ne-ok (sym (rw short refl) ∙ e))
]

pub read_exact-full_source :
    (s xs rest : List ℕ) → s ≡ xs ++ rest → source.read_exact s (length xs) ≡ ok (xs, rest)
read_exact-full_source s xs rest e =
    let enough : leb (length xs) (length (xs ++ rest)) ≡ true =
      ground (arith, length-append xs rest) in
    rw (e, enough, take-append xs rest, drop-append_all xs rest) refl

unfoldable pub IsReader_source : IsReader source
IsReader_source = record {
  contents = λ s. s;
  read_u32_le-ok = read_u32-ok;
  read_u32_le-full = λ s n rest h e. (rest, rw e (read_u32-full n rest h), refl);
  read_exact-ok = read_exact-ok_source;
  read_exact-full = λ s xs rest e. (rest, read_exact-full_source s xs rest e, refl);
}

-- A message is a number, in one byte; an empty body does not decode, and neither does a long one.
abbrev decode : List ℕ → Decoded ℕ ℕ
decode [] = Decoded.err 0
decode (m ∷ []) = Decoded.ok m
decode (m ∷ n ∷ xs) = Decoded.err (length xs)

abbrev pub byte_codec : Codec ℕ ℕ
byte_codec = record { serialize = λ m. m ∷ []; deserialize = decode }

pub IsRoundTrip-byte_codec : IsRoundTrip byte_codec
IsRoundTrip-byte_codec = record { deserialize-serialize = λ m. refl }
