-- ===== src/Resolve/Ports.antt =====
-- Which host and port `resolve_connect_domain` asks for.
use brilliance_network.Prelude.{
  ℕ, suc, ◌+◌, ◌*◌, ◌^◌, ◌≤◌, ◌<◌, ◌≡◌, ◌≢◌, refl, ◌∙◌, ap, Bool, true, false, Option, some, List,
  [], ◌∷◌, ◌++◌, ltb, ◌==◌, if◌then◌else◌, done, inl, inr, Bool-cases, All, length, arith,
}
use brilliance_network.Channel.{ok, err}
use brilliance_network.Resolve.{
  colon, plus, digit_zero, split, ParseIntError, to_digit, parse_digits, parse_u16, port_error,
  resolve_domain, resolve_pieces, resolve_connect_domain,
}

-- How many colons a text has.
abbrev pub colons : List ℕ → ℕ
colons [] = 0
colons (c ∷ cs) = let n = colons cs in if c == colon then suc n else n

-- A number from its decimal digits, the first of them the highest.
abbrev pub value_from : ℕ → List ℕ → ℕ
value_from n [] = n
value_from n (d ∷ ds) = value_from (n * 10 + d) ds

-- The text of digits.
abbrev pub text : List ℕ → List ℕ
text [] = []
text (d ∷ ds) = (digit_zero + d) ∷ text ds

length-push :
    (b : Bool) (c : ℕ) (pieces : List (List ℕ)) {n : ℕ}
    → length pieces ≡ suc n
    → length (
        if b
        then [] ∷ pieces
        else (elim pieces [ [] ↦ (c ∷ []) ∷ [] | piece ∷ rest ↦ (c ∷ piece) ∷ rest ]))
      ≡ suc (if b then suc n else n)
length-push true c pieces h = ap suc h
length-push false c [] h = absurd (omega (arith, h))
length-push false c (p ∷ ps) h = h

length-split : (cs : List ℕ) → length (split cs) ≡ suc (colons cs)
unfolding split
length-split [] = refl
length-split (c ∷ cs) = length-push (c == colon) c (split cs) (length-split cs)

split-no_colon : (cs : List ℕ) → colons cs ≡ 0 → split cs ≡ cs ∷ []
unfolding split
split-no_colon [] h = refl
split-no_colon (c ∷ cs) h = elim (Bool-cases (c == colon)) [
  | inl e ↦ absurd (ground (arith, h, e))
  | inr e ↦ rw (e, split-no_colon cs (ground arith)) refl
]

split-colon : (ds ps : List ℕ) → colons ds ≡ 0 → split (ds ++ colon ∷ ps) ≡ ds ∷ split ps
unfolding split
split-colon [] ps h = refl
split-colon (c ∷ cs) ps h = elim (Bool-cases (c == colon)) [
  | inl e ↦ absurd (ground (arith, h, e))
  | inr e ↦ rw (e, split-colon cs ps (ground arith)) refl
]

value_from-le : (n : ℕ) (ds : List ℕ) → n ≤ value_from n ds
value_from-le n [] = omega arith
value_from-le n (d ∷ ds) = omega (arith, value_from-le (n * 10 + d) ds)

colons-text : (ds : List ℕ) → All (λ d. d < 10) ds → colons (text ds) ≡ 0
colons-text [] h = refl
colons-text (d ∷ ds) h = ground (arith, colons-text ds h.1, h.0)

to_digit-text : (d : ℕ) → d < 10 → to_digit (digit_zero + d) ≡ some d
unfolding to_digit
to_digit-text d h = ground arith

parse_digits-text :
    (n : ℕ) (ds : List ℕ)
    → n < 2 ^ 16
    → All (λ d. d < 10) ds
    → parse_digits n (text ds) ≡ (
        if ltb (value_from n ds) (2 ^ 16)
        then ok (value_from n ds)
        else err ParseIntError.pos_overflow)
unfolding parse_digits
parse_digits-text n [] b h = ground (arith, b)
parse_digits-text n (d ∷ ds) b h = elim (Bool-cases (ltb (n * 10 + d) (2 ^ 16))) [
  | inl fits ↦
      rw (to_digit-text d h.0, parse_digits, fits)
        (parse_digits-text (n * 10 + d) ds (ground arith) h.1)
  | inr over ↦
      let beyond : ltb (value_from (n * 10 + d) ds) (2 ^ 16) ≡ false =
        ground (arith, value_from-le (n * 10 + d) ds, over) in
      rw (to_digit-text d h.0, parse_digits, over, beyond) refl
]

-- A port as digits: its number where a `u16` has it, and an error otherwise.
parse_u16-text :
    (d : ℕ) (ds : List ℕ)
    → All (λ d. d < 10) (d ∷ ds)
    → let v = value_from 0 (d ∷ ds) in
      parse_u16 (text (d ∷ ds)) ≡ (if ltb v (2 ^ 16) then ok v else err ParseIntError.pos_overflow)
unfolding parse_u16
parse_u16-text d [] h = parse_digits-text 0 (d ∷ []) (omega arith) h
parse_u16-text d (e ∷ ds) h =
    let digit : digit_zero + d == plus ≡ false = ground arith in
    rw (digit, parse_u16) (parse_digits-text 0 (d ∷ e ∷ ds) (omega arith) h)

module _ {Ip : Type 0} (lookup_ip : List ℕ → Option (List Ip)) (is_ipv6 : Ip → Bool) where
  -- A host without a colon, a colon, and digits: the host is looked up and the address that is found is
  -- given the port of these digits, where it is below 2 ^ 16. Otherwise the result is the error of the
  -- port, and nothing is looked up.
  pub resolve_with_port :
      (host : List ℕ) (d : ℕ) (ds : List ℕ) (default_port : ℕ)
      → colons host ≡ 0
      → All (λ d. d < 10) (d ∷ ds)
      → let v = value_from 0 (d ∷ ds) in
        resolve_connect_domain lookup_ip is_ipv6 (host ++ colon ∷ text (d ∷ ds)) default_port ≡ (
          if ltb v (2 ^ 16)
          then resolve_domain lookup_ip is_ipv6 host v
          else done (err (port_error ParseIntError.pos_overflow)))
  unfolding resolve_connect_domain resolve_pieces
  resolve_with_port host d ds default_port h digits =
      let v = value_from 0 (d ∷ ds) in
      let pieces : split (host ++ colon ∷ text (d ∷ ds)) ≡ host ∷ text (d ∷ ds) ∷ [] =
        split-colon host (text (d ∷ ds)) h
        ∙ ap (λ l. host ∷ l) (split-no_colon (text (d ∷ ds)) (colons-text (d ∷ ds) digits)) in
      elim (Bool-cases (ltb v (2 ^ 16))) [
        | inl fits ↦ rw (pieces, parse_u16-text d ds digits, resolve_pieces, fits) refl
        | inr over ↦ rw (pieces, parse_u16-text d ds digits, resolve_pieces, over) refl
      ]

  pieces_whole :
      (pieces : List (List ℕ)) (input : List ℕ) (default_port : ℕ)
      → length pieces ≢ 2
      → resolve_pieces lookup_ip is_ipv6 pieces input default_port
        ≡ resolve_domain lookup_ip is_ipv6 input default_port
  unfolding resolve_pieces
  pieces_whole [] input p h = refl
  pieces_whole (a ∷ []) input p h = refl
  pieces_whole (a ∷ b ∷ []) input p h = absurd (h refl)
  pieces_whole (a ∷ b ∷ c ∷ r) input p h = refl

  -- A text with no colon or with several is looked up as a whole, with the default port.
  pub resolve_without_port :
      (input : List ℕ) (default_port : ℕ)
      → colons input ≢ 1
      → resolve_connect_domain lookup_ip is_ipv6 input default_port
        ≡ resolve_domain lookup_ip is_ipv6 input default_port
  unfolding resolve_connect_domain
  resolve_without_port input p h =
      pieces_whole (split input) input p (λ e. h (omega (arith, e, length-split input)))
