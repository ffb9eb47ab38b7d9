-- ===== src/Interpolation/HistoryBuffer/Window.antt =====
-- `push` as a window on the stream of snapshots that come in order.
use mathlib.Core.List.{append-nil, append_assoc}
use brilliance_network.Prelude.{
  ℕ, suc, ◌-◌, ◌≤◌, ◌<◌, ◌≡◌, refl, sym, ap, ◌∙◌, inl, inr, true, false, some, List, [], ◌∷◌, ◌++◌,
  max, arith, if◌then◌else◌, leb, length, length-append, drop, tail, get_last?, length-drop,
  drop-append, tail-drop, get_last?-drop, Bool-cases,
}
use brilliance_network.Float.{Float}
use brilliance_network.Interpolation.HistoryBuffer.{
  TimestampedSnapshot, HistoryBuffer, is_late, push, new,
}
use brilliance_network.Interpolation.HistoryBuffer.Order.{capacity-push}

module _ {A : Type 0} where
  -- The last `n` elements, or all.
  abbrev pub take_last : ℕ → List A → List A
  take_last n xs = drop (length xs - n) xs

  get_last?-take_last : (n : ℕ) (xs : List A) → 0 < n → get_last? (take_last n xs) ≡ get_last? xs
  get_last?-take_last n [] h = let e : 0 - n ≡ 0 = omega arith in rw e
  get_last?-take_last n (x ∷ xs) h = get_last?-drop (length (x ∷ xs) - n) (x ∷ xs) (omega arith)

  take_last-full :
      (n c : ℕ) (xs : List A) (a : A)
      → n ≡ max c 1
      → n ≤ length xs
      → take_last n (xs ++ a ∷ []) ≡ tail (take_last n xs) ++ a ∷ []
  take_last-full n c xs a e h =
      let k = length xs - n in
      let next : length (xs ++ a ∷ []) - n ≡ suc k = omega (arith, length-append xs (a ∷ [])) in
      rw next (
        drop-append (suc k) xs (a ∷ []) (omega arith)
        ∙ ap (λ ys. ys ++ a ∷ []) (sym (tail-drop k xs)))

  -- To add at the end of a full window, its front goes.
  take_last-snoc :
      (n c : ℕ) (xs : List A) (a : A)
      → n ≡ max c 1
      → take_last n (xs ++ a ∷ [])
        ≡ (if leb c (length (take_last n xs)) then tail (take_last n xs) else take_last n xs)
          ++ a ∷ []
  take_last-snoc n c xs a e = elim (Bool-cases (leb n (length xs))) [
    | inl full ↦
        let t : leb c (length (take_last n xs)) ≡ true =
          ground (arith, length-drop (length xs - n) xs) in
        rw t (take_last-full n c xs a e (ground arith))
    | inr room ↦
        let whole : length xs - n ≡ 0 = ground arith in
        let next : length (xs ++ a ∷ []) - n ≡ 0 = ground (arith, length-append xs (a ∷ [])) in
        rw (next, whole) (keeps xs (ground arith))
  ]
    where
      keeps :
          (ys : List A)
          → length ys < n
          → ys ++ a ∷ [] ≡ (if leb c (length ys) then tail ys else ys) ++ a ∷ []
      keeps [] h = ground arith
      keeps (y ∷ ys) h = ground arith

module _ {T R : Type 0} ⦃f : Float R⦄ where
  -- The snapshots of a stream that come in order: the first, and each that is not older than the one
  -- before it that did.
  pub in_order_after :
      TimestampedSnapshot T R → List (TimestampedSnapshot T R) → List (TimestampedSnapshot T R)
  in_order_after last [] = []
  in_order_after last (s ∷ ss) =
      let skipped = in_order_after last ss in
      let taken = in_order_after s ss in
      if f.lt s.timestamp last.timestamp then skipped else s ∷ taken

  pub in_order : List (TimestampedSnapshot T R) → List (TimestampedSnapshot T R)
  in_order [] = []
  in_order (s ∷ ss) = s ∷ in_order_after s ss

  -- The same as one list that grows.
  accepted :
      List (TimestampedSnapshot T R)
      → List (TimestampedSnapshot T R)
      → List (TimestampedSnapshot T R)
  accepted acc [] = acc
  accepted acc (s ∷ ss) = accepted (if is_late acc s.timestamp then acc else acc ++ s ∷ []) ss

  get_last?-snoc :
      (xs : List (TimestampedSnapshot T R)) (x : TimestampedSnapshot T R)
      → get_last? (xs ++ x ∷ []) ≡ some x
  get_last?-snoc [] x = refl
  get_last?-snoc (y ∷ []) x = refl
  get_last?-snoc (y ∷ z ∷ r) x = get_last?-snoc (z ∷ r) x

  is_late-last :
      (xs : List (TimestampedSnapshot T R)) (last : TimestampedSnapshot T R) (t : R)
      → get_last? xs ≡ some last
      → is_late xs t ≡ f.lt t last.timestamp
  unfolding is_late
  is_late-last xs last t e = rw (e, is_late) refl

  accepted-in_order_after :
      (acc : List (TimestampedSnapshot T R)) (last : TimestampedSnapshot T R)
      (ss : List (TimestampedSnapshot T R))
      → get_last? acc ≡ some last
      → accepted acc ss ≡ acc ++ in_order_after last ss
  unfolding accepted in_order_after
  accepted-in_order_after acc last [] e = sym (append-nil acc)
  accepted-in_order_after acc last (s ∷ ss) e =
      let same = is_late-last acc last s.timestamp e in
      elim (Bool-cases (f.lt s.timestamp last.timestamp)) [
        | inl late ↦ rw (same, late) (accepted-in_order_after acc last ss e)
        | inr on_time ↦
            rw (same, on_time)
              (accepted-in_order_after (acc ++ s ∷ []) s ss (get_last?-snoc acc s)
                ∙ append_assoc acc (s ∷ []) (in_order_after s ss))
      ]

  accepted-in_order : (ss : List (TimestampedSnapshot T R)) → accepted [] ss ≡ in_order ss
  unfolding accepted in_order is_late
  accepted-in_order [] = refl
  accepted-in_order (s ∷ ss) = accepted-in_order_after (s ∷ []) s ss refl

  pub push_all : HistoryBuffer T R → List (TimestampedSnapshot T R) → HistoryBuffer T R
  push_all h [] = h
  push_all h (s ∷ ss) = push_all (push h s.value s.timestamp) ss

  is_late-eq :
      (xs ys : List (TimestampedSnapshot T R)) (t : R)
      → get_last? xs ≡ get_last? ys
      → is_late xs t ≡ is_late ys t
  unfolding is_late
  is_late-eq xs ys t e = rw (e, is_late)

  push_late : (h : HistoryBuffer T R) (v : T) (t : R) → is_late h.buffer t ≡ true → push h v t ≡ h
  unfolding push
  push_late h v t e = rw e

  push_on_time :
      (h : HistoryBuffer T R) (v : T) (t : R)
      → is_late h.buffer t ≡ false
      → (push h v t).buffer
        ≡ (if leb h.capacity (length h.buffer) then tail h.buffer else h.buffer)
          ++ record { value = v; timestamp = t } ∷ []
  unfolding push
  push_on_time h v t e = rw e

  -- The buffer is a window on what was accepted.
  push_all-window :
      (n : ℕ) (h : HistoryBuffer T R) (acc ss : List (TimestampedSnapshot T R))
      → n ≡ max h.capacity 1
      → h.buffer ≡ take_last n acc
      → (push_all h ss).buffer ≡ take_last n (accepted acc ss)
  unfolding push_all accepted
  push_all-window n h acc [] e b = b
  push_all-window n h acc (s ∷ ss) e b =
      let same : is_late h.buffer s.timestamp ≡ is_late acc s.timestamp =
        rw b (is_late-eq _ acc s.timestamp (get_last?-take_last n acc (omega arith))) in
      elim (Bool-cases (is_late acc s.timestamp)) [
        | inl late ↦
            ap (λ k. (push_all k ss).buffer) (push_late h s.value s.timestamp (same ∙ late))
            ∙ rw late (push_all-window n h acc ss e b)
        | inr on_time ↦
            let h' = push h s.value s.timestamp in
            let kept : h'.buffer ≡ take_last n (acc ++ s ∷ []) =
              push_on_time h s.value s.timestamp (same ∙ on_time)
              ∙ rw b (sym (take_last-snoc n h.capacity acc s e)) in
            rw on_time (
              push_all-window n h' (acc ++ s ∷ []) ss
                (omega (arith, capacity-push h s.value s.timestamp)) kept)
      ]

  -- After any pushes into a new buffer, it holds the last `capacity` (or one, if that is 0) of the
  -- snapshots that came in order: the first, and each whose timestamp is not less than that of the one
  -- before it that did.
  pub push_all-new :
      (c : ℕ) (ss : List (TimestampedSnapshot T R))
      → (push_all (new c) ss).buffer ≡ take_last (max c 1) (in_order ss)
  push_all-new c ss =
      push_all-window (max c 1) (new c) [] ss (unfold new in refl)
        (unfold new in ap (λ k. drop {A = TimestampedSnapshot T R} k []) zeroed)
      ∙ ap (take_last (max c 1)) (accepted-in_order ss)
    where
      zeroed : 0 ≡ 0 - max c 1
      zeroed = omega arith
