-- ===== src/Watch/Window.antt =====
-- src/watch/ring_buffer.rs: the buffer is the window of the last items that were pushed.
use axterminator.Prelude.{
  ℕ, zero, suc, ◌-◌, ◌≤◌, ◌<◌, ◌≡◌, refl, sym, ap, subst, ◌∙◌, Bool, true, false, some, List, [],
  ◌∷◌, ◌++◌, length, drop, if◌then◌else◌, ◌==◌, min, arith, ok, length-append, length-drop,
  get_last?-append_one,
}
use mathlib.Core.List.{append_assoc, append-nil}
use axterminator.Watch.{RingBuffer, buffer_new, push, latest, drain_all, buffer_len, is_empty}

module _ {A : Type 0} where
  abbrev pub pushes : List A → RingBuffer A → RingBuffer A
  pushes [] b = b
  pushes (x ∷ xs) b = pushes xs (push x b)

  -- The last items of a list, at most so many.
  abbrev pub last_items : ℕ → List A → List A
  last_items n xs = drop (length xs - n) xs

  -- The buffer holds the last of the items pushed so far.
  record Holds (capacity : ℕ) (pushed : List A) (b : RingBuffer A) : Type 0 where
    items : b.buffer ≡ last_items capacity pushed
    bound : b.capacity ≡ capacity

  drop-append : (n : ℕ) (xs ys : List A) → n ≤ length xs → drop n (xs ++ ys) ≡ drop n xs ++ ys
  drop-append zero xs ys h = refl
  drop-append (suc n) [] ys h = absurd (omega arith)
  drop-append (suc n) (x ∷ xs) ys h = drop-append n xs ys (omega arith)

  drop_one-drop : (n : ℕ) (xs : List A) → drop 1 (drop n xs) ≡ drop (suc n) xs
  drop_one-drop zero xs = refl
  drop_one-drop (suc n) [] = refl
  drop_one-drop (suc n) (x ∷ xs) = drop_one-drop n xs

  drop-eq : (m n : ℕ) (xs : List A) → m ≡ n → drop m xs ≡ drop n xs
  drop-eq m n xs e = ap (λ k. drop k xs) e

  length-last_items : (n : ℕ) (xs : List A) → length (last_items n xs) ≡ min (length xs) n
  length-last_items n xs = omega (arith, length-drop (length xs - n) xs)

  push-Holds :
      (capacity : ℕ) (pushed : List A) (x : A) (b : RingBuffer A)
      → 0 < capacity
      → Holds capacity pushed b
      → Holds capacity (pushed ++ (x ∷ [])) (push x b)
  unfolding push
  push-Holds capacity pushed x b pos h = record {
    items = split (length b.buffer == b.capacity) refl;
    bound = h.bound;
  }
    where
      size : length b.buffer ≡ min (length pushed) capacity
      size = ap length h.items ∙ length-last_items capacity pushed

      split :
          (full : Bool)
          → (length b.buffer == b.capacity) ≡ full
          → (if full then drop 1 b.buffer else b.buffer) ++ (x ∷ [])
            ≡ last_items capacity (pushed ++ (x ∷ []))
      split true e =
          let le : capacity ≤ length pushed = ground (arith, size, e, h.bound) in
          ap (λ l. drop 1 l ++ (x ∷ [])) h.items
          ∙ ap (λ l. l ++ (x ∷ [])) (drop_one-drop (length pushed - capacity) pushed)
          ∙ sym (drop-append (suc (length pushed - capacity)) pushed (x ∷ []) (omega (arith, le)))
          ∙ drop-eq (suc (length pushed - capacity)) (length (pushed ++ (x ∷ [])) - capacity) _
              (omega (arith, le, length-append pushed (x ∷ [])))
      split false e =
          let lt : length pushed < capacity = ground (arith, size, e, h.bound) in
          ap (λ l. l ++ (x ∷ [])) h.items
          ∙ sym (drop-append (length pushed - capacity) pushed (x ∷ []) (omega arith))
          ∙ drop-eq (length pushed - capacity) (length (pushed ++ (x ∷ [])) - capacity) _
              (omega (arith, lt, length-append pushed (x ∷ [])))

  pushes-Holds :
      (capacity : ℕ) (before xs : List A) (b : RingBuffer A)
      → 0 < capacity
      → Holds capacity before b
      → Holds capacity (before ++ xs) (pushes xs b)
  pushes-Holds capacity before [] b pos h =
      subst (λ l. Holds capacity l b) (sym (append-nil before)) h
  pushes-Holds capacity before (x ∷ xs) b pos h =
      subst (λ l. Holds capacity l (pushes xs (push x b))) (append_assoc before (x ∷ []) xs)
        (pushes-Holds capacity (before ++ (x ∷ [])) xs (push x b) pos
          (push-Holds capacity before x b pos h))

  -- A buffer created with a capacity that is not 0 holds, after any pushes, the last items pushed, as
  -- many as the capacity, in order: draining it gives them and leaves it empty, with the
  -- capacity unchanged; its length is the smaller of the number of pushes and the capacity.
  pub pushes-last_items :
      (capacity : ℕ) (xs : List A) (b : RingBuffer A)
      → buffer_new capacity ≡ ok b
      → let (drained, b') = drain_all (pushes xs b) in
        (drained ≡ last_items capacity xs)
        × (b' ≡ b)
        × (buffer_len (pushes xs b) ≡ min (length xs) capacity)
  unfolding buffer_new drain_all buffer_len
  pushes-last_items capacity xs b e =
      let pos : 0 < capacity = ground (arith, e) in
      let fresh : b ≡ record { buffer = []; capacity = capacity } = ground (arith, e) in
      let h =
        pushes-Holds capacity [] xs b pos
          (record { items = ground (arith, fresh); bound = ground (arith, fresh) }) in
      (h.items, ground (arith, h.bound, fresh), ap length h.items ∙ length-last_items capacity xs)

  -- After a push, whatever the buffer was, the latest item is the one pushed and the buffer is not
  -- empty; a buffer that was within its capacity, which is not 0, stays within it.
  pub push-latest :
      (x : A) (b : RingBuffer A)
      → 0 < b.capacity
      → buffer_len b ≤ b.capacity
      → (latest (push x b) ≡ some x)
        × (is_empty (push x b) ≡ false)
        × (buffer_len (push x b) ≤ (push x b).capacity)
  unfolding push latest is_empty buffer_len
  push-latest x b pos h =
      let kept = if length b.buffer == b.capacity then drop 1 b.buffer else b.buffer in
      (
        get_last?-append_one kept x,
        nonempty _,
        ground (
          arith,
          h,
          pos,
          length-append b.buffer (x ∷ []),
          length-append (drop 1 b.buffer) (x ∷ []),
          length-drop 1 b.buffer,
        ),
      )
    where
      nonempty : (xs : List A) → (elim (xs ++ (x ∷ [])) [ [] ↦ true | y ∷ ys ↦ false ]) ≡ false
      nonempty [] = refl
      nonempty (y ∷ ys) = refl
