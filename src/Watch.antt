-- ===== src/Watch.antt =====
-- src/watch/ring_buffer.rs: the bounded log of the events that the watchers emit.
pub mod Window
mod Tests
use axterminator.Prelude.{
  ℕ, zero, Bool, true, false, Option, none, some, List, [], ◌∷◌, ◌++◌, length, get_last?, drop,
  if◌then◌else◌, ◌==◌, Result, ok, err, String,
}

-- `VecDeque<T>` is the list of its items, the oldest first.
pub record RingBuffer (A : Type 0) : Type 0 where
  pub buffer : List A
  pub capacity : ℕ

module _ {A : Type 0} where
  -- `new` panics on a capacity of 0.
  unfoldable pub buffer_new : ℕ → Result (RingBuffer A) String
  buffer_new capacity =
      if capacity == 0
      then err "RingBuffer capacity must be > 0"
      else ok (record { buffer = []; capacity = capacity })

  unfoldable pub push : A → RingBuffer A → RingBuffer A
  push item b =
      let kept = if length b.buffer == b.capacity then drop 1 b.buffer else b.buffer in
      record b { buffer = kept ++ (item ∷ []) }

  unfoldable pub latest : RingBuffer A → Option A
  latest b = get_last? b.buffer

  unfoldable pub drain_all : RingBuffer A → List A × RingBuffer A
  drain_all b = (b.buffer, record b { buffer = [] })

  unfoldable pub buffer_len : RingBuffer A → ℕ
  buffer_len b = length b.buffer

  unfoldable pub is_empty : RingBuffer A → Bool
  is_empty b = elim b.buffer [ [] ↦ true | x ∷ xs ↦ false ]
