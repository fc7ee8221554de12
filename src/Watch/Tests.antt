-- ===== src/Watch/Tests.antt =====
-- src/watch/ring_buffer.rs at concrete inputs.
use axterminator.Prelude.{ℕ, ◌≡◌, refl, [], ◌∷◌, min, ok}
use axterminator.Watch.{RingBuffer, buffer_new, push, drain_all, buffer_len}
use axterminator.Watch.Window.{pushes, last_items, pushes-last_items}

abbrev three : RingBuffer ℕ
three = record { buffer = []; capacity = 3 }

created : buffer_new 3 ≡ ok three
unfolding buffer_new
created = refl

evicts : (drain_all (pushes (1 ∷ 2 ∷ 3 ∷ 4 ∷ []) three)).0 ≡ 2 ∷ 3 ∷ 4 ∷ []
unfolding drain_all push
evicts = refl

pushes-last_items_example :
    let (drained, b') = drain_all (pushes (1 ∷ 2 ∷ 3 ∷ 4 ∷ []) three) in
    (drained ≡ last_items 3 (1 ∷ 2 ∷ 3 ∷ 4 ∷ []))
    × (b' ≡ three)
    × (buffer_len (pushes (1 ∷ 2 ∷ 3 ∷ 4 ∷ []) three) ≡ min 4 3)
pushes-last_items_example = pushes-last_items 3 (1 ∷ 2 ∷ 3 ∷ 4 ∷ []) three created
