-- ===== src/Refs/Tests.antt =====
-- src/persistent_refs.rs on a small tree, and its theorems at concrete inputs.
use axterminator.Prelude.{
  ℕ, ◌+◌, ◌*◌, ◌^◌, ◌<◌, ◌≡◌, refl, false, none, some, [], ◌∷◌, codes, arith, length,
}
use axterminator.Prelude.Maps.{lookup, insert, remove, map_values, values}
use axterminator.Refs.{
  Platform, RefStore, ElementRef, ElementSnapshot, store_new, track, track_new, tracked, seen,
  unix_ns, refresh, refresh_entry, collect_live, gc, stale_ids, remove_ref, remove_refs, resolve,
  len,
}
use axterminator.Refs.Valid.{IsValid, store_new-IsValid}
use axterminator.Refs.Track.{Tracked, track-Tracked}
use axterminator.Refs.Refresh.{last_with, Refreshed, refresh-IsValid, resolve-refresh}
use axterminator.Refs.Gc.{Collected, gc-Collected, gc-absent}

-- A hash that keeps apart what the tests need: the lengths of the label and of the path.
abbrev toy : Platform
toy = record {
  Rect = ℕ;
  hash = λ role label path. 100 * length (codes label) + length path;
  lower = codes;
}

program : Unit {0}
unfolding track track_new tracked seen unix_ns refresh refresh_entry collect_live gc stale_ids
    remove_ref remove_refs resolve len store_new lookup insert remove map_values values
program = tt

abbrev save : ElementSnapshot toy
save = record { role = "AXButton"; label = "Save"; path = "w" ∷ []; bounds = 5 }

abbrev field : ElementSnapshot toy
field = record { role = "AXTextField"; label = "Name"; path = "w" ∷ "g" ∷ []; bounds = 6 }

abbrev one : RefStore toy
one = (track toy save (some 10) (store_new toy)).1

one-IsValid : IsValid toy one
one-IsValid = (track-Tracked toy save (some 10) (store_new toy) (store_new-IsValid toy) room).valid
  where
    room : (store_new toy).next_id + 1 < 2 ^ 64
    room = unfold store_new in omega arith

one_id : one.next_id ≡ 2
unfolding program
one_id = refl

abbrev save_ref : ElementRef toy
save_ref = (track toy save (some 10) (store_new toy)).0

save_ref_stored : (resolve toy 1 one ≡ some save_ref) × (save_ref.missed_refreshes ≡ 0)
unfolding program
save_ref_stored = (refl, refl)

gc_third :
    (gc toy (refresh toy (field ∷ []) none (refresh toy [] none (refresh toy [] none one)))).0 ≡ 1
unfolding program
gc_third = refl

track-Tracked_example : let (e', s') = track toy field (some 11) one in Tracked toy field one e' s'
track-Tracked_example =
    track-Tracked toy field (some 11) one one-IsValid (unfold program in omega arith)

refresh-IsValid_example :
    IsValid toy (refresh toy (save ∷ []) none one)
    × (len toy (refresh toy (save ∷ []) none one) ≡ len toy one)
refresh-IsValid_example = refresh-IsValid toy (save ∷ []) none one one-IsValid

resolve-refresh_example :
    (e' : ElementRef toy) × (resolve toy 1 (refresh toy (save ∷ []) none one) ≡ some e')
    × (e'.id ≡ save_ref.id)
    × (e'.fingerprint ≡ save_ref.fingerprint)
    × Refreshed toy save_ref (unix_ns none) (last_with toy save_ref.fingerprint (save ∷ []) none) e'
resolve-refresh_example = resolve-refresh toy (save ∷ []) none one 1 save_ref save_ref_stored.0

gc-Collected_example : let (n, s') = gc toy one in Collected toy one n s'
gc-Collected_example = gc-Collected toy one one-IsValid

gc-absent_example :
    let s2 = refresh toy [] none (refresh toy [] none one) in
    ((x : ElementRef toy) × (resolve toy 1 (gc toy s2).1 ≡ some x) × (x.alive ≡ false))
    × (resolve toy 1 (gc toy (refresh toy (field ∷ []) none s2)).1 ≡ none)
gc-absent_example =
    gc-absent toy one 1 save_ref [] [] (field ∷ []) none none none one-IsValid save_ref_stored.0
      save_ref_stored.1 refl refl (unfold program in refl)
