-- ===== src/Refs.antt =====
-- src/persistent_refs.rs: references to elements that survive a refresh of the tree, found again by
-- a fingerprint. A `HashMap` is an association list; its order stands for the iteration order.
-- A method that reads the clock takes the reading, as the time since the epoch (`none` before it).
pub mod Valid
pub mod Track
pub mod Refresh
pub mod Gc
mod Tests
use axterminator.Prelude.{
  unwrap_or, and_then, map_option, ℕ, ◌+◌, ◌%◌, ◌^◌, String, Bool, true, false, Option, none, some,
  List, [], ◌∷◌, map, min, length, leb, keep, if◌then◌else◌, is_infix,
}
use axterminator.Prelude.Maps.{lookup, insert, remove, map_values, values}

abbrev pub gc_threshold : ℕ
gc_threshold = 3

-- `SystemTime::now().duration_since(UNIX_EPOCH)` in nanoseconds, as `u64`.
unfoldable pub unix_ns : Option ℕ → ℕ
unix_ns t = unwrap_or (map_option (λ d. d % 2 ^ 64) t) 0

-- What the store uses of the standard library: rectangles of `f64` are only moved; the hasher fed
-- with a role, a label and a path; lower-casing of Unicode text, as its code points.
pub record Platform : Type 1 where
  pub Rect : Type 0
  pub hash : String → String → List String → ℕ
  pub lower : String → List ℕ

module _ (p : Platform) where
  open p use {Rect, hash, lower}

  pub record ElementSnapshot : Type 0 where
    pub role : String
    pub label : String
    pub path : List String
    pub bounds : Rect

  pub record ElementRef : Type 0 where
    pub id : ℕ
    pub role : String
    pub label : String
    pub path : List String
    pub bounds : Rect
    pub fingerprint : ℕ
    pub alive : Bool
    pub last_seen_ns : ℕ
    pub missed_refreshes : ℕ

  pub record RefStore : Type 0 where
    pub refs : List (ℕ × ElementRef)
    pub by_fingerprint : List (ℕ × ℕ)
    pub next_id : ℕ

  unfoldable pub store_new : RefStore
  store_new = record { refs = []; by_fingerprint = []; next_id = 1 }

  -- `fingerprint(&snap.role, &snap.label, &snap.path)`
  abbrev pub fingerprint_of : ElementSnapshot → ℕ
  fingerprint_of s = hash s.role s.label s.path

  -- The update of an entry that is seen, in `track` and in `refresh`.
  unfoldable pub seen : Rect → ℕ → ElementRef → ElementRef
  seen bounds now e = record e {
    bounds = bounds;
    alive = true;
    last_seen_ns = now;
    missed_refreshes = 0;
  }

  -- The second half of `track`: a new element gets the next id.
  unfoldable pub track_new : ElementSnapshot → ℕ → RefStore → ElementRef × RefStore
  track_new snap now s =
      let e : ElementRef = record {
        id = s.next_id;
        role = snap.role;
        label = snap.label;
        path = snap.path;
        bounds = snap.bounds;
        fingerprint = fingerprint_of snap;
        alive = true;
        last_seen_ns = now;
        missed_refreshes = 0;
      } in
      (
        e,
        record {
          refs = insert s.next_id e s.refs;
          by_fingerprint = insert (fingerprint_of snap) s.next_id s.by_fingerprint;
          next_id = (s.next_id + 1) % 2 ^ 64;
        },
      )

  -- The entry that `track` updates in place, if there is one.
  unfoldable pub tracked : ElementSnapshot → RefStore → Option (ℕ × ElementRef)
  tracked snap s =
      and_then (lookup (fingerprint_of snap) s.by_fingerprint)
        (λ id. map_option (λ e. (id, e)) (lookup id s.refs))

  unfoldable pub track : ElementSnapshot → Option ℕ → RefStore → ElementRef × RefStore
  track snap clock s =
      let now = unix_ns clock in
      elim (tracked snap s) [
        | none ↦ track_new snap now s
        | some (id, e) ↦
            (seen snap.bounds now e, record s { refs = insert id (seen snap.bounds now e) s.refs })
      ]

  unfoldable pub resolve : ℕ → RefStore → Option ElementRef
  resolve ref_id s = lookup ref_id s.refs

  unfoldable pub resolve_by_fingerprint : ℕ → RefStore → Option ElementRef
  resolve_by_fingerprint fp s = and_then (lookup fp s.by_fingerprint) (λ id. lookup id s.refs)

  unfoldable pub find_by_label : String → RefStore → List ElementRef
  find_by_label needle s = keep (λ r. is_infix (lower needle) (lower r.label)) (values s.refs)

  -- `collect` into a `HashMap`: of two snapshots with one fingerprint the later one stays.
  unfoldable pub collect_live :
      List ElementSnapshot → List (ℕ × ElementSnapshot) → List (ℕ × ElementSnapshot)
  collect_live [] live = live
  collect_live (s ∷ ss) live = collect_live ss (insert (fingerprint_of s) s live)

  -- The body of the loop of `refresh`, `missed_refreshes` saturating at `u32::MAX`.
  unfoldable pub refresh_entry : List (ℕ × ElementSnapshot) → ℕ → ElementRef → ElementRef
  unfolding seen
  refresh_entry live now e = elim (lookup e.fingerprint live) [
    | some snap ↦ seen snap.bounds now e
    | none ↦ record e { alive = false; missed_refreshes = min (e.missed_refreshes + 1) 4294967295 }
  ]

  unfoldable pub refresh : List ElementSnapshot → Option ℕ → RefStore → RefStore
  refresh current clock s = record s {
    refs = map_values (refresh_entry (collect_live current []) (unix_ns clock)) s.refs;
  }

  abbrev pub is_stale : ElementRef → Bool
  is_stale e = leb gc_threshold e.missed_refreshes

  unfoldable pub stale_ids : List (ℕ × ElementRef) → List ℕ
  stale_ids refs = map (λ e. e.id) (keep is_stale (values refs))

  -- The body of the loop of `gc`.
  unfoldable pub remove_ref : ℕ → RefStore → RefStore
  remove_ref id s = elim (lookup id s.refs) [
    | none ↦ s
    | some removed ↦ record s {
      refs = remove id s.refs;
      by_fingerprint = remove removed.fingerprint s.by_fingerprint;
    }
  ]

  unfoldable pub remove_refs : List ℕ → RefStore → RefStore
  remove_refs [] s = s
  remove_refs (id ∷ ids) s = remove_refs ids (remove_ref id s)

  unfoldable pub gc : RefStore → ℕ × RefStore
  gc s = let ids = stale_ids s.refs in (length ids, remove_refs ids s)

  unfoldable pub len : RefStore → ℕ
  len s = length s.refs

  unfoldable pub alive_count : RefStore → ℕ
  alive_count s = length (keep (λ r. r.alive) (values s.refs))
