-- ===== src/Refs/Refresh.antt =====
-- src/persistent_refs.rs, `refresh`: which references are alive afterwards.
use axterminator.Prelude.{
  ℕ, ◌+◌, ◌≡◌, refl, sym, ap, ◌∙◌, true, false, Option, none, some, List, [], ◌∷◌, arith, ◌==◌,
  if◌then◌else◌, min, map_option,
}
use axterminator.Prelude.Maps.{
  lookup, insert, map_values, lookup-insert, lookup-map_values, lookup-map_values_inv,
  Distinct-map_values, length-map_values,
}
use axterminator.Refs.{
  Platform, RefStore, ElementRef, ElementSnapshot, fingerprint_of, collect_live, refresh_entry,
  refresh, resolve, unix_ns, len,
}
use axterminator.Refs.Valid.{IsValid}

module _ (p : Platform) where
  -- The last snapshot of the tree with the given fingerprint, or the default.
  abbrev pub last_with :
      ℕ → List (ElementSnapshot p) → Option (ElementSnapshot p) → Option (ElementSnapshot p)
  last_with fp [] d = d
  last_with fp (s ∷ ss) d = last_with fp ss (if fingerprint_of p s == fp then some s else d)

  lookup-collect_live :
      (fp : ℕ) (ss : List (ElementSnapshot p)) (live : List (ℕ × ElementSnapshot p))
      → lookup fp (collect_live p ss live) ≡ last_with fp ss (lookup fp live)
  unfolding collect_live
  lookup-collect_live fp [] live = refl
  lookup-collect_live fp (s ∷ ss) live =
      lookup-collect_live fp ss (insert (fingerprint_of p s) s live)
      ∙ ap (last_with fp ss) (lookup-insert (fingerprint_of p s) fp s live)

  -- The entry `e` after a refresh that found `snap` for it, or found nothing.
  abbrev pub Refreshed : ElementRef p → ℕ → Option (ElementSnapshot p) → ElementRef p → Type 0
  Refreshed e now (some snap) e' =
      (e'.alive ≡ true)
      × (e'.missed_refreshes ≡ 0)
      × (e'.last_seen_ns ≡ now)
      × (e'.bounds ≡ snap.bounds)
  Refreshed e now none e' =
      (e'.alive ≡ false)
      × (e'.missed_refreshes ≡ min (e.missed_refreshes + 1) 4294967295)
      × (e'.last_seen_ns ≡ e.last_seen_ns)
      × (e'.bounds ≡ e.bounds)

  entry_same :
      (live : List (ℕ × ElementSnapshot p)) (now : ℕ) (e : ElementRef p)
      → let e' = refresh_entry p live now e in
        (e'.id ≡ e.id)
        × (e'.fingerprint ≡ e.fingerprint)
        × (e'.label ≡ e.label)
        × (e'.role ≡ e.role)
  unfolding refresh_entry
  entry_same live now e = ground arith

  entry_Refreshed :
      (live : List (ℕ × ElementSnapshot p)) (now : ℕ) (e : ElementRef p)
      (o : Option (ElementSnapshot p))
      → lookup e.fingerprint live ≡ o
      → Refreshed e now o (refresh_entry p live now e)
  unfolding refresh_entry
  entry_Refreshed live now e none h = ground arith
  entry_Refreshed live now e (some snap) h = ground arith

  -- `refresh` keeps a valid store valid, and its size.
  pub refresh-IsValid :
      (current : List (ElementSnapshot p)) (clock : Option ℕ) (s : RefStore p)
      → IsValid p s
      → IsValid p (refresh p current clock s) × (len p (refresh p current clock s) ≡ len p s)
  unfolding refresh len
  refresh-IsValid current clock s v = (
    record {
      distinct = Distinct-map_values f s.refs v.distinct;
      distinct_index = v.distinct_index;
      started = v.started;
      keyed = λ k e h.
          let (o, at, eq) = old k e h in
          ap (λ (x : ElementRef p). x.id) (sym eq) ∙ (same o).0 ∙ v.keyed k o at;
      below = λ k e h. let (o, at, eq) = old k e h in v.below k o at;
      positive = λ k e h. let (o, at, eq) = old k e h in v.positive k o at;
      indexed = λ k e h.
          let (o, at, eq) = old k e h in
          ap (λ x. lookup x s.by_fingerprint)
            (ap (λ (x : ElementRef p). x.fingerprint) (sym eq) ∙ (same o).1)
          ∙ v.indexed k o at;
      found = λ fp k h.
          let (e, at, eq) = v.found fp k h in
          (f e, lookup-map_values f k s.refs ∙ ap (map_option f) at, (same e).1 ∙ eq);
    },
    length-map_values f s.refs,
  )
    where
      f : ElementRef p → ElementRef p
      f = refresh_entry p (collect_live p current []) (unix_ns clock)

      same :
          (e : ElementRef p)
          → ((f e).id ≡ e.id)
            × ((f e).fingerprint ≡ e.fingerprint)
            × ((f e).label ≡ e.label)
            × ((f e).role ≡ e.role)
      same e = entry_same (collect_live p current []) (unix_ns clock) e

      old :
          (k : ℕ) (e : ElementRef p)
          → lookup k (map_values f s.refs) ≡ some e
          → (o : ElementRef p) × (lookup k s.refs ≡ some o) × (f o ≡ e)
      old k e h = lookup-map_values_inv f k s.refs e h

  -- A refresh keeps every stored reference under its id, with its fingerprint. If a snapshot of the
  -- tree has the fingerprint, the reference is alive, with no missed refresh, seen now and at the
  -- bounds of the last such snapshot; otherwise it is dead, with one missed refresh more (up to
  -- 2^32 - 1), and its bounds and the time it was last seen stay.
  pub resolve-refresh :
      (current : List (ElementSnapshot p)) (clock : Option ℕ) (s : RefStore p) (id : ℕ)
      (e : ElementRef p)
      → resolve p id s ≡ some e
      → (e' : ElementRef p) × (resolve p id (refresh p current clock s) ≡ some e')
        × (e'.id ≡ e.id)
        × (e'.fingerprint ≡ e.fingerprint)
        × Refreshed e (unix_ns clock) (last_with e.fingerprint current none) e'
  unfolding refresh resolve
  resolve-refresh current clock s id e h = (
    f e,
    lookup-map_values f id s.refs ∙ ap (map_option f) h,
    same.0,
    same.1,
    entry_Refreshed live (unix_ns clock) e _ (
        lookup-collect_live e.fingerprint current []
        ∙ ap (last_with e.fingerprint current) lookup-nil),
  )
    where
      live : List (ℕ × ElementSnapshot p)
      live = collect_live p current []

      f : ElementRef p → ElementRef p
      f = refresh_entry p live (unix_ns clock)

      same :
          ((f e).id ≡ e.id)
          × ((f e).fingerprint ≡ e.fingerprint)
          × ((f e).label ≡ e.label)
          × ((f e).role ≡ e.role)
      same = entry_same live (unix_ns clock) e

      lookup-nil : lookup {V = ElementSnapshot p} e.fingerprint [] ≡ none
      lookup-nil = unfold lookup in refl
