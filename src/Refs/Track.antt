-- ===== src/Refs/Track.antt =====
-- src/persistent_refs.rs, `track`: what it returns, and what it leaves alone.
use axterminator.Prelude.{
  ℕ, ◌+◌, ◌^◌, ◌<◌, ◌≡◌, refl, sym, ◌≢◌, ◌⊎◌, inl, inr, true, Option, none, some, arith, ◌==◌,
  Option-cases, Bool-cases, subst,
}
use axterminator.Prelude.Maps.{lookup, insert, lookup-insert, Distinct-insert, length-insert}
use axterminator.Refs.{
  Platform, RefStore, ElementRef, ElementSnapshot, fingerprint_of, seen, track, track_new, tracked,
  resolve, resolve_by_fingerprint, unix_ns, len,
}
use axterminator.Refs.Valid.{IsValid}

module _ (p : Platform) where
  -- `track` on each of its two branches.
  track-known :
      (snap : ElementSnapshot p) (clock : Option ℕ) (s : RefStore p) (id : ℕ) (e : ElementRef p)
      → tracked p snap s ≡ some (id, e)
      → track p snap clock s ≡ (
        seen p snap.bounds (unix_ns clock) e,
        record s { refs = insert id (seen p snap.bounds (unix_ns clock) e) s.refs },
      )
  unfolding track
  track-known snap clock s id e h = ground arith

  track-fresh :
      (snap : ElementSnapshot p) (clock : Option ℕ) (s : RefStore p)
      → tracked p snap s ≡ none
      → track p snap clock s ≡ track_new p snap (unix_ns clock) s
  unfolding track
  track-fresh snap clock s h = ground arith

  -- What `tracked` finds is a stored reference with the fingerprint of the snapshot.
  tracked-some :
      (snap : ElementSnapshot p) (s : RefStore p) (id : ℕ) (e : ElementRef p)
      → tracked p snap s ≡ some (id, e)
      → (lookup (fingerprint_of p snap) s.by_fingerprint ≡ some id) × (lookup id s.refs ≡ some e)
  unfolding tracked
  tracked-some snap s id e h = ground arith

  tracked-none :
      (snap : ElementSnapshot p) (s : RefStore p)
      → IsValid p s
      → tracked p snap s ≡ none
      → lookup (fingerprint_of p snap) s.by_fingerprint ≡ none
  unfolding tracked
  tracked-none snap s v h = grind (arith, v.found)

  -- What holds after `track`: the result is stored under its id and is found again by its
  -- fingerprint; it is alive, at the bounds of the snapshot; no other reference changes.
  pub record Tracked (snap : ElementSnapshot p) (s : RefStore p) (e' : ElementRef p)
      (s' : RefStore p) : Type 0 where
    pub valid : IsValid p s'
    pub stored : resolve p e'.id s' ≡ some e'
    pub refound : resolve_by_fingerprint p (fingerprint_of p snap) s' ≡ some e'
    pub alive : e'.alive ≡ true
    pub present : e'.missed_refreshes ≡ 0
    pub placed : e'.bounds ≡ snap.bounds
    pub marked : e'.fingerprint ≡ fingerprint_of p snap
    pub others : (j : ℕ) → j ≢ e'.id → resolve p j s' ≡ resolve p j s
    pub identity :
        ((e : ElementRef p) × (resolve_by_fingerprint p (fingerprint_of p snap) s ≡ some e)
          × (e'.id ≡ e.id)
          × (len p s' ≡ len p s)
          × (s'.next_id ≡ s.next_id))
        ⊎ ((resolve_by_fingerprint p (fingerprint_of p snap) s ≡ none)
            × (e'.id ≡ s.next_id)
            × (resolve p e'.id s ≡ none)
            × (len p s' ≡ len p s + 1)
            × (s'.next_id ≡ s.next_id + 1))

  module _ (snap : ElementSnapshot p) (now : ℕ) (s : RefStore p) (v : IsValid p s) where
    -- The reference with the same fingerprint is updated in place.
    Tracked-known :
        (id : ℕ) (e : ElementRef p)
        → lookup (fingerprint_of p snap) s.by_fingerprint ≡ some id
        → lookup id s.refs ≡ some e
        → Tracked snap s
            (seen p snap.bounds now e)
            (record s { refs = insert id (seen p snap.bounds now e) s.refs })
    unfolding seen resolve resolve_by_fingerprint len
    Tracked-known id e h k = record {
      valid = record {
        distinct = Distinct-insert id _ s.refs v.distinct;
        distinct_index = v.distinct_index;
        started = v.started;
        keyed = λ j f q. ground (arith, lookup-insert id j e' s.refs, v.keyed j f, v.keyed id e k);
        below = λ j f q. ground (arith, lookup-insert id j e' s.refs, v.below j f, v.below id e k);
        positive = λ j f q.
            ground (arith, lookup-insert id j e' s.refs, v.positive j f, v.positive id e k);
        indexed =
            λ j f q. ground (arith, lookup-insert id j e' s.refs, v.indexed j f, v.indexed id e k);
        found = λ fp j q. elim (Bool-cases (id == j)) [
          | inl same ↦
              (e', ground (arith, lookup-insert id j e' s.refs), ground (arith, v.found fp j q))
          | inr other ↦
              let (f, at, f_fp) = v.found fp j q in
              (f, ground (arith, lookup-insert id j e' s.refs), f_fp)
        ];
      };
      stored = ground (arith, lookup-insert id e.id e' s.refs, v.keyed id e k);
      refound = ground (arith, lookup-insert id id e' s.refs);
      alive = refl;
      present = refl;
      placed = refl;
      marked = ground (arith, v.found (fingerprint_of p snap) id h);
      others = λ j ne. ground (arith, lookup-insert id j e' s.refs, v.keyed id e k);
      identity = inl (e, ground arith, refl, ground (arith, length-insert id e' s.refs), refl);
    }
      where
        e' : ElementRef p
        e' = seen p snap.bounds now e

    -- A new element gets the next id, which no reference has.
    Tracked-fresh :
        s.next_id + 1 < 2 ^ 64
        → lookup (fingerprint_of p snap) s.by_fingerprint ≡ none
        → Tracked snap s (track_new p snap now s).0 (track_new p snap now s).1
    unfolding track_new resolve resolve_by_fingerprint len
    Tracked-fresh room h = record {
      valid = record {
        distinct = Distinct-insert n _ s.refs v.distinct;
        distinct_index = Distinct-insert fp n s.by_fingerprint v.distinct_index;
        started = omega arith;
        keyed = λ j f q. ground (arith, lookup-insert n j e' s.refs, v.keyed j f);
        below = λ j f q. ground (arith, lookup-insert n j e' s.refs, v.below j f);
        positive = λ j f q. ground (arith, lookup-insert n j e' s.refs, v.positive j f, v.started);
        indexed = λ j f q. ground (
          arith,
          lookup-insert n j e' s.refs,
          v.indexed j f,
          v.below j f,
          lookup-insert fp f.fingerprint n s.by_fingerprint,
        );
        found = λ g j q. elim (Bool-cases (fp == g)) [
          | inl same ↦ (
            e',
            ground (arith, lookup-insert n j e' s.refs, lookup-insert fp g n s.by_fingerprint),
            ground (arith, lookup-insert fp g n s.by_fingerprint),
          )
          | inr other ↦
              let old : lookup g s.by_fingerprint ≡ some j =
                ground (arith, lookup-insert fp g n s.by_fingerprint) in
              let (f, at, f_fp) = v.found g j old in
              (f, ground (arith, lookup-insert n j e' s.refs, v.below j f at), f_fp)
        ];
      };
      stored = ground (arith, lookup-insert n n e' s.refs);
      refound = ground (arith, lookup-insert n n e' s.refs, lookup-insert fp fp n s.by_fingerprint);
      alive = refl;
      present = refl;
      placed = refl;
      marked = refl;
      others = λ j ne. ground (arith, lookup-insert n j e' s.refs);
      identity = inr (
        ground arith,
        refl,
        unused,
        ground (arith, length-insert n e' s.refs, unused),
        omega arith,
      );
    }
      where
        n : ℕ
        n = s.next_id

        fp : ℕ
        fp = fingerprint_of p snap

        e' : ElementRef p
        e' = (track_new p snap now s).0

        unused : lookup n s.refs ≡ none
        unused = elim (Option-cases (lookup n s.refs)) [
          | inl q ↦ q
          | inr (f, q) ↦ absurd (omega (arith, v.below n f q))
        ]

  -- `track` on a valid store whose ids are not used up, by both branches: the store stays valid,
  -- the result is stored under its id and is what its fingerprint resolves to; it is alive, with no
  -- missed refresh, at the bounds of the snapshot; no other id changes. If the fingerprint was
  -- known, the reference keeps its id and the store its size; otherwise the id is the next one,
  -- which no reference had, and the store grows by one.
  pub track-Tracked :
      (snap : ElementSnapshot p) (clock : Option ℕ) (s : RefStore p)
      → IsValid p s
      → s.next_id + 1 < 2 ^ 64
      → let (e', s') = track p snap clock s in Tracked snap s e' s'
  track-Tracked snap clock s v room = elim (Option-cases (tracked p snap s)) [
    | inl none_yet ↦
        subst (λ q. Tracked snap s q.0 q.1) (sym (track-fresh snap clock s none_yet))
          (Tracked-fresh snap (unix_ns clock) s v room (tracked-none snap s v none_yet))
    | inr ((id, e), known) ↦
        let (h, k) = tracked-some snap s id e known in
        subst (λ q. Tracked snap s q.0 q.1) (sym (track-known snap clock s id e known))
          (Tracked-known snap (unix_ns clock) s v id e h k)
  ]
