-- ===== src/Refs/Gc.antt =====
-- src/persistent_refs.rs, `gc`: which references it removes.
use axterminator.Prelude.{
  ℕ, ◌+◌, ◌≡◌, refl, ap, subst, ◌∙◌, Bool, false, ◌||◌, Option, none, some, List, [], ◌∷◌, arith,
  ◌==◌, if◌then◌else◌, Option-cases, inl, inr, length, min,
}
use axterminator.Prelude.Maps.{
  lookup, remove, values, lookup-remove, remove_absent, Distinct, Distinct-remove,
}
use axterminator.Refs.{
  Platform, RefStore, ElementRef, ElementSnapshot, is_stale, stale_ids, remove_ref, remove_refs, gc,
  refresh, resolve, len, unix_ns,
}
use axterminator.Refs.Valid.{IsValid}
use axterminator.Refs.Refresh.{last_with, Refreshed, refresh-IsValid, resolve-refresh}

abbrev member : ℕ → List ℕ → Bool
member k [] = false
member k (j ∷ js) = j == k || member k js

module _ (p : Platform) where
  -- Removing one reference keeps the store valid, and touches no other.
  remove_ref-IsValid : (id : ℕ) (s : RefStore p) → IsValid p s → IsValid p (remove_ref p id s)
  unfolding remove_ref
  remove_ref-IsValid id s v = elim (Option-cases (lookup id s.refs)) [
    | inl e ↦ rw (e, remove_ref) v
    | inr (r, e) ↦
        rw (e, remove_ref)
          (record {
            distinct = Distinct-remove id s.refs v.distinct;
            distinct_index = Distinct-remove r.fingerprint s.by_fingerprint v.distinct_index;
            started = v.started;
            keyed = λ k f h. ground (arith, lookup-remove id k s.refs, v.keyed k f);
            below = λ k f h. ground (arith, lookup-remove id k s.refs, v.below k f);
            positive = λ k f h. ground (arith, lookup-remove id k s.refs, v.positive k f);
            indexed = λ k f h. ground (
              arith,
              lookup-remove id k s.refs,
              v.indexed k f,
              v.indexed id r e,
              lookup-remove r.fingerprint f.fingerprint s.by_fingerprint,
            );
            found = λ fp k h.
                let (f, at, eq) =
                  v.found fp k (ground (arith, lookup-remove r.fingerprint fp s.by_fingerprint)) in
                (
                  f,
                  ground (
                    arith,
                    lookup-remove id k s.refs,
                    lookup-remove r.fingerprint fp s.by_fingerprint,
                  ),
                  eq,
                );
          })
  ]

  lookup-remove_ref :
      (id k : ℕ) (s : RefStore p)
      → lookup k (remove_ref p id s).refs ≡ (if id == k then none else lookup k s.refs)
  unfolding remove_ref
  lookup-remove_ref id k s = ground (arith, lookup-remove id k s.refs)

  remove_refs-IsValid :
      (ids : List ℕ) (s : RefStore p) → IsValid p s → IsValid p (remove_refs p ids s)
  unfolding remove_refs
  remove_refs-IsValid [] s v = v
  remove_refs-IsValid (id ∷ ids) s v =
      remove_refs-IsValid ids (remove_ref p id s) (remove_ref-IsValid id s v)

  lookup-remove_refs :
      (ids : List ℕ) (k : ℕ) (s : RefStore p)
      → lookup k (remove_refs p ids s).refs ≡ (if member k ids then none else lookup k s.refs)
  unfolding remove_refs
  lookup-remove_refs [] k s = refl
  lookup-remove_refs (id ∷ ids) k s =
      ground (arith, lookup-remove_refs ids k (remove_ref p id s), lookup-remove_ref id k s)

  abbrev stale_at : Option (ElementRef p) → Bool
  stale_at none = false
  stale_at (some e) = is_stale p e

  -- Where each entry stands under its own id, the stale ids are the keys of the stale entries.
  member-stale_ids :
      (m : List (ℕ × ElementRef p)) (k : ℕ)
      → Distinct m
      → ((j : ℕ) (e : ElementRef p) → lookup j m ≡ some e → e.id ≡ j)
      → member k (stale_ids p m) ≡ stale_at (lookup k m)
  unfolding stale_ids values lookup
  member-stale_ids [] k d keyed = refl
  member-stale_ids ((j, w) ∷ m) k d keyed =
      let rest : member k (stale_ids p m) ≡ stale_at (lookup k m) =
        member-stale_ids m k d.1 (λ i e h. keyed i e (ground (arith, d))) in
      ground (arith, rest, keyed j w, d)

  -- The removals of `gc` on the map alone.
  remove_all : List ℕ → List (ℕ × ElementRef p) → List (ℕ × ElementRef p)
  remove_all [] m = m
  remove_all (id ∷ ids) m = remove_all ids (remove id m)

  refs-remove_refs :
      (ids : List ℕ) (s : RefStore p) → (remove_refs p ids s).refs ≡ remove_all ids s.refs
  unfolding remove_refs remove_all remove_ref
  refs-remove_refs [] s = refl
  refs-remove_refs (id ∷ ids) s =
      refs-remove_refs ids (remove_ref p id s)
      ∙ ap (remove_all ids) (ground (arith, remove_absent id s.refs))

  remove_all-nil : (ids : List ℕ) → remove_all ids [] ≡ []
  unfolding remove_all remove
  remove_all-nil [] = refl
  remove_all-nil (id ∷ ids) = remove_all-nil ids

  remove_all-cons :
      (ids : List ℕ) (j : ℕ) (w : ElementRef p) (m : List (ℕ × ElementRef p))
      → remove_all ids ((j, w) ∷ m)
        ≡ (if member j ids then remove_all ids m else (j, w) ∷ remove_all ids m)
  unfolding remove_all remove
  remove_all-cons [] j w m = refl
  remove_all-cons (id ∷ ids) j w m = ground (arith, remove_all-cons ids j w (remove id m))

  abbrev Agree : List ℕ → List (ℕ × ElementRef p) → Type 0
  Agree ids [] = Unit
  Agree ids ((j, w) ∷ m) = (member j ids ≡ is_stale p w) × Agree ids m

  Agree-of_lookup :
      (ids : List ℕ) (m : List (ℕ × ElementRef p))
      → Distinct m
      → ((j : ℕ) (e : ElementRef p) → lookup j m ≡ some e → member j ids ≡ is_stale p e)
      → Agree ids m
  unfolding lookup
  Agree-of_lookup ids [] d h = tt
  Agree-of_lookup ids ((j, w) ∷ m) d h =
      (h j w (ground arith), Agree-of_lookup ids m d.1 (λ i e q. h i e (ground (arith, d))))

  length-remove_all :
      (ids : List ℕ) (m : List (ℕ × ElementRef p))
      → Agree ids m
      → length (remove_all ids m) + length (stale_ids p m) ≡ length m
  unfolding stale_ids values
  length-remove_all ids [] a = omega (arith, ap length (remove_all-nil ids))
  length-remove_all ids ((j, w) ∷ m) a =
      ground (arith, length-remove_all ids m a.1, remove_all-cons ids j w m, a)

  -- What a collection that returns `n` makes of the store.
  pub record Collected (s : RefStore p) (n : ℕ) (s' : RefStore p) : Type 0 where
    pub valid : IsValid p s'
    pub exact :
        (id : ℕ) → resolve p id s' ≡ (if stale_at (resolve p id s) then none else resolve p id s)
    pub counted : len p s' + n ≡ len p s
    pub ids_kept : s'.next_id ≡ s.next_id

  next_id-remove_refs : (ids : List ℕ) (s : RefStore p) → (remove_refs p ids s).next_id ≡ s.next_id
  unfolding remove_refs remove_ref
  next_id-remove_refs [] s = refl
  next_id-remove_refs (id ∷ ids) s = next_id-remove_refs ids (remove_ref p id s) ∙ ground arith

  -- `gc` on a valid store removes exactly the references missed by three refreshes or more, keeps
  -- every other as it is, returns the number of those removed, and leaves the store valid.
  pub gc-Collected : (s : RefStore p) → IsValid p s → let (n, s') = gc p s in Collected s n s'
  unfolding gc resolve len
  gc-Collected s v = record {
    valid = remove_refs-IsValid ids s v;
    exact = λ id.
        ground (arith, lookup-remove_refs ids id s, member-stale_ids s.refs id v.distinct v.keyed);
    counted =
        ap (λ m. length m + length ids) (refs-remove_refs ids s)
        ∙ length-remove_all ids s.refs (
            Agree-of_lookup ids s.refs v.distinct
              (λ j e h. member-stale_ids s.refs j v.distinct v.keyed ∙ ap stale_at h));
    ids_kept = next_id-remove_refs ids s;
  }
    where
      ids : List ℕ
      ids = stale_ids p s.refs

  -- The tree has no element with the fingerprint.
  abbrev pub IsAbsent : ℕ → List (ElementSnapshot p) → Type 0
  IsAbsent fp current = last_with p fp current none ≡ none

  -- A refresh that does not find an element counts one more miss.
  missed :
      (current : List (ElementSnapshot p)) (clock : Option ℕ) (s : RefStore p) (id : ℕ)
      (e : ElementRef p)
      → resolve p id s ≡ some e
      → IsAbsent e.fingerprint current
      → (e' : ElementRef p) × (resolve p id (refresh p current clock s) ≡ some e')
        × (e'.fingerprint ≡ e.fingerprint)
        × (e'.alive ≡ false)
        × (e'.missed_refreshes ≡ min (e.missed_refreshes + 1) 4294967295)
  missed current clock s id e h absent =
      let (e', at, id_eq, fp_eq, r) = resolve-refresh p current clock s id e h in
      let r' = subst (λ o. Refreshed p e (unix_ns clock) o e') absent r in
      (e', at, fp_eq, r'.0, r'.1)

  -- A reference of a valid store that no refresh has missed, and whose fingerprint is then absent from
  -- three trees in a row, is dead but kept by a collection after the second refresh, and removed
  -- by a collection after the third.
  pub gc-absent :
      (s : RefStore p) (id : ℕ) (e : ElementRef p) (c1 c2 c3 : List (ElementSnapshot p))
      (t1 t2 t3 : Option ℕ)
      → IsValid p s
      → resolve p id s ≡ some e
      → e.missed_refreshes ≡ 0
      → IsAbsent e.fingerprint c1
      → IsAbsent e.fingerprint c2
      → IsAbsent e.fingerprint c3
      → let s2 = refresh p c2 t2 (refresh p c1 t1 s) in
        ((x : ElementRef p) × (resolve p id (gc p s2).1 ≡ some x) × (x.alive ≡ false))
        × (resolve p id (gc p (refresh p c3 t3 s2)).1 ≡ none)
  gc-absent s id e c1 c2 c3 t1 t2 t3 v h z a1 a2 a3 =
      let (e1, at1, fp1, dead1, m1) = missed c1 t1 s id e h a1 in
      let v1 = (refresh-IsValid p c1 t1 s v).0 in
      let (e2, at2, fp2, dead2, m2) = missed c2 t2 (refresh p c1 t1 s) id e1 at1 (rw fp1 a2) in
      let v2 = (refresh-IsValid p c2 t2 (refresh p c1 t1 s) v1).0 in
      let (e3, at3, fp3, dead3, m3) =
        missed c3 t3 (refresh p c2 t2 (refresh p c1 t1 s)) id e2 at2 (rw (fp2, fp1) a3) in
      let v3 = (refresh-IsValid p c3 t3 (refresh p c2 t2 (refresh p c1 t1 s)) v2).0 in
      let g2 = (gc-Collected (refresh p c2 t2 (refresh p c1 t1 s)) v2).exact id in
      let g3 = (gc-Collected (refresh p c3 t3 (refresh p c2 t2 (refresh p c1 t1 s))) v3).exact id in
      ((e2, ground arith, dead2), ground arith)
