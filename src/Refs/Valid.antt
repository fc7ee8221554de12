-- ===== src/Refs/Valid.antt =====
-- src/persistent_refs.rs: the invariant that ties the two maps of `RefStore` together.
use axterminator.Prelude.{ℕ, ◌<◌, ◌≡◌, some, arith}
use axterminator.Prelude.Maps.{lookup, Distinct}
use axterminator.Refs.{Platform, RefStore, ElementRef, store_new}

-- Both maps have one entry for a key; a reference stands under its own id, which is below the next
-- id and above 0; its fingerprint leads back to it; and every indexed fingerprint is that of a
-- stored reference.
pub record IsValid (p : Platform) (s : RefStore p) : Type 0 where
  pub distinct : Distinct s.refs
  pub distinct_index : Distinct s.by_fingerprint
  pub started : 0 < s.next_id
  pub keyed : (k : ℕ) (e : ElementRef p) → lookup k s.refs ≡ some e → e.id ≡ k
  pub below : (k : ℕ) (e : ElementRef p) → lookup k s.refs ≡ some e → k < s.next_id
  pub positive : (k : ℕ) (e : ElementRef p) → lookup k s.refs ≡ some e → 0 < k
  pub indexed :
      (k : ℕ) (e : ElementRef p)
      → lookup k s.refs ≡ some e
      → lookup e.fingerprint s.by_fingerprint ≡ some k
  pub found :
      (fp k : ℕ)
      → lookup fp s.by_fingerprint ≡ some k
      → (e : ElementRef p) × (lookup k s.refs ≡ some e) × (e.fingerprint ≡ fp)

pub store_new-IsValid : (p : Platform) → IsValid p (store_new p)
unfolding store_new lookup
store_new-IsValid p = record {
  distinct = tt;
  distinct_index = tt;
  started = omega arith;
  keyed = λ k e h. ground arith;
  below = λ k e h. ground arith;
  positive = λ k e h. ground arith;
  indexed = λ k e h. ground arith;
  found = λ fp k h. absurd (ground arith);
}
