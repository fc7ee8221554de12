-- ===== src/Instructions/Maximum.antt =====
-- src/instruction_sources.rs, `max_by_key`: the last item with the greatest key among those that a
-- filter keeps.
use axterminator.Prelude.{
  ℕ, ◌≤◌, ◌<◌, ◌≡◌, refl, sym, ap, subst, Bool, true, false, ◌&&◌, Option, none, some, List, [],
  ◌∷◌, ◌++◌, All, All-append, if◌then◌else◌, ltb, arith, keep, Bool-cases, inl, inr,
}
use axterminator.Instructions.{max_by_key}

pub All-map {ℓ κ κ'} :
    {A : Type ℓ} (P : A → Type κ) (Q : A → Type κ')
    → ((x : A) → P x → Q x)
    → (xs : List A) → All P xs
    → All Q xs
All-map P Q f [] h = tt
All-map P Q f (x ∷ xs) h = (f x h.0, All-map P Q f xs h.1)

module _ {A : Type 0} (key : A → ℕ) (p : A → Bool) where
  -- Of the items that pass the test, this one has the greatest key, and is the last with it.
  pub record IsLastMax (xs : List A) (m : A) : Type 0 where
    pub before : List A
    pub after : List A
    pub split : xs ≡ before ++ (m ∷ after)
    pub own : p m ≡ true
    pub earlier : All (λ x. p x ≡ true → key x ≤ key m) before
    pub later : All (λ x. p x ≡ true → key x < key m) after

  abbrev pub Maximal : List A → Option A → Type 0
  Maximal xs none = All (λ x. p x ≡ false) xs
  Maximal xs (some m) = IsLastMax xs m

  abbrev Below : A → A → Type 0
  Below m x = p x ≡ true → key x < key m

  -- All items are below one that is above the maximum.
  dominated : (x m : A) (xs : List A) → IsLastMax xs m → key m < key x → All (Below x) xs
  dominated x m xs i h = subst (All (Below x)) (sym i.split) (
      All-append (Below x) i.before (m ∷ i.after)
        (All-map (λ y. p y ≡ true → key y ≤ key m) (Below x)
          (λ y f q. let l : key y ≤ key m = f q in omega (arith, l, h)) i.before i.earlier)
        (
          (λ q. h),
          All-map (Below m) (Below x) (λ y f q. let l : key y < key m = f q in omega (arith, l, h))
              i.after i.later,
        ))

  skip : (x : A) (xs : List A) (o : Option A) → p x ≡ false → Maximal xs o → Maximal (x ∷ xs) o
  skip x xs none e i = (e, i)
  skip x xs (some m) e i = record {
    before = x ∷ i.before;
    after = i.after;
    split = ap (◌∷◌ x) i.split;
    own = i.own;
    earlier = ((λ q. absurd (ground (arith, e, q))), i.earlier);
    later = i.later;
  }

  choose :
      (x : A) (xs : List A) (o : Option A)
      → p x ≡ true
      → Maximal xs o
      → Maximal
          (x ∷ xs)
          (elim o [ none ↦ some x | some m ↦ if ltb (key m) (key x) then some x else some m ])
  choose x xs none e i = record {
    before = [];
    after = xs;
    split = refl;
    own = e;
    earlier = tt;
    later = All-map (λ y. p y ≡ false) (Below x) (λ y f q. absurd (ground (arith, f, q))) xs i;
  }
  choose x xs (some m) e i = elim (Bool-cases (ltb (key m) (key x))) [
    | inl h ↦ rw h (record {
      before = [];
      after = xs;
      split = refl;
      own = e;
      earlier = tt;
      later = dominated x m xs i (ground (arith, h));
    })
    | inr h ↦ rw h (record {
      before = x ∷ i.before;
      after = i.after;
      split = ap (◌∷◌ x) i.split;
      own = i.own;
      earlier = ((λ q. ground (arith, h)), i.earlier);
      later = i.later;
    })
  ]

  pub max_by_key-Maximal : (xs : List A) → Maximal xs (max_by_key key (keep p xs))
  unfolding max_by_key
  max_by_key-Maximal [] = tt
  max_by_key-Maximal (x ∷ xs) = elim (Bool-cases (p x)) [
    | inl e ↦
        subst (λ l. Maximal (x ∷ xs) (max_by_key key l))
          (sym (ap (λ b. if b then x ∷ keep p xs else keep p xs) e))
          (choose x xs (max_by_key key (keep p xs)) e (max_by_key-Maximal xs))
    | inr e ↦
        subst (λ l. Maximal (x ∷ xs) (max_by_key key l))
          (sym (ap (λ b. if b then x ∷ keep p xs else keep p xs) e))
          (skip x xs (max_by_key key (keep p xs)) e (max_by_key-Maximal xs))
  ]

pub keep-keep :
    {A : Type 0} (p q r : A → Bool) (xs : List A)
    → keep r (keep q (keep p xs)) ≡ keep (λ x. p x && (q x && r x)) xs
keep-keep p q r [] = refl
keep-keep p q r (x ∷ xs) = ground (arith, keep-keep p q r xs)
