-- ===== src/CrossApp/Frequent.antt =====
-- src/cross_app.rs, `detect_workflows`: which sequences it reports.
use axterminator.Prelude.{
  ℕ, zero, suc, ◌+◌, ◌-◌, ◌^◌, ◌<◌, ◌≤◌, min, ◌≡◌, refl, sym, ap, ap₂, subst, ◌∙◌, ◌↔◌, String,
  Bool, true, false, ◌&&◌, ◌||◌, List, [], ◌∷◌, ◌++◌, length, length-map, All, All-append, leb, ltb,
  ◌==◌, arith,
}
use axterminator.CrossApp.{CrossAppTracker, AppTransition, full_app_chain}
use axterminator.CrossApp.Detect.{
  DetectedWorkflow, names_eq, any, windows, sort_by, count_subsequences, is_subsequence_of_existing,
  candidate_before, more_frequent, build_workflow, consider, consider_all, scan, detect_workflows,
}
use axterminator.CrossApp.Windows.{
  occurrences, names_eq-length, windows_short, windows_whole, times_other, times_short,
  length-windows, times-length, Sized, Sized-candidates,
}
use axterminator.CrossApp.Counts.{names_eq_iff, times, hits, any-count_subsequences, any-sort_by}

-- A reported workflow has the sequence.
abbrev pub reported : List String → List DetectedWorkflow → Bool
reported q = any (λ (wf : DetectedWorkflow). names_eq wf.apps q)

any-append :
    (p : DetectedWorkflow → Bool) (xs ys : List DetectedWorkflow)
    → any p (xs ++ ys) ≡ (any p xs || any p ys)
any-append p [] ys = refl
any-append p (x ∷ xs) ys = ground (arith, any-append p xs ys)

-- No workflow is longer than the window.
abbrev Short : ℕ → List DetectedWorkflow → Type 0
Short w = All (λ (wf : DetectedWorkflow). length wf.apps ≤ w)

-- The guard against longer workflows compares for equality: no reported workflow is longer than a
-- candidate.
guard-reported :
    (q : List String) (results : List DetectedWorkflow)
    → 1 ≤ length q
    → Short (length q) results
    → is_subsequence_of_existing q results ≡ reported q results
unfolding is_subsequence_of_existing
guard-reported q [] p s = refl
guard-reported q (wf ∷ results) p (l, s) =
    ap₂ ◌||◌ (one wf.apps l (ltb (length wf.apps) (length q)) refl) (guard-reported q results p s)
  where
    one :
        (apps : List String)
        → length apps ≤ length q
        → (b : Bool) → ltb (length apps) (length q) ≡ b
        → any (λ w. names_eq w q) (windows (length q) apps) ≡ names_eq apps q
    one apps l true e = ground (arith, e, windows_short (length q) apps, names_eq-length apps q)
    one [] l false e = absurd (ground (arith, e, p))
    one (x ∷ apps) l false e =
        let same : length q ≡ length (x ∷ apps) = ground (arith, e, l) in
        ap (λ n. any (λ w. names_eq w q) (windows n (x ∷ apps))) same
        ∙ ap (any (λ w. names_eq w q)) (windows_whole x apps)
        ∙ last (names_eq (x ∷ apps) q)
      where
        last : (b : Bool) → (b || false) ≡ b
        last b = ground arith

length-full_app_chain :
    (t : CrossAppTracker) → length (full_app_chain t) ≤ suc (length t.transitions)
unfolding full_app_chain
length-full_app_chain t = split t.transitions refl
  where
    split :
        (ts : List AppTransition)
        → t.transitions ≡ ts
        → length (full_app_chain t) ≤ suc (length t.transitions)
    split [] e = rw e (omega arith)
    split (first ∷ ts) e = rw e (omega (arith, length-map (λ (t : AppTransition). t.to_app) ts))

module _ (t : CrossAppTracker) (least : ℕ) where
  abbrev chain : List String
  chain = full_app_chain t

  consider-reported :
      (q : List String) (c : List String × ℕ) (results : List DetectedWorkflow)
      → 1 ≤ length c.0
      → Short (length c.0) results
      → reported q (consider t least c results) ≡ (reported q results || hits least q c)
  unfolding consider build_workflow
  consider-reported q (seq, freq) results p s = ground (
    arith,
    guard-reported seq results p s,
    any-append (λ (wf : DetectedWorkflow). names_eq wf.apps q) results
        (build_workflow t seq freq ∷ []),
    same,
  )
    where
      same : names_eq seq q ≡ true → reported seq results ≡ reported q results
      same e = ap (λ r. reported r results) ((names_eq_iff seq q).0 e)

  consider-Short :
      (w : ℕ) (c : List String × ℕ) (results : List DetectedWorkflow)
      → length c.0 ≡ w
      → Short w results
      → Short w (consider t least c results)
  unfolding consider build_workflow
  consider-Short w (seq, freq) results l s =
      split (ltb freq least) (is_subsequence_of_existing seq results) refl refl
    where
      split :
          (a b : Bool)
          → ltb freq least ≡ a
          → is_subsequence_of_existing seq results ≡ b
          → Short w (consider t least (seq, freq) results)
      split true b e f = rw e s
      split false true e f = rw (e, f) s
      split false false e f =
          rw (e, f)
            (All-append (λ (wf : DetectedWorkflow). length wf.apps ≤ w) results
              (build_workflow t seq freq ∷ []) s (omega (arith, l), tt))

  consider_all-reported :
      (q : List String) (w : ℕ) (cs : List (List String × ℕ)) (results : List DetectedWorkflow)
      → 1 ≤ w
      → Sized w cs
      → Short w results
      → (reported q (consider_all t least cs results)
          ≡ (reported q results || any (hits least q) cs))
        × Short w (consider_all t least cs results)
  unfolding consider_all
  consider_all-reported q w [] results p z s = (ground arith, s)
  consider_all-reported q w (c ∷ cs) results p (l, z) s =
      let now =
        consider-reported q c results (omega (arith, l, p))
          (subst (λ n. Short n results) (sym l) s) in
      let (e, s') =
        consider_all-reported q w cs (consider t least c results) p z
          (consider-Short w c results l s) in
      (ground (arith, e, now), s')

  -- The sequence is a window of this length that occurs often enough.
  abbrev found : List String → ℕ → Bool
  found q w = leb 1 (times q (windows w chain)) && leb least (times q (windows w chain))

  abbrev found_from : List String → ℕ → ℕ → Bool
  found_from q zero w = false
  found_from q (suc n) w = found q w || found_from q n (suc w)

  Short-suc : (w : ℕ) (results : List DetectedWorkflow) → Short w results → Short (suc w) results
  Short-suc w [] s = tt
  Short-suc w (wf ∷ results) (l, s) = (omega arith, Short-suc w results s)

  scan-reported :
      (q : List String) (n w : ℕ) (results : List DetectedWorkflow)
      → length chain < 2 ^ 32
      → 1 ≤ w
      → Short w results
      → reported q (scan t least n w results) ≡ (reported q results || found_from q n w)
  unfolding scan
  scan-reported q zero w results h p s = ground arith
  scan-reported q (suc n) w results h p s =
      let cs = sort_by candidate_before (count_subsequences chain w) in
      let (e, s') = consider_all-reported q w cs results p (Sized-candidates w chain) s in
      let now : any (hits least q) cs ≡ found q w =
        any-sort_by (hits least q) candidate_before (count_subsequences chain w)
        ∙ any-count_subsequences least q chain w
            (omega (arith, h, times-length q (windows w chain), length-windows w chain)) in
      ground (
        arith,
        scan-reported q n (suc w) (consider_all t least cs results) h (omega arith)
            (Short-suc w _ s'),
        e,
        now,
      )

  found_from-occurrences :
      (q : List String) (n w : ℕ)
      → found_from q n w ≡ (
          leb w (length q)
          && ltb (length q) (w + n)
          && leb 1 (occurrences q chain)
          && leb least (occurrences q chain))
  found_from-occurrences q zero w = ground arith
  found_from-occurrences q (suc n) w =
      split (length q == w) refl (found_from-occurrences q n (suc w))
    where
      split :
          (b : Bool)
          → (length q == w) ≡ b
          → found_from q n (suc w) ≡ (
              leb (suc w) (length q)
              && ltb (length q) (suc w + n)
              && leb 1 (occurrences q chain)
              && leb least (occurrences q chain))
          → found_from q (suc n) w ≡ (
              leb w (length q)
              && ltb (length q) (w + suc n)
              && leb 1 (occurrences q chain)
              && leb least (occurrences q chain))
      split false e r = ground (arith, e, r, times_other q w chain)
      split true e r =
          let here : times q (windows w chain) ≡ occurrences q chain =
            ap (λ m. times q (windows m chain)) (ground (arith, e)) in
          ground (arith, e, r, here)

  detect_workflows-reported :
      (q : List String)
      → length chain < 2 ^ 32
      → reported q (detect_workflows t least) ≡ (
          leb 3 (length q)
          && leb (length q) 6
          && leb 1 (occurrences q chain)
          && leb least (occurrences q chain))
  unfolding detect_workflows
  detect_workflows-reported q h = ground (
    arith,
    length-full_app_chain t,
    times_short q chain,
    any-sort_by (λ (wf : DetectedWorkflow). names_eq wf.apps q) more_frequent
        (scan t least (min (length chain) 6 - 2) 3 []),
    scan-reported q (min (length chain) 6 - 2) 3 [] h (omega arith) tt,
    found_from-occurrences q (min (length chain) 6 - 2) 3,
  )

  -- A sequence of names is that of a reported workflow exactly if it has 3 to 6 names and occurs in
  -- the chain of focused apps, and does so at least `min_frequency` times: the guard against longer
  -- workflows that repeat a shorter one leaves none out. The chain has fewer than 2^32 names.
  pub detect_workflows-occurrences :
      (q : List String)
      → length chain < 2 ^ 32
      → (reported q (detect_workflows t least) ≡ true) ↔ (
          (3 ≤ length q)
          × (length q ≤ 6)
          × (1 ≤ occurrences q chain)
          × (least ≤ occurrences q chain))
  detect_workflows-occurrences q h =
      let e = detect_workflows-reported q h in
      (λ k. ground (arith, e, k), λ k. ground (arith, e, k))
