-- ===== src/Upgrade/Stamp.antt =====
-- src/upgrade.rs, `check_upgrade`: what it answers, and what it leaves on the disk.
use axterminator.Prelude.{
  ℕ, ◌≡◌, refl, sym, subst, ◌∙◌, ◌⊎◌, inl, inr, Bool, true, false, List, Option, none, some, Result,
  ok, err, if◌then◌else◌, arith, trim,
}
use axterminator.Upgrade.{
  Disk, UpgradeError, UpgradeOptions, UpgradeOutcome, read_stamp, write_stamp, stamp_unless_dry,
  run_migrations, handle_fresh_install, handle_corrupt_stamp, handle_upgrade, handle_downgrade,
  compare_stamp, check_upgrade,
}
use axterminator.Upgrade.Version.{SemVer, parse, print, version_lt}
use axterminator.Upgrade.Verdict.{
  Older, Names, Verdict, version_lt-Older, version_lt-eq, read_stamp-Reads, read_stamp-none,
  read_stamp-err, unique_version, unnamed_version,
}

version_lt_irrefl : (v : SemVer) → version_lt v v ≡ false
unfolding version_lt
version_lt_irrefl v = ground arith

-- Whether an outcome comes with a new stamp.
abbrev pub stamps : UpgradeOutcome → Bool
stamps UpgradeOutcome.up_to_date = false
stamps (UpgradeOutcome.downgrade from to) = false
stamps _ = true

module _ (current : List ℕ) where
  -- After an outcome that comes with a new stamp: a dry run has left the disk, and otherwise the
  -- stamp is current, so that a later check finds nothing to do.
  abbrev pub Stamped : UpgradeOptions → Disk → Disk → Type 0
  Stamped opts d d' =
      ((opts.dry_run ≡ true) × (d' ≡ d))
      ⊎ ((opts.dry_run ≡ false)
          × (d' ≡ record d { stamp = some current })
          × ((later : UpgradeOptions)
              → d.readable ≡ true
              → check_upgrade current later d' ≡ (ok UpgradeOutcome.up_to_date, d')))

  -- After another outcome: the disk is as it was, and a later check comes to the same outcome.
  abbrev pub Repeats : UpgradeOutcome → Disk → Disk → Type 0
  Repeats o d d' = (d' ≡ d) × ((later : UpgradeOptions) → check_upgrade current later d ≡ (ok o, d))

  -- What a check has left of a disk. A write that fails is the only error that may change it.
  abbrev pub Leaves : UpgradeOptions → Disk → Result UpgradeOutcome UpgradeError → Disk → Type 0
  Leaves opts d (err UpgradeError.unwritable) d' =
      (left : Option (List ℕ)) × (d.failed_write ≡ some left) × (d' ≡ record d { stamp = left })
  Leaves opts d (err _) d' = d' ≡ d
  Leaves opts d (ok o) d' = if stamps o then Stamped opts d d' else Repeats o d d'

  module _ (v : SemVer) where
    abbrev pub Settled : UpgradeOptions → Disk → Result UpgradeOutcome UpgradeError × Disk → Type 0
    Settled opts d (r, d') =
        (((o : UpgradeOutcome) → r ≡ ok o → d.has_home ≡ true) × Verdict v opts d r)
        × Leaves opts d r d'

  module _ (v : SemVer) (no_space : trim current ≡ current) (parses : parse current ≡ some v) where
    read_stamp-current :
        (d : Disk) → d.readable ≡ true → d.stamp ≡ some current → read_stamp d ≡ ok (some current)
    unfolding read_stamp
    read_stamp-current d r s = rw (s, r, no_space) refl

    compare_stamp-same :
        (later : UpgradeOptions) (d : Disk)
        → compare_stamp v v current later d ≡ (ok UpgradeOutcome.up_to_date, d)
    unfolding compare_stamp
    compare_stamp-same later d = rw (version_lt_irrefl v) refl

    check_upgrade-read :
        (w : SemVer) (s : List ℕ) (opts : UpgradeOptions) (d : Disk)
        → d.has_home ≡ true
        → read_stamp d ≡ ok (some s)
        → parse s ≡ some w
        → check_upgrade current opts d ≡ compare_stamp w v current opts d
    unfolding check_upgrade
    check_upgrade-read w s opts d h r p = simp (h, parses, r, p)

    current_settles :
        (later : UpgradeOptions) (d : Disk)
        → d.has_home ≡ true
        → d.readable ≡ true
        → d.stamp ≡ some current
        → check_upgrade current later d ≡ (ok UpgradeOutcome.up_to_date, d)
    current_settles later d h r s =
        check_upgrade-read v current later d h (read_stamp-current d r s) parses
        ∙ compare_stamp-same later d

    stamp_unless_dry-Settled :
        (opts : UpgradeOptions) (o : UpgradeOutcome) (d : Disk)
        → d.has_home ≡ true
        → stamps o ≡ true
        → Verdict v opts d (ok o)
        → ((w : SemVer) → Names d w → Older w v)
        → Settled v opts d (stamp_unless_dry current opts o d)
    unfolding stamp_unless_dry write_stamp
    stamp_unless_dry-Settled opts o d h s verdict stale =
        split opts.dry_run d.failed_write refl refl
      where
        along :
            (q : Result UpgradeOutcome UpgradeError × Disk)
            → stamp_unless_dry current opts o d ≡ q
            → Settled v opts d q
            → Settled v opts d (stamp_unless_dry current opts o d)
        along q e x = subst (Settled v opts d) (sym e) x

        split :
            (b : Bool) (f : Option (Option (List ℕ)))
            → opts.dry_run ≡ b
            → d.failed_write ≡ f
            → Settled v opts d (stamp_unless_dry current opts o d)
        split true f e g =
            along (ok o, d) (ground (arith, e)) (((λ o' q. h), verdict), rw s (inl (e, refl)))
        split false (some left) e g =
            along (err UpgradeError.unwritable, record d { stamp = left }) (ground (arith, e, g))
              (((λ o' q. absurd (ground arith)), (e, ground (arith, g), stale)), (left, g, refl))
        split false none e g =
            along (ok o, record d { stamp = some current }) (ground (arith, e, g))
              (
                ((λ o' q. h), verdict),
                rw s (inr (e, refl, λ later r. current_settles later _ h r refl)),
              )

    compare_stamp-Settled :
        (w : SemVer) (s : List ℕ) (opts : UpgradeOptions) (d : Disk)
        → d.has_home ≡ true
        → read_stamp d ≡ ok (some s)
        → parse s ≡ some w
        → Settled v opts d (compare_stamp w v current opts d)
    unfolding compare_stamp handle_upgrade handle_downgrade run_migrations
    compare_stamp-Settled w s opts d h r p = split (version_lt w v) (version_lt v w) refl refl
      where
        along :
            (q : Result UpgradeOutcome UpgradeError × Disk)
            → compare_stamp w v current opts d ≡ q
            → Settled v opts d q
            → Settled v opts d (compare_stamp w v current opts d)
        along q e x = subst (Settled v opts d) (sym e) x

        named : Names d w
        named = (s, read_stamp-Reads d s r, p)

        again :
            (o : UpgradeOutcome)
            → ((later : UpgradeOptions) → compare_stamp w v current later d ≡ (ok o, d))
            → Repeats o d d
        again o e = (refl, λ later. check_upgrade-read w s later d h r p ∙ e later)

        split :
            (b c : Bool)
            → version_lt w v ≡ b
            → version_lt v w ≡ c
            → Settled v opts d (compare_stamp w v current opts d)
        split true c e f =
            let older : Older w v = version_lt-Older w v e in
            along (stamp_unless_dry current opts (UpgradeOutcome.upgraded (print w) (print v)) d)
              (rw e refl)
              (stamp_unless_dry-Settled opts (UpgradeOutcome.upgraded (print w) (print v)) d h refl
                (w, named, older, refl, refl)
                (λ w' n. subst (λ u. Older u v) (unique_version d s w w' named.1 p n) older))
        split false true e f =
            along (ok (UpgradeOutcome.downgrade (print w) (print v)), d) (rw (e, f) refl)
              (
                ((λ o' q. h), (w, named, version_lt-Older v w f, refl, refl)),
                again (UpgradeOutcome.downgrade (print w) (print v)) (λ later. rw (e, f) refl),
              )
        split false false e f =
            along (ok UpgradeOutcome.up_to_date, d) (rw (e, f) refl)
              (
                ((λ o' q. h), subst (Names d) (version_lt-eq w v e f) named),
                again UpgradeOutcome.up_to_date (λ later. rw (e, f) refl),
              )

    -- For a binary's version `current` that parses to `v` and has no blanks around it. The check
    -- succeeds only with a home directory. It is a fresh install if there is no stamp, a corrupt stamp
    -- if the stamp can be read but does not parse, up to date if the stamp names `v`, an upgrade or a
    -- downgrade, from the stamp's version and to `v`, if the stamp names an older or a newer version; it
    -- fails if there is no home directory, if there is a stamp that cannot be read, or, in no dry run
    -- and with a stamp that does not name `v` or a newer version, if the write fails. Up to date and
    -- downgrade leave the disk, and every later check of that disk comes to the same outcome; the three
    -- other outcomes leave it in a dry run, and otherwise write `current` to the stamp, so that every
    -- later check, if the stamp can be read, finds it up to date and leaves the disk. A failed
    -- write changes at most the stamp, and any other error leaves the disk.
    pub check_upgrade-Settled :
        (opts : UpgradeOptions) (d : Disk) → Settled v opts d (check_upgrade current opts d)
    unfolding check_upgrade handle_fresh_install handle_corrupt_stamp
    check_upgrade-Settled opts d = home d.has_home refl
      where
        along :
            (q : Result UpgradeOutcome UpgradeError × Disk)
            → check_upgrade current opts d ≡ q
            → Settled v opts d q
            → Settled v opts d (check_upgrade current opts d)
        along q e x = subst (Settled v opts d) (sym e) x

        parsed :
            (h : d.has_home ≡ true) (s : List ℕ)
            → read_stamp d ≡ ok (some s)
            → (p : Option SemVer) → parse s ≡ p
            → Settled v opts d (check_upgrade current opts d)
        parsed h s r none p =
            along (stamp_unless_dry current opts UpgradeOutcome.corrupt_stamp d)
              (simp (h, parses, r, p))
              (stamp_unless_dry-Settled opts UpgradeOutcome.corrupt_stamp d h refl
                (s, read_stamp-Reads d s r, p)
                (λ w n. absurd (unnamed_version d s w (read_stamp-Reads d s r) p n)))
        parsed h s r (some w) p =
            along (compare_stamp w v current opts d) (check_upgrade-read w s opts d h r p)
              (compare_stamp-Settled w s opts d h r p)

        read :
            (h : d.has_home ≡ true) (r : Result (Option (List ℕ)) UpgradeError)
            → read_stamp d ≡ r
            → Settled v opts d (check_upgrade current opts d)
        read h (err e) r =
            let (e_eq, there, shut) = read_stamp-err d e r in
            subst
              (λ e.
                check_upgrade current opts d ≡ (err e, d)
                → Settled v opts d (check_upgrade current opts d))
              (sym e_eq)
              (λ q.
                along (err UpgradeError.unreadable, d) q
                  (((λ o z. absurd (ground arith)), (there, shut)), refl))
              (simp (h, parses, r))
        read h (ok none) r =
            along (stamp_unless_dry current opts UpgradeOutcome.fresh_install d)
              (simp (h, parses, r))
              (stamp_unless_dry-Settled opts UpgradeOutcome.fresh_install d h refl
                (read_stamp-none d r) (λ w n. absurd (ground (arith, read_stamp-none d r, n.1.1))))
        read h (ok (some s)) r = parsed h s r (parse s) refl

        home : (b : Bool) → d.has_home ≡ b → Settled v opts d (check_upgrade current opts d)
        home false h =
            along (err UpgradeError.no_home, d) (simp h) (((λ o q. absurd (ground arith)), h), refl)
        home true h = read h (read_stamp d) refl
