-- ===== src/Upgrade/Verdict.antt =====
-- src/upgrade.rs, `check_upgrade`: what the stamp on a disk says of a binary's version.
use axterminator.Prelude.{
  ℕ, ◌<◌, ◌≡◌, ◌≢◌, refl, sym, ap, ◌∙◌, ◌⊎◌, Bool, true, false, List, Option, none, some, Result,
  ok, err, arith, trim,
}
use axterminator.Upgrade.{Disk, UpgradeError, UpgradeOptions, UpgradeOutcome, read_stamp}
use axterminator.Upgrade.Version.{SemVer, parse, print, version_lt}

-- The first version is the smaller one: the first part in which they differ decides.
abbrev pub Older : SemVer → SemVer → Type 0
Older a b =
    (a.major < b.major)
    ⊎ ((a.major ≡ b.major) × ((a.minor < b.minor) ⊎ ((a.minor ≡ b.minor) × (a.patch < b.patch))))

pub version_lt-Older : (a b : SemVer) → version_lt a b ≡ true → Older a b
unfolding version_lt
version_lt-Older a b h = ground arith

pub version_lt-eq : (a b : SemVer) → version_lt a b ≡ false → version_lt b a ≡ false → a ≡ b
unfolding version_lt
version_lt-eq a b h k = ground arith

-- The stamp can be read, and is this text between blanks.
abbrev pub Reads : Disk → List ℕ → Type 0
Reads d s = (raw : List ℕ) × (d.stamp ≡ some raw) × (d.readable ≡ true) × (s ≡ trim raw)

-- The stamp names the version.
abbrev pub Names : Disk → SemVer → Type 0
Names d w = (s : List ℕ) × Reads d s × (parse s ≡ some w)

-- When a check of a disk, for a binary of version `v`, comes to a result.
abbrev pub Verdict : SemVer → UpgradeOptions → Disk → Result UpgradeOutcome UpgradeError → Type 0
Verdict v opts d (ok UpgradeOutcome.fresh_install) = d.stamp ≡ none
Verdict v opts d (ok UpgradeOutcome.corrupt_stamp) = (s : List ℕ) × Reads d s × (parse s ≡ none)
Verdict v opts d (ok UpgradeOutcome.up_to_date) = Names d v
Verdict v opts d (ok (UpgradeOutcome.upgraded from to)) =
    (w : SemVer) × Names d w × Older w v × (from ≡ print w) × (to ≡ print v)
Verdict v opts d (ok (UpgradeOutcome.downgrade from to)) =
    (w : SemVer) × Names d w × Older v w × (from ≡ print w) × (to ≡ print v)
Verdict v opts d (err UpgradeError.no_home) = d.has_home ≡ false
Verdict v opts d (err UpgradeError.unreadable) = (d.stamp ≢ none) × (d.readable ≡ false)
Verdict v opts d (err UpgradeError.unwritable) =
    (opts.dry_run ≡ false) × (d.failed_write ≢ none) × ((w : SemVer) → Names d w → Older w v)
Verdict v opts d (err _) = ⊥

pub read_stamp-Reads : (d : Disk) (s : List ℕ) → read_stamp d ≡ ok (some s) → Reads d s
unfolding read_stamp
read_stamp-Reads d s h = split d.stamp d.readable refl refl
  where
    split : (o : Option (List ℕ)) (b : Bool) → d.stamp ≡ o → d.readable ≡ b → Reads d s
    split none b e f = absurd (ground (arith, h, e))
    split (some raw) false e f = absurd (ground (arith, h, e, f))
    split (some raw) true e f = (raw, e, f, ground (arith, h, e, f))

pub read_stamp-none : (d : Disk) → read_stamp d ≡ ok none → d.stamp ≡ none
unfolding read_stamp
read_stamp-none d h = ground arith

pub read_stamp-err :
    (d : Disk) (e : UpgradeError)
    → read_stamp d ≡ err e
    → (e ≡ UpgradeError.unreadable) × (d.stamp ≢ none) × (d.readable ≡ false)
unfolding read_stamp
read_stamp-err d e h = ground arith

unique_reading : (d : Disk) (s t : List ℕ) → Reads d s → Reads d t → s ≡ t
unique_reading d s t (x, a, b, c) (y, a', b', c') =
    let e : x ≡ y = ground (arith, a, a') in c ∙ ap trim e ∙ sym c'

-- What the stamp says, of a text that it reads as.
pub unique_version :
    (d : Disk) (s : List ℕ) (w w' : SemVer) → Reads d s → parse s ≡ some w → Names d w' → w ≡ w'
unique_version d s w w' r p (t, r', p') =
    let e : s ≡ t = unique_reading d s t r r' in ground (arith, p, p', e)

pub unnamed_version :
    (d : Disk) (s : List ℕ) (w : SemVer) → Reads d s → parse s ≡ none → ¬ Names d w
unnamed_version d s w r p (t, r', p') =
    let e : s ≡ t = unique_reading d s t r r' in ground (arith, p, p', e)
