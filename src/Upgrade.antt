-- ===== src/Upgrade.antt =====
-- src/upgrade.rs: the version stamp, and what a start or `axterminator upgrade` makes of it. A text
-- is the list of its code points. The disk is a state: whether the home directory is known, the
-- content of the stamp's file, if it exists, whether it can be read, and what becomes of a write
-- that fails. What is printed is not part of it.
pub mod Decimal
pub mod Version
pub mod Verdict
pub mod Stamp
mod Tests
use axterminator.Prelude.{
  ℕ, Bool, true, false, not, List, [], ◌∷◌, Option, none, some, Result, ok, err, if◌then◌else◌,
  String, trim, keep,
}
use axterminator.Upgrade.Version.{SemVer, parse, print, version_lt}

-- A write fails if `failed_write` is some, and leaves that as the file's content: nothing, what was
-- there, an empty text or a part of the new one.
pub record Disk : Type 0 where
  pub has_home : Bool
  pub stamp : Option (List ℕ)
  pub readable : Bool
  pub failed_write : Option (Option (List ℕ))

-- The contexts of an error, in place of its texts.
pub data UpgradeError : Type 0 where
  no_home bad_version unreadable unwritable : UpgradeError
  migration_failed : String → UpgradeError

pub record UpgradeOptions : Type 0 where
  pub dry_run : Bool
  pub quiet : Bool

pub data UpgradeOutcome : Type 0 where
  fresh_install up_to_date corrupt_stamp : UpgradeOutcome
  upgraded downgrade : (from to : List ℕ) → UpgradeOutcome

-- A migration, with what its function returns.
pub record Migration : Type 0 where
  pub since : SemVer
  pub run : Result (Unit {0}) String

abbrev pub registered_migrations : List Migration
registered_migrations = []

unfoldable pub read_stamp : Disk → Result (Option (List ℕ)) UpgradeError
read_stamp d = elim d.stamp [
  | none ↦ ok none
  | some s ↦ if d.readable then ok (some (trim s)) else err UpgradeError.unreadable
]

unfoldable pub write_stamp : List ℕ → Disk → Result (Unit {0}) UpgradeError × Disk
write_stamp version d = elim d.failed_write [
  | none ↦ (ok tt, record d { stamp = some version })
  | some left ↦ (err UpgradeError.unwritable, record d { stamp = left })
]

-- A write that a dry run leaves out, before a given outcome.
unfoldable pub stamp_unless_dry :
    List ℕ → UpgradeOptions → UpgradeOutcome → Disk → Result UpgradeOutcome UpgradeError × Disk
unfolding write_stamp
stamp_unless_dry version opts outcome d =
    if opts.dry_run
    then (ok outcome, d)
    else (let (r, d') = write_stamp version d in
        elim r [ ok _ ↦ (ok outcome, d') | err e ↦ (err e, d') ])

-- The loop over the migrations, which a dry run only prints.
unfoldable pub run_migrations : UpgradeOptions → List Migration → Result (Unit {0}) UpgradeError
run_migrations opts [] = ok tt
run_migrations opts (m ∷ ms) =
    let rest = run_migrations opts ms in
    if opts.dry_run
    then rest
    else elim m.run [ ok _ ↦ rest | err e ↦ err (UpgradeError.migration_failed e) ]

unfoldable pub handle_fresh_install :
    List ℕ → UpgradeOptions → Disk → Result UpgradeOutcome UpgradeError × Disk
unfolding stamp_unless_dry
handle_fresh_install current opts d = stamp_unless_dry current opts UpgradeOutcome.fresh_install d

unfoldable pub handle_corrupt_stamp :
    List ℕ → UpgradeOptions → Disk → Result UpgradeOutcome UpgradeError × Disk
unfolding stamp_unless_dry
handle_corrupt_stamp current opts d = stamp_unless_dry current opts UpgradeOutcome.corrupt_stamp d

unfoldable pub handle_upgrade :
    SemVer → SemVer → List ℕ → UpgradeOptions → Disk → Result UpgradeOutcome UpgradeError × Disk
unfolding stamp_unless_dry run_migrations
handle_upgrade from to to_str opts d =
    elim (run_migrations opts (keep (λ m. version_lt from m.since) registered_migrations)) [
      | err e ↦ (err e, d)
      | ok _ ↦ stamp_unless_dry to_str opts (UpgradeOutcome.upgraded (print from) (print to)) d
    ]

unfoldable pub handle_downgrade : SemVer → SemVer → UpgradeOutcome
handle_downgrade stamp binary = UpgradeOutcome.downgrade (print stamp) (print binary)

-- The comparison of a stamp that parses.
unfoldable pub compare_stamp :
    SemVer → SemVer → List ℕ → UpgradeOptions → Disk → Result UpgradeOutcome UpgradeError × Disk
unfolding handle_upgrade handle_downgrade
compare_stamp stamp current current_str opts d =
    if version_lt stamp current
    then handle_upgrade stamp current current_str opts d
    else if version_lt current stamp
    then (ok (handle_downgrade stamp current), d)
    else (ok UpgradeOutcome.up_to_date, d)

-- `check_upgrade`, of the version that the binary was built with.
unfoldable pub check_upgrade :
    List ℕ → UpgradeOptions → Disk → Result UpgradeOutcome UpgradeError × Disk
unfolding handle_fresh_install handle_corrupt_stamp compare_stamp read_stamp
check_upgrade current_str opts d =
    if not d.has_home then (err UpgradeError.no_home, d) else elim (parse current_str) [
      | none ↦ (err UpgradeError.bad_version, d)
      | some current ↦ elim (read_stamp d) [
        | err e ↦ (err e, d)
        | ok none ↦ handle_fresh_install current_str opts d
        | ok (some s) ↦ elim (parse s) [
          | none ↦ handle_corrupt_stamp current_str opts d
          | some stamp ↦ compare_stamp stamp current current_str opts d
        ]
      ]
    ]
