-- ===== src/Upgrade/Tests.antt =====
-- src/upgrade.rs at concrete inputs.
use axterminator.Prelude.{
  ◌≡◌, refl, arith, codes, true, false, none, some, trim, trim_start, trim_end, is_whitespace, ◌++◌,
}
use axterminator.Upgrade.{
  Disk, UpgradeOptions, check_upgrade, compare_stamp, handle_downgrade, read_stamp,
}
use axterminator.Upgrade.Decimal.{parse_u32, read_digits, print_decimal, digits}
use axterminator.Upgrade.Version.{
  SemVer, Fits, parse, print, split_dot, leading_digits, number, parse-print, version_lt,
}
use axterminator.Upgrade.Stamp.{Settled, check_upgrade-Settled}

program : Unit {0}
unfolding parse print split_dot leading_digits number parse_u32 read_digits print_decimal digits
    trim trim_start trim_end is_whitespace version_lt check_upgrade compare_stamp handle_downgrade
    read_stamp
program = tt

abbrev one_twelve : SemVer
one_twelve = record { major = 1; minor = 12; patch = 3 }

one_twelve-Fits : Fits one_twelve
one_twelve-Fits = record { major = omega arith; minor = omega arith; patch = omega arith }

parse-print_example : parse (print one_twelve ++ codes "-rc.1") ≡ some one_twelve
unfolding program
parse-print_example = parse-print one_twelve (codes "-rc.1") one_twelve-Fits refl

no_minor : parse (codes "1") ≡ none
unfolding program
no_minor = refl

abbrev newer_stamp : Disk
newer_stamp = record {
  has_home = true;
  stamp = some (codes "2.0.0\n");
  readable = true;
  failed_write = none;
}

abbrev plain : UpgradeOptions
plain = record { dry_run = false; quiet = false }

parses : parse (codes "1.12.3") ≡ some one_twelve
unfolding program
parses = refl

no_space : trim (codes "1.12.3") ≡ codes "1.12.3"
unfolding program
no_space = refl

check_upgrade-Settled_example :
    Settled
      (codes "1.12.3")
      one_twelve
      plain
      newer_stamp
      (check_upgrade (codes "1.12.3") plain newer_stamp)
check_upgrade-Settled_example =
    check_upgrade-Settled (codes "1.12.3") one_twelve no_space parses plain newer_stamp
