-- ===== src/Security/Calendar.antt =====
-- src/mcp/security.rs: the calendar of the audit log's time stamps. Values are `u32` and `u64`; a
-- day count below 2^31 wraps nowhere.
use axterminator.Prelude.{
  ℕ, ◌+◌, ◌-◌, ◌*◌, ◌/◌, ◌%◌, ◌^◌, ◌≤◌, ◌<◌, ◌≡◌, ◌∙◌, arith, if◌then◌else◌, ltb, leb, ◌==◌, ◌||◌,
  Bool, true, false,
}

pub record Date : Type 0 where
  pub year : ℕ
  pub month : ℕ
  pub day : ℕ

-- The two halves of Howard Hinnant's algorithm, as the code has them: the year of the era from the
-- day of the era, and the date from the year and the day of the year, both counted from March.
abbrev pub year_of_era : ℕ → ℕ
year_of_era doe = (doe - doe / 1460 + doe / 36524 - doe / 146096) / 365

unfoldable pub march_date : ℕ → ℕ → Date
march_date y doy =
    let mp = (5 * doy + 2) / 153 in
    let d = doy - (153 * mp + 2) / 5 + 1 in
    let m = if ltb mp 10 then mp + 3 else mp - 9 in
    record { year = (if leb m 2 then y + 1 else y); month = m; day = d }

unfoldable pub days_to_ymd : ℕ → Date
days_to_ymd days =
    let z = (days + 719468) % 2 ^ 32 in
    let era = z / 146097 in
    let doe = z - era * 146097 in
    let yoe = year_of_era doe in
    let y = yoe + era * 400 in let doy = doe - (365 * yoe + yoe / 4 - yoe / 100) in march_date y doy

pub record DateTime : Type 0 where
  pub date : Date
  pub hour : ℕ
  pub minute : ℕ
  pub second : ℕ

unfoldable pub epoch_to_ymd_hms : ℕ → DateTime
epoch_to_ymd_hms secs =
    let total_min = secs / 60 in
    let total_h = total_min / 60 in
    record {
      date = days_to_ymd (total_h / 24 % 2 ^ 32);
      hour = total_h % 24;
      minute = total_min % 60;
      second = secs % 60;
    }

-- The time of day is in range, and with the day count it makes up the time again, for times whose
-- day count is a `u32`.
pub epoch_to_ymd_hms_lem :
    (secs : ℕ)
    → secs / 86400 < 2 ^ 32
    → let t = epoch_to_ymd_hms secs in
      (t.hour < 24)
      × (t.minute < 60)
      × (t.second < 60)
      × (secs ≡ secs / 86400 * 86400 + t.hour * 3600 + t.minute * 60 + t.second)
      × (t.date ≡ days_to_ymd (secs / 86400))
unfolding epoch_to_ymd_hms
epoch_to_ymd_hms_lem secs h = ground arith

-- The usual calendar: the length of a month, and the number of days from 0000-03-01 to a date.
abbrev is_leap : ℕ → Bool
is_leap y = if (y % 4 == 0) then (if (y % 100 == 0) then y % 400 == 0 else true) else false

abbrev pub month_length : ℕ → ℕ → ℕ
month_length y m =
    if m == 2
    then (if is_leap y then 29 else 28)
    else (if (m == 4 || m == 6 || m == 9 || m == 11) then 30 else 31)

abbrev pub day_number : Date → ℕ
day_number t =
    let y = if leb t.month 2 then t.year - 1 else t.year in
    let mp = if leb t.month 2 then t.month + 9 else t.month - 3 in
    365 * y + y / 4 - y / 100 + y / 400 + (153 * mp + 2) / 5 + t.day - 1

-- The days of `n` years from March.
abbrev year_days : ℕ → ℕ
year_days n = 365 * n + n / 4 - n / 100 + n / 400

year_of_era_lem :
    (doe : ℕ)
    → doe < 146097
    → let yoe = year_of_era doe in (yoe < 400) × (year_days yoe ≤ doe) × (doe < year_days (yoe + 1))
year_of_era_lem doe h = ground arith

year_days-add_era :
    (yoe era : ℕ) → yoe < 400 → year_days (yoe + era * 400) ≡ year_days yoe + era * 146097
year_days-add_era yoe era h = omega arith

march_date-day_number : (y doy : ℕ) → doy < 366 → day_number (march_date y doy) ≡ year_days y + doy
unfolding march_date
march_date-day_number y doy h = ground arith

march_date_bounds :
    (y doy : ℕ)
    → doy < 366
    → let t = march_date y doy in (1 ≤ t.month) × (t.month ≤ 12) × (1 ≤ t.day)
unfolding march_date
march_date_bounds y doy h = ground arith

march_date_length :
    (y doy : ℕ)
    → year_days y + doy < year_days (y + 1)
    → let t = march_date y doy in t.day ≤ month_length t.year t.month
unfolding march_date
march_date_length y doy h = ground arith

-- For every day count that does not overflow the `u32` sum, the date is one of the Gregorian
-- calendar (its month is from 1 to 12, its day from 1 to the length of that month in that year),
-- and it is the right one: it lies as many days after 0000-03-01 as the count and the 719468 days
-- up to 1970-01-01 together.
pub days_to_ymd_lem :
    (days : ℕ)
    → days + 719468 < 2 ^ 32
    → let t = days_to_ymd days in
      (1 ≤ t.month)
      × (t.month ≤ 12)
      × (1 ≤ t.day)
      × (t.day ≤ month_length t.year t.month)
      × (day_number t ≡ days + 719468)
unfolding days_to_ymd
days_to_ymd_lem days h =
    let b = march_date_bounds y doy small in
    (
      b.0,
      b.1,
      b.2,
      march_date_length y doy inside,
      march_date-day_number y doy small ∙ omega (arith, yoe_in, at_era),
    )
  where
    z : ℕ
    z = (days + 719468) % 2 ^ 32

    era : ℕ
    era = z / 146097

    doe : ℕ
    doe = z - era * 146097

    yoe : ℕ
    yoe = year_of_era doe

    y : ℕ
    y = yoe + era * 400

    doy : ℕ
    doy = doe - (365 * yoe + yoe / 4 - yoe / 100)

    yoe_in : (yoe < 400) × (year_days yoe ≤ doe) × (doe < year_days (yoe + 1))
    yoe_in = year_of_era_lem doe (omega arith)

    at_era : year_days y ≡ year_days yoe + era * 146097
    at_era = year_days-add_era yoe era yoe_in.0

    small : doy < 366
    small = gap yoe doe yoe_in
      where
        gap :
            (yoe doe : ℕ)
            → (yoe < 400) × (year_days yoe ≤ doe) × (doe < year_days (yoe + 1))
            → doe - (365 * yoe + yoe / 4 - yoe / 100) < 366
        gap yoe doe h = omega arith

    inside : year_days y + doy < year_days (y + 1)
    inside = in_year yoe era doe yoe_in
      where
        in_year :
            (yoe era doe : ℕ)
            → (yoe < 400) × (year_days yoe ≤ doe) × (doe < year_days (yoe + 1))
            → year_days (yoe + era * 400) + (doe - (365 * yoe + yoe / 4 - yoe / 100))
              < year_days (yoe + era * 400 + 1)
        in_year yoe era doe h = omega arith
