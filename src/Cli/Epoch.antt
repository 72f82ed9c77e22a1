-- ===== src/Cli/Epoch.antt =====
-- `format_epoch` of crates/pmd/src/main.rs: the civil date and the time of day of a Unix epoch.
pub mod Era
pub mod Days
pub mod Clock
use pmd.Prelude.{ℕ, ◌+◌, ◌-◌, ◌*◌, ◌/◌, ◌%◌, ltb, leb, if◌then◌else◌}

pub record Civil : Type 0 where
  pub year : ℕ
  pub month : ℕ
  pub day : ℕ

-- The year of a 400-year era that a day of the era lies in; years start on the first of March.
unfoldable pub year_of_era : ℕ → ℕ
year_of_era doe = (doe - doe / 1460 + doe / 36524 - doe / 146096) / 365

unfoldable pub day_of_year : ℕ → ℕ → ℕ
day_of_year doe yoe = doe - (365 * yoe + yoe / 4 - yoe / 100)

-- (month, day) of a day of such a year.
unfoldable pub month_day : ℕ → ℕ × ℕ
month_day doy =
    let mp = (5 * doy + 2) / 153 in
    let d = doy - (153 * mp + 2) / 5 + 1 in (if ltb mp 10 then mp + 3 else mp - 9, d)

-- From the days since 1970-01-01. The numbers are never negative, so the divisions are those of ℕ.
unfoldable pub civil : ℕ → Civil
unfolding year_of_era day_of_year month_day
civil days_since_epoch =
    let z = days_since_epoch + 719468 in
    let era = z / 146097 in
    let doe = z % 146097 in
    let yoe = year_of_era doe in
    let y = yoe + era * 400 in
    let (m, d) = month_day (day_of_year doe yoe) in
    record { year = if leb m 2 then y + 1 else y; month = m; day = d }

-- The six numbers that are printed.
pub record Moment : Type 0 where
  pub date : Civil
  pub hours : ℕ
  pub minutes : ℕ
  pub seconds : ℕ

unfoldable pub moment : ℕ → Moment
moment epoch =
    let time_of_day = epoch % 86400 in
    record {
      date = civil (epoch / 86400);
      hours = time_of_day / 3600;
      minutes = time_of_day % 3600 / 60;
      seconds = time_of_day % 60;
    }
