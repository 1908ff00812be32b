-- ===== src/Dvb/Dates.antt =====
-- `parseDVBTime` and `writeDVBTime` of `dvb.go`. A `time.Time` is the number of nanoseconds since the
-- start of the year 1, which is the zero time, in UTC. What the code takes of package `time` is here
-- too: the calendar, and `time.Parse` of two digits each for year, month and day.
pub mod RoundTrip
pub mod Late
use go_astits.Base.{
  ℕ, zero, suc, ◌+◌, ◌-◌, ◌*◌, ◌/◌, ◌%◌, ◌^◌, Bool, true, false, not, ◌==◌, ◌&&◌, ◌||◌, leb, ltb,
  if◌then◌else◌, List, [], ◌∷◌, M, pure, ◌>>=◌, ◌>>◌,
}
use go_astits.Bits.{◌<|>◌}
use go_astits.Astikit.{BytesIterator, BitsWriter}
use go_astits.Clock.{byte_at}
use go_astits.Dvb.{hour, parse_dvb_duration_seconds, write_dvb_duration_seconds}

abbrev pub day : ℕ
day = 24 * hour

unfoldable pub is_leap : ℕ → Bool
is_leap year = (year % 4 == 0) && (not (year % 100 == 0) || (year % 400 == 0))

unfoldable pub month_lengths : ℕ → List ℕ
month_lengths year =
    31 ∷ (if is_leap year then 29 else 28) ∷ 31 ∷ 30 ∷ 31 ∷ 30 ∷ 31 ∷ 31 ∷ 30 ∷ 31 ∷ 30 ∷ 31 ∷ []

unfoldable pub month_length : ℕ → List ℕ → ℕ
month_length month [] = 0
month_length month (n ∷ ns) =
    let rest = month_length (month - 1) ns in if month == 1 then n else rest

unfoldable pub days_before_month : ℕ → List ℕ → ℕ
days_before_month month [] = 0
days_before_month month (n ∷ ns) =
    let rest = days_before_month (month - 1) ns in if leb month 1 then 0 else n + rest

unfoldable pub days_before_year : ℕ → ℕ
days_before_year year = let n = year - 1 in n * 365 + n / 4 - n / 100 + n / 400

-- `time.Date(year, month, day)` of UTC, as the number of days since the start of the year 1
unfoldable pub days_of_date : ℕ → ℕ → ℕ → ℕ
days_of_date year month d =
    days_before_year year + days_before_month month (month_lengths year) + d - 1

-- `t.Year()` and the number of the day in it, of the number of days
unfoldable pub year_of_days : ℕ → ℕ × ℕ
year_of_days n =
    let n400 = n % 146097 in
    let centuries = n400 / 36524 - n400 / 36524 / 4 in
    let n100 = n400 - 36524 * centuries in
    let n4 = n100 % 1461 in
    let years = n4 / 365 - n4 / 365 / 4 in
    (400 * (n / 146097) + 100 * centuries + 4 * (n100 / 1461) + years + 1, n4 - 365 * years)

-- `t.Month()` and `t.Day()`, of the number of the day in the year
unfoldable pub month_of_days : ℕ → ℕ → List ℕ → ℕ × ℕ
month_of_days month n [] = (month, n + 1)
month_of_days month n (l ∷ ls) =
    let later = month_of_days (month + 1) (n - l) ls in if ltb n l then (month, n + 1) else later

abbrev pub has_two_digits : ℕ → Bool
has_two_digits n = leb 10 n && ltb n 100

-- `time.Parse("06-01-02", fmt.Sprintf("%d-%d-%d", y, m, d))`, its error dropped: a number that is
-- printed with other than two digits, and a date that there is not, give the zero time. The years
-- from 69 on are those of the last century.
unfoldable pub parsed_date : ℕ → ℕ → ℕ → ℕ
parsed_date y m d =
    let year = y + (if leb 69 y then 1900 else 2000) in
    if has_two_digits y
      && has_two_digits m
      && has_two_digits d
      && leb m 12
      && leb d (month_length m (month_lengths year))
    then days_of_date year m d
    else 0

-- `int(float64(yt)*365.25)` and `int(float64(mt)*30.6001)`. The floats of the code are taken as exact:
-- no quotient or product of theirs comes as near to a whole number, without being it, as a float errs.
abbrev pub days_of_years : ℕ → ℕ
days_of_years yt = yt * 1461 / 4

abbrev pub days_of_months : ℕ → ℕ
days_of_months mt = mt * 306001 / 10000

-- The date of a modified Julian day, from its first numbers on.
unfoldable pub date_of_mjd : ℕ → ℕ
date_of_mjd mjd =
    let yt = (100 * mjd - 1507820) / 36525 in
    let mt = (10000 * mjd - 149561000 - 10000 * days_of_years yt) / 306001 in
    let d = mjd - 14956 - days_of_years yt - days_of_months mt in
    let k = (if (mt == 14) || (mt == 15) then 1 else 0) in parsed_date (yt + k) (mt - 1 - k * 12) d

-- Before the day 15079 the year comes out as 0 or below, and the month then as one digit or below 0,
-- which is no date for `time.Parse`.
unfoldable pub parse_mjd : ℕ → ℕ
parse_mjd mjd = if ltb mjd 15079 then 0 else date_of_mjd mjd

-- The `int` of the quarters of a year below zero is cut off towards zero. 11 * 2 ^ 16 keeps the sum
-- above zero and does not change it as a `uint16`.
unfoldable pub years_since_1900 : ℕ → ℕ
years_since_1900 year =
    if leb 1900 year
    then 11 * 2 ^ 16 + days_of_years (year - 1900)
    else 11 * 2 ^ 16 - days_of_years (1900 - year)

-- The modified Julian day of a date, as a `uint16`.
unfoldable pub mjd_of_date : ℕ → ℕ → ℕ → ℕ
mjd_of_date year month d =
    let l = (if leb month 2 then 1 else 0) in
    (14956 + d + years_since_1900 (year - l) + days_of_months (month + 1 + l * 12)) % 2 ^ 16

unfoldable pub mjd_of_days : ℕ → ℕ
mjd_of_days n =
    let (year, day_of_year) = year_of_days n in
    let (month, d) = month_of_days 1 day_of_year (month_lengths year) in mjd_of_date year month d

module _ (r : BytesIterator) where
  open r use {Iter, next_bytes}

  unfoldable pub parse_dvb_time : M Iter ℕ
  parse_dvb_time = do
    bs ← next_bytes 2
    let date = parse_mjd (byte_at bs 0 * 2 ^ 8 <|> byte_at bs 1)
    s ← parse_dvb_duration_seconds r
    pure (date * day + s)

module _ (w : BitsWriter) where
  open w use {Writer, write_uint16}

  unfoldable pub write_dvb_time : ℕ → M Writer ℕ
  write_dvb_time t = do
    write_uint16 (mjd_of_days (t / day))
    n ← write_dvb_duration_seconds w (t % day)
    pure (n + 2)
