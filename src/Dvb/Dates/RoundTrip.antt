-- ===== src/Dvb/Dates/RoundTrip.antt =====
-- The dates that are read back.
use go_astits.Base.{
  ℕ, zero, suc, ◌+◌, ◌*◌, ◌/◌, ◌%◌, ◌^◌, ◌≤◌, ◌<◌, ◌≡◌, ◌≢◌, refl, sym, ◌∙◌, Bool, true, false, ltb,
  ◌==◌, ◌||◌, if◌then◌else◌, if_true, if_false, Bool-cases, inl, inr, ==_iff, le→ltb, List, [], ◌∷◌,
  ◌++◌, length, arith,
}
use go_astits.Bits.{◌<|>◌, bit_or_disjoint}
use go_astits.Astikit.{BytesIterator, IsBytesIterator, BitsWriter, IsBitsWriter}
use go_astits.Codec.{
  RoundTrips, Writes, Writes-bind, Writes-last, Writes-return, Writes-uint16, Reads, Reads-bind,
  Reads-bytes, Reads-last, Reads-return,
}
use go_astits.Descriptor.LocalTime.RoundTrip.{IsDvbTimes}
use go_astits.Dvb.{second}
use go_astits.Dvb.Durations.{seconds_bytes, seconds-Writes, seconds-Reads}
use go_astits.Dvb.Dates.{
  day, parse_dvb_time, write_dvb_time, is_leap, days_before_year, days_before_month, year_of_days,
  month_of_days, mjd_of_date, years_since_1900, date_of_mjd, parsed_date, days_of_date, mjd_of_days,
  parse_mjd, month_length, month_lengths,
}

abbrev pub every : ℕ → (ℕ → Bool) → Bool
every zero f = true
every (suc n) f = let rest = every n f in if f n then rest else false

-- That the day is not in the month, or that its date is read back.
pub every-holds : (n : ℕ) (f : ℕ → Bool) → every n f ≡ true → (k : ℕ) → k < n → f k ≡ true
every-holds zero f e k l = absurd (omega arith)
every-holds (suc n) f e k l = elim (Bool-cases (f n)) [
  | inl y ↦ elim (Bool-cases (k == n)) [
    | inl last ↦ rw ((==_iff k n).0 last) y
    | inr other ↦
        let apart : k ≢ n = λ h. cc ((==_iff k n).1 h) in
        every-holds n f (sym (if_true _ _ y) ∙ e) k (omega arith)
  ]
  | inr failed ↦ cc (sym (if_false (every n f) false failed) ∙ e)
]

abbrev is_read_back : ℕ → ℕ → ℕ → Bool
is_read_back a b c =
    let n = days_of_date (1969 + a) (10 + b) (10 + c) in
    ltb (month_length (10 + b) (month_lengths (1969 + a))) (10 + c)
    || (parse_mjd (mjd_of_days n) == n)

every_read_back : every 31 (λ a. every 3 (λ b. every 22 (is_read_back a b))) ≡ true
unfolding days_of_date days_before_year days_before_month month_lengths month_length is_leap
    mjd_of_days year_of_days month_of_days mjd_of_date years_since_1900 parse_mjd date_of_mjd
    parsed_date
every_read_back = refl

-- A day of the years from 1969 to 1999, in October, November or December, and from its 10th on.
pub record IsReadDate (n : ℕ) : Type 0 where
  pub years : ℕ
  pub months : ℕ
  pub days : ℕ
  pub years_fit : years < 31
  pub months_fit : months < 3
  pub days_fit : days < 22
  pub in_month : 10 + days ≤ month_length (10 + months) (month_lengths (1969 + years))
  pub date : n ≡ days_of_date (1969 + years) (10 + months) (10 + days)

right_of_or : (a b : Bool) → a ≡ false → (a || b) ≡ true → b ≡ true
right_of_or true b h e = cc
right_of_or false b h e = e

parse_mjd-mjd_of_days : (n : ℕ) → IsReadDate n → parse_mjd (mjd_of_days n) ≡ n
parse_mjd-mjd_of_days n h =
    let of_year =
      every-holds 31 (λ a. every 3 (λ b. every 22 (is_read_back a b))) every_read_back h.years
        h.years_fit in
    let of_month =
      every-holds 3 (λ b. every 22 (is_read_back h.years b)) of_year h.months h.months_fit in
    let read = every-holds 22 (is_read_back h.years h.months) of_month h.days h.days_fit in
    let here =
      le→ltb (month_length (10 + h.months) (month_lengths (1969 + h.years))) (10 + h.days)
        h.in_month in
    rw h.date ((==_iff _ _).0 (right_of_or _ _ here read))

-- The start of a second of such a day.
pub record IsReadTime (t : ℕ) : Type 0 where
  pub date : ℕ
  pub seconds : ℕ
  pub read : IsReadDate date
  pub in_day : seconds < 86400
  pub total : t ≡ date * day + seconds * second

mjd_of_days-lt : (n : ℕ) → mjd_of_days n < 2 ^ 16
unfolding mjd_of_days mjd_of_date
mjd_of_days-lt n = omega arith

abbrev pub time_bytes : ℕ → List ℕ
time_bytes t =
    (mjd_of_days (t / day) / 256 ∷ mjd_of_days (t / day) % 256 ∷ []) ++ seconds_bytes (t % day)

pub length-time_bytes : (t : ℕ) → length (time_bytes t) ≡ 5
unfolding seconds_bytes
length-time_bytes t = refl

module _ {w : BitsWriter} (iw : IsBitsWriter w) where
  pub time-Writes : (t : ℕ) → Writes iw (write_dvb_time w t) (time_bytes t) 5
  unfolding write_dvb_time
  time-Writes t =
      Writes-bind iw _ (mjd_of_days (t / day) / 256 ∷ mjd_of_days (t / day) % 256 ∷ []) _
        (Writes-uint16 iw (mjd_of_days (t / day)))
        (Writes-last iw _ (seconds-Writes iw (t % day)) (Writes-return iw _ _ refl))

module _ {r : BytesIterator} (ir : IsBytesIterator r) where
  pub time-Reads : (t : ℕ) → IsReadTime t → Reads ir (parse_dvb_time r) (time_bytes t) t
  unfolding parse_dvb_time
  time-Reads t h =
      let m = mjd_of_days h.date in
      let n : t / day ≡ h.date = rw h.total (omega (arith, h.in_day)) in
      let s : t % day ≡ h.seconds * second = rw h.total (omega (arith, h.in_day)) in
      let small = mjd_of_days-lt h.date in
      let joined : (m / 256 * 2 ^ 8 <|> m % 256) ≡ m =
        bit_or_disjoint 8 (m / 256 * 2 ^ 8) (m % 256) (omega arith) (omega arith) ∙ omega arith in
      rw (n, s)
        (Reads-bind ir _ (m / 256 ∷ m % 256 ∷ []) _
          (Reads-bytes ir 2 (m / 256 ∷ m % 256 ∷ []) (omega arith) refl)
          (rw (joined, parse_mjd-mjd_of_days h.date h.read)
            (Reads-last ir _ (seconds-Reads ir h.seconds (omega (arith, h.in_day)))
              (Reads-return ir _ _ (sym h.total)))))

  -- The times that the descriptors and tables ask for.
  unfoldable pub dvb_times :
      {w : BitsWriter} (iw : IsBitsWriter w)
      → IsDvbTimes iw ir (parse_dvb_time r) (write_dvb_time w)
  dvb_times iw = record {
    IsTime = IsReadTime;
    time_bytes = time_bytes;
    size = length-time_bytes;
    put = λ t v. time-Writes iw t;
    get = time-Reads;
  }

module _ {w : BitsWriter} (iw : IsBitsWriter w) {r : BytesIterator} (ir : IsBytesIterator r) where
  -- The start of a second of a day from the 10th on, in October, November or December of a year from
  -- 1969 to 1999, is written in five bytes, and `parseDVBTime` reads it back.
  pub parse_dvb_time-write_dvb_time :
      (t : ℕ) → IsReadTime t → RoundTrips iw ir (write_dvb_time w t) 5 (parse_dvb_time r) t
  unfolding RoundTrips
  parse_dvb_time-write_dvb_time t h =
      (time_bytes t, length-time_bytes t, time-Writes iw t, time-Reads ir t h)
