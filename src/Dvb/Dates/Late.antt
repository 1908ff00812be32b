-- ===== src/Dvb/Dates/Late.antt =====
-- The dates of this century.
use go_astits.Base.{
  ℕ, ◌+◌, ◌-◌, ◌^◌, ◌≤◌, ◌<◌, ◌≡◌, refl, true, ◌==◌, ltb, ==_iff, le→leb, le→ltb, ltb→lt, ltb→le,
  Bool-cases, inl, inr, arith,
}
use go_astits.Dvb.Dates.{
  parsed_date, date_of_mjd, parse_mjd, is_leap, days_of_date, month_length, month_lengths,
  days_before_year, days_before_month,
}
use go_astits.Dvb.Dates.RoundTrip.{every, every-holds}

parsed_date-late : (y m d : ℕ) → 100 ≤ y → parsed_date y m d ≡ 0
unfolding parsed_date
parsed_date-late y m d l =
    let two = le→leb 10 y (omega arith) in let long = le→ltb y 100 l in rw (two, long) refl

early_in_2000 : every 60 (λ a. parse_mjd (51544 + a) == 0) ≡ true
unfolding parse_mjd date_of_mjd parsed_date is_leap month_length month_lengths days_of_date
    days_before_year days_before_month
early_in_2000 = refl

later : (mjd : ℕ) → 51604 ≤ mjd → mjd < 2 ^ 16 → parse_mjd mjd ≡ 0
unfolding parse_mjd date_of_mjd
later mjd l h = rw (le→ltb mjd 15079 (omega arith)) (parsed_date-late _ _ _ (omega arith))

-- For every modified Julian day from 51544, the 1 January of 2000, to the last, 65535, the date that
-- `parseDVBTime` starts from is that of the zero time.
pub parse_mjd-late : (mjd : ℕ) → 51544 ≤ mjd → mjd < 2 ^ 16 → parse_mjd mjd ≡ 0
parse_mjd-late mjd l h = elim (Bool-cases (ltb mjd 51604)) [
  | inl early ↦
      let n : 51544 + (mjd - 51544) ≡ mjd = omega arith in
      let zero_date =
        every-holds 60 (λ a. parse_mjd (51544 + a) == 0) early_in_2000 (mjd - 51544)
          (omega (arith, ltb→lt mjd 51604 early)) in
      rw (← n) ((==_iff _ _).0 zero_date)
  | inr late ↦ later mjd (ltb→le mjd 51604 late) h
]
