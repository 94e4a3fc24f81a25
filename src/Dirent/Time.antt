-- ===== src/Dirent/Time.antt =====
-- DOS times of headers: `_zip_d2u_time` and `_zip_u2d_time`. `mktime` and `localtime` of the C library
-- are parameters.
use allvm_tools.Base.{
  ◌+◌, arith, false, ℕ, ltb, ◌/◌, ap, ◌∙◌, ◌*◌, ◌^◌, ◌<◌, ◌%◌, ◌≡◌, ◌-◌, if◌then◌else◌,
}

-- The members of `struct tm` that are used; `month` is `tm_mon + 1`.
pub record Tm : Type 0 where
  pub year : ℕ
  pub month : ℕ
  pub mday : ℕ
  pub hour : ℕ
  pub min : ℕ
  pub sec : ℕ

-- The structure that `_zip_d2u_time` fills in.
unfoldable pub tm_of : ℕ → ℕ → Tm
tm_of dtime ddate = record {
  year = ddate / 2 ^ 9 % 2 ^ 7 + 1980 - 1900;
  month = ddate / 2 ^ 5 % 2 ^ 4;
  mday = ddate % 2 ^ 5;
  hour = dtime / 2 ^ 11 % 2 ^ 5;
  min = dtime / 2 ^ 5 % 2 ^ 6;
  sec = dtime % 2 ^ 5 * 2;
}

-- The words that `_zip_u2d_time` computes, the time first.
unfoldable pub dos_words : Tm → ℕ × ℕ
dos_words tm =
    let year = if ltb tm.year 80 then 80 else tm.year in
    (
      (tm.hour * 2 ^ 11 + tm.min * 2 ^ 5 + tm.sec / 2) % 2 ^ 16,
      ((year + 1900 - 1980) * 2 ^ 9 + tm.month * 2 ^ 5 + tm.mday) % 2 ^ 16,
    )

-- All 16-bit words are read as they were written: the fields of a time are 5, 6 and 5 bits, those of a
-- date 7, 4 and 5, and a year is 1980 at least.
dos_words-tm_of :
    (dtime ddate : ℕ)
    → dtime < 2 ^ 16
    → ddate < 2 ^ 16
    → dos_words (tm_of dtime ddate) ≡ (dtime, ddate)
unfolding dos_words tm_of
dos_words-tm_of dtime ddate t d =
    let late : ltb (ddate / 2 ^ 9 % 2 ^ 7 + 1980 - 1900) 80 ≡ false = ground arith in
    let time : (dtime / 2 ^ 11 % 2 ^ 5 * 2 ^ 11
            + dtime / 2 ^ 5 % 2 ^ 6 * 2 ^ 5
            + dtime % 2 ^ 5 * 2 / 2)
          % 2 ^ 16
        ≡ dtime =
      omega arith in
    let date : ((ddate / 2 ^ 9 % 2 ^ 7 + 1980 - 1900 + 1900 - 1980) * 2 ^ 9
            + ddate / 2 ^ 5 % 2 ^ 4 * 2 ^ 5
            + ddate % 2 ^ 5)
          % 2 ^ 16
        ≡ ddate =
      omega arith in
    rw (late, time, date)

module _ {ℓ} {T : Type ℓ} (mktime : Tm → T) (localtime : T → Tm) where
  unfoldable pub d2u_time : ℕ → ℕ → T
  d2u_time dtime ddate = mktime (tm_of dtime ddate)

  unfoldable pub u2d_time : T → ℕ × ℕ
  u2d_time t = dos_words (localtime t)

  -- The DOS time and date of a header survive conversion to a time and back, where `localtime` gives
  -- back what `mktime` was given.
  pub u2d_time-d2u_time :
      (dtime ddate : ℕ)
      → dtime < 2 ^ 16
      → ddate < 2 ^ 16
      → localtime (mktime (tm_of dtime ddate)) ≡ tm_of dtime ddate
      → u2d_time (d2u_time dtime ddate) ≡ (dtime, ddate)
  unfolding u2d_time d2u_time
  u2d_time-d2u_time dtime ddate t d back = ap dos_words back ∙ dos_words-tm_of dtime ddate t d
