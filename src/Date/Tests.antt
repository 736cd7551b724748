-- ===== src/Date/Tests.antt =====
-- Runs on concrete dates.
use xmsgapi.Base.{List, arith, some, ℕ, ◌%◌, ◌+◌, ◌<◌, ◌≡◌, ◌≤◌}
use xmsgapi.Date.{Tm, ascii_date_to_binary, sc_time, slide, standard_date}
use xmsgapi.Date.RoundTrip.{ascii_date_to_binary-sc_time}
use xmsgapi.Date.Window.{slide-year}
use xmsgapi.Squish.Xmsg.{Stamp}
use xmsgapi.Squish.Xmsg.RoundTrip.{FitsStamp}

-- 12:34:56 on 7 March 2026.
abbrev spring : Stamp
spring = record { da = 7; mo = 3; yr = 46; ss = 28; mm = 34; hh = 12 }

abbrev this_year : Tm
this_year = record {
  tm_sec = 0;
  tm_min = 0;
  tm_hour = 0;
  tm_mday = 1;
  tm_mon = 0;
  tm_year = 126;
  tm_isdst = 0;
}

spring-FitsStamp : FitsStamp spring
spring-FitsStamp = record {
  da = omega arith;
  mo = omega arith;
  yr = omega arith;
  ss = omega arith;
  mm = omega arith;
  hh = omega arith;
}

date_example :
    (text : List ℕ) × (sc_time spring ≡ some text)
    × (ascii_date_to_binary this_year 0 text standard_date ≡ some (text, spring))
date_example =
    ascii_date_to_binary-sc_time spring standard_date this_year 0 spring-FitsStamp (omega arith)
      (omega arith) (omega arith) (omega arith) (omega arith) (omega arith) (omega arith)

window_example :
    (y : ℕ) × (slide 126 75 ≡ some y) × (126 < y + 50) × (y ≤ 126 + 50) × (y % 100 ≡ 75 % 100)
window_example = slide-year 126 75 (omega arith) (omega arith) (omega arith)
