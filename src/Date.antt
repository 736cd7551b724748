-- ===== src/Date.antt =====
-- Dates of messages, stamp.c with stricmp.c and the names of months of msgapi.c. A string is the
-- list of its bytes before the terminating zero, and an `int` is its bit pattern.
pub mod Window
pub mod RoundTrip
pub mod Tests
use mathlib.Core.Option
use xmsgapi.Base.{
  Bool, List, Option, [], get_elem?, if◌then◌else◌, leb, ltb, none, some, suc, zero, ℕ, ◌%◌, ◌&&◌,
  ◌*◌, ◌++◌, ◌+◌, ◌-◌, ◌/◌, ◌==◌, ◌||◌, ◌∷◌,
}
use xmsgapi.Base.Word.{add32, dword_mod, slt, sub32}
use xmsgapi.Squish.Hash.{tolower}
use xmsgapi.Squish.Xmsg.{Stamp}

-- The fields of `struct tm` that the code sets or reads.
pub record Tm : Type 0 where
  pub tm_sec : ℕ
  pub tm_min : ℕ
  pub tm_hour : ℕ
  pub tm_mday : ℕ
  pub tm_mon : ℕ
  pub tm_year : ℕ
  pub tm_isdst : ℕ

-- `gmtime` at the time 0.
abbrev pub epoch : Tm
epoch = record {
  tm_sec = 0;
  tm_min = 0;
  tm_hour = 0;
  tm_mday = 1;
  tm_mon = 0;
  tm_year = 70;
  tm_isdst = 0;
}

-- `dosdate->ldate == 0`
unfoldable pub is_zero_date : Stamp → Bool
is_zero_date st =
    st.da == 0 && (st.mo == 0 && (st.yr == 0 && (st.ss == 0 && (st.mm == 0 && st.hh == 0))))

-- DosDate_to_TmDate, with the daylight saving time that InitCvt has found.
unfoldable pub dos_date_to_tm_date : ℕ → Stamp → Tm
dos_date_to_tm_date is_dst st = if is_zero_date st then epoch else record {
  tm_sec = st.ss * 2;
  tm_min = st.mm;
  tm_hour = st.hh;
  tm_mday = st.da;
  tm_mon = sub32 st.mo 1;
  tm_year = st.yr + 80;
  tm_isdst = is_dst;
}

-- TmDate_to_DosDate: a bit field keeps the low bits of what is assigned to it.
unfoldable pub tm_date_to_dos_date : Tm → Stamp
tm_date_to_dos_date t = record {
  da = t.tm_mday % 32;
  mo = add32 t.tm_mon 1 % 16;
  yr = sub32 t.tm_year 80 % 128;
  ss = t.tm_sec / 2 % 32;
  mm = t.tm_min % 64;
  hh = t.tm_hour % 32;
}

-- Get_Dos_Date at the local time `tim`.
unfoldable pub get_dos_date : Tm → Stamp
get_dos_date tim = tm_date_to_dos_date tim

-- The names of the months.
abbrev pub months_ab : List (List ℕ)
months_ab =
    (74 ∷ 97 ∷ 110 ∷ [])
    ∷ (70 ∷ 101 ∷ 98 ∷ [])
    ∷ (77 ∷ 97 ∷ 114 ∷ [])
    ∷ (65 ∷ 112 ∷ 114 ∷ [])
    ∷ (77 ∷ 97 ∷ 121 ∷ [])
    ∷ (74 ∷ 117 ∷ 110 ∷ [])
    ∷ (74 ∷ 117 ∷ 108 ∷ [])
    ∷ (65 ∷ 117 ∷ 103 ∷ [])
    ∷ (83 ∷ 101 ∷ 112 ∷ [])
    ∷ (79 ∷ 99 ∷ 116 ∷ [])
    ∷ (78 ∷ 111 ∷ 118 ∷ [])
    ∷ (68 ∷ 101 ∷ 99 ∷ [])
    ∷ []

-- `months_ab[mo - 1]`: nothing where that is no month.
abbrev pub month_name : ℕ → Option (List ℕ)
month_name mo = if mo == 0 then none else get_elem? months_ab (mo - 1)

-- print02d, and `%02d` on a number below 100.
abbrev pub print02d : ℕ → List ℕ → List ℕ
print02d i rest = (i / 10 + 48) ∷ (i % 10 + 48) ∷ rest

-- "%02d %s %02d  %02d:%02d:%02d"
abbrev pub date_text : ℕ → List ℕ → ℕ → ℕ → ℕ → ℕ → List ℕ
date_text da month yr hh mm ss = print02d da (
    32
    ∷ (month
        ++ (32 ∷ print02d yr (32 ∷ 32 ∷ print02d hh (58 ∷ print02d mm (58 ∷ print02d ss []))))))

-- sc_time: the text, where the month has a name.
unfoldable pub sc_time : Stamp → Option (List ℕ)
sc_time st =
    if st.yr == 0
    then some []
    else Option.map (λ month. date_text st.da month ((st.yr + 80) % 100) st.hh st.mm (st.ss * 2))
        (month_name st.mo)

-- fts_time.
unfoldable pub fts_time : Tm → Option (List ℕ)
fts_time t = sc_time (tm_date_to_dos_date t)

-- StandardDate.
abbrev pub standard_date : Stamp
standard_date = record { da = 1; mo = 1; yr = 0; ss = 0; mm = 0; hh = 0 }

-- stricmp.
unfoldable pub stricmp : List ℕ → List ℕ → ℕ
stricmp [] [] = 0
stricmp [] (d ∷ t) = sub32 0 (tolower d)
stricmp (c ∷ s) [] = tolower c
stricmp (c ∷ s) (d ∷ t) =
    let rest = stricmp s t in let rc = sub32 (tolower c) (tolower d) in if rc == 0 then rest else rc

-- The month whose name is `temp`, counted from `x`; "Invalid month, use January instead."
unfoldable pub find_month : ℕ → List (List ℕ) → List ℕ → ℕ
find_month x [] temp = 1
find_month x (name ∷ names) temp =
    let rest = find_month (x + 1) names temp in if stricmp temp name == 0 then x + 1 else rest

-- `while (yy <= lo) yy += 100;` and `while (yy > hi) yy -= 100;`
unfoldable pub raise_loop : ℕ → ℕ → ℕ → Option ℕ
raise_loop zero lo yy = if slt lo yy then some yy else none
raise_loop (suc fuel) lo yy =
    let rest = raise_loop fuel lo (add32 yy 100) in if slt lo yy then some yy else rest

unfoldable pub lower_loop : ℕ → ℕ → ℕ → Option ℕ
lower_loop zero hi yy = if slt hi yy then none else some yy
lower_loop (suc fuel) hi yy =
    let rest = lower_loop fuel hi (sub32 yy 100) in if slt hi yy then rest else some yy

abbrev pub or_none : {A B : Type 0} → Option A → (A → Option B) → Option B
or_none none f = none
or_none (some x) f = f x

-- "Use sliding window technique to interprete the year number": a year is in reach of any other
-- within this many rounds.
abbrev pub window_rounds : ℕ
window_rounds = 42_949_673

unfoldable pub slide : ℕ → ℕ → Option ℕ
slide tm_year yy =
    or_none (raise_loop window_rounds (sub32 tm_year 50) yy)
      (λ y. lower_loop window_rounds (add32 tm_year 50) y)

-- What `sscanf` does for `%d`, `%s` and a character: the value and the rest, or no match.
abbrev pub Scan : Type 0 → Type 0
Scan A = List ℕ → Option (A × List ℕ)

-- `isspace` and `isdigit` of the C library in its "C" locale.
unfoldable pub is_space : ℕ → Bool
is_space c = c == 32 || (leb 9 c && leb c 13)

unfoldable pub is_digit : ℕ → Bool
is_digit c = leb 48 c && leb c 57

unfoldable pub skip_space : List ℕ → List ℕ
skip_space [] = []
skip_space (c ∷ p) = let rest = skip_space p in if is_space c then rest else c ∷ p

-- The number of the digits in front, `n` for those before, and the rest.
unfoldable pub digits : ℕ → List ℕ → ℕ × List ℕ
digits n [] = (n, [])
digits n (c ∷ p) =
    let rest = digits (n * 10 + (c - 48)) p in if is_digit c then rest else (n, c ∷ p)

unfoldable pub number : Scan ℕ
unfolding digits
number [] = none
number (c ∷ p) = if is_digit c then some (digits 0 (c ∷ p)) else none

-- A number with its sign, as a bit pattern; one that does not fit an `int` has no defined value.
abbrev pub as_int : ℕ × List ℕ → ℕ × List ℕ
as_int (n, rest) = (n % dword_mod, rest)

abbrev pub as_negative : ℕ × List ℕ → ℕ × List ℕ
as_negative (n, rest) = (sub32 0 (n % dword_mod), rest)

unfoldable pub signed : Scan ℕ
unfolding number
signed [] = none
signed (c ∷ p) =
    if c == 45
    then Option.map as_negative (number p)
    else Option.map as_int (if c == 43 then number p else number (c ∷ p))

unfoldable pub scan_int : Scan ℕ
unfolding signed
scan_int p = signed (skip_space p)

unfoldable pub word_of : List ℕ → List ℕ × List ℕ
word_of [] = ([], [])
word_of (c ∷ p) = let (w, rest) = word_of p in if is_space c then ([], c ∷ p) else (c ∷ w, rest)

unfoldable pub word_at : Scan (List ℕ)
unfolding word_of
word_at [] = none
word_at (c ∷ p) = some (word_of (c ∷ p))

unfoldable pub scan_word : Scan (List ℕ)
unfolding word_at
scan_word p = word_at (skip_space p)

unfoldable pub scan_char : ℕ → Scan (Unit {0})
scan_char b [] = none
scan_char b (c ∷ p) = if c == b then some (tt, p) else none

abbrev pub scan_then : {A B : Type 0} → Scan A → (A → Scan B) → Scan B
scan_then s f p = or_none (s p) (λ r. f r.0 r.1)

-- What the code takes from the text.
pub record Parsed : Type 0 where
  pub mo : ℕ
  pub dd : ℕ
  pub yy : ℕ
  pub hh : ℕ
  pub mm : ℕ
  pub ss : ℕ

abbrev pub done : Parsed → Scan Parsed
done d p = some (d, p)

abbrev pub month_of : List ℕ → ℕ
month_of temp = find_month 0 months_ab temp

-- "%d:%d" and ":%d".
abbrev pub hours_minutes : (ℕ → ℕ → Scan Parsed) → Scan Parsed
hours_minutes f =
    scan_then scan_int (λ hh. scan_then (scan_char 58) (λ _. scan_then scan_int (λ mm. f hh mm)))

abbrev pub seconds : (ℕ → Scan Parsed) → Scan Parsed
seconds f = scan_then (scan_char 58) (λ _. scan_then scan_int f)

-- "%d %s %d".
abbrev pub day_month_year : (ℕ → ℕ → ℕ → Scan Parsed) → Scan Parsed
day_month_year f =
    scan_then scan_int
      (λ dd. scan_then scan_word (λ temp. scan_then scan_int (λ yy. f dd (month_of temp) yy)))

-- The four formats. The third one leaves `ss` without a value; it is `junk`.
unfoldable pub format_1 : Scan Parsed
format_1 = day_month_year (λ dd mo yy. hours_minutes (λ hh mm.
    seconds (λ ss. done (record { mo = mo; dd = dd; yy = yy; hh = hh; mm = mm; ss = ss }))))

unfoldable pub format_2 : Scan Parsed
format_2 = day_month_year (λ dd mo yy.
    hours_minutes (λ hh mm. done (record { mo = mo; dd = dd; yy = yy; hh = hh; mm = mm; ss = 0 })))

unfoldable pub format_3 : ℕ → Scan Parsed
format_3 junk = scan_then scan_word (λ _. day_month_year (λ dd mo yy.
    hours_minutes
      (λ hh mm. done (record { mo = mo; dd = dd; yy = yy; hh = hh; mm = mm; ss = junk }))))

unfoldable pub format_4 : Scan Parsed
format_4 = scan_then scan_int (λ mo. scan_then (scan_char 47) (λ _. scan_then scan_int (λ dd.
    scan_then (scan_char 47) (λ _. scan_then scan_int (λ yy. hours_minutes (λ hh mm.
      seconds (λ ss. done (record { mo = mo; dd = dd; yy = yy; hh = hh; mm = mm; ss = ss }))))))))

abbrev pub else_try : {A : Type 0} → Option A → Option A → Option A
else_try none b = b
else_try (some x) b = some x

unfoldable pub parse : ℕ → List ℕ → Option (Parsed × List ℕ)
parse junk p =
    else_try (format_1 p) (else_try (format_2 p) (else_try (format_3 junk p) (format_4 p)))

-- The assignments to the bit fields.
abbrev pub stamp_of : Parsed → ℕ → Stamp
stamp_of d y = record {
  da = d.dd % 32;
  mo = d.mo % 16;
  yr = sub32 y 80 % 128;
  ss = d.ss / 2 % 32;
  mm = d.mm % 64;
  hh = d.hh % 32;
}

abbrev pub binary_date : ℕ → List ℕ → Option (Parsed × List ℕ) → Option (List ℕ × Stamp)
binary_date tm_year msgdate none = some (msgdate, standard_date)
binary_date tm_year msgdate (some r) =
    Option.map (λ y. (msgdate, stamp_of r.0 y)) (slide tm_year r.0.yy)

-- A date without a text, where the month of the date has been put right.
abbrev pub text_for : Stamp → Option (List ℕ × Stamp)
text_for st =
    Option.map (λ month. (date_text st.da month ((st.yr + 80) % 100) st.hh st.mm st.ss, st))
      (month_name st.mo)

-- ASCII_Date_To_Binary at the local time `tim`: the text and the date behind it.
unfoldable pub ascii_date_to_binary : Tm → ℕ → List ℕ → Stamp → Option (List ℕ × Stamp)
ascii_date_to_binary tim junk [] st =
    if st.yr == 0
    then Option.map (λ text. (text, standard_date)) (fts_time tim)
    else text_for (if st.mo == 0 || ltb 12 st.mo then record st { mo = 1 } else st)
ascii_date_to_binary tim junk (c ∷ p) st = binary_date tim.tm_year (c ∷ p) (parse junk (c ∷ p))
