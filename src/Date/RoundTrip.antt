-- ===== src/Date/RoundTrip.antt =====
-- The text of a date read back, stamp.c.
use mathlib.Core.Option
use mathlib.Core.Path.{subst}
use xmsgapi.Base.{
  List, [], ap, arith, false, if-false, ne→==, refl, some, suc, true, zero, ℕ, ◌%◌, ◌*◌, ◌++◌, ◌+◌,
  ◌-◌, ◌/◌, ◌<◌, ◌==◌, ◌^◌, ◌∙◌, ◌∷◌, ◌≡◌, ◌≤◌,
}
use xmsgapi.Base.Word.{dword_mod, sub32}
use xmsgapi.Date.{
  Parsed, Tm, as_int, ascii_date_to_binary, binary_date, date_text, digits, else_try, find_month,
  format_1, format_2, format_3, format_4, is_digit, is_space, month_name, month_of, number, parse,
  print02d, sc_time, scan_char, scan_int, scan_word, signed, skip_space, slide, stamp_of, stricmp,
  word_at, word_of,
}
use xmsgapi.Date.Window.{slide-year}
use xmsgapi.Squish.Hash.{tolower}
use xmsgapi.Squish.Xmsg.{Stamp}
use xmsgapi.Squish.Xmsg.RoundTrip.{FitsStamp}

-- A digit is neither a space nor a sign.
digit_char :
    (k : ℕ)
    → k < 10
    → (is_digit (k + 48) ≡ true)
      × (is_space (k + 48) ≡ false)
      × ((k + 48 == 45) ≡ false)
      × ((k + 48 == 43) ≡ false)
unfolding is_digit is_space
digit_char k h = (ground (arith, h), ground (arith, h), ground (arith, h), ground (arith, h))

-- Two digits in front of something that is no digit are read as the number.
scan_int-print02d :
    (i : ℕ) (rest : List ℕ)
    → i < 100
    → ((n : ℕ) → digits n rest ≡ (n, rest))
    → scan_int (print02d i rest) ≡ some (i, rest)
unfolding scan_int skip_space signed number digits
scan_int-print02d i rest small stop =
    let (digit1, no_space, no_minus, no_plus) = digit_char (i / 10) (omega arith) in
    let (digit2, _, _, _) = digit_char (i % 10) (omega arith) in
    let value : (0 * 10 + (i / 10 + 48 - 48)) * 10 + (i % 10 + 48 - 48) ≡ i = omega arith in
    let fits : i % dword_mod ≡ i = omega arith in
    rw (no_space, no_minus, no_plus, digit1, digit2)
      (ap (λ q. some (as_int q)) (stop _ ∙ ap (λ q. (q, rest)) value)
        ∙ ap (λ q. some (q, rest)) fits)

stop_at_space : (p : List ℕ) (n : ℕ) → digits n (32 ∷ p) ≡ (n, 32 ∷ p)
unfolding digits is_digit
stop_at_space p n = refl

stop_at_colon : (p : List ℕ) (n : ℕ) → digits n (58 ∷ p) ≡ (n, 58 ∷ p)
unfolding digits is_digit
stop_at_colon p n = refl

stop_at_end : (n : ℕ) → digits n [] ≡ (n, [])
unfolding digits
stop_at_end n = refl

-- The name of month `mo` is read as that name, and found as that month.
abbrev Names : ℕ → List ℕ → Type 0
Names mo name =
    (month_name mo ≡ some name)
    × ((rest : List ℕ) → scan_word (32 ∷ (name ++ (32 ∷ rest))) ≡ some (name, 32 ∷ rest))
    × (month_of name ≡ mo)

month_lem : (n : ℕ) → n < 12 → (name : List ℕ) × Names (n + 1) name
unfolding scan_word word_at word_of skip_space is_space find_month stricmp tolower
month_lem zero h = (74 ∷ 97 ∷ 110 ∷ [], (refl, λ rest. refl, refl))
month_lem (suc zero) h = (70 ∷ 101 ∷ 98 ∷ [], (refl, λ rest. refl, refl))
month_lem (suc (suc zero)) h = (77 ∷ 97 ∷ 114 ∷ [], (refl, λ rest. refl, refl))
month_lem (suc (suc (suc zero))) h = (65 ∷ 112 ∷ 114 ∷ [], (refl, λ rest. refl, refl))
month_lem (suc (suc (suc (suc zero)))) h = (77 ∷ 97 ∷ 121 ∷ [], (refl, λ rest. refl, refl))
month_lem (suc (suc (suc (suc (suc zero))))) h = (74 ∷ 117 ∷ 110 ∷ [], (refl, λ rest. refl, refl))
month_lem (suc (suc (suc (suc (suc (suc zero)))))) h =
    (74 ∷ 117 ∷ 108 ∷ [], (refl, λ rest. refl, refl))
month_lem (suc (suc (suc (suc (suc (suc (suc zero))))))) h =
    (65 ∷ 117 ∷ 103 ∷ [], (refl, λ rest. refl, refl))
month_lem (suc (suc (suc (suc (suc (suc (suc (suc zero)))))))) h =
    (83 ∷ 101 ∷ 112 ∷ [], (refl, λ rest. refl, refl))
month_lem (suc (suc (suc (suc (suc (suc (suc (suc (suc zero))))))))) h =
    (79 ∷ 99 ∷ 116 ∷ [], (refl, λ rest. refl, refl))
month_lem (suc (suc (suc (suc (suc (suc (suc (suc (suc (suc zero)))))))))) h =
    (78 ∷ 111 ∷ 118 ∷ [], (refl, λ rest. refl, refl))
month_lem (suc (suc (suc (suc (suc (suc (suc (suc (suc (suc (suc zero))))))))))) h =
    (68 ∷ 101 ∷ 99 ∷ [], (refl, λ rest. refl, refl))
month_lem (suc (suc (suc (suc (suc (suc (suc (suc (suc (suc (suc (suc k)))))))))))) h =
    absurd (omega arith)

scan_int-space : (p : List ℕ) → scan_int (32 ∷ p) ≡ scan_int p
unfolding scan_int skip_space is_space
scan_int-space p = refl

-- The first format reads the text of a date.
format_1-date_text :
    (da mo yr hh mm ss : ℕ) (name : List ℕ)
    → da < 100
    → yr < 100
    → hh < 100
    → mm < 100
    → ss < 100
    → Names mo name
    → format_1 (date_text da name yr hh mm ss)
      ≡ some (record { mo = mo; dd = da; yy = yr; hh = hh; mm = mm; ss = ss }, [])
unfolding format_1 scan_char
format_1-date_text da mo yr hh mm ss name da_fits yr_fits hh_fits mm_fits ss_fits (_, word, found) =
    let p5 = print02d ss [] in
    let p4 = print02d mm (58 ∷ p5) in
    let p3 = print02d hh (58 ∷ p4) in
    let p2 = print02d yr (32 ∷ 32 ∷ p3) in
    rw (
      scan_int-print02d da (32 ∷ (name ++ (32 ∷ p2))) da_fits (stop_at_space _),
      word p2,
      scan_int-space p2,
      scan_int-print02d yr (32 ∷ 32 ∷ p3) yr_fits (stop_at_space _),
      scan_int-space (32 ∷ p3),
      scan_int-space p3,
      scan_int-print02d hh (58 ∷ p4) hh_fits (stop_at_colon _),
      scan_int-print02d mm (58 ∷ p5) mm_fits (stop_at_colon _),
      scan_int-print02d ss [] ss_fits stop_at_end,
      found,
    )

-- A month from 1 on.
month-Names : (mo : ℕ) → 0 < mo → mo ≤ 12 → (name : List ℕ) × Names mo name
month-Names mo low high =
    let back : mo - 1 + 1 ≡ mo = omega (arith, low) in
    subst (λ q. (name : List ℕ) × Names q name) back (month_lem (mo - 1) (omega (arith, low, high)))

-- The bit fields take back what they have given.
stamp_of-fields :
    (st : Stamp) (yy : ℕ)
    → FitsStamp st
    → stamp_of
        (record { mo = st.mo; dd = st.da; yy = yy; hh = st.hh; mm = st.mm; ss = st.ss * 2 })
        (st.yr + 80)
      ≡ st
stamp_of-fields st yy fits =
    let da : st.da % 32 ≡ st.da = omega (arith, fits.da) in
    let mo : st.mo % 16 ≡ st.mo = omega (arith, fits.mo) in
    let yr : sub32 (st.yr + 80) 80 % 128 ≡ st.yr = omega (arith, fits.yr) in
    let ss : st.ss * 2 / 2 % 32 ≡ st.ss = omega (arith, fits.ss) in
    let mm : st.mm % 64 ≡ st.mm = omega (arith, fits.mm) in
    let hh : st.hh % 32 ≡ st.hh = omega (arith, fits.hh) in simp (da, mo, yr, ss, mm, hh)

parse-first :
    (junk : ℕ) (p : List ℕ) (r : Parsed × List ℕ) → format_1 p ≡ some r → parse junk p ≡ some r
unfolding parse
parse-first junk p r e =
    ap (λ q. else_try q (else_try (format_2 p) (else_try (format_3 junk p) (format_4 p)))) e

ascii_date_to_binary-parsed :
    (tim : Tm) (junk c : ℕ) (p : List ℕ) (old : Stamp) (d : Parsed)
    → parse junk (c ∷ p) ≡ some (d, [])
    → ascii_date_to_binary tim junk (c ∷ p) old
      ≡ Option.map (λ y. (c ∷ p, stamp_of d y)) (slide tim.tm_year d.yy)
unfolding ascii_date_to_binary
ascii_date_to_binary-parsed tim junk c p old d e = ap (binary_date tim.tm_year (c ∷ p)) e

-- The text of a date with a month from 1 to 12 and a year from 1981 on, whose fields fit, is read
-- back as that date: sc_time gives a text, and ASCII_Date_To_Binary gives for that text the date.
-- The condition is that the year lies behind the 50th year before the local time and not behind
-- the 50th after it, where `tm_year` of the local time is from 50 up to 2 ^ 29.
pub ascii_date_to_binary-sc_time :
    (st old : Stamp) (tim : Tm) (junk : ℕ)
    → FitsStamp st
    → 0 < st.yr
    → 0 < st.mo
    → st.mo ≤ 12
    → 50 ≤ tim.tm_year
    → tim.tm_year < 2 ^ 29
    → tim.tm_year < st.yr + 130
    → st.yr + 30 ≤ tim.tm_year
    → (text : List ℕ) × (sc_time st ≡ some text)
      × (ascii_date_to_binary tim junk text old ≡ some (text, st))
unfolding sc_time
ascii_date_to_binary-sc_time st old tim junk fits some_year low high big small near far =
    let (name, names) = month-Names st.mo low high in
    let yy = (st.yr + 80) % 100 in
    let text = date_text st.da name yy st.hh st.mm (st.ss * 2) in
    let printed : sc_time st ≡ some text =
      if-false _ _ (ne→== st.yr 0 (λ e. absurd (omega (arith, some_year, e))))
      ∙ ap (Option.map (λ month. date_text st.da month yy st.hh st.mm (st.ss * 2))) names.0 in
    let read =
      format_1-date_text st.da st.mo yy st.hh st.mm (st.ss * 2) name (omega (arith, fits.da))
        (omega arith) (omega (arith, fits.hh)) (omega (arith, fits.mm)) (omega (arith, fits.ss))
        names in
    let (y, slid, y_low, y_high, same) = slide-year tim.tm_year yy big small (omega arith) in
    let year : y ≡ st.yr + 80 = omega (arith, y_low, y_high, same, near, far) in
    let d : Parsed = record {
      mo = st.mo;
      dd = st.da;
      yy = yy;
      hh = st.hh;
      mm = st.mm;
      ss = st.ss * 2;
    } in
    (
      text,
      printed,
      ascii_date_to_binary-parsed tim junk _ _ old d (parse-first junk text (d, []) read)
          ∙ (ap (Option.map (λ q. (text, stamp_of d q))) slid
              ∙ (ap (λ q. some (text, stamp_of d q)) year
                  ∙ ap (λ q. some (text, q)) (stamp_of-fields st yy fits))),
    )
