-- ===== src/Date/Window.antt =====
-- The sliding window for years of two digits in stamp.c.
use xmsgapi.Base.{
  Bool-cases, ap, arith, if-false, if-true, inl, inr, ltb, ltb_false→le, ltb→lt, refl, some, suc,
  zero, ℕ, ◌%◌, ◌*◌, ◌+◌, ◌-◌, ◌<◌, ◌^◌, ◌∙◌, ◌≡◌, ◌≤◌,
}
use xmsgapi.Base.Word.{add32, slt-le, slt-lt, sub32}
use xmsgapi.Date.{lower_loop, raise_loop, slide, window_rounds}

raise_loop-year :
    (fuel lo m yy : ℕ)
    → m < 2 ^ 30
    → lo + 100 ≤ m
    → yy ≤ m
    → lo < yy + 100 * fuel
    → (y : ℕ) × (raise_loop fuel lo yy ≡ some y) × (lo < y) × (y ≤ m) × (y % 100 ≡ yy % 100)
unfolding raise_loop
raise_loop-year zero lo m yy hm hl hy enough =
    (yy, rw (slt-lt lo yy (omega arith) (omega arith)), omega arith, hy, refl)
raise_loop-year (suc fuel) lo m yy hm hl hy enough = elim (Bool-cases (ltb lo yy)) [
  | inl e ↦ let less = ltb→lt lo yy e in (yy, rw (slt-lt lo yy (omega arith) less), less, hy, refl)
  | inr e ↦
      let le = ltb_false→le lo yy e in
      let sum : add32 yy 100 ≡ yy + 100 = omega (arith, le) in
      let (y, ran, low, high, same) =
        raise_loop-year fuel lo m (yy + 100) hm hl (omega (arith, le)) (omega arith) in
      (
        y,
        if-false _ _ (slt-le lo yy (omega arith) le) ∙ (ap (raise_loop fuel lo) sum ∙ ran),
        low,
        high,
        omega (arith, same),
      )
]

lower_loop-year :
    (fuel lo yy : ℕ)
    → lo + 100 < 2 ^ 30
    → yy < 2 ^ 30
    → lo < yy
    → yy ≤ lo + 100 + 100 * fuel
    → (y : ℕ) × (lower_loop fuel (lo + 100) yy ≡ some y)
      × (lo < y)
      × (y ≤ lo + 100)
      × (y % 100 ≡ yy % 100)
unfolding lower_loop
lower_loop-year zero lo yy hl hy low enough =
    (yy, rw (slt-le (lo + 100) yy (omega arith) (omega arith)), low, omega arith, refl)
lower_loop-year (suc fuel) lo yy hl hy low enough = elim (Bool-cases (ltb (lo + 100) yy)) [
  | inl e ↦
      let less = ltb→lt (lo + 100) yy e in
      let left : sub32 yy 100 ≡ yy - 100 = omega (arith, less) in
      let (y, ran, low', high, same) =
        lower_loop-year fuel lo (yy - 100) hl (omega arith) (omega (arith, less))
          (omega (arith, less)) in
      (
        y,
        if-true _ _ (slt-lt (lo + 100) yy (omega arith) less)
            ∙ (ap (lower_loop fuel (lo + 100)) left ∙ ran),
        low',
        high,
        omega (arith, less, same),
      )
  | inr e ↦
      let le = ltb_false→le (lo + 100) yy e in
      (yy, rw (slt-le (lo + 100) yy (omega arith) le), low, le, refl)
]

slides :
    (tm_year yy lo y1 y : ℕ)
    → sub32 tm_year 50 ≡ lo
    → add32 tm_year 50 ≡ lo + 100
    → raise_loop window_rounds lo yy ≡ some y1
    → lower_loop window_rounds (lo + 100) y1 ≡ some y
    → slide tm_year yy ≡ some y
unfolding slide
slides tm_year yy lo y1 y low high raised lowered = rw (low, high, raised, lowered)

-- For a local time from 1950 on, up to `tm_year` 2 ^ 29, and a year that is not negative and below
-- 2 ^ 29, the two loops on the year end: they give the only year of the same last two digits that
-- is behind the 50th year before the local time and not behind the 50th after it.
pub slide-year :
    (tm_year yy : ℕ)
    → 50 ≤ tm_year
    → tm_year < 2 ^ 29
    → yy < 2 ^ 29
    → (y : ℕ) × (slide tm_year yy ≡ some y)
      × (tm_year < y + 50)
      × (y ≤ tm_year + 50)
      × (y % 100 ≡ yy % 100)
slide-year tm_year yy big small hy =
    let lo = tm_year - 50 in
    let low : sub32 tm_year 50 ≡ lo = omega arith in
    let high : add32 tm_year 50 ≡ lo + 100 = omega arith in
    let (y1, ran1, low1, high1, same1) =
      raise_loop-year window_rounds lo (2 ^ 29 + 100) yy (omega arith) (omega arith) (omega arith)
        (omega arith) in
    let (y, ran, low2, high2, same2) =
      lower_loop-year window_rounds lo y1 (omega arith) (omega (arith, high1)) low1
        (omega (arith, high1)) in
    (
      y,
      slides tm_year yy lo y1 y low high ran1 ran,
      omega (arith, low2),
      omega (arith, high2),
      omega (arith, same1, same2),
    )
