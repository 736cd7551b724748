-- ===== src/Kludge/RoundTrip.antt =====
-- The way of the kludge lines through CopyToControlBuf and CvtCtrlToKludge.
use mathlib.Core.Option
use xmsgapi.Base.{
  All, Bool, Bool-cases, List, [], ap, append_assoc, arith, false, inl, inr, length, length-append,
  refl, some, suc, sym, true, zero, ℕ, ◌%◌, ◌&&◌, ◌++◌, ◌+◌, ◌-◌, ◌==◌, ◌∙◌, ◌∷◌, ◌≡◌, ◌≤◌,
}
use xmsgapi.Base.Word.{sub32, word_mod}
use xmsgapi.Kludge.{
  ControlBuf, Copied, area_colon, at_kludge, capped, control_buf, copy_loop, copy_to_buf,
  copy_to_control_buf, cr, ctrl_a, cvt_ctrl_to_kludge, is_eol, kludge_line, kludge_loop,
  skip_ctrl_a, skip_eol, starts, strip_last, take_entry, take_line,
}
use xmsgapi.Kludge.Lines.{
  IsBody, IsLine, ctrl_of, line_of, plain-ctrl_a, plain-eol, take_entry-append, take_line-append,
  text_of,
}

-- What the loop writes behind the first ^a.
joined : List (List ℕ) → List ℕ
joined [] = []
joined (l ∷ ls) = l ++ (ctrl_a ∷ joined ls)

-- The count of the loop.
pub counted : List (List ℕ) → ℕ
counted [] = 0
counted (l ∷ ls) = (length l + 1 + counted ls) % word_mod

-- A line that is not empty starts no end of line.
text-no_eol :
    (ls : List (List ℕ)) (body : List ℕ)
    → All IsLine ls
    → IsBody body
    → skip_eol (text_of ls body) ≡ text_of ls body
unfolding text_of line_of
text-no_eol [] body h b = b.no_eol
text-no_eol ([] ∷ ls) body (h, hs) b = absurd (omega (arith, h.some_bytes))
text-no_eol ((c ∷ l) ∷ ls) body (h, hs) b = elim (Bool-cases (starts area_colon (c ∷ l))) [
  | inl e ↦ rw e (unfold skip_eol in rw (plain-eol c h.bytes.0))
  | inr e ↦ rw e (unfold skip_eol in unfold is_eol in refl)
]

both : (x y : Bool) → x && y ≡ true → (x ≡ true) × (y ≡ true)
both x y h = ground (arith, h)

-- A prefix of a line is one of everything that starts with the line.
starts-longer : (what l rest : List ℕ) → starts what l ≡ true → starts what (l ++ rest) ≡ true
unfolding starts
starts-longer [] l rest h = refl
starts-longer (w ∷ ws) [] rest h = absurd (cc)
starts-longer (w ∷ ws) (c ∷ l) rest h =
    let (same, more) = both (w == c) (starts ws l) h in rw (same, starts-longer ws l rest more)

-- A round of the loop on the first line.
line_round :
    (l rest : List ℕ)
    → IsLine l
    → (at_kludge (line_of l rest) ≡ true)
      × (take_line (skip_ctrl_a (line_of l rest)) ≡ (l, cr ∷ rest))
unfolding line_of
line_round [] rest h = absurd (omega (arith, h.some_bytes))
line_round (c ∷ l) rest h = elim (Bool-cases (starts area_colon (c ∷ l))) [
  | inl e ↦
      let with_end : starts area_colon ((c ∷ l) ++ (cr ∷ rest)) ≡ true =
        starts-longer area_colon (c ∷ l) (cr ∷ rest) e in
      let no_ctrl : (c == ctrl_a) ≡ false = plain-ctrl_a c h.bytes.0 in
      rw e (
        unfold at_kludge in rw (with_end, no_ctrl),
        unfold skip_ctrl_a in rw no_ctrl (take_line-append (c ∷ l) rest h.bytes),
      )
  | inr e ↦
      rw e (unfold at_kludge in refl, unfold skip_ctrl_a in take_line-append (c ∷ l) rest h.bytes)
]

copy_loop-text :
    (fuel : ℕ) (ls : List (List ℕ)) (body : List ℕ)
    → length ls ≤ fuel
    → All IsLine ls
    → IsBody body
    → copy_loop fuel (text_of ls body)
      ≡ some (record { out = joined ls; len = counted ls; end = body })
unfolding copy_loop text_of joined counted
copy_loop-text zero [] body enough h b = rw b.no_kludge
copy_loop-text (suc fuel) [] body enough h b = rw b.no_kludge
copy_loop-text zero (l ∷ ls) body enough h b = absurd (omega arith)
copy_loop-text (suc fuel) (l ∷ ls) body enough (h, hs) b =
    let (at, line) = line_round l (text_of ls body) h in
    let skip : skip_eol (cr ∷ text_of ls body) ≡ text_of ls body =
      unfold skip_eol in unfold is_eol in text-no_eol ls body hs b in
    rw (at, line, skip, copy_loop-text fuel ls body (omega arith) hs b)

-- The control information with the ^a that the code takes away.
ctrl_of-joined : (ls : List (List ℕ)) → ctrl_a ∷ joined ls ≡ ctrl_of ls ++ (ctrl_a ∷ [])
unfolding joined ctrl_of
ctrl_of-joined [] = refl
ctrl_of-joined (l ∷ ls) =
    ap (λ q. ctrl_a ∷ q)
      (ap (λ q. l ++ q) (ctrl_of-joined ls) ∙ sym (append_assoc l (ctrl_of ls) (ctrl_a ∷ [])))

pub strip_last-append : (xs : List ℕ) → strip_last (xs ++ (ctrl_a ∷ [])) ≡ xs
unfolding strip_last
strip_last-append [] = refl
strip_last-append (x ∷ []) = refl
strip_last-append (x ∷ y ∷ xs) = ap (λ q. x ∷ q) (strip_last-append (y ∷ xs))

lines-le : (ls : List (List ℕ)) (body : List ℕ) → length ls ≤ length (text_of ls body)
unfolding text_of line_of
lines-le [] body = omega arith
lines-le (l ∷ ls) body =
    let rest = text_of ls body in
    let far : length ls ≤ length rest = lines-le ls body in
    let long = length-append l (cr ∷ rest) in
    elim (Bool-cases (starts area_colon l)) [
      | inl e ↦ rw e (omega (arith, far, long))
      | inr e ↦ rw e (omega (arith, far, long))
    ]

pub copy_to_buf-text :
    (ls : List (List ℕ)) (body : List ℕ)
    → All IsLine ls
    → IsBody body
    → copy_to_buf (text_of ls body)
      ≡ some (record { out = ctrl_of ls; len = (counted ls + 2) % word_mod; end = body })
unfolding copy_to_buf
copy_to_buf-text ls body h b =
    let text = text_of ls body in
    let copied : Copied = record { out = joined ls; len = counted ls; end = body } in
    let ran : copy_loop (length text) (skip_eol text) ≡ some copied =
      rw (text-no_eol ls body h b) (copy_loop-text (length text) ls body (lines-le ls body) h b) in
    let out : strip_last (ctrl_a ∷ joined ls) ≡ ctrl_of ls =
      ap strip_last (ctrl_of-joined ls) ∙ strip_last-append (ctrl_of ls) in
    ap (Option.map capped) ran
    ∙ ap (λ q. some (record { out = q; len = (counted ls + 2) % word_mod; end = body })) out

-- CvtCtrlToKludge writes the lines of a text.
kludge_line-line_of : (l rest : List ℕ) → kludge_line l rest ≡ line_of l rest
unfolding kludge_line line_of
kludge_line-line_of l rest = refl

kludge_loop-ctrl_of :
    (fuel : ℕ) (ls : List (List ℕ))
    → length ls ≤ fuel
    → All IsLine ls
    → kludge_loop fuel (ctrl_of ls) ≡ some (text_of ls [])
unfolding kludge_loop ctrl_of text_of
kludge_loop-ctrl_of fuel [] enough h = refl
kludge_loop-ctrl_of fuel ([] ∷ ls) enough (h, hs) = absurd (omega (arith, h.some_bytes))
kludge_loop-ctrl_of zero ((c ∷ l) ∷ ls) enough (h, hs) = absurd (omega arith)
kludge_loop-ctrl_of (suc fuel) ((c ∷ l) ∷ ls) enough (h, hs) =
    let entry : take_entry ((c ∷ l) ++ ctrl_of ls) ≡ (c ∷ l, ctrl_of ls) =
      take_entry-append (c ∷ l) ls h.bytes in
    rw (
      entry,
      kludge_loop-ctrl_of fuel ls (omega arith) hs,
      kludge_line-line_of (c ∷ l) (text_of ls []),
    )

ctrl-le : (ls : List (List ℕ)) → length ls ≤ length (ctrl_of ls)
unfolding ctrl_of
ctrl-le [] = omega arith
ctrl-le (l ∷ ls) = omega (arith, ctrl-le ls, length-append l (ctrl_of ls))

text-append : (ls : List (List ℕ)) (body : List ℕ) → text_of ls [] ++ body ≡ text_of ls body
unfolding text_of line_of
text-append [] body = refl
text-append (l ∷ ls) body =
    let line : (l ++ (cr ∷ text_of ls [])) ++ body ≡ l ++ (cr ∷ text_of ls body) =
      append_assoc l (cr ∷ text_of ls []) body ∙ ap (λ q. l ++ (cr ∷ q)) (text-append ls body) in
    elim (Bool-cases (starts area_colon l)) [
      | inl e ↦ rw e line
      | inr e ↦ rw e (ap (λ q. ctrl_a ∷ q) line)
    ]

-- CopyToControlBuf takes the kludge lines in front of a text apart from the text, and
-- CvtCtrlToKludge makes the same lines of them again. The lines are not empty and hold no zero,
-- ^a or end of line. In the text a line that starts with "AREA:" has no ^a, every other line has
-- one, and each ends with one carriage return. The text behind them starts with no kludge and no
-- end of line.
pub cvt_ctrl_to_kludge-copy_to_control_buf :
    (ls : List (List ℕ)) (body : List ℕ) (len : ℕ)
    → All IsLine ls
    → IsBody body
    → (b : ControlBuf) × (copy_to_control_buf (text_of ls body) len ≡ some b)
      × (b.cbuf ≡ ctrl_of ls)
      × (b.newtext ≡ body)
      × (b.left ≡ sub32 len (length (text_of ls body) - length body))
      × (kludges : List ℕ) × (cvt_ctrl_to_kludge b.cbuf ≡ some kludges)
      × (kludges ++ b.newtext ≡ text_of ls body)
unfolding cvt_ctrl_to_kludge copy_to_control_buf
cvt_ctrl_to_kludge-copy_to_control_buf ls body len h b =
    let text = text_of ls body in
    let copied : Copied = record {
      out = ctrl_of ls;
      len = (counted ls + 2) % word_mod;
      end = body;
    } in
    (
      control_buf text len copied,
      ap (Option.map (control_buf text len)) (copy_to_buf-text ls body h b),
      refl,
      refl,
      refl,
      text_of ls [],
      kludge_loop-ctrl_of (length (ctrl_of ls)) ls (ctrl-le ls) h,
      text-append ls body,
    )
