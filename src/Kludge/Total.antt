-- ===== src/Kludge/Total.antt =====
-- CopyToControlBuf on any text: it ends, and what it counts.
use xmsgapi.Base.{
  Bool, Bool-cases, List, [], ap, append_assoc, arith, false, inl, inr, length, length-append, refl,
  some, suc, sym, true, zero, ℕ, ◌%◌, ◌&&◌, ◌++◌, ◌+◌, ◌<◌, ◌==◌, ◌||◌, ◌∙◌, ◌∷◌, ◌≡◌, ◌≤◌,
}
use xmsgapi.Base.Word.{word_mod}
use xmsgapi.Kludge.{
  ControlBuf, Copied, at_kludge, capped, control_buf, copy_loop, copy_to_buf, copy_to_control_buf,
  ctrl_a, is_eol, safe_clen, skip_ctrl_a, skip_eol, starts, strip_last, take_line, with_line,
}
use xmsgapi.Kludge.RoundTrip.{strip_last-append}

-- The line ends in front of a text end somewhere.
skip_eol-le : (p : List ℕ) → length (skip_eol p) ≤ length p
unfolding skip_eol
skip_eol-le [] = omega arith
skip_eol-le (c ∷ p) = elim (Bool-cases (is_eol c)) [
  | inl e ↦ rw e (omega (arith, skip_eol-le p))
  | inr e ↦ rw e (omega arith)
]

take_line-le : (p : List ℕ) → length (take_line p).1 ≤ length p
unfolding take_line
take_line-le [] = omega arith
take_line-le (c ∷ p) = elim (Bool-cases (is_eol c)) [
  | inl e ↦ rw e (omega arith)
  | inr e ↦ rw e (omega (arith, take_line-le p))
]

letter_a :
    (c : ℕ) (x : Bool)
    → c == ctrl_a || (65 == c && x) ≡ true
    → (c == ctrl_a) ≡ false
    → is_eol c ≡ false
unfolding is_eol
letter_a c x h e = ground (arith, h, e)

-- A round passes over the ^a, or over a letter of "AREA:" at least.
round-lt : (p : List ℕ) → at_kludge p ≡ true → length (take_line (skip_ctrl_a p)).1 < length p
unfolding at_kludge skip_ctrl_a
round-lt [] h = absurd cc
round-lt (c ∷ p) h = elim (Bool-cases (c == ctrl_a)) [
  | inl e ↦ rw e (omega (arith, take_line-le p))
  | inr e ↦
      let no_eol : is_eol c ≡ false =
        letter_a c (unfold starts in starts (82 ∷ 69 ∷ 65 ∷ 58 ∷ []) p) (unfold starts in h) e in
      rw e (unfold take_line in rw no_eol (omega (arith, take_line-le p)))
]

-- What the loop has written: it ends with a ^a, or is empty, and its length is counted.
record IsCopy (p : List ℕ) (r : Copied) : Type 0 where
  init : List ℕ
  last : ctrl_a ∷ r.out ≡ init ++ (ctrl_a ∷ [])
  count : r.len ≡ length r.out % word_mod
  behind : length r.end ≤ length p

with_line-IsCopy :
    (p q l : List ℕ) (r : Copied) → IsCopy q r → length q ≤ length p → IsCopy p (with_line l r)
with_line-IsCopy p q l r h k = record {
  init = ctrl_a ∷ (l ++ h.init);
  last = ap (λ x. ctrl_a ∷ x) (ap (λ x. l ++ x) h.last ∙ sym (append_assoc l h.init (ctrl_a ∷ [])));
  count = omega (arith, h.count, length-append l (ctrl_a ∷ r.out));
  behind = omega (arith, h.behind);
}

copy_loop-total :
    (fuel : ℕ) (p : List ℕ)
    → length p ≤ fuel
    → (r : Copied) × (copy_loop fuel p ≡ some r) × IsCopy p r
unfolding copy_loop
copy_loop-total zero [] enough = (
  record { out = []; len = 0; end = [] },
  unfold at_kludge in refl,
  record { init = []; last = refl; count = refl; behind = omega arith },
)
copy_loop-total zero (c ∷ p) enough = absurd (omega arith)
copy_loop-total (suc fuel) p enough = elim (Bool-cases (at_kludge p)) [
  | inl e ↦
      let line = take_line (skip_ctrl_a p) in
      let rest = skip_eol line.1 in
      let short : length rest < length p = omega (arith, round-lt p e, skip_eol-le line.1) in
      let (r, ran, h) = copy_loop-total fuel rest (omega arith) in
      (with_line line.0 r, rw (e, ran), with_line-IsCopy p rest line.0 r h (omega arith))
  | inr e ↦ (
    record { out = []; len = 0; end = p },
    rw e,
    record { init = []; last = refl; count = refl; behind = omega arith },
  )
]

-- For every text, where `malloc` gives the memory, CopyToControlBuf ends: the bytes that it has
-- allocated are the length of the control information with the last ^a and the zero behind it,
-- modulo 2 ^ 16, and 20 more, and the text that it leaves is not longer than the one it was given.
pub copy_to_control_buf-fits :
    (txt : List ℕ) (len : ℕ)
    → (b : ControlBuf) × (copy_to_control_buf txt len ≡ some b)
      × (b.room ≡ (length b.cbuf + 2) % word_mod + safe_clen)
      × (length b.newtext ≤ length txt)
unfolding copy_to_control_buf copy_to_buf
copy_to_control_buf-fits txt len =
    let far = skip_eol-le txt in
    let (r, ran, h) = copy_loop-total (length txt) (skip_eol txt) far in
    let last : strip_last (ctrl_a ∷ r.out) ≡ h.init =
      ap strip_last h.last ∙ strip_last-append h.init in
    let long : length h.init ≡ length r.out =
      omega (arith, ap length h.last, length-append h.init (ctrl_a ∷ [])) in
    let room : (r.len + 2) % word_mod + safe_clen
        ≡ (length (strip_last (ctrl_a ∷ r.out)) + 2) % word_mod + safe_clen =
      rw last (omega (arith, h.count, long)) in
    (control_buf txt len (capped r), rw ran, room, omega (arith, h.behind, far))
