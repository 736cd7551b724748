-- ===== src/Kludge/Lines.antt =====
-- Kludge lines, the two forms of a list of them, and the scans over one line.
use xmsgapi.Base.{
  All, Bool, Bool-cases, List, [], ap, arith, false, if◌then◌else◌, inl, inr, length, ne→==, not,
  refl, true, ℕ, ◌&&◌, ◌++◌, ◌<◌, ◌==◌, ◌∷◌, ◌≡◌, ◌⊎◌,
}
use xmsgapi.Kludge.{
  area_colon, at_kludge, cr, ctrl_a, is_eol, skip_eol, starts, take_entry, take_line,
}

-- A byte that stands within a line.
abbrev pub plain : ℕ → Bool
plain c = not (c == 0) && (not (c == ctrl_a) && not (is_eol c))

-- A kludge without its ^a: a line that is not empty.
pub record IsLine (l : List ℕ) : Type 0 where
  pub bytes : All (λ c. plain c ≡ true) l
  pub some_bytes : 0 < length l

-- A line as it stands in a text, with its end and what follows: a plain one if it starts with
-- "AREA:", and one with a ^a in front otherwise.
unfoldable pub line_of : List ℕ → List ℕ → List ℕ
line_of l rest = if starts area_colon l then l ++ (cr ∷ rest) else ctrl_a ∷ (l ++ (cr ∷ rest))

-- The lines in front of the text `body`: each with its ^a, but for one that starts with "AREA:".
unfoldable pub text_of : List (List ℕ) → List ℕ → List ℕ
text_of [] body = body
text_of (l ∷ ls) body = line_of l (text_of ls body)

-- The control information of the lines.
unfoldable pub ctrl_of : List (List ℕ) → List ℕ
ctrl_of [] = []
ctrl_of (l ∷ ls) = ctrl_a ∷ (l ++ ctrl_of ls)

-- Text that follows the kludges: it starts with no end of line, no ^a and no "AREA:".
pub record IsBody (p : List ℕ) : Type 0 where
  pub no_kludge : at_kludge p ≡ false
  pub no_eol : skip_eol p ≡ p

pub plain-eol : (c : ℕ) → plain c ≡ true → is_eol c ≡ false
plain-eol c h = elim (Bool-cases (is_eol c)) [ inl e ↦ absurd (clash c e h) | inr e ↦ e ]
  where
    clash : (c : ℕ) → is_eol c ≡ true → plain c ≡ true → ⊥
    clash c e h = ground (arith, e, h)

pub plain-ctrl_a : (c : ℕ) → plain c ≡ true → (c == ctrl_a) ≡ false
plain-ctrl_a c h = ground (arith, h)

-- A line, in front of its end.
pub take_line-append :
    (l rest : List ℕ) → All (λ c. plain c ≡ true) l → take_line (l ++ (cr ∷ rest)) ≡ (l, cr ∷ rest)
unfolding take_line
take_line-append [] rest h = unfold is_eol in refl
take_line-append (c ∷ l) rest (h, hs) = rw (take_line-append l rest hs, plain-eol c h)

-- An entry, in front of the next one.
pub take_entry-append :
    (l : List ℕ) (ls : List (List ℕ))
    → All (λ c. plain c ≡ true) l
    → take_entry (l ++ ctrl_of ls) ≡ (l, ctrl_of ls)
unfolding take_entry ctrl_of
take_entry-append [] [] h = refl
take_entry-append [] (l ∷ ls) h = refl
take_entry-append (c ∷ l) ls (h, hs) = rw (take_entry-append l ls hs, plain-ctrl_a c h)

plain-ne : (w c : ℕ) → plain w ≡ true → plain c ≡ false → (w == c) ≡ false
plain-ne w c h k = ne→== w c (λ e. let same : plain w ≡ plain c = ap plain e in cc)

-- A plain prefix shows within the line or not at all.
pub starts-append :
    (what l rest : List ℕ)
    → All (λ c. plain c ≡ true) what
    → (rest ≡ []) ⊎ ((c : ℕ) × (p : List ℕ) × (rest ≡ c ∷ p) × (plain c ≡ false))
    → starts what (l ++ rest) ≡ starts what l
unfolding starts
starts-append [] l rest h cut = refl
starts-append (w ∷ ws) [] rest (h, hs) (inl e) = rw e
starts-append (w ∷ ws) [] rest (h, hs) (inr (c, p, e, k)) = rw (e, plain-ne w c h k)
starts-append (w ∷ ws) (c ∷ l) rest (h, hs) cut =
    ap (λ b. w == c && b) (starts-append ws l rest hs cut)
