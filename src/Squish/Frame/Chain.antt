-- ===== src/Squish/Frame/Chain.antt =====
-- Doubly linked chains of frames, for the free frames and for the messages: what it means that
-- the links of the frames in a file run through a list of cells.
use xmsgapi.Base.{All, All-append, All-split, List, [], inl, inr, refl, ℕ, ◌++◌, ◌∷◌, ◌≡◌}
use xmsgapi.Squish.Frame.Heap.{Apart, FrameAt, FrameAt-Apart, with_hdr}
use xmsgapi.Squish.Header.{Sqhdr}

-- The offset and the `frame_length` of each frame, in order.
abbrev pub Cells : Type 0
Cells = List (ℕ × ℕ)

-- The frame at `fo` heads a chain that is entered from `prev` by the link `cur`.
pub record CellAt (ft : ℕ) (b : ℕ → ℕ) (size fo_end prev cur fo n : ℕ) (h : Sqhdr) : Type 0 where
  pub frame : FrameAt b size fo_end fo h
  pub here : cur ≡ fo
  pub kind : h.frame_type ≡ ft
  pub back : h.prev_frame ≡ prev
  pub length : h.frame_length ≡ n

abbrev pub ApartFrom : ℕ → Cells → Type 0
ApartFrom fo xs = All (λ c. Apart fo c.0) xs

-- No two frames of the cells overlap in their headers.
abbrev pub Separate : Cells → Type 0
Separate [] = Unit
Separate ((fo, _) ∷ xs) = ApartFrom fo xs × Separate xs

module _ (ft : ℕ) (b : ℕ → ℕ) (size fo_end : ℕ) where
  -- From `cur` the `next_frame` links lead through the cells to `stop`, the `prev_frame` links
  -- lead back to `prev`, and `last` is the last frame (or `prev`, if there is none).
  abbrev pub Linked : (prev cur last stop : ℕ) → Cells → Type 0
  Linked prev cur last stop [] = (cur ≡ stop) × (last ≡ prev)
  Linked prev cur last stop ((fo, len) ∷ xs) =
      (h : Sqhdr) × CellAt ft b size fo_end prev cur fo len h × Linked fo h.next_frame last stop xs

  pub Linked-split :
      (xs ys : Cells) (p c l s : ℕ)
      → Linked p c l s (xs ++ ys)
      → (m : ℕ) × (k : ℕ) × Linked p c m k xs × Linked m k l s ys
  Linked-split [] ys p c l s ch = (p, c, (refl, refl), ch)
  Linked-split ((fo, len) ∷ xs) ys p c l s (h, at, ch) =
      let (m, k, front, back) = Linked-split xs ys fo h.next_frame l s ch in
      (m, k, (h, at, front), back)

  pub Linked-join :
      (xs ys : Cells) (p c m k l s : ℕ)
      → Linked p c m k xs
      → Linked m k l s ys
      → Linked p c l s (xs ++ ys)
  Linked-join [] ys p c m k l s (e, d) back = rw (e, ← d) back
  Linked-join ((fo, len) ∷ xs) ys p c m k l s (h, at, front) back =
      (h, at, Linked-join xs ys fo h.next_frame m k l s front back)

module _ (ft : ℕ) (b : ℕ → ℕ) (size fo_end : ℕ) where
  CellAt-Apart :
      {p c g n : ℕ} {k : Sqhdr} (fo : ℕ) (h : Sqhdr)
      → CellAt ft b size fo_end p c g n k
      → Apart fo g
      → CellAt ft (with_hdr b fo h) size fo_end p c g n k
  CellAt-Apart fo h at apart = record {
    frame = FrameAt-Apart b fo h at.frame apart;
    here = at.here;
    kind = at.kind;
    back = at.back;
    length = at.length;
  }

  -- A chain survives a header written apart from its frames.
  pub Linked-apart :
      (xs : Cells) (p c l s fo : ℕ) (h : Sqhdr)
      → Linked ft b size fo_end p c l s xs
      → ApartFrom fo xs
      → Linked ft (with_hdr b fo h) size fo_end p c l s xs
  Linked-apart [] p c l s fo h ch apart = ch
  Linked-apart ((g, n) ∷ xs) p c l s fo h (k, at, ch) (a, apart) =
      (k, CellAt-Apart fo h at a, Linked-apart xs g k.next_frame l s fo h ch apart)

pub Apart-sym : (fo g : ℕ) → Apart fo g → Apart g fo
Apart-sym fo g (inl h) = inr h
Apart-sym fo g (inr h) = inl h

-- A frame apart from all cells of a list is apart from the first of them, and so back.
pub Separate-append :
    (xs ys : Cells)
    → Separate xs
    → Separate ys
    → All (λ c. ApartFrom c.0 ys) xs
    → Separate (xs ++ ys)
Separate-append [] ys h k cross = k
Separate-append ((fo, n) ∷ xs) ys (a, h) k (c, cross) =
    (All-append (λ d. Apart fo d.0) xs ys a c, Separate-append xs ys h k cross)

pub Separate-split :
    (xs ys : Cells)
    → Separate (xs ++ ys)
    → Separate xs × Separate ys × All (λ c. ApartFrom c.0 ys) xs
Separate-split [] ys h = (tt, h, tt)
Separate-split ((fo, n) ∷ xs) ys (a, h) =
    let (l, r) = All-split (λ d. Apart fo d.0) xs ys a in
    let (sx, sy, cross) = Separate-split xs ys h in ((l, sx), sy, (r, cross))

-- The cells of `xs`, each apart from the only cell of a list.
pub ApartFrom-of_cross :
    (xs : Cells) (fo n : ℕ) → All (λ c. ApartFrom c.0 ((fo, n) ∷ [])) xs → ApartFrom fo xs
ApartFrom-of_cross [] fo n h = tt
ApartFrom-of_cross ((g, m) ∷ xs) fo n ((a, _), h) = (Apart-sym g fo a, ApartFrom-of_cross xs fo n h)

pub cross-of_ApartFrom :
    (xs : Cells) (fo n : ℕ) → ApartFrom fo xs → All (λ c. ApartFrom c.0 ((fo, n) ∷ [])) xs
cross-of_ApartFrom [] fo n h = tt
cross-of_ApartFrom ((g, m) ∷ xs) fo n (a, h) =
    ((Apart-sym fo g a, tt), cross-of_ApartFrom xs fo n h)

pub cross-heads :
    (ys zs : Cells) (fo n : ℕ)
    → All (λ c. ApartFrom c.0 ((fo, n) ∷ zs)) ys
    → ApartFrom fo ys × All (λ c. ApartFrom c.0 zs) ys
cross-heads [] zs fo n h = (tt, tt)
cross-heads ((g, m) ∷ ys) zs fo n ((a, apart), h) =
    let (l, r) = cross-heads ys zs fo n h in ((Apart-sym g fo a, l), (apart, r))

pub cross_flip : (ys zs : Cells) → All (λ c. ApartFrom c.0 zs) ys → All (λ c. ApartFrom c.0 ys) zs
cross_flip ys [] h = tt
cross_flip ys ((fo, n) ∷ zs) h = let (l, r) = cross-heads ys zs fo n h in (l, cross_flip ys zs r)

-- Each frame apart from the cells is in `b'` what it is in `b`.
abbrev pub Keeps : Cells → (b b' : ℕ → ℕ) (size fo_end : ℕ) → Type 0
Keeps xs b b' size fo_end =
    (g : ℕ) (k : Sqhdr) → ApartFrom g xs → FrameAt b size fo_end g k → FrameAt b' size fo_end g k

-- A chain survives a change that keeps the frames apart from other cells.
pub Linked-Keeps :
    (ft : ℕ) (b b' : ℕ → ℕ) (size fo_end : ℕ) (ys xs : Cells) (p c l s : ℕ)
    → Linked ft b size fo_end p c l s xs
    → Keeps ys b b' size fo_end
    → All (λ d. ApartFrom d.0 ys) xs
    → Linked ft b' size fo_end p c l s xs
Linked-Keeps ft b b' size fo_end ys [] p c l s ch keeps apart = ch
Linked-Keeps ft b b' size fo_end ys ((g, n) ∷ xs) p c l s (k, at, ch) keeps (a, apart) = (
  k,
  record {
    frame = keeps g k a at.frame;
    here = at.here;
    kind = at.kind;
    back = at.back;
    length = at.length;
  },
  Linked-Keeps ft b b' size fo_end ys xs g k.next_frame l s ch keeps apart,
)

-- A cell in the middle, apart from both sides, which are apart from each other.
pub Separate-middle :
    (ys zs : Cells) (fo n : ℕ)
    → Separate (ys ++ ((fo, n) ∷ zs))
    → Separate ys × Separate zs × ApartFrom fo ys × ApartFrom fo zs × All (λ c. ApartFrom c.0 zs) ys
Separate-middle ys zs fo n sep =
    let (sy, (fo_zs, sz), cross) = Separate-split ys ((fo, n) ∷ zs) sep in
    let (fo_ys, ys_zs) = cross-heads ys zs fo n cross in (sy, sz, fo_ys, fo_zs, ys_zs)
