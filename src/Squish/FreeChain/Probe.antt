-- ===== src/Squish/FreeChain/Probe.antt =====
-- _SquishProbeFreeChain of sq_write.c on a free chain in order.
use mathlib.Core.Path.{ap₂}
use xmsgapi.Base.{
  All, Bool, Bool-cases, Option, [], ap, arith, eq→==, false, if◌then◌else◌, inl, inr, leb, ne→==,
  none, refl, some, suc, true, zero, ℕ, ◌++◌, ◌+◌, ◌<◌, ◌==◌, ◌∙◌, ◌∷◌, ◌≡◌, ◌≢◌, ◌≤◌, ◌⊎◌,
}
use xmsgapi.Base.Cmd.{Run, ok, stuck}
use xmsgapi.Squish.Area.{Area}
use xmsgapi.Squish.BaseHeader.{sqbase_size}
use xmsgapi.Squish.Frame.Chain.{ApartFrom, CellAt, Cells, Linked, Separate}
use xmsgapi.Squish.Frame.Heap.{Holds, past}
use xmsgapi.Squish.Frame.Laws.{squish_read_hdr-ok}
use xmsgapi.Squish.FreeChain.{free_frame_is_bad, probe_loop, squish_probe_free_chain}
use xmsgapi.Squish.FreeChain.Ends.{squish_probe_free_chain-ne-stuck}
use xmsgapi.Squish.FreeChain.Inv.{IsFreeChain}
use xmsgapi.Squish.Header.{Sqhdr, frame_free, null_frame, sqhdr_size}

-- The specification: the first cell of at least `dw_len` bytes.
unfoldable pub first_fit : ℕ → Cells → Option (ℕ × ℕ)
first_fit dw_len [] = none
first_fit dw_len ((fo, n) ∷ xs) = if leb dw_len n then some (fo, n) else first_fit dw_len xs

-- It is a cell of the list, it is long enough, and those before it are too short.
pub first_fit-split :
    (dw_len : ℕ) (xs : Cells) (fo n : ℕ)
    → first_fit dw_len xs ≡ some (fo, n)
    → (ys : Cells) × (zs : Cells) × (xs ≡ ys ++ ((fo, n) ∷ zs))
      × (dw_len ≤ n)
      × All (λ c. c.1 < dw_len) ys
unfolding first_fit
first_fit-split dw_len [] fo n e = cc
first_fit-split dw_len ((g, m) ∷ xs) fo n e = elim (Bool-cases (leb dw_len m)) [
  | inl long ↦
      let same : ◌≡◌ {A = Option (ℕ × ℕ)} (some (g, m)) (some (fo, n)) = rw long at e in
      let f : g ≡ fo = cc in
      let k : m ≡ n = cc in ([], xs, ap₂ (λ u v. (u, v) ∷ xs) f k, rw (← k) (ground arith), tt)
  | inr short ↦
      let (ys, zs, s, enough, before) = first_fit-split dw_len xs fo n (rw short at e) in
      ((g, m) ∷ ys, zs, ap (λ l. (g, m) ∷ l) s, enough, (ground arith, before))
]

abbrev pub at_pos : ℕ → Area → Area
at_pos p a = record a { sfd = record (a.sfd) { pos = p } }

-- The outcome of a search whose answer is known: only the position in the file moves.
abbrev pub Answers : Area → Option (ℕ × ℕ) → Run Area (Option (ℕ × Sqhdr)) → Type 0
Answers a none r = (p : ℕ) × (r ≡ ok none (at_pos p a))
Answers a (some (fo, n)) r =
    (p : ℕ) × (h : Sqhdr) × Holds a fo h
    × (h.frame_length ≡ n)
    × (r ≡ ok (some (fo, h)) (at_pos p a))

next-ne :
    (b : ℕ → ℕ) (size fo_end fo next last : ℕ) (xs : Cells)
    → Linked frame_free b size fo_end fo next last null_frame xs
    → ApartFrom fo xs
    → sqbase_size ≤ fo
    → next ≢ fo
next-ne b size fo_end fo next last [] (e, _) apart base = omega arith
next-ne b size fo_end fo next last ((g, n) ∷ xs) (h, c, _) (apart, _) base =
    let e = c.here in ground arith

good_cell :
    (b : ℕ → ℕ) (size fo_end prev cur fo n : ℕ) (h : Sqhdr)
    → CellAt frame_free b size fo_end prev cur fo n h
    → h.next_frame ≢ fo
    → free_frame_is_bad prev fo h ≡ false
unfolding free_frame_is_bad
good_cell b size fo_end prev cur fo n h c ne = let k = c.kind in let p = c.back in ground arith

probe_loop-first_fit :
    (fuel dw_len prev cur last : ℕ) (a : Area) (xs : Cells)
    → Linked frame_free a.sfd.bytes a.sfd.size a.fo_end prev cur last null_frame xs
    → Separate xs
    → Answers a (first_fit dw_len xs) (probe_loop fuel dw_len prev cur a)
      ⊎ (probe_loop fuel dw_len prev cur a ≡ stuck)
unfolding probe_loop first_fit
probe_loop-first_fit zero dw_len prev cur last a xs ch sep = inr refl
probe_loop-first_fit (suc fuel) dw_len prev cur last a [] (e, _) sep =
    inl (a.sfd.pos, rw (eq→== cur null_frame e))
probe_loop-first_fit (suc fuel) dw_len prev cur last a ((fo, n) ∷ xs) (h, c, ch) (apart, sep) =
    let here : cur ≡ fo = c.here in
    let more : (fo == null_frame) ≡ false = ne→== fo null_frame (omega (arith, c.frame.base)) in
    let good =
      good_cell a.sfd.bytes a.sfd.size a.fo_end prev cur fo n h c
        (next-ne a.sfd.bytes a.sfd.size a.fo_end fo h.next_frame last xs ch apart c.frame.base) in
    let as_read : (t : Bool) → leb dw_len n ≡ t → leb dw_len h.frame_length ≡ t =
      λ t e. ap (leb dw_len) c.length ∙ e in
    rw (here, more, squish_read_hdr-ok a fo c.frame, good)
      (elim (Bool-cases (leb dw_len n)) [
        | inl long ↦
            rw (long, as_read true long) (inl (fo + sqhdr_size, h, c.frame, c.length, refl))
        | inr short ↦
            rw (short, as_read false short)
              (probe_loop-first_fit fuel dw_len fo h.next_frame last (past fo a) xs ch sep)
      ])

-- _SquishProbeFreeChain on a free chain in order returns the first frame of the chain that is long
-- enough, with its header, or no frame if all are too short. Only the position in the data file
-- moves.
pub squish_probe_free_chain-first_fit :
    (dw_len : ℕ) (a : Area) (xs : Cells)
    → IsFreeChain a xs
    → Answers a (first_fit dw_len xs) (squish_probe_free_chain dw_len a)
squish_probe_free_chain-first_fit dw_len a xs inv = elim found [
  | inl r ↦ r
  | inr s ↦ absurd (squish_probe_free_chain-ne-stuck dw_len a s)
]
  where
    found :
        Answers a (first_fit dw_len xs) (squish_probe_free_chain dw_len a)
        ⊎ (squish_probe_free_chain dw_len a ≡ stuck)
    found =
        unfold squish_probe_free_chain in
        probe_loop-first_fit (a.fo_end + 2) dw_len null_frame a.fo_free a.fo_last_free a xs
          inv.chain inv.separate
