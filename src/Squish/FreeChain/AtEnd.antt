-- ===== src/Squish/FreeChain/AtEnd.antt =====
-- _SquishGetFrameEOF: a new frame at the end of the data file.
-- The new end of the data file is no negative `long`, the disk has room up to it, and the file
-- holds nothing behind `fo_end`.
use xmsgapi.Base.{
  [], arith, false, inl, leb, ltb, lt→ltb, true, ℕ, ◌%◌, ◌+◌, ◌-◌, ◌<◌, ◌^◌, ◌∙◌, ◌∷◌, ◌≡◌, ◌≤◌,
}
use xmsgapi.Base.Cmd.{ok}
use xmsgapi.Base.Word.{IsLong, dword_mod}
use xmsgapi.File.{overlay, seek, write}
use xmsgapi.File.Laws.{window-overlay_apart, write_all}
use xmsgapi.Squish.Area.{Area}
use xmsgapi.Squish.Frame.Chain.{Cells, Linked}
use xmsgapi.Squish.Frame.Heap.{FrameAt, Holds}
use xmsgapi.Squish.FreeChain.{squish_get_frame_eof}
use xmsgapi.Squish.FreeChain.Inv.{IsFreeChain}
use xmsgapi.Squish.Header.{Sqhdr, frame_free, sqhdr_size}

pub record CanGrow (dw_len : ℕ) (a : Area) : Type 0 where
  pub some_bytes : 1 ≤ a.cb_sqhdr + dw_len
  pub small : IsLong (a.fo_end + a.cb_sqhdr + dw_len)
  pub room : a.fo_end + a.cb_sqhdr + dw_len ≤ a.sfd.room
  pub size : a.sfd.size ≤ a.fo_end

-- `a'` is `a` with `fo_end` moved up by a frame header and `dw_len` bytes, which the data file now
-- has; the free chain and the frames are as before.
pub record Grown (dw_len : ℕ) (xs : Cells) (a a' : Area) : Type 0 where
  pub chain : IsFreeChain a' xs
  pub fo_end : a'.fo_end ≡ a.fo_end + a.cb_sqhdr + dw_len
  pub size : a'.sfd.size ≡ a'.fo_end
  pub frames : (g : ℕ) (k : Sqhdr) → Holds a g k → Holds a' g k
  pub hix : a'.hix ≡ a.hix
  pub num_msg : a'.num_msg ≡ a.num_msg

pub FrameAt-grow :
    (b : ℕ → ℕ) {size fo_end fo : ℕ} {h : Sqhdr} (end : ℕ)
    → FrameAt b size fo_end fo h
    → size ≤ fo_end
    → fo_end < end
    → IsLong end
    → FrameAt (overlay b (end - 1) (0 ∷ [])) end end fo h
FrameAt-grow b {size} {fo_end} {fo} end at le more small = record {
  base = at.base;
  inside = omega (arith, at.inside);
  below = omega (arith, at.below);
  small = small;
  fits = at.fits;
  id = at.id;
  stored =
      window-overlay_apart b (end - 1) fo sqhdr_size (0 ∷ []) (inl (omega (arith, at.inside)))
      ∙ at.stored;
}

pub Linked-grow :
    (b : ℕ → ℕ) (size fo_end end : ℕ) (xs : Cells) (p c l s : ℕ)
    → size ≤ fo_end
    → fo_end < end
    → IsLong end
    → Linked frame_free b size fo_end p c l s xs
    → Linked frame_free (overlay b (end - 1) (0 ∷ [])) end end p c l s xs
Linked-grow b size fo_end end [] p c l s le more small ch = ch
Linked-grow b size fo_end end ((fo, n) ∷ xs) p c l s le more small (h, cell, ch) = (
  h,
  record {
    frame = FrameAt-grow b end cell.frame le more small;
    here = cell.here;
    kind = cell.kind;
    back = cell.back;
    length = cell.length;
  },
  Linked-grow b size fo_end end xs fo h.next_frame l s le more small ch,
)

-- The area behind a frame that was added at its end.
unfoldable pub grown : ℕ → Area → Area
grown end a = record a {
  sfd = record (a.sfd) { bytes = overlay a.sfd.bytes (end - 1) (0 ∷ []); size = end; pos = end };
  fo_end = end;
}

pub eof-grown :
    (dw_len : ℕ) (a : Area)
    → CanGrow dw_len a
    → squish_get_frame_eof dw_len a ≡ ok a.fo_end (grown (a.fo_end + a.cb_sqhdr + dw_len) a)
unfolding squish_get_frame_eof grown seek
eof-grown dw_len a can =
    let end = a.fo_end + a.cb_sqhdr + dw_len in
    let ofs : (a.fo_end + a.cb_sqhdr + dw_len + (dword_mod - 1)) % dword_mod ≡ end - 1 =
      ground (arith, can.small, can.some_bytes) in
    let back : end - 1 + 1 ≡ end = omega (arith, can.some_bytes) in
    let short : leb (2 ^ 31) (end - 1) ≡ false = ground (arith, can.small) in
    let wrap : (end - 1 + 1) % dword_mod ≡ end = ground (arith, back, can.small) in
    let longer : ltb a.sfd.size (end - 1 + 1) ≡ true =
      lt→ltb a.sfd.size (end - 1 + 1) (omega (arith, back, can.size, can.some_bytes)) in
    let w : write (0 ∷ []) (record (a.sfd) { pos = end - 1 }) ≡ (
      1,
      record (a.sfd) { bytes = overlay a.sfd.bytes (end - 1) (0 ∷ []); size = end; pos = end },
    ) =
      write_all (0 ∷ []) (record (a.sfd) { pos = end - 1 }) (omega arith)
        (omega (arith, back, can.room))
      ∙ rw (longer, back) in
    rw (ofs, short, w, wrap)
