-- ===== src/Squish/Frame/Heap.antt =====
-- The data file as a heap of frames: a header stands at an offset, and two offsets are apart when
-- their headers do not overlap.
use xmsgapi.Base.{ap, arith, sym, ℕ, ◌+◌, ◌<◌, ◌∙◌, ◌≡◌, ◌≤◌, ◌⊎◌}
use xmsgapi.Base.Word.{IsLong}
use xmsgapi.File.{overlay, window}
use xmsgapi.File.Laws.{window-overlay_apart, window-overlay_self}
use xmsgapi.Squish.Area.{Area}
use xmsgapi.Squish.BaseHeader.{sqbase_size}
use xmsgapi.Squish.Header.{Sqhdr, decode_sqhdr, encode_sqhdr, sqhdr_id, sqhdr_size}
use xmsgapi.Squish.Header.RoundTrip.{FitsSqhdr, decode-encode_sqhdr, length-encode_sqhdr}

-- The bytes `b` of a file of `size` bytes hold the header `h` at `fo`, below `fo_end`.
pub record FrameAt (b : ℕ → ℕ) (size fo_end fo : ℕ) (h : Sqhdr) : Type 0 where
  pub base : sqbase_size ≤ fo
  pub inside : fo + sqhdr_size ≤ size
  pub below : fo < fo_end
  pub small : IsLong fo_end
  pub fits : FitsSqhdr h
  pub id : h.id ≡ sqhdr_id
  pub stored : window b fo sqhdr_size ≡ encode_sqhdr h

abbrev pub Holds : Area → ℕ → Sqhdr → Type 0
Holds a fo h = FrameAt a.sfd.bytes a.sfd.size a.fo_end fo h

abbrev pub Apart : ℕ → ℕ → Type 0
Apart fo g = (fo + sqhdr_size ≤ g) ⊎ (g + sqhdr_size ≤ fo)

-- The bytes after the header `h` has been written at `fo`.
abbrev pub with_hdr : (ℕ → ℕ) → ℕ → Sqhdr → ℕ → ℕ
with_hdr b fo h = overlay b fo (encode_sqhdr h)

-- The area once a header has been read or written at `fo`.
abbrev pub past : ℕ → Area → Area
past fo a = record a { sfd = record (a.sfd) { pos = fo + sqhdr_size } }

abbrev pub put_hdr : ℕ → Sqhdr → Area → Area
put_hdr fo h a = record a {
  sfd = record (a.sfd) { bytes = with_hdr a.sfd.bytes fo h; pos = fo + sqhdr_size };
}

-- A header just written stands there.
pub FrameAt-with_hdr :
    (b : ℕ → ℕ) {size fo_end fo : ℕ} {h : Sqhdr} (h' : Sqhdr)
    → FrameAt b size fo_end fo h
    → FitsSqhdr h'
    → h'.id ≡ sqhdr_id
    → FrameAt (with_hdr b fo h') size fo_end fo h'
FrameAt-with_hdr b {fo} h' at fits id = record {
  base = at.base;
  inside = at.inside;
  below = at.below;
  small = at.small;
  fits = fits;
  id = id;
  stored =
      ap (window (with_hdr b fo h') fo) (sym (length-encode_sqhdr h'))
      ∙ window-overlay_self b fo (encode_sqhdr h');
}

-- A header apart from the one written stays.
pub FrameAt-Apart :
    (b : ℕ → ℕ) {size fo_end g : ℕ} {k : Sqhdr} (fo : ℕ) (h : Sqhdr)
    → FrameAt b size fo_end g k
    → Apart fo g
    → FrameAt (with_hdr b fo h) size fo_end g k
FrameAt-Apart b {g} fo h at apart = record {
  base = at.base;
  inside = at.inside;
  below = at.below;
  small = at.small;
  fits = at.fits;
  id = at.id;
  stored =
      window-overlay_apart b fo g sqhdr_size (encode_sqhdr h)
        (ground (arith, length-encode_sqhdr h))
      ∙ at.stored;
}

-- One header stands at an offset.
pub FrameAt-unique :
    {b : ℕ → ℕ} {size fo_end fo : ℕ} {h k : Sqhdr}
    → FrameAt b size fo_end fo h
    → FrameAt b size fo_end fo k
    → h ≡ k
FrameAt-unique {h} {k} at at' =
    sym (decode-encode_sqhdr h at.fits)
    ∙ ap decode_sqhdr (sym at.stored ∙ at'.stored)
    ∙ decode-encode_sqhdr k at'.fits

-- The area with other bytes in its data file, at another position.
abbrev pub moved : (ℕ → ℕ) → ℕ → Area → Area
moved b p a = record a { sfd = record (a.sfd) { bytes = b; pos = p } }
