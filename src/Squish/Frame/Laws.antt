-- ===== src/Squish/Frame/Laws.antt =====
-- The functions of `Frame` over the heap of frames.
use xmsgapi.Base.{arith, eq→==, some, true, ℕ, ◌+◌, ◌≡◌, ◌≤◌}
use xmsgapi.Base.Cmd.{ok}
use xmsgapi.Base.Word.{IsLong, slt-le, slt-lt}
use xmsgapi.File.{File, seek}
use xmsgapi.File.Laws.{read_all, write_within}
use xmsgapi.Squish.Area.{Area}
use xmsgapi.Squish.BaseHeader.{sqbase_size}
use xmsgapi.Squish.Frame.{
  squish_read_hdr, squish_set_frame_next, squish_set_frame_prev, squish_write_hdr,
}
use xmsgapi.Squish.Frame.Heap.{FrameAt, Holds, past, put_hdr, with_hdr}
use xmsgapi.Squish.Header.{Sqhdr, encode_sqhdr, read_sqhdr, sqhdr_id, sqhdr_size, write_sqhdr}
use xmsgapi.Squish.Header.RoundTrip.{decode-encode_sqhdr, length-encode_sqhdr}

read_sqhdr-FrameAt :
    (f : File) {fo_end : ℕ} {h : Sqhdr}
    → FrameAt f.bytes f.size fo_end f.pos h
    → read_sqhdr f ≡ (some h, record f { pos = f.pos + sqhdr_size })
unfolding read_sqhdr
read_sqhdr-FrameAt f {h} at = rw (
  read_all sqhdr_size f at.inside,
  at.stored,
  length-encode_sqhdr h,
  decode-encode_sqhdr h at.fits,
)

write_sqhdr_within :
    (f : File) (h : Sqhdr)
    → f.pos + sqhdr_size ≤ f.size
    → f.size ≤ f.room
    → write_sqhdr h f
      ≡ (true, record f { bytes = with_hdr f.bytes f.pos h; pos = f.pos + sqhdr_size })
unfolding write_sqhdr
write_sqhdr_within f h inside room =
    let n = length-encode_sqhdr h in
    rw (write_within (encode_sqhdr h) f (omega (arith, n)) (omega (arith, n)) room, n)

-- Reading a frame gives its header.
pub squish_read_hdr-ok :
    (a : Area) (fo : ℕ) {h : Sqhdr} → Holds a fo h → squish_read_hdr fo a ≡ ok h (past fo a)
unfolding squish_read_hdr seek
squish_read_hdr-ok a fo {h} at = rw (
  slt-le fo sqbase_size (omega (arith, at.below, at.small)) at.base,
  slt-lt fo a.fo_end at.small at.below,
  read_sqhdr-FrameAt (record (a.sfd) { pos = fo }) at,
  eq→== h.id sqhdr_id at.id,
)

-- A write over bytes that the file has.
pub squish_write_hdr-ok :
    (a : Area) (fo : ℕ) (h : Sqhdr)
    → sqbase_size ≤ fo
    → IsLong fo
    → fo + sqhdr_size ≤ a.sfd.size
    → a.sfd.size ≤ a.sfd.room
    → squish_write_hdr fo h a ≡ ok tt (put_hdr fo h a)
unfolding squish_write_hdr seek
squish_write_hdr-ok a fo h base small inside room = rw (
  slt-le fo sqbase_size small base,
  write_sqhdr_within (record (a.sfd) { pos = fo }) h inside room,
)

-- Relinking a frame changes one link of its header.
pub squish_set_frame_next-ok :
    (a : Area) (fo value : ℕ) {h : Sqhdr}
    → Holds a fo h
    → a.sfd.size ≤ a.sfd.room
    → squish_set_frame_next fo value a ≡ ok tt (put_hdr fo (record h { next_frame = value }) a)
unfolding squish_set_frame_next
squish_set_frame_next-ok a fo value {h} at room = rw (
  squish_read_hdr-ok a fo at,
  squish_write_hdr-ok (past fo a) fo (record h { next_frame = value }) at.base
      (omega (arith, at.below, at.small)) at.inside room,
)

pub squish_set_frame_prev-ok :
    (a : Area) (fo value : ℕ) {h : Sqhdr}
    → Holds a fo h
    → a.sfd.size ≤ a.sfd.room
    → squish_set_frame_prev fo value a ≡ ok tt (put_hdr fo (record h { prev_frame = value }) a)
unfolding squish_set_frame_prev
squish_set_frame_prev-ok a fo value {h} at room = rw (
  squish_read_hdr-ok a fo at,
  squish_write_hdr-ok (past fo a) fo (record h { prev_frame = value }) at.base
      (omega (arith, at.below, at.small)) at.inside room,
)
