-- ===== src/Squish/Frame.antt =====
-- Frame headers in the data file: the functions of sq_help.c that read, write and relink one.
pub mod Any
pub mod Chain
pub mod Heap
pub mod Laws
pub mod Relink
pub mod Unlink
use xmsgapi.Base.{Option, if◌then◌else◌, none, not, some, ℕ, ◌==◌}
use xmsgapi.Base.Cmd.{Cmd, ok, pure, ◌>>=◌, ◌>>◌}
use xmsgapi.Base.Word.{slt}
use xmsgapi.File.{seek}
use xmsgapi.Squish.Area.{Area, bada, badf, nods, refuse}
use xmsgapi.Squish.BaseHeader.{sqbase_size}
use xmsgapi.Squish.Header.{Sqhdr, null_frame, read_sqhdr, sqhdr_id, write_sqhdr}

-- What read_sqhdr gave has to bear the mark of a frame.
abbrev checked_hdr : Option Sqhdr → Cmd Area Sqhdr
checked_hdr none = refuse badf
checked_hdr (some h) = if h.id == sqhdr_id then pure h else refuse badf

-- _SquishReadHdr. `lseek` to an offset that is not negative arrives there.
unfoldable pub squish_read_hdr : ℕ → Cmd Area Sqhdr
squish_read_hdr fo a =
    if slt fo sqbase_size
    then refuse bada a
    else (if not (slt fo a.fo_end)
        then refuse badf a
        else (let (got, sfd') = read_sqhdr (seek fo a.sfd) in
            checked_hdr got (record a { sfd = sfd' })))

-- _SquishWriteHdr.
unfoldable pub squish_write_hdr : ℕ → Sqhdr → Cmd Area (Unit {0})
squish_write_hdr fo h a =
    if slt fo sqbase_size
    then refuse bada a
    else (let (done, sfd') = write_sqhdr h (seek fo a.sfd) in
        let a' = record a { sfd = sfd' } in if done then ok tt a' else refuse nods a')

-- _SquishSetFrameNext and _SquishSetFramePrev.
unfoldable pub squish_set_frame_next : ℕ → ℕ → Cmd Area (Unit {0})
squish_set_frame_next fo_modify fo_value = do
  h ← squish_read_hdr fo_modify
  squish_write_hdr fo_modify (record h { next_frame = fo_value })

unfoldable pub squish_set_frame_prev : ℕ → ℕ → Cmd Area (Unit {0})
squish_set_frame_prev fo_modify fo_value = do
  h ← squish_read_hdr fo_modify
  squish_write_hdr fo_modify (record h { prev_frame = fo_value })

-- `if (fo) set_frame_next(ha, fo, value)`, and the same of `set_frame_prev`.
abbrev pub next_unless_null : ℕ → ℕ → Cmd Area (Unit {0})
next_unless_null fo value = if fo == null_frame then pure tt else squish_set_frame_next fo value

abbrev pub prev_unless_null : ℕ → ℕ → Cmd Area (Unit {0})
prev_unless_null fo value = if fo == null_frame then pure tt else squish_set_frame_prev fo value
