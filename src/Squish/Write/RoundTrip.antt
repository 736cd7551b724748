-- ===== src/Squish/Write/RoundTrip.antt =====
-- A message that apiSquishWriteMsg has written, read by apiSquishReadMsg through another handle.
use xmsgapi.Base.{length, ℕ, ◌≡◌, ◌≢◌, ◌≤◌}
use xmsgapi.File.{File}
use xmsgapi.Squish.Area.{Area}
use xmsgapi.Squish.BaseHeader.{Sqbase}
use xmsgapi.Squish.Header.{Sqhdr}
use xmsgapi.Squish.Index.Laws.{Buffered, entries}
use xmsgapi.Squish.Msg.{Hmsg, Msgh}
use xmsgapi.Squish.Read.Whole.{Readable}
use xmsgapi.Squish.Sqidx.{Sqidx}
use xmsgapi.Squish.Write.{mark_uid}
use xmsgapi.Squish.Write.Allocate.{new_hdr, with_frame}
use xmsgapi.Squish.Write.Allocated.{Allocated}
use xmsgapi.Squish.Xmsg.{Xmsg}
use xmsgapi.Squish.Xmsg.RoundTrip.{FitsXmsg}

-- A handle that may read and stands at the frame `fo` with the header `h`, in a file with the
-- bytes of `g`, for a base whose frame headers have `cb` bytes.
pub record Reader (fo cb : ℕ) (h : Sqhdr) (g : File) (r : Hmsg) : Type 0 where
  pub readable : Readable r
  pub bytes : r.ha.sfd.bytes ≡ g.bytes
  pub size : r.ha.sfd.size ≡ g.size
  pub header_size : r.ha.cb_sqhdr ≡ cb
  pub frame : r.m.fo_read ≡ fo
  pub header : r.m.sqh_read ≡ h

-- The handle of the new message with its frame, in the area `d` of the allocation.
abbrev framed : Area → Sqbase → Msgh → ℕ → ℕ → Hmsg
framed d b m n_txt n_ctrl = record {
  ha = d;
  m = with_frame b.end_frame (new_hdr b.last_frame n_txt n_ctrl) m;
}

-- What stands in the message, and where its index record is, in memory.
pub record Message (a : Area) (m : Msgh) (x : Xmsg) : Type 0 where
  pub uid : m.uid_us ≢ 0
  pub fits : FitsXmsg (mark_uid m.uid_us x)
  pub index : Buffered a
  pub entry : (1 ≤ m.dw_msg) × (m.dw_msg ≤ length (entries a))
