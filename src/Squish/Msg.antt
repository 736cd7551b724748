-- ===== src/Squish/Msg.antt =====
-- Message handles: `struct _msgh` of api_sq.h, the access modes of sq_help.c, and the opening of a
-- message that exists, in sq_msg.c. The handle's `id` and `ha` are the test of MsgInvalidHmsg and
-- the area beside it, `hmsgNext` is the order of a list in `Handles`, and `bytes_written` and
-- `fDiskErr` are not read anywhere.
pub mod Create
pub mod Handles
pub mod New
pub mod Undone
use xmsgapi.Base.{Bool, if◌then◌else◌, ltb, not, ℕ, ◌&&◌, ◌==◌, ◌||◌}
use xmsgapi.Base.Cmd.{Cmd, fail, lift, modify, ok, ◌>>=◌, ◌>>◌}
use xmsgapi.Base.Word.{add32, slt, sub32}
use xmsgapi.Squish.Area.{Area, badf, badmsg, eacces, noent, refuse, share}
use xmsgapi.Squish.Frame.{squish_read_hdr}
use xmsgapi.Squish.Header.{Sqhdr, frame_free, frame_normal, frame_update, null_frame}
use xmsgapi.Squish.Pointers.{squish_get_frame_ofs}

pub record Msgh : Type 0 where
  pub cur_pos : ℕ
  pub dw_msg : ℕ
  pub fo_read : ℕ
  pub sqh_read : Sqhdr
  pub fo_write : ℕ
  pub sqh_write : Sqhdr
  pub uid_us : ℕ
  pub dw_write_pos : ℕ
  pub w_mode : ℕ
  pub f_written : Bool

-- A handle with its area: `hmsg->...` and `hmsg->ha->...`.
pub record Hmsg : Type 0 where
  pub ha : Area
  pub m : Msgh

-- A call of a function of the area.
abbrev pub on_area : {A : Type 0} → Cmd Area A → Cmd Hmsg A
on_area = lift (λ s. s.ha) (λ a s. record s { ha = a })

-- `hmsg->field = ...`
abbrev pub set_msgh : (Msgh → Msgh) → Hmsg → Hmsg
set_msgh f s = record s { m = f s.m }

abbrev pub mopen_create : ℕ
mopen_create = 0

abbrev pub mopen_read : ℕ
mopen_read = 1

abbrev pub mopen_write : ℕ
mopen_write = 2

abbrev pub mopen_rw : ℕ
mopen_rw = 3

abbrev pub msgnum_cur : ℕ
msgnum_cur = 4294967295

abbrev pub msgnum_prev : ℕ
msgnum_prev = 4294967294

abbrev pub msgnum_next : ℕ
msgnum_next = 4294967293

-- A frame header of zeros.
abbrev pub zero_hdr : Sqhdr
zero_hdr = record {
  id = 0;
  next_frame = 0;
  prev_frame = 0;
  frame_length = 0;
  msg_length = 0;
  clen = 0;
  frame_type = 0;
  rsvd = 0;
}

-- NewHmsg, where `malloc` has given the memory.
unfoldable pub new_hmsg : ℕ → Msgh
new_hmsg w_mode = record {
  cur_pos = 0;
  dw_msg = 0;
  fo_read = null_frame;
  sqh_read = zero_hdr;
  fo_write = null_frame;
  sqh_write = zero_hdr;
  uid_us = 0;
  dw_write_pos = 0;
  w_mode = w_mode;
  f_written = Bool.false;
}

-- _SquishReadMode and _SquishWriteMode.
unfoldable pub squish_read_mode : Cmd Hmsg (Unit {0})
squish_read_mode s =
    if not (s.m.w_mode == mopen_read) && not (s.m.w_mode == mopen_rw)
    then on_area (refuse eacces) s
    else ok tt s

unfoldable pub squish_write_mode : Cmd Hmsg (Unit {0})
squish_write_mode s =
    if not (s.m.w_mode == mopen_create)
      && (not (s.m.w_mode == mopen_write) && not (s.m.w_mode == mopen_rw))
    then on_area (refuse eacces) s
    else ok tt s

-- _SquishHeaderValidRead. The links and the end are signed, and here they are compared as `long`.
unfoldable pub squish_header_valid_read : Sqhdr → Cmd Area (Unit {0})
squish_header_valid_read psqh a =
    if slt a.fo_end psqh.next_frame || slt a.fo_end psqh.prev_frame
    then refuse badf a
    else (if psqh.frame_type == frame_normal
        then ok tt a
        else (if psqh.frame_type == frame_free
            then refuse badmsg a
            else (if psqh.frame_type == frame_update then refuse share a else refuse badf a)))

-- _SquishTranslateNum.
unfoldable pub squish_translate_num : ℕ → Area → ℕ
squish_translate_num dw_msg a =
    if dw_msg == msgnum_cur
    then a.cur_msg
    else (if dw_msg == msgnum_prev
        then sub32 a.cur_msg 1
        else (if dw_msg == msgnum_next then add32 a.cur_msg 1 else dw_msg))

-- _SquishSetCurFrameRead.
unfoldable pub squish_set_cur_frame_read : ℕ → ℕ → Sqhdr → Hmsg → Hmsg
squish_set_cur_frame_read dw_msg fo_cur psqh s = record {
  ha = record (s.ha) {
    cur_msg = dw_msg;
    fo_cur = fo_cur;
    fo_prev = psqh.prev_frame;
    fo_next = psqh.next_frame;
  };
  m = record (s.m) { fo_read = fo_cur; sqh_read = psqh };
}

-- "If the user tries to go to message zero, reset pointers appropriately".
unfoldable pub to_message_zero : Area → Area
to_message_zero a = record a {
  fo_prev = null_frame;
  fo_cur = null_frame;
  fo_next = a.fo_first;
  cur_msg = 0;
}

-- The rest of _SquishOpenMsgExisting, once the frame offset is known.
unfoldable pub open_frame : ℕ → ℕ → Cmd Hmsg (Unit {0})
open_frame dw_msg fo_msg = if fo_msg == null_frame then (λ s. fail s) else (do
  sqh ← on_area (squish_read_hdr fo_msg)
  on_area (squish_header_valid_read sqh)
  modify (squish_set_cur_frame_read dw_msg fo_msg sqh))

-- _SquishOpenMsgExisting.
unfoldable pub squish_open_msg_existing : ℕ → Cmd Hmsg (Unit {0})
unfolding open_frame
squish_open_msg_existing dw_msg s =
    if dw_msg == 0
    then on_area (λ a. refuse noent (to_message_zero a)) s
    else (if ltb s.ha.num_msg dw_msg
        then on_area (refuse noent) s
        else (do
          modify (set_msgh (λ m. record m { dw_msg = dw_msg }))
          fo_msg ← on_area (squish_get_frame_ofs dw_msg)
          open_frame dw_msg fo_msg)
            s)
