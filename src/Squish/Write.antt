-- ===== src/Squish/Write.antt =====
-- Writing a message: _SquishLinkMessageFrame, _SquishGetWriteFrame, _SquishWriteXmsg,
-- _SquishWriteCtrl, _SquishWriteTxt, _SquishUpdateIndex and apiSquishWriteMsg of sq_write.c.
pub mod Laws
pub mod Text
pub mod Parts
pub mod Whole
pub mod Allocate
pub mod Allocated
pub mod RoundTrip
use xmsgapi.Base.{
  Bool, List, Option, if◌then◌else◌, is_some, length, ltb, none, not, some, take, true, ℕ, ◌%◌,
  ◌&&◌, ◌+◌, ◌-◌, ◌/◌, ◌==◌, ◌^◌, ◌||◌,
}
use xmsgapi.Base.Cmd.{Cmd, Run, and_then, attempt, fail, get, modify, ok, pure, stuck, ◌>>=◌, ◌>>◌}
use xmsgapi.Base.Word.{add32, dword_max, min_of, sub32}
use xmsgapi.File.{write}
use xmsgapi.Squish.Area.{Area, bada, nods, refuse, toobig}
use xmsgapi.Squish.Frame.{
  next_unless_null, prev_unless_null, squish_set_frame_next, squish_set_frame_prev,
  squish_write_hdr,
}
use xmsgapi.Squish.FreeChain.{squish_get_new_frame, squish_insert_free_chain}
use xmsgapi.Squish.Hash.{squish_hash}
use xmsgapi.Squish.Header.{Sqhdr, frame_normal, null_frame, sqhdr_id}
use xmsgapi.Squish.Index.{sidx_get}
use xmsgapi.Squish.Index.Entries.{sidx_put}
use xmsgapi.Squish.Lock.{squish_exclusive_begin, squish_exclusive_end}
use xmsgapi.Squish.Msg.{
  Hmsg, mopen_create, mopen_rw, mopen_write, on_area, set_msgh, squish_write_mode,
}
use xmsgapi.Squish.Msg.Handles.{linked}
use xmsgapi.Squish.Read.{has_msguid, seek_unless_there, text_ofs}
use xmsgapi.Squish.Removal.{squish_remove_index_entry}
use xmsgapi.Squish.Sqidx.{Sqidx}
use xmsgapi.Squish.Xmsg.{Xmsg, write_xmsg, xmsg_size}

-- "Fill out default values for the frame header", with the links of the message that the frame
-- replaces, or of a new last message.
unfoldable pub fill_sqhdr : ℕ → ℕ → ℕ → Hmsg → Sqhdr
fill_sqhdr dw_total dw_ctrl_len dw_frame_len s =
    let replaces = not (s.m.fo_read == null_frame) in
    record {
      id = sqhdr_id;
      next_frame = if replaces then s.m.sqh_read.next_frame else null_frame;
      prev_frame = if replaces then s.m.sqh_read.prev_frame else s.ha.fo_last;
      frame_length = if dw_frame_len == 0 then dw_total else dw_frame_len;
      msg_length = dw_total;
      clen = dw_ctrl_len;
      frame_type = frame_normal;
      rsvd = 0;
    }

-- The ends of the list of messages, and the three places of the position.
unfoldable pub link_ends : ℕ → ℕ → Sqhdr → Area → Area
link_ends dw_msg fo_write h a = record a {
  fo_first = if h.prev_frame == null_frame then fo_write else a.fo_first;
  fo_last = if h.next_frame == null_frame then fo_write else a.fo_last;
  fo_cur = if dw_msg == a.cur_msg then fo_write else a.fo_cur;
  fo_next =
      if not (dw_msg == a.cur_msg) && dw_msg == add32 a.cur_msg 1 then fo_write else a.fo_next;
  fo_prev =
      if not (dw_msg == a.cur_msg)
        && (not (dw_msg == add32 a.cur_msg 1) && dw_msg == sub32 a.cur_msg 1)
      then fo_write
      else a.fo_prev;
}

-- _SquishLinkMessageFrame.
unfoldable pub squish_link_message_frame : ℕ → ℕ → ℕ → Cmd Hmsg (Unit {0})
unfolding fill_sqhdr link_ends
squish_link_message_frame dw_total dw_ctrl_len dw_frame_len s =
    let h = fill_sqhdr dw_total dw_ctrl_len dw_frame_len s in
    let fo_write = s.m.fo_write in
    (do
      modify (set_msgh (λ m. record m { sqh_write = h }))
      on_area (prev_unless_null h.next_frame fo_write)
      on_area (next_unless_null h.prev_frame fo_write)
      on_area (modify (link_ends s.m.dw_msg fo_write h))
      on_area (squish_write_hdr fo_write h))
      s

-- "The only recourse is to do the linking and remove it from the index file", whatever the three
-- calls report.
unfoldable pub delete_replaced : ℕ → Sqhdr → Cmd Area (Unit {0})
delete_replaced dw_msg h = do
  attempt (squish_set_frame_next h.prev_frame h.next_frame)
  attempt (squish_set_frame_prev h.next_frame h.prev_frame)
  attempt (squish_remove_index_entry dw_msg (some h))
  pure tt

abbrev pub no_frame : {A : Type 0} → Cmd Hmsg A
no_frame s = fail (set_msgh (λ m. record m { fo_write = null_frame }) s)

-- The frame for a new message: found and linked, or given up.
unfoldable pub take_frame : ℕ → ℕ → Run Hmsg (ℕ × ℕ) → Run Hmsg (Unit {0})
unfolding delete_replaced
take_frame dw_total dw_ctrl_len (ok (fo, dw_frame_len) s) =
    (do
      modify (set_msgh (λ m. record m { fo_write = fo }))
      linked ← attempt (squish_link_message_frame dw_total dw_ctrl_len dw_frame_len)
      if linked then pure tt else no_frame)
      s
take_frame dw_total dw_ctrl_len (fail s) =
    if s.m.fo_read == null_frame
    then no_frame s
    else (do on_area (delete_replaced s.m.dw_msg s.m.sqh_read); no_frame) s
take_frame dw_total dw_ctrl_len stuck = stuck

-- The branch for MOPEN_CREATE.
unfoldable pub get_new_write_frame : ℕ → ℕ → Cmd Hmsg (Unit {0})
unfolding take_frame
get_new_write_frame dw_total dw_ctrl_len s =
    and_then
      ((if s.m.fo_read == null_frame
          then pure tt
          else on_area (squish_insert_free_chain s.m.fo_read s.m.sqh_read))
        s)
      (λ _ t. take_frame dw_total dw_ctrl_len (on_area (squish_get_new_frame dw_total) t))

-- _SquishGetWriteFrame.
unfoldable pub squish_get_write_frame : ℕ → ℕ → Cmd Hmsg (Unit {0})
unfolding get_new_write_frame
squish_get_write_frame dw_txt_total dw_ctrl_len s =
    let dw_total = add32 (add32 xmsg_size dw_txt_total) dw_ctrl_len in
    (do
      (if s.m.w_mode == mopen_rw || s.m.w_mode == mopen_write
          then (if ltb s.m.sqh_read.msg_length dw_total
              then on_area (refuse toobig)
              else modify
                  (set_msgh (λ m. record m { fo_write = m.fo_read; sqh_write = m.sqh_read })))
          else (if s.m.w_mode == mopen_create
              then get_new_write_frame dw_total dw_ctrl_len
              else pure tt))
      modify (set_msgh (λ m. record m { dw_write_pos = 0 })))
      s

-- "If we don't know our UMSGID, retrieve it from the index file".
unfoldable pub find_uid : ℕ → Run Hmsg Sqidx → Run Hmsg (Unit {0})
find_uid dw_msg (ok r s) = ok tt (set_msgh (λ m. record m { uid_us = r.umsgid }) s)
find_uid dw_msg (fail s) = ok tt s
find_uid dw_msg stuck = stuck

unfoldable pub know_uid : Cmd Hmsg (Unit {0})
unfolding find_uid
know_uid s =
    if s.m.uid_us == 0 then find_uid s.m.dw_msg (on_area (sidx_get s.m.dw_msg) s) else ok tt s

-- `attr & ~MSGUID` and `attr | MSGUID`.
abbrev pub without_msguid : ℕ → ℕ
without_msguid attr = if has_msguid attr then attr - 2 ^ 17 else attr

abbrev pub with_msguid : ℕ → ℕ
with_msguid attr = if has_msguid attr then attr else attr + 2 ^ 17

-- "Store the UMSGID in the message header so that SQFIX can use it".
unfoldable pub mark_uid : ℕ → Xmsg → Xmsg
mark_uid uid_us x =
    if uid_us == 0
    then record x { attr = without_msguid x.attr; umsgid = 0 }
    else record x { attr = with_msguid x.attr; umsgid = uid_us }

unfoldable pub put_xmsg : Xmsg → Cmd Area (Unit {0})
put_xmsg x a =
    let (done, sfd') = write_xmsg x a.sfd in
    let a' = record a { sfd = sfd' } in if done then ok tt a' else refuse nods a'

-- `if (write(sfd, d, n) != n) { msgapierr = MERR_NODS; return FALSE; }`
unfoldable pub put_bytes : List ℕ → Cmd Area (Unit {0})
put_bytes d a =
    let (n, sfd') = write d a.sfd in
    let a' = record a { sfd = sfd' } in if n == length d then ok tt a' else refuse nods a'

-- _SquishWriteXmsg: `*pxm`, which it changes, and `*pdwOfs`.
unfoldable pub squish_write_xmsg : Xmsg → ℕ → Cmd Hmsg (Xmsg × ℕ)
unfolding know_uid put_xmsg
squish_write_xmsg pxm dw_ofs = do
  know_uid
  s ← get
  let ofs = add32 s.m.fo_write s.ha.cb_sqhdr
  on_area (seek_unless_there nods dw_ofs ofs)
  on_area (put_xmsg (mark_uid s.m.uid_us pxm))
  pure (mark_uid s.m.uid_us pxm, add32 ofs xmsg_size)

-- _SquishWriteCtrl: the control information on the first pass, and `*pdwOfs`.
unfoldable pub squish_write_ctrl : List ℕ → ℕ → Cmd Hmsg ℕ
squish_write_ctrl sz_ctrl dw_ofs s =
    let n = min_of s.m.sqh_write.clen (length sz_ctrl) in
    let ofs = add32 (add32 s.m.fo_write s.ha.cb_sqhdr) xmsg_size in
    if s.m.f_written || n == 0
    then ok dw_ofs s
    else (do
      on_area (seek_unless_there nods dw_ofs ofs)
      on_area (put_bytes (take n sz_ctrl))
      pure (add32 ofs n))
        s

-- The seek and the write of _SquishWriteTxt, with the offset and the length computed.
unfoldable pub write_txt_at : ℕ → ℕ → ℕ → List ℕ → Cmd Hmsg (Unit {0})
unfolding put_bytes
write_txt_at dw_ofs ofs n sz_txt = do
  on_area (seek_unless_there nods dw_ofs ofs)
  on_area (put_bytes (take n sz_txt))
  modify (set_msgh (λ m. record m { dw_write_pos = add32 m.dw_write_pos n }))

-- _SquishWriteTxt: `from` is where an appended text starts.
unfoldable pub squish_write_txt : Bool → List ℕ → ℕ → Cmd Hmsg (Unit {0})
unfolding write_txt_at
squish_write_txt f_append sz_txt dw_ofs s =
    let h = s.m.sqh_write in
    let from = if f_append then s.m.dw_write_pos else 0 in
    write_txt_at dw_ofs (add32 (text_ofs s.m.fo_write s.ha.cb_sqhdr h.clen) from)
      (min_of (sub32 (sub32 (sub32 h.msg_length xmsg_size) h.clen) from) (length sz_txt)) sz_txt s

-- `pxm->attr & MSGREAD`, bit 2.
abbrev pub has_msgread : ℕ → Bool
has_msgread attr = attr / 2 ^ 2 % 2 == 1

-- The record of _SquishUpdateIndex: the hash has its highest bit free for IDXE_MSGREAD.
unfoldable pub updated_sqidx : ℕ → Xmsg → Sqidx → Sqidx
updated_sqidx fo_write pxm r = record {
  ofs = fo_write;
  umsgid = if r.umsgid == 0 then pxm.umsgid else r.umsgid;
  hash = if has_msgread pxm.attr then squish_hash pxm.to + 2 ^ 31 else squish_hash pxm.to;
}

-- _SquishUpdateIndex.
unfoldable pub squish_update_index : Xmsg → Cmd Hmsg (Unit {0})
unfolding updated_sqidx
squish_update_index pxm s =
    on_area (do r ← sidx_get s.m.dw_msg; sidx_put s.m.dw_msg (updated_sqidx s.m.fo_write pxm r)) s

-- "If we need to get a frame offset, allocate it here..."
unfoldable pub allocate : ℕ → ℕ → Cmd Hmsg (Unit {0})
unfolding squish_get_write_frame
allocate dw_txt_total dw_ctrl_len = do
  on_area squish_exclusive_begin
  rc ← attempt (squish_get_write_frame dw_txt_total dw_ctrl_len)
  done ← on_area (attempt squish_exclusive_end)
  if done && rc then pure tt else (λ s. fail s)

unfoldable pub write_header : Option Xmsg → ℕ → Cmd Hmsg (Option Xmsg × ℕ)
unfolding squish_write_xmsg
write_header none dw_ofs = pure (none, dw_ofs)
write_header (some x) dw_ofs = do (x', o) ← squish_write_xmsg x dw_ofs; pure (some x', o)

abbrev pub update_index : Option Xmsg → Cmd Hmsg (Unit {0})
update_index none = pure tt
update_index (some x) = squish_update_index x

-- `if (szCtrl)` and `if (szTxt)`: a text of length 0 is no text.
unfoldable pub write_ctrl : List ℕ → ℕ → Cmd Hmsg ℕ
unfolding squish_write_ctrl
write_ctrl sz_ctrl dw_ofs s =
    if length sz_ctrl == 0 then ok dw_ofs s else squish_write_ctrl sz_ctrl dw_ofs s

unfoldable pub write_txt : Bool → List ℕ → ℕ → Cmd Hmsg (Unit {0})
unfolding squish_write_txt
write_txt f_append sz_txt dw_ofs s =
    if length sz_txt == 0 then ok tt s else squish_write_txt f_append sz_txt dw_ofs s

-- The writes of apiSquishWriteMsg, into the frame that the handle has.
unfoldable pub write_parts : Bool → Option Xmsg → List ℕ → List ℕ → Cmd Hmsg (Unit {0})
unfolding write_header write_ctrl write_txt squish_update_index
write_parts f_append pxm sz_txt sz_ctrl = do
  (x, o) ← write_header pxm dword_max
  o' ← write_ctrl sz_ctrl o
  write_txt f_append sz_txt o'
  modify (set_msgh (λ m. record m { f_written = true }))
  update_index x

-- apiSquishWriteMsg: `ok` for its result 0, and `fail` for -1. A text of length 0 is no text.
unfoldable pub api_squish_write_msg : Bool → Option Xmsg → List ℕ → ℕ → List ℕ → Cmd Hmsg (Unit {0})
unfolding allocate write_parts
api_squish_write_msg f_append pxm sz_txt dw_txt_total sz_ctrl = do
  squish_write_mode
  s ← get
  if not (s.m.fo_write == null_frame)
      then pure tt
      else (if is_some pxm then allocate dw_txt_total (length sz_ctrl) else on_area (refuse bada))
  write_parts f_append pxm sz_txt sz_ctrl
