-- ===== src/Squish/Msg/Create.antt =====
-- Creating a message: _SquishBlankOldMsg, _SquishBlankNewMsg, _SquishOpenMsgCreate and
-- _SquishCloseUndoWrite of sq_msg.c.
use xmsgapi.Base.{Bool, false, if◌then◌else◌, ltb, true, ℕ, ◌&&◌, ◌==◌}
use xmsgapi.Base.Cmd.{Cmd, attempt, fail, get, modify, pure, ◌>>=◌, ◌>>◌}
use xmsgapi.Base.Word.{add32}
use xmsgapi.Squish.Area.{Area, badf, refuse, share}
use xmsgapi.Squish.Frame.{squish_read_hdr, squish_write_hdr}
use xmsgapi.Squish.Header.{frame_update, null_frame}
use xmsgapi.Squish.Index.{sidx_get}
use xmsgapi.Squish.Index.Entries.{sidx_put}
use xmsgapi.Squish.Lock.{squish_exclusive_begin, squish_exclusive_end}
use xmsgapi.Squish.Msg.{Hmsg, on_area, set_msgh}
use xmsgapi.Squish.Reduce.{one_less, squish_reduce_max_msgs}

-- `hash = (dword) -1`
abbrev pub no_hash : ℕ
no_hash = 4294967295

-- _SquishBlankOldMsg.
unfoldable pub squish_blank_old_msg : ℕ → Cmd Hmsg (Unit {0})
squish_blank_old_msg dw_msg = do
  sqi ← on_area (sidx_get dw_msg)
  if sqi.ofs == null_frame then on_area (refuse badf) else (do
    modify (set_msgh (λ m. record m { fo_read = sqi.ofs }))
    sqh ← on_area (squish_read_hdr sqi.ofs)
    modify (set_msgh (λ m. record m { sqh_read = sqh }))
    if sqh.frame_type == frame_update then on_area (refuse share) else (do
      modify (set_msgh (λ m. record m { uid_us = sqi.umsgid }))
      on_area (sidx_put dw_msg (record sqi { ofs = null_frame; hash = no_hash }))
      modify (set_msgh (λ m. record m { sqh_read = record sqh { frame_type = frame_update } }))
      on_area (squish_write_hdr sqi.ofs (record sqh { frame_type = frame_update }))))

-- _SquishBlankNewMsg, for message `dw_msg`.
unfoldable pub squish_blank_new_msg : Cmd Hmsg (Unit {0})
squish_blank_new_msg s =
    let uid = s.ha.uid_next in
    let dw_msg = s.m.dw_msg in
    (do
      on_area (modify (λ a. record a { uid_next = add32 a.uid_next 1 }))
      modify (set_msgh (λ m. record m { uid_us = uid }))
      on_area (sidx_put dw_msg (record { ofs = null_frame; umsgid = uid; hash = no_hash })))
      s

-- `hmsg->ha->num_msg++; hmsg->ha->high_msg++;`
unfoldable pub one_more : Area → Area
one_more a = record a { num_msg = add32 a.num_msg 1; high_msg = add32 a.high_msg 1 }

-- "Make sure that we don't overrun the max_msgs limit!", for a new message.
abbrev pub reduced : ℕ → Cmd Area Bool
reduced dw_msg = if dw_msg == 0 then squish_reduce_max_msgs else pure true

-- "Now fix up the index and data files", up to the new number of messages; 0 is a new message.
unfoldable pub blank_msg : ℕ → Cmd Hmsg (Unit {0})
blank_msg dw_msg =
    if dw_msg == 0
    then (do squish_blank_new_msg; on_area (modify one_more))
    else squish_blank_old_msg dw_msg

-- What stands between the two ends of the exclusive access.
unfoldable pub create_msg : ℕ → Cmd Hmsg Bool
unfolding blank_msg
create_msg dw_msg = do
  rc ← on_area (reduced dw_msg)
  modify (λ s.
      set_msgh (λ m. record m { dw_msg = if dw_msg == 0 then add32 s.ha.num_msg 1 else dw_msg }) s)
  if rc then attempt (blank_msg dw_msg) else pure false

-- `if (!_SquishExclusiveEnd(ha)) rc = FALSE; return rc;`
abbrev pub end_access : Bool → Cmd Hmsg (Unit {0})
end_access rc = do
  done ← on_area (attempt squish_exclusive_end)
  if rc && done then pure tt else (λ s. fail s)

-- _SquishOpenMsgCreate: message 0, or a number after the last, is a new message.
unfoldable pub squish_open_msg_create : ℕ → Cmd Hmsg (Unit {0})
unfolding create_msg
squish_open_msg_create dw_msg = do
  on_area squish_exclusive_begin
  s ← get
  rc ← create_msg (if ltb s.ha.num_msg dw_msg then 0 else dw_msg)
  end_access rc

-- _SquishCloseUndoWrite, for the message number of the handle.
unfoldable pub squish_close_undo_write : ℕ → Cmd Area (Unit {0})
squish_close_undo_write dw_msg = do
  squish_exclusive_begin
  modify (λ a. if dw_msg == a.num_msg then one_less a else a)
  squish_exclusive_end
