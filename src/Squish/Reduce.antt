-- ===== src/Squish/Reduce.antt =====
-- The limit on the number of messages: _SquishReduceMaxInternal, _SquishReduceMaxPointers and
-- _SquishReduceMaxMsgs of sq_msg.c.
use xmsgapi.Base.{
  Bool, false, if◌then◌else◌, leb, ltb, none, not, suc, true, zero, ℕ, ◌&&◌, ◌+◌, ◌==◌, ◌||◌,
}
use xmsgapi.Base.Cmd.{Cmd, Run, and_then, attempt, fail, get, modify, ok, pure, stuck, ◌>>=◌, ◌>>◌}
use xmsgapi.Base.Word.{add32, slt, sub32}
use xmsgapi.Squish.Area.{Area}
use xmsgapi.Squish.Frame.{squish_read_hdr, squish_set_frame_next, squish_set_frame_prev}
use xmsgapi.Squish.FreeChain.{squish_insert_free_chain}
use xmsgapi.Squish.Header.{Sqhdr, null_frame}
use xmsgapi.Squish.Index.{sidx_get, squish_begin_buffer, squish_end_buffer}
use xmsgapi.Squish.Kill.Whole.{fixed}
use xmsgapi.Squish.Msg.{to_message_zero}
use xmsgapi.Squish.Pointers.{squish_get_frame_ofs}
use xmsgapi.Squish.Removal.{squish_remove_index_entry}

-- What the loop reports through its three pointers.
pub record Reduced : Type 0 where
  pub dw_deleted : ℕ
  pub fo_first : ℕ
  pub fo_first_prior : ℕ

-- `ha->num_msg--; ha->high_msg--;`
unfoldable pub one_less : Area → Area
one_less a = record a { num_msg = sub32 a.num_msg 1; high_msg = sub32 a.high_msg 1 }

-- A round up to the free chain: the header of the oldest message that may go.
unfoldable pub free_oldest : Cmd Area Sqhdr
free_oldest = do
  modify one_less
  a ← get
  sqi ← sidx_get (a.w_skip_msg + 1)
  sqh ← squish_read_hdr sqi.ofs
  squish_insert_free_chain sqi.ofs sqh
  pure sqh

-- "Record the new starting point for the beginning of the base".
unfoldable pub note_start : Sqhdr → Reduced → Reduced
note_start sqh r = record r {
  fo_first = sqh.next_frame;
  fo_first_prior = if r.fo_first_prior == null_frame then sqh.prev_frame else r.fo_first_prior;
}

-- The removal from the index, with the count of what was deleted.
unfoldable pub drop_oldest : Reduced → Cmd Area (Bool × Reduced)
drop_oldest r = do
  a ← get
  rc ← attempt (squish_remove_index_entry (a.w_skip_msg + 1) none)
  pure (rc, if rc then record r { dw_deleted = add32 r.dw_deleted 1 } else r)

-- The rest of a round, and what follows it.
abbrev pub next_round :
    (Reduced → Cmd Area (Bool × Reduced)) → Run Area (Bool × Reduced) → Run Area (Bool × Reduced)
next_round again (ok (true, r) a) = again r a
next_round again (ok (false, r) a) = ok (false, r) a
next_round again (fail a) = fail a
next_round again stuck = stuck

abbrev pub after_freed :
    (Reduced → Cmd Area (Bool × Reduced)) → Reduced → Run Area Sqhdr → Run Area (Bool × Reduced)
after_freed again r (ok sqh a) = next_round again (drop_oldest (note_start sqh r) a)
after_freed again r (fail a) = ok (false, r) a
after_freed again r stuck = stuck

-- The loop of _SquishReduceMaxInternal: its result, and what it has reported so far, since the
-- caller goes on with that also after a failure.
unfoldable pub reduce_loop : ℕ → Reduced → Cmd Area (Bool × Reduced)
reduce_loop zero r a = if leb a.dw_max_msg a.num_msg then stuck else ok (true, r) a
reduce_loop (suc fuel) r a =
    let round = after_freed (reduce_loop fuel) r (free_oldest a) in
    if leb a.dw_max_msg a.num_msg then round else ok (true, r) a

-- _SquishReduceMaxInternal: each round takes a message away.
unfoldable pub squish_reduce_max_internal : Reduced → Cmd Area (Bool × Reduced)
unfolding reduce_loop
squish_reduce_max_internal r a = reduce_loop a.num_msg r a

-- "Adjust the 'first message' pointer": `foFirstPrior` with it, and the result so far.
unfoldable pub relink_first : Reduced → Cmd Area Bool
relink_first r a =
    if a.w_skip_msg == 0
    then (do
      modify (λ s. record s { fo_first = r.fo_first })
      attempt (squish_set_frame_prev r.fo_first null_frame))
        a
    else (do
      linked ← attempt (squish_set_frame_next r.fo_first_prior r.fo_first)
      back ← attempt (squish_set_frame_prev r.fo_first r.fo_first_prior)
      pure (linked && back))
        a

-- "If we were just outside the deleted range, adjust appropriately".
unfoldable pub adjust_neighbours : Reduced → Cmd Area (Unit {0})
adjust_neighbours r a =
    if a.cur_msg == add32 (add32 a.w_skip_msg r.dw_deleted) 1
    then (if a.w_skip_msg == 0
        then ok tt (record a { fo_prev = null_frame })
        else and_then (squish_get_frame_ofs a.w_skip_msg a)
            (λ fo s. ok tt (record s { fo_prev = fo })))
    else ok tt (if a.cur_msg == a.w_skip_msg then record a { fo_next = r.fo_first } else a)

-- "We were inside the range of messages that was deleted": the position is the last message that
-- is skipped, or message zero where it cannot be read.
unfoldable pub to_skipped : ℕ → Sqhdr → Area → Area
to_skipped fo sqh a = record a {
  fo_cur = fo;
  fo_prev = sqh.prev_frame;
  fo_next = sqh.next_frame;
  cur_msg = a.w_skip_msg;
}

abbrev pub at_skipped : ℕ → Run Area Sqhdr → Run Area (Unit {0})
at_skipped fo (ok sqh a) = ok tt (to_skipped fo sqh a)
at_skipped fo (fail a) = ok tt (to_message_zero a)
at_skipped fo stuck = stuck

unfoldable pub leave_deleted : Cmd Area (Unit {0})
unfolding to_skipped
leave_deleted a =
    if a.w_skip_msg == 0
    then ok tt (to_message_zero a)
    else and_then (squish_get_frame_ofs a.w_skip_msg a) (λ fo s.
      if fo == null_frame then ok tt (to_message_zero s) else at_skipped fo (squish_read_hdr fo s))

-- "If the current message number was greater than skip_msg, we will need to adjust our pointers."
unfoldable pub adjust_position : Reduced → Cmd Area (Unit {0})
unfolding leave_deleted
adjust_position r a =
    if ltb a.w_skip_msg a.cur_msg
    then (if leb a.cur_msg (add32 a.w_skip_msg r.dw_deleted)
        then leave_deleted a
        else ok tt (record a { cur_msg = sub32 a.cur_msg r.dw_deleted }))
    else ok tt a

-- "Adjust the HWM, if necessary": a signed difference, compared as `long`.
unfoldable pub adjust_high_water : Reduced → Area → Area
adjust_high_water r a =
    if leb a.w_skip_msg a.high_water
    then (if slt (sub32 a.high_water r.dw_deleted) a.w_skip_msg
        then record a { high_water = a.w_skip_msg }
        else record a { high_water = sub32 a.high_water r.dw_deleted })
    else a

-- _SquishReduceMaxPointers: its result, which no later step changes.
unfoldable pub squish_reduce_max_pointers : Reduced → Cmd Area Bool
unfolding relink_first adjust_neighbours adjust_position adjust_high_water
squish_reduce_max_pointers r = do
  rc ← relink_first r
  adjust_neighbours r
  adjust_position r
  modify (adjust_high_water r)
  pure rc

abbrev pub nothing_reduced : Reduced
nothing_reduced = record { dw_deleted = 0; fo_first = null_frame; fo_first_prior = null_frame }

-- _SquishReduceMaxMsgs.
unfoldable pub squish_reduce_max_msgs : Cmd Area Bool
unfolding squish_reduce_max_internal squish_reduce_max_pointers
squish_reduce_max_msgs a =
    if a.dw_max_msg == 0 || (ltb a.num_msg a.dw_max_msg || leb a.num_msg a.w_skip_msg)
    then ok true a
    else (do
      begun ← attempt squish_begin_buffer
      if not begun then pure false else (do
        (rc, r) ← squish_reduce_max_internal nothing_reduced
        fixed ← squish_reduce_max_pointers r
        ended ← attempt squish_end_buffer
        pure (rc && (fixed && ended))))
        a
