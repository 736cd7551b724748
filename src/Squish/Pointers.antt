-- ===== src/Squish/Pointers.antt =====
-- The places of messages: _SquishGetFrameOfs and _SquishFixMemoryPointers of sq_help.c.
use xmsgapi.Base.{if◌then◌else◌, leb, ℕ, ◌==◌}
use xmsgapi.Base.Cmd.{Cmd, Run, fail, modify, ok, stuck, ◌>>◌}
use xmsgapi.Base.Word.{add32, sub32}
use xmsgapi.Squish.Area.{Area, noent, set_err}
use xmsgapi.Squish.Frame.{squish_read_hdr}
use xmsgapi.Squish.Header.{Sqhdr, null_frame}
use xmsgapi.Squish.Index.{sidx_get}
use xmsgapi.Squish.Sqidx.{Sqidx}

abbrev ofs_or_null : Run Area Sqidx → Run Area ℕ
ofs_or_null (ok r s) = ok r.ofs s
ofs_or_null (fail s) = ok null_frame s
ofs_or_null stuck = stuck

-- _SquishGetFrameOfs. A record that the index does not give is NULL_FRAME.
unfoldable pub squish_get_frame_ofs : ℕ → Cmd Area ℕ
squish_get_frame_ofs dw_msg a =
    let asked = set_err noent a in
    if dw_msg == a.cur_msg
    then ok a.fo_cur asked
    else (if dw_msg == sub32 a.cur_msg 1
        then ok a.fo_prev asked
        else (if dw_msg == add32 a.cur_msg 1
            then ok a.fo_next asked
            else ofs_or_null (sidx_get dw_msg asked)))

-- The four tests before "If we killed the message that we are on".
unfoldable pub fix_links : ℕ → Sqhdr → Area → Area
fix_links dw_msg psqh a = record a {
  fo_first = if dw_msg == 1 then psqh.next_frame else a.fo_first;
  fo_last = if dw_msg == a.num_msg then psqh.prev_frame else a.fo_last;
  fo_next = if dw_msg == add32 a.cur_msg 1 then psqh.next_frame else a.fo_next;
  fo_prev = if dw_msg == sub32 a.cur_msg 1 then psqh.prev_frame else a.fo_prev;
}

-- "If we killed the message that we are on": the position moves to the message before it, or to
-- message 0 where there is none.
unfoldable pub step_back : Sqhdr → Cmd Area (Unit {0})
step_back psqh a = elim (squish_read_hdr psqh.prev_frame a) [
  | ok h s ↦ ok tt (record s {
    fo_cur = psqh.prev_frame;
    fo_prev = h.prev_frame;
    fo_next = h.next_frame;
    cur_msg = sub32 s.cur_msg 1;
  })
  | fail s ↦
      ok tt
        (record s { fo_cur = null_frame; fo_prev = null_frame; fo_next = s.fo_first; cur_msg = 0 })
  | stuck ↦ stuck
]

-- The numbers of messages, one less than before.
unfoldable pub count_down : ℕ → Area → Area
count_down dw_msg a = record a {
  num_msg = sub32 a.num_msg 1;
  high_msg = sub32 a.high_msg 1;
  high_water = if leb dw_msg a.high_water then sub32 a.high_water 1 else a.high_water;
}

-- _SquishFixMemoryPointers, for message `dw_msg` whose frame header is `psqh`.
unfoldable pub squish_fix_memory_pointers : ℕ → Sqhdr → Cmd Area (Unit {0})
unfolding step_back
squish_fix_memory_pointers dw_msg psqh = do
  modify (fix_links dw_msg psqh)
  (λ a.
      if dw_msg == a.cur_msg
      then step_back psqh a
      else ok tt
          (record a { cur_msg = if leb dw_msg a.cur_msg then sub32 a.cur_msg 1 else a.cur_msg }))
  modify (count_down dw_msg)
