-- ===== src/Squish/Kill.antt =====
-- The deletion of a message, sq_kill.c.
pub mod Refused
pub mod Ends
pub mod Whole
pub mod Deleted
use xmsgapi.Base.{Bool, false, if◌then◌else◌, ltb, some, true, ℕ, ◌&&◌, ◌==◌, ◌||◌}
use xmsgapi.Base.Cmd.{Cmd, Run, and_then, attempt, fail, ok, pure, stuck, ◌>>=◌, ◌>>◌}
use xmsgapi.Squish.Area.{Area, noent, set_err}
use xmsgapi.Squish.Frame.{next_unless_null, prev_unless_null, squish_read_hdr}
use xmsgapi.Squish.FreeChain.{squish_insert_free_chain}
use xmsgapi.Squish.Header.{Sqhdr, null_frame}
use xmsgapi.Squish.Lock.{squish_exclusive_begin, squish_exclusive_end}
use xmsgapi.Squish.Pointers.{squish_get_frame_ofs}
use xmsgapi.Squish.Removal.{squish_remove_index_entry}

-- _SquishKill.
unfoldable pub squish_kill : ℕ → Sqhdr → ℕ → Cmd Area (Unit {0})
squish_kill dw_msg psqh fo = do
  next_unless_null psqh.prev_frame psqh.next_frame
  prev_unless_null psqh.next_frame psqh.prev_frame
  squish_remove_index_entry dw_msg (some psqh)
  squish_insert_free_chain fo psqh

-- apiSquishKillMsg, with what `_SquishExclusiveBegin` gave: the result that it returns, 0 for
-- success. A refused lock is `return FALSE`, which is 0 as well.
unfoldable pub kill_locked : ℕ → Sqhdr → ℕ → Run Area (Unit {0}) → Run Area Bool
kill_locked dw_msg h fo (ok _ a) =
    (do
      rc ← attempt (squish_kill dw_msg h fo)
      ended ← attempt squish_exclusive_end
      pure (rc && ended))
      a
kill_locked dw_msg h fo (fail a) = ok true a
kill_locked dw_msg h fo stuck = stuck

-- The frame header, or -1.
abbrev pub with_header : ℕ → ℕ → Run Area Sqhdr → Run Area Bool
with_header dw_msg fo (ok h s) = kill_locked dw_msg h fo (squish_exclusive_begin s)
with_header dw_msg fo (fail s) = ok false s
with_header dw_msg fo stuck = stuck

-- apiSquishKillMsg: true stands for its result 0 and false for -1.
unfoldable pub api_squish_kill_msg : ℕ → Cmd Area Bool
api_squish_kill_msg dw_msg a =
    if dw_msg == 0 || ltb a.num_msg dw_msg
    then ok false (set_err noent a)
    else and_then (squish_get_frame_ofs dw_msg a) (λ fo s.
      if fo == null_frame then ok false s else with_header dw_msg fo (squish_read_hdr fo s))
