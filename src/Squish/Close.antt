-- ===== src/Squish/Close.antt =====
-- Closing an area: _SquishCloseAreaMsgs and apiSquishCloseArea of sq_area.c.
use xmsgapi.Base.{List, [], if◌then◌else◌, ℕ, ◌==◌, ◌∷◌}
use xmsgapi.Base.Cmd.{Cmd, Run, attempt, fail, ok, pure, stuck, ◌>>◌}
use xmsgapi.Squish.Area.{Area, eopen, refuse}
use xmsgapi.Squish.Lock.{api_squish_unlock, squish_exclusive_end}
use xmsgapi.Squish.Msg.{Msgh}
use xmsgapi.Squish.Msg.Handles.{Session, api_squish_close_msg, in_area}
use xmsgapi.Squish.Removal.{squish_close_index}

-- The loop of _SquishCloseAreaMsgs, over the handles that the list had at its start.
abbrev pub or_eopen : (Cmd Session (Unit {0})) → Run Session (Unit {0}) → Run Session (Unit {0})
or_eopen next (ok _ s) = next s
or_eopen next (fail s) = in_area (refuse eopen) s
or_eopen next stuck = stuck

unfoldable pub close_each : List (ℕ × Msgh) → Cmd Session (Unit {0})
close_each [] s = ok tt s
close_each ((p, m) ∷ l) s = or_eopen (close_each l) (api_squish_close_msg p s)

-- _SquishCloseAreaMsgs.
unfoldable pub squish_close_area_msgs : Cmd Session (Unit {0})
unfolding close_each
squish_close_area_msgs s = close_each s.hmsg_open s

-- "Unlock the area, if necessary".
unfoldable pub end_exclusive : Cmd Area (Unit {0})
end_exclusive a = if a.have_exclusive then (do attempt squish_exclusive_end; pure tt) a else ok tt a

-- "Unlock the area as well": one use of the lock is left, however often it was taken.
unfoldable pub end_lock : Cmd Area (Unit {0})
end_lock a =
    if a.f_lock_func == 0
    then ok tt a
    else (do attempt api_squish_unlock; pure tt)
        (record a { f_locked = if a.f_locked == 0 then 0 else 1; f_lock_func = 1 })

-- apiSquishCloseArea, up to the closing of the files and the memory of the handle.
unfoldable pub api_squish_close_area : Cmd Session (Unit {0})
unfolding squish_close_area_msgs end_exclusive end_lock
api_squish_close_area = do
  squish_close_area_msgs
  in_area end_exclusive
  in_area end_lock
  attempt (in_area squish_close_index)
  pure tt
