-- ===== src/Squish/Msg/Handles.antt =====
-- The list of open messages of an area, and the calls that open and close a message:
-- apiSquishOpenMsg, _SquishCloseRemoveList and apiSquishCloseMsg of sq_msg.c. A handle is the
-- address that `malloc` gives for it.
use mathlib.Core.Option
use xmsgapi.Base.{List, Option, [], if◌then◌else◌, none, not, some, ℕ, ◌&&◌, ◌==◌, ◌∷◌}
use xmsgapi.Base.Cmd.{Cmd, Run, attempt, fail, lift, modify, ok, pure, stuck, ◌>>◌}
use xmsgapi.Squish.Area.{Area, bada, badh, refuse}
use xmsgapi.Squish.Msg.{
  Hmsg, Msgh, mopen_create, new_hmsg, squish_open_msg_existing, squish_translate_num,
}
use xmsgapi.Squish.Msg.Create.{squish_close_undo_write, squish_open_msg_create}

-- An area with `hmsgOpen`, the open messages in the order of their links.
pub record Session : Type 0 where
  pub ha : Area
  pub hmsg_open : List (ℕ × Msgh)

abbrev pub in_area : {A : Type 0} → Cmd Area A → Cmd Session A
in_area = lift (λ s. s.ha) (λ a s. record s { ha = a })

unfoldable pub handle : ℕ → List (ℕ × Msgh) → Option Msgh
handle p [] = none
handle p ((q, m) ∷ l) = if q == p then some m else handle p l

unfoldable pub set_handle : ℕ → Msgh → List (ℕ × Msgh) → List (ℕ × Msgh)
set_handle p m' [] = []
set_handle p m' ((q, m) ∷ l) = if q == p then (q, m') ∷ l else (q, m) ∷ set_handle p m' l

-- A call on the handle `p`: MsgInvalidHmsg refuses what is not an open message.
abbrev pub put_back : {A : Type 0} → ℕ → Session → Run Hmsg A → Run Session A
put_back p s (ok a h) = ok a (record { ha = h.ha; hmsg_open = set_handle p h.m s.hmsg_open })
put_back p s (fail h) = fail (record { ha = h.ha; hmsg_open = set_handle p h.m s.hmsg_open })
put_back p s stuck = stuck

abbrev pub run_on : {A : Type 0} → ℕ → Cmd Hmsg A → Option Msgh → Cmd Session A
run_on p c none = in_area (refuse badh)
run_on p c (some m) = λ s. put_back p s (c (record { ha = s.ha; m = m }))

unfoldable pub on_handle : {A : Type 0} → ℕ → Cmd Hmsg A → Cmd Session A
on_handle p c s = run_on p c (handle p s.hmsg_open) s

-- The new handle goes to the head of the list if the message was opened, and is freed otherwise.
abbrev pub linked : ℕ → Session → Run Hmsg (Unit {0}) → Run Session ℕ
linked p s (ok _ h) = ok p (record { ha = h.ha; hmsg_open = (p, h.m) ∷ s.hmsg_open })
linked p s (fail h) = fail (record s { ha = h.ha })
linked p s stuck = stuck

-- "Create a new message, or open an existing message, as specified".
unfoldable pub open_as : ℕ → ℕ → Cmd Hmsg (Unit {0})
open_as w_mode dw_msg =
    if w_mode == mopen_create
    then squish_open_msg_create dw_msg
    else squish_open_msg_existing dw_msg

-- apiSquishOpenMsg, where `malloc` gives the address `p` if it has memory.
unfoldable pub api_squish_open_msg : ℕ → ℕ → ℕ → Cmd Session ℕ
unfolding open_as
api_squish_open_msg p w_mode dw_msg s =
    if not s.ha.os.mem
    then fail s
    else linked p s (
        open_as w_mode (squish_translate_num dw_msg s.ha)
          (record { ha = s.ha; m = new_hmsg w_mode }))

-- The list without the handle, `none` where it is not there.
unfoldable pub remove_handle : ℕ → List (ℕ × Msgh) → Option (List (ℕ × Msgh))
remove_handle p [] = none
remove_handle p ((q, m) ∷ l) =
    if q == p then some l else Option.map (λ l'. (q, m) ∷ l') (remove_handle p l)

abbrev pub removed : Option (List (ℕ × Msgh)) → Cmd Session (Unit {0})
removed none = in_area (refuse bada)
removed (some l) = modify (λ s. record s { hmsg_open = l })

-- _SquishCloseRemoveList.
unfoldable pub squish_close_remove_list : ℕ → Cmd Session (Unit {0})
squish_close_remove_list p s = removed (remove_handle p s.hmsg_open) s

-- apiSquishCloseMsg, on the handle `p`.
unfoldable pub close_handle : ℕ → Option Msgh → Cmd Session (Unit {0})
unfolding squish_close_remove_list
close_handle p none s = in_area (refuse badh) s
close_handle p (some m) s =
    if m.w_mode == mopen_create && (not m.f_written && m.dw_msg == s.ha.num_msg)
    then (do
      in_area (squish_close_undo_write m.dw_msg)
      attempt (squish_close_remove_list p)
      pure tt)
        s
    else (do attempt (squish_close_remove_list p); pure tt) s

unfoldable pub api_squish_close_msg : ℕ → Cmd Session (Unit {0})
unfolding close_handle
api_squish_close_msg p s = close_handle p (handle p s.hmsg_open) s
