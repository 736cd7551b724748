-- ===== src/Squish/Misc.antt =====
-- Positions, lengths, the high water mark and the limits: sq_misc.c.
use xmsgapi.Base.{Bool, if◌then◌else◌, ltb, not, ℕ, ◌%◌, ◌&&◌, ◌==◌, ◌||◌}
use xmsgapi.Base.Cmd.{Cmd, Run, attempt, fail, get, modify, ok, pure, stuck, ◌>>=◌, ◌>>◌}
use xmsgapi.Base.Word.{dword_max, sub32, word_mod}
use xmsgapi.Squish.Area.{Area, noent, refuse}
use xmsgapi.Squish.Lock.{squish_exclusive_begin, squish_exclusive_end}
use xmsgapi.Squish.Msg.{Hmsg, set_msgh, squish_read_mode}
use xmsgapi.Squish.Uid.{api_squish_msgn_to_uid, api_squish_uid_to_msgn, uid_prev}
use xmsgapi.Squish.Xmsg.{xmsg_size}

-- apiSquishSetCurPos and apiSquishGetCurPos.
unfoldable pub api_squish_set_cur_pos : ℕ → Cmd Hmsg (Unit {0})
api_squish_set_cur_pos dw_ofs = do
  squish_read_mode
  modify (set_msgh (λ m. record m { cur_pos = dw_ofs }))

unfoldable pub api_squish_get_cur_pos : Cmd Hmsg ℕ
api_squish_get_cur_pos = do squish_read_mode; s ← get; pure s.m.cur_pos

-- apiSquishGetTextLen and apiSquishGetCtrlLen.
unfoldable pub api_squish_get_text_len : Cmd Hmsg ℕ
api_squish_get_text_len = do
  squish_read_mode
  s ← get
  pure (sub32 (sub32 s.m.sqh_read.msg_length xmsg_size) s.m.sqh_read.clen)

unfoldable pub api_squish_get_ctrl_len : Cmd Hmsg ℕ
api_squish_get_ctrl_len = do squish_read_mode; s ← get; pure s.m.sqh_read.clen

-- apiSquishGetHighWater and apiSquishSetHighWater: the mark is kept as an identifier.
unfoldable pub api_squish_get_high_water : Cmd Area ℕ
api_squish_get_high_water a = api_squish_uid_to_msgn a.high_water uid_prev a

abbrev pub uid_or_0 : Run Area ℕ → Run Area ℕ
uid_or_0 (ok u a) = ok u a
uid_or_0 (fail a) = ok 0 a
uid_or_0 stuck = stuck

unfoldable pub api_squish_set_high_water : ℕ → Cmd Area (Unit {0})
api_squish_set_high_water dw_msg a =
    if ltb a.num_msg dw_msg
    then refuse noent a
    else (do
      squish_exclusive_begin
      uid ← (λ s. uid_or_0 (api_squish_msgn_to_uid dw_msg s))
      modify (λ s. record s { high_water = uid })
      squish_exclusive_end)
        a

-- `x != (dword) -1 && x != field`, and the field after the call.
abbrev pub changes : ℕ → ℕ → Bool
changes x field = not (x == dword_max) && not (x == field)

abbrev pub unless_kept : ℕ → ℕ → ℕ → ℕ
unless_kept x new field = if x == dword_max then field else new

unfoldable pub set_limits : ℕ → ℕ → ℕ → Area → Area
set_limits max skip days a = record a {
  dw_max_msg = unless_kept max max a.dw_max_msg;
  w_skip_msg = unless_kept skip (skip % word_mod) a.w_skip_msg;
  w_max_days = unless_kept days (days % word_mod) a.w_max_days;
}

-- apiSquishSetMaxMsg, which reports nothing, and apiSquishGetMaxMsg.
unfoldable pub api_squish_set_max_msg : ℕ → ℕ → ℕ → Cmd Area (Unit {0})
unfolding set_limits
api_squish_set_max_msg max skip days a =
    if changes max a.dw_max_msg || (changes skip a.w_skip_msg || changes days a.w_max_days)
    then (do
      begun ← attempt squish_exclusive_begin
      if begun
          then (do modify (set_limits max skip days); attempt squish_exclusive_end; pure tt)
          else pure tt)
        a
    else ok tt a

unfoldable pub api_squish_get_max_msg : Area → ℕ × ℕ × ℕ
api_squish_get_max_msg a = (a.dw_max_msg, a.w_skip_msg, a.w_max_days)
