-- ===== src/Squish/Read.antt =====
-- Reading a message: sq_read.c. A function that fills a buffer gives the bytes for it.
pub mod Laws
pub mod Text
pub mod Whole
use xmsgapi.Base.{
  Bool, List, Option, false, if◌then◌else◌, length, ltb, none, some, true, ℕ, ◌%◌, ◌-◌, ◌/◌, ◌==◌,
  ◌^◌,
}
use xmsgapi.Base.Cmd.{Cmd, modify, ok, pure, ◌>>=◌, ◌>>◌}
use xmsgapi.Base.Word.{add32, dword_max, min_of, sub32}
use xmsgapi.File.{read}
use xmsgapi.Squish.Area.{Area, Merr, badf, refuse, seek_sfd}
use xmsgapi.Squish.Header.{Sqhdr}
use xmsgapi.Squish.Msg.{Hmsg, on_area, set_msgh, squish_read_mode}
use xmsgapi.Squish.Xmsg.{Xmsg, read_xmsg, xmsg_size}

-- `if (*pdwOfs != ofs) lseek(...)`: no seek where the position is known to be there.
abbrev pub seek_unless_there : Merr → ℕ → ℕ → Cmd Area (Unit {0})
seek_unless_there e dw_ofs ofs = if dw_ofs == ofs then pure tt else seek_sfd e ofs

abbrev pub xmsg_or_badf : Option Xmsg → Cmd Area Xmsg
xmsg_or_badf none = refuse badf
xmsg_or_badf (some x) = pure x

unfoldable pub get_xmsg : Cmd Area Xmsg
get_xmsg a = let (got, sfd') = read_xmsg a.sfd in xmsg_or_badf got (record a { sfd = sfd' })

-- `if (read(sfd, buf, n) != n) { msgapierr = MERR_BADF; return FALSE; }`
unfoldable pub get_bytes : ℕ → Cmd Area (List ℕ)
get_bytes n a =
    let (buf, sfd') = read n a.sfd in
    let a' = record a { sfd = sfd' } in if length buf == n then ok buf a' else refuse badf a'

-- `attr & MSGUID`, bit 17.
abbrev pub has_msguid : ℕ → Bool
has_msguid attr = attr / 2 ^ 17 % 2 == 1

-- _SquishReadXmsg: the header, and `*pdwOfs`.
unfoldable pub squish_read_xmsg : ℕ → Cmd Hmsg (Xmsg × ℕ)
squish_read_xmsg dw_ofs s =
    let ofs = add32 s.m.fo_read s.ha.cb_sqhdr in
    (do
      on_area (seek_unless_there badf dw_ofs ofs)
      x ← on_area get_xmsg
      modify
          (set_msgh (λ m. record m { uid_us = if has_msguid x.attr then x.umsgid else m.uid_us }))
      pure (x, add32 ofs xmsg_size))
      s

-- _SquishReadCtrl: the control information, and `*pdwOfs`.
unfoldable pub squish_read_ctrl : ℕ → ℕ → Cmd Hmsg (List ℕ × ℕ)
squish_read_ctrl dw_ctrl_len dw_ofs s =
    let ofs = add32 (add32 s.m.fo_read s.ha.cb_sqhdr) xmsg_size in
    let max_len = min_of dw_ctrl_len s.m.sqh_read.clen in
    (do
      on_area (seek_unless_there badf dw_ofs ofs)
      buf ← on_area (get_bytes max_len)
      pure (buf, add32 ofs max_len))
      s

-- "Max length is the size of the msg text inside the frame".
unfoldable pub text_len : Sqhdr → ℕ
text_len h = sub32 (sub32 h.msg_length h.clen) xmsg_size

-- Where the text of the message starts.
abbrev pub text_ofs : ℕ → ℕ → ℕ → ℕ
text_ofs fo cb_sqhdr clen = add32 (add32 (add32 fo cb_sqhdr) xmsg_size) clen

-- The seek and the read of _SquishReadTxt, with `cur_pos`, the offset and the length computed.
unfoldable pub read_txt_at : ℕ → ℕ → ℕ → ℕ → Cmd Hmsg (List ℕ)
unfolding get_bytes
read_txt_at dw_ofs cur ofs max_len = do
  modify (set_msgh (λ m. record m { cur_pos = cur }))
  on_area (seek_unless_there badf dw_ofs ofs)
  buf ← on_area (get_bytes max_len)
  modify (set_msgh (λ m. record m { cur_pos = add32 cur max_len }))
  pure buf

-- "Make sure that we don't try to read beyond the end of the msg".
abbrev pub clamped : Hmsg → ℕ
clamped s = if ltb (text_len s.m.sqh_read) s.m.cur_pos then text_len s.m.sqh_read else s.m.cur_pos

-- _SquishReadTxt: the text from `cur_pos` on, which moves behind it.
unfoldable pub squish_read_txt : ℕ → ℕ → Cmd Hmsg (List ℕ)
unfolding read_txt_at text_len
squish_read_txt dw_txt_len dw_ofs s =
    read_txt_at dw_ofs (clamped s)
      (add32 (text_ofs s.m.fo_read s.ha.cb_sqhdr s.m.sqh_read.clen) (clamped s))
      (min_of (text_len s.m.sqh_read - clamped s) dw_txt_len) s

-- What the caller of apiSquishReadMsg gets: the parts that it asked for.
pub record Got : Type 0 where
  pub pxm : Option Xmsg
  pub sz_ctrl : Option (List ℕ)
  pub sz_txt : Option (List ℕ)

unfoldable pub read_header : Bool → ℕ → Cmd Hmsg (Option Xmsg × ℕ)
read_header false dw_ofs = pure (none, dw_ofs)
read_header true dw_ofs = do (x, o) ← squish_read_xmsg dw_ofs; pure (some x, o)

unfoldable pub read_ctrl : ℕ → ℕ → Cmd Hmsg (Option (List ℕ) × ℕ)
read_ctrl dw_ctrl_len dw_ofs s =
    if dw_ctrl_len == 0
    then ok (none, dw_ofs) s
    else (do (buf, o) ← squish_read_ctrl dw_ctrl_len dw_ofs; pure (some buf, o)) s

unfoldable pub read_txt : ℕ → ℕ → ℕ → Cmd Hmsg (Option (List ℕ))
read_txt dw_ofs dw_txt_len seek_ofs s =
    if dw_txt_len == 0
    then ok none s
    else (do
      modify (set_msgh (λ m. record m { cur_pos = dw_ofs }))
      buf ← squish_read_txt dw_txt_len seek_ofs
      pure (some buf))
        s

-- apiSquishReadMsg: a header if one is asked for, the text from `dw_ofs` on and the control
-- information up to the lengths that are given. A buffer of length 0 is no buffer. Its result is
-- the number of bytes of text.
unfoldable pub api_squish_read_msg : Bool → ℕ → ℕ → ℕ → Cmd Hmsg Got
api_squish_read_msg pxm dw_ofs dw_txt_len dw_ctrl_len = do
  squish_read_mode
  (x, o) ← read_header pxm dword_max
  (c, o') ← read_ctrl dw_ctrl_len o
  t ← read_txt dw_ofs dw_txt_len o'
  pure (record { pxm = x; sz_ctrl = c; sz_txt = t })
