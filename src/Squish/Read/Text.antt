-- ===== src/Squish/Read/Text.antt =====
-- The text that _SquishReadTxt gives.
use xmsgapi.Base.{arith, ℕ, ◌+◌, ◌-◌, ◌<◌, ◌^◌, ◌≡◌, ◌≤◌}
use xmsgapi.Base.Cmd.{ok}
use xmsgapi.Base.Word.{IsLong, add32, min_of}
use xmsgapi.File.{window}
use xmsgapi.Squish.Area.{badf}
use xmsgapi.Squish.Header.{Sqhdr}
use xmsgapi.Squish.Msg.{Hmsg}
use xmsgapi.Squish.Read.{clamped, read_txt_at, squish_read_txt, text_len, text_ofs}
use xmsgapi.Squish.Read.Laws.{Known, at_ofs, get_bytes-ok, seek_unless_there-ok}
use xmsgapi.Squish.Xmsg.{xmsg_size}

-- The message of the handle lies in the data file, and its header is consistent: the header, the
-- control information and the text are its length.
pub record IsInFile (s : Hmsg) : Type 0 where
  pub long_enough : xmsg_size + s.m.sqh_read.clen ≤ s.m.sqh_read.msg_length
  pub inside : s.m.fo_read + s.ha.cb_sqhdr + s.m.sqh_read.msg_length ≤ s.ha.sfd.size
  pub small : IsLong s.ha.sfd.size

abbrev pub text_size : Sqhdr → ℕ
text_size h = h.msg_length - (xmsg_size + h.clen)

abbrev pub text_start : Hmsg → ℕ
text_start s = s.m.fo_read + s.ha.cb_sqhdr + xmsg_size + s.m.sqh_read.clen

-- Where the reading starts within the text, and how much of `n` bytes there is.
abbrev pub start_in_text : Hmsg → ℕ
start_in_text s = min_of s.m.cur_pos (text_size s.m.sqh_read)

abbrev pub left_in_text : ℕ → Hmsg → ℕ
left_in_text n s = min_of (text_size s.m.sqh_read - start_in_text s) n

-- The handle after the reading.
abbrev pub after_txt : ℕ → Hmsg → Hmsg
after_txt n s = record {
  ha = at_ofs (text_start s + start_in_text s + left_in_text n s) s.ha;
  m = record (s.m) { cur_pos = start_in_text s + left_in_text n s };
}

read_txt_at-ok :
    (s : Hmsg) (dw_ofs cur ofs k : ℕ)
    → Known dw_ofs s.ha
    → ofs + k ≤ s.ha.sfd.size
    → ofs < 2 ^ 31
    → cur + k < 2 ^ 32
    → read_txt_at dw_ofs cur ofs k s
      ≡ ok
          (window s.ha.sfd.bytes ofs k)
          (record { ha = at_ofs (ofs + k) s.ha; m = record (s.m) { cur_pos = cur + k } })
unfolding read_txt_at
read_txt_at-ok s dw_ofs cur ofs k known inside small no_wrap =
    let sum : add32 cur k ≡ cur + k = omega arith in
    rw (
      seek_unless_there-ok badf dw_ofs ofs s.ha known small,
      get_bytes-ok k (at_ofs ofs s.ha) inside,
      sum,
    )

module _ (s : Hmsg) (there : IsInFile s) where
  open there use {long_enough, inside, small}

  text_len-eq : text_len s.m.sqh_read ≡ text_size s.m.sqh_read
  unfolding text_len
  text_len-eq = omega (arith, long_enough, inside, small)

  clamped-eq : clamped s ≡ start_in_text s
  clamped-eq = ground (arith, text_len-eq)

  text_ofs-eq :
      add32 (text_ofs s.m.fo_read s.ha.cb_sqhdr s.m.sqh_read.clen) (start_in_text s)
      ≡ text_start s + start_in_text s
  text_ofs-eq = ground (arith, long_enough, inside, small)

-- For a message that lies in the file, _SquishReadTxt gives the bytes of its text from `cur_pos`
-- on, or none where `cur_pos` is behind the text: as many as were asked for and the text has, none
-- of them outside of the text. `cur_pos` moves behind what was read, and apart from it and the
-- position of the file nothing changes.
pub squish_read_txt_lem :
    (s : Hmsg) (n dw_ofs : ℕ)
    → IsInFile s
    → Known dw_ofs s.ha
    → (squish_read_txt n dw_ofs s
        ≡ ok
            (window s.ha.sfd.bytes (text_start s + start_in_text s) (left_in_text n s))
            (after_txt n s))
      × (left_in_text n s ≤ n)
      × (text_start s + start_in_text s + left_in_text n s ≤ text_start s + text_size s.m.sqh_read)
unfolding squish_read_txt
squish_read_txt_lem s n dw_ofs there known =
    let long_enough = there.long_enough in
    let inside = there.inside in
    let small = there.small in
    (
      rw (clamped-eq s there, text_ofs-eq s there, text_len-eq s there)
          (read_txt_at-ok s dw_ofs (start_in_text s) (text_start s + start_in_text s)
            (left_in_text n s) known (ground arith) (ground arith) (ground arith)),
      ground arith,
      ground arith,
    )
