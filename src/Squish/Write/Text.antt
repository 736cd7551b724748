-- ===== src/Squish/Write/Text.antt =====
-- The text that _SquishWriteTxt writes.
use xmsgapi.Base.{
  Bool, Bool-cases, List, arith, if◌then◌else◌, inl, inr, length, length-take, take, true, ℕ, ◌+◌,
  ◌-◌, ◌<◌, ◌^◌, ◌≡◌, ◌≤◌,
}
use xmsgapi.Base.Cmd.{ok}
use xmsgapi.Base.Word.{IsLong, add32, min_of, sub32}
use xmsgapi.File.{File}
use xmsgapi.Squish.Area.{nods}
use xmsgapi.Squish.Msg.{Hmsg}
use xmsgapi.Squish.Read.{text_ofs}
use xmsgapi.Squish.Read.Laws.{Known, at_ofs, seek_unless_there-ok}
use xmsgapi.Squish.Read.Text.{text_size}
use xmsgapi.Squish.Write.{squish_write_txt, write_txt_at}
use xmsgapi.Squish.Write.Laws.{Laid, put_bytes-ok}
use xmsgapi.Squish.Xmsg.{xmsg_size}

-- The frame of the handle lies in the data file with all of its message, and the disk holds the
-- file.
pub record HasFrame (s : Hmsg) : Type 0 where
  pub long_enough : xmsg_size + s.m.sqh_write.clen ≤ s.m.sqh_write.msg_length
  pub inside : s.m.fo_write + s.ha.cb_sqhdr + s.m.sqh_write.msg_length ≤ s.ha.sfd.size
  pub small : IsLong s.ha.sfd.size
  pub room : s.ha.sfd.size ≤ s.ha.sfd.room

abbrev pub write_start : Hmsg → ℕ
write_start s = s.m.fo_write + s.ha.cb_sqhdr + xmsg_size + s.m.sqh_write.clen

-- Where the writing starts within the text, and how much of `t` there is room for.
abbrev pub append_from : Bool → Hmsg → ℕ
append_from f_append s = if f_append then s.m.dw_write_pos else 0

abbrev pub room_for : Bool → List ℕ → Hmsg → ℕ
room_for f_append t s = min_of (text_size s.m.sqh_write - append_from f_append s) (length t)

-- The handle after the writing, with the data file `g`.
abbrev pub after_write : Bool → List ℕ → File → Hmsg → Hmsg
after_write f_append t g s = record {
  ha = record (s.ha) { sfd = g };
  m = record (s.m) { dw_write_pos = add32 s.m.dw_write_pos (room_for f_append t s) };
}

write_txt_at-ok :
    (s : Hmsg) (t : List ℕ) (dw_ofs ofs n : ℕ)
    → Known dw_ofs s.ha
    → n ≤ length t
    → ofs + n ≤ s.ha.sfd.size
    → s.ha.sfd.size ≤ s.ha.sfd.room
    → ofs < 2 ^ 31
    → (g : File) × (write_txt_at dw_ofs ofs n t s
        ≡ ok tt (record {
          ha = record (s.ha) { sfd = g };
          m = record (s.m) { dw_write_pos = add32 s.m.dw_write_pos n };
        }))
      × Laid s.ha.sfd ofs (take n t) g
unfolding write_txt_at
write_txt_at-ok s t dw_ofs ofs n known some_of inside room small =
    let len = length-take n t some_of in
    let (g, w, laid, _) = put_bytes-ok (at_ofs ofs s.ha) (take n t) (omega (arith, len)) room in
    (
      g,
      rw (seek_unless_there-ok nods dw_ofs ofs s.ha known small, w),
      record { size = laid.size; room = laid.room; inside = laid.inside; outside = laid.outside },
    )

-- An append starts within the text.
abbrev pub StartsWithin : Bool → Hmsg → Type 0
StartsWithin f_append s = f_append ≡ true → s.m.dw_write_pos ≤ text_size s.m.sqh_write

module _ (s : Hmsg) (f_append : Bool) (frame : HasFrame s) (written : StartsWithin f_append s) where
  open frame use {long_enough, inside, small}

  from_le : append_from f_append s ≤ text_size s.m.sqh_write
  from_le = elim (Bool-cases f_append) [ inl e ↦ rw e (written e) | inr e ↦ rw e (omega arith) ]

  pub room-eq :
      sub32
        (sub32 (sub32 s.m.sqh_write.msg_length xmsg_size) s.m.sqh_write.clen)
        (append_from f_append s)
      ≡ text_size s.m.sqh_write - append_from f_append s
  room-eq = omega (arith, from_le, long_enough, inside, small)

  pub start-eq :
      add32 (text_ofs s.m.fo_write s.ha.cb_sqhdr s.m.sqh_write.clen) (append_from f_append s)
      ≡ write_start s + append_from f_append s
  start-eq = omega (arith, from_le, long_enough, inside, small)

-- For a frame that lies in the file, and for an append whose write position is within the text,
-- _SquishWriteTxt succeeds: at the start of the text, or for an append at the write position, it
-- lays down the first bytes of what it is given, as many as the text has room for. All other bytes
-- of the file and its size stay, and the bytes that change are within the text. The write position
-- goes up by the number of these bytes, also where the writing was at the start and not an append.
pub squish_write_txt_lem :
    (s : Hmsg) (f_append : Bool) (t : List ℕ) (dw_ofs : ℕ)
    → HasFrame s
    → StartsWithin f_append s
    → Known dw_ofs s.ha
    → (g : File) × (squish_write_txt f_append t dw_ofs s ≡ ok tt (after_write f_append t g s))
      × Laid s.ha.sfd (write_start s + append_from f_append s) (take (room_for f_append t s) t) g
      × (append_from f_append s + room_for f_append t s ≤ text_size s.m.sqh_write)
unfolding squish_write_txt
squish_write_txt_lem s f_append t dw_ofs frame written known =
    let from = from_le s f_append frame written in
    let long_enough = frame.long_enough in
    let inside = frame.inside in
    let small = frame.small in
    let (g, w, laid) =
      write_txt_at-ok s t dw_ofs (write_start s + append_from f_append s) (room_for f_append t s)
        known (ground arith) (ground arith) frame.room (ground arith) in
    (
      g,
      rw (start-eq s f_append frame written, room-eq s f_append frame written) w,
      laid,
      ground arith,
    )
