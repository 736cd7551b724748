-- ===== src/Squish/Write/Parts.antt =====
-- The parts of a message that apiSquishWriteMsg writes: the header and the control information.
use xmsgapi.Base.{
  List, [], ap, arith, false, if-false, length, ne→==, refl, take, take-length, ℕ, ◌+◌, ◌==◌, ◌||◌,
  ◌∙◌, ◌∷◌, ◌≡◌, ◌≢◌,
}
use xmsgapi.Base.Cmd.{ok}
use xmsgapi.Base.Word.{add32, min_of}
use xmsgapi.File.{File, window}
use xmsgapi.Squish.Area.{Area, nods}
use xmsgapi.Squish.Msg.{Hmsg}
use xmsgapi.Squish.Read.{seek_unless_there}
use xmsgapi.Squish.Read.Laws.{Known, at_ofs, seek_unless_there-ok}
use xmsgapi.Squish.Write.{
  know_uid, mark_uid, put_bytes, put_xmsg, squish_write_ctrl, squish_write_xmsg, write_ctrl,
}
use xmsgapi.Squish.Write.Laws.{Laid, put_bytes-ok, put_xmsg-ok}
use xmsgapi.Squish.Write.Text.{HasFrame}
use xmsgapi.Squish.Xmsg.{Xmsg, encode_xmsg, xmsg_size}
use xmsgapi.Squish.Xmsg.RoundTrip.{FitsXmsg}

-- The handle with the data file `g`.
abbrev pub with_sfd : File → Hmsg → Hmsg
with_sfd g s = record s { ha = record (s.ha) { sfd = g } }

abbrev pub header_start : Hmsg → ℕ
header_start s = s.m.fo_write + s.ha.cb_sqhdr

-- The runs, with the offsets and the results of the seek and the write as variables.
xmsg_steps :
    (s : Hmsg) (x : Xmsg) (dw_ofs ofs : ℕ) (g : File)
    → s.m.uid_us ≢ 0
    → add32 s.m.fo_write s.ha.cb_sqhdr ≡ ofs
    → seek_unless_there nods dw_ofs ofs s.ha ≡ ok tt (at_ofs ofs s.ha)
    → put_xmsg (mark_uid s.m.uid_us x) (at_ofs ofs s.ha) ≡ ok tt (record (s.ha) { sfd = g })
    → squish_write_xmsg x dw_ofs s ≡ ok (mark_uid s.m.uid_us x, add32 ofs xmsg_size) (with_sfd g s)
unfolding squish_write_xmsg know_uid
xmsg_steps s x dw_ofs ofs g uid at seeks put = rw (ne→== s.m.uid_us 0 uid, at, seeks, put)

put_whole :
    (a a' : Area) (d : List ℕ) (n : ℕ)
    → n ≡ length d
    → put_bytes d a ≡ ok tt a'
    → put_bytes (take n d) a ≡ ok tt a'
put_whole a a' d n e put = rw (e, take-length d) put

ctrl_steps :
    (s : Hmsg) (b : ℕ) (c : List ℕ) (dw_ofs ofs : ℕ) (g : File)
    → s.m.f_written ≡ false
    → min_of s.m.sqh_write.clen (length (b ∷ c)) ≡ length (b ∷ c)
    → add32 (add32 s.m.fo_write s.ha.cb_sqhdr) xmsg_size ≡ ofs
    → seek_unless_there nods dw_ofs ofs s.ha ≡ ok tt (at_ofs ofs s.ha)
    → put_bytes (b ∷ c) (at_ofs ofs s.ha) ≡ ok tt (record (s.ha) { sfd = g })
    → write_ctrl (b ∷ c) dw_ofs s ≡ ok (add32 ofs (length (b ∷ c))) (with_sfd g s)
unfolding write_ctrl squish_write_ctrl
ctrl_steps s b c dw_ofs ofs g first n at seeks put =
    let not_empty : (length (b ∷ c) == 0) ≡ false = ground arith in
    let some_bytes : (min_of s.m.sqh_write.clen (length (b ∷ c)) == 0) ≡ false =
      ground (arith, n) in
    let goes_on : (s.m.f_written || (min_of s.m.sqh_write.clen (length (b ∷ c)) == 0)) ≡ false =
      ap (λ w. w || (min_of s.m.sqh_write.clen (length (b ∷ c)) == 0)) first ∙ some_bytes in
    let whole = put_whole _ _ (b ∷ c) (min_of s.m.sqh_write.clen (length (b ∷ c))) n put in
    if-false _ _ not_empty ∙ (if-false _ _ goes_on ∙ rw (at, seeks, whole, n))

module _ (s : Hmsg) (frame : HasFrame s) where
  open frame use {long_enough, inside, small, room}

  pub squish_write_xmsg-ok :
      (x : Xmsg) (dw_ofs : ℕ)
      → s.m.uid_us ≢ 0
      → FitsXmsg (mark_uid s.m.uid_us x)
      → Known dw_ofs s.ha
      → (o : ℕ) × (g : File) × (squish_write_xmsg x dw_ofs s
          ≡ ok (mark_uid s.m.uid_us x, o) (with_sfd g s))
        × Laid s.ha.sfd (header_start s) (encode_xmsg (mark_uid s.m.uid_us x)) g
        × Known o (record (s.ha) { sfd = g })
  squish_write_xmsg-ok x dw_ofs uid fits known =
      let start = header_start s in
      let (g, w, laid, p) =
        put_xmsg-ok (at_ofs start s.ha) (mark_uid s.m.uid_us x) fits
          (omega (arith, long_enough, inside)) room in
      (
        add32 start xmsg_size,
        g,
        xmsg_steps s x dw_ofs start g uid (omega (arith, long_enough, inside, small))
            (seek_unless_there-ok nods dw_ofs start s.ha known
              (omega (arith, long_enough, inside, small)))
            w,
        record { size = laid.size; room = laid.room; inside = laid.inside; outside = laid.outside },
        λ _. omega (arith, p, long_enough, inside, small),
      )

  pub squish_write_ctrl-ok :
      (c : List ℕ) (dw_ofs : ℕ)
      → s.m.f_written ≡ false
      → length c ≡ s.m.sqh_write.clen
      → Known dw_ofs s.ha
      → (o : ℕ) × (g : File) × (write_ctrl c dw_ofs s ≡ ok o (with_sfd g s))
        × Laid s.ha.sfd (header_start s + xmsg_size) c g
        × Known o (record (s.ha) { sfd = g })
  squish_write_ctrl-ok [] dw_ofs first len known = (
    dw_ofs,
    s.ha.sfd,
    unfold write_ctrl in refl,
    record { size = refl; room = refl; inside = unfold window in refl; outside = λ q h. refl },
    known,
  )
  squish_write_ctrl-ok (b ∷ c) dw_ofs first len known =
      let start = header_start s + xmsg_size in
      let (g, w, laid, p) =
        put_bytes-ok (at_ofs start s.ha) (b ∷ c) (omega (arith, long_enough, inside, len)) room in
      (
        add32 start (length (b ∷ c)),
        g,
        ctrl_steps s b c dw_ofs start g first (ground (arith, len))
            (omega (arith, long_enough, inside, small))
            (seek_unless_there-ok nods dw_ofs start s.ha known
              (omega (arith, long_enough, inside, small)))
            w,
        record { size = laid.size; room = laid.room; inside = laid.inside; outside = laid.outside },
        λ _. omega (arith, p, long_enough, inside, small, len),
      )
