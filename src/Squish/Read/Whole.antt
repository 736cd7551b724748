-- ===== src/Squish/Read/Whole.antt =====
-- What apiSquishReadMsg gives.
use xmsgapi.Base.{
  Bool-cases, List, Option, arith, false, if-false, if◌then◌else◌, inl, inr, none, not, some, true,
  ℕ, ◌&&◌, ◌+◌, ◌-◌, ◌==◌, ◌≡◌, ◌≤◌, ◌⊎◌,
}
use xmsgapi.Base.Cmd.{ok}
use xmsgapi.Base.Word.{add32, dword_max, min_of}
use xmsgapi.File.{window}
use xmsgapi.Squish.Area.{Area, badf}
use xmsgapi.Squish.Msg.{Hmsg, mopen_read, mopen_rw, set_msgh, squish_read_mode}
use xmsgapi.Squish.Read.{
  api_squish_read_msg, get_bytes, get_xmsg, has_msguid, read_ctrl, read_header, read_txt,
  seek_unless_there, squish_read_ctrl, squish_read_xmsg,
}
use xmsgapi.Squish.Read.Laws.{Known, at_ofs, get_bytes-ok, get_xmsg-ok, seek_unless_there-ok}
use xmsgapi.Squish.Read.Text.{
  IsInFile, left_in_text, squish_read_txt_lem, start_in_text, text_size, text_start,
}
use xmsgapi.Squish.Xmsg.{Xmsg, encode_xmsg, xmsg_size}
use xmsgapi.Squish.Xmsg.RoundTrip.{FitsXmsg}

-- A message that lies in the file and whose header is `x`.
pub record Stores (x : Xmsg) (s : Hmsg) : Type 0 where
  pub file : IsInFile s
  pub fits : FitsXmsg x
  pub header : window s.ha.sfd.bytes (s.m.fo_read + s.ha.cb_sqhdr) xmsg_size ≡ encode_xmsg x

-- The handle with the position of its file, its identifier and its position changed.
abbrev pub read_to : ℕ → ℕ → ℕ → Hmsg → Hmsg
read_to pos uid cur s = record {
  ha = at_ofs pos s.ha;
  m = record (s.m) { uid_us = uid; cur_pos = cur };
}

-- What a caller gets who asks for up to `n` bytes of `d`.
abbrev pub asked : ℕ → List ℕ → Option (List ℕ)
asked n d = if n == 0 then none else some d

abbrev pub ctrl_start : Hmsg → ℕ
ctrl_start s = s.m.fo_read + s.ha.cb_sqhdr + xmsg_size

xmsg_steps :
    (s : Hmsg) (x : Xmsg) (dw_ofs ofs : ℕ) (a : Area)
    → add32 s.m.fo_read s.ha.cb_sqhdr ≡ ofs
    → seek_unless_there badf dw_ofs ofs s.ha ≡ ok tt (at_ofs ofs s.ha)
    → get_xmsg (at_ofs ofs s.ha) ≡ ok x a
    → squish_read_xmsg dw_ofs s
      ≡ ok
          (x, add32 ofs xmsg_size)
          (record {
            ha = a;
            m = record (s.m) { uid_us = if has_msguid x.attr then x.umsgid else s.m.uid_us };
          })
unfolding squish_read_xmsg
xmsg_steps s x dw_ofs ofs a at seeks got = rw (at, seeks, got)

ctrl_steps :
    (s : Hmsg) (buf : List ℕ) (n dw_ofs ofs : ℕ) (a : Area)
    → add32 (add32 s.m.fo_read s.ha.cb_sqhdr) xmsg_size ≡ ofs
    → seek_unless_there badf dw_ofs ofs s.ha ≡ ok tt (at_ofs ofs s.ha)
    → get_bytes (min_of n s.m.sqh_read.clen) (at_ofs ofs s.ha) ≡ ok buf a
    → squish_read_ctrl n dw_ofs s
      ≡ ok (buf, add32 ofs (min_of n s.m.sqh_read.clen)) (record s { ha = a })
unfolding squish_read_ctrl
ctrl_steps s buf n dw_ofs ofs a at seeks got = rw (at, seeks, got)

module _ (s : Hmsg) (file : IsInFile s) where
  open file use {long_enough, inside, small}

  pub read_header-ok :
      (x : Xmsg) (dw_ofs : ℕ)
      → Stores x s
      → Known dw_ofs s.ha
      → (o pos uid : ℕ) × (read_header true dw_ofs s
          ≡ ok (some x, o) (read_to pos uid s.m.cur_pos s))
        × Known o (at_ofs pos s.ha)
  unfolding read_header
  read_header-ok x dw_ofs stores known =
      let start = s.m.fo_read + s.ha.cb_sqhdr in
      let run =
        xmsg_steps s x dw_ofs start _ (omega (arith, long_enough, inside, small))
          (seek_unless_there-ok badf dw_ofs start s.ha known
            (omega (arith, long_enough, inside, small)))
          (get_xmsg-ok (at_ofs start s.ha) x stores.fits (omega (arith, long_enough, inside))
            stores.header) in
      (
        add32 start xmsg_size,
        start + xmsg_size,
        (if has_msguid x.attr then x.umsgid else s.m.uid_us),
        rw run,
        λ _. omega (arith, long_enough, inside, small),
      )

  pub read_ctrl-ok :
      (n dw_ofs : ℕ)
      → Known dw_ofs s.ha
      → (o pos : ℕ) × (read_ctrl n dw_ofs s
          ≡ ok
              (asked n (window s.ha.sfd.bytes (ctrl_start s) (min_of n s.m.sqh_read.clen)), o)
              (read_to pos s.m.uid_us s.m.cur_pos s))
        × Known o (at_ofs pos s.ha)
  unfolding read_ctrl
  read_ctrl-ok n dw_ofs known = elim (Bool-cases (n == 0)) [
    | inl e ↦ (dw_ofs, s.ha.sfd.pos, rw e, known)
    | inr e ↦
        let start = ctrl_start s in
        let k = min_of n s.m.sqh_read.clen in
        let fits : start + k ≤ s.ha.sfd.size = ground arith in
        let run =
          ctrl_steps s _ n dw_ofs start _ (omega (arith, long_enough, inside, small))
            (seek_unless_there-ok badf dw_ofs start s.ha known
              (omega (arith, long_enough, inside, small)))
            (get_bytes-ok k (at_ofs start s.ha) fits) in
        (add32 start k, start + k, rw (e, run), λ _. omega (arith, fits, small))
  ]

-- The text from `dw_ofs` on, up to `n` bytes.
abbrev pub text_from : ℕ → ℕ → Hmsg → List ℕ
text_from dw_ofs n s =
    let from = min_of dw_ofs (text_size s.m.sqh_read) in
    window s.ha.sfd.bytes (text_start s + from) (min_of (text_size s.m.sqh_read - from) n)

read_txt-ok :
    (s : Hmsg) (dw_ofs n o : ℕ)
    → IsInFile s
    → Known o s.ha
    → (pos cur : ℕ) × (read_txt dw_ofs n o s
        ≡ ok (asked n (text_from dw_ofs n s)) (read_to pos s.m.uid_us cur s))
unfolding read_txt
read_txt-ok s dw_ofs n o file known = elim (Bool-cases (n == 0)) [
  | inl e ↦ (s.ha.sfd.pos, s.m.cur_pos, rw e)
  | inr e ↦
      let at = set_msgh (λ m. record m { cur_pos = dw_ofs }) s in
      let (run, _, _) =
        squish_read_txt_lem at n o
          (record { long_enough = file.long_enough; inside = file.inside; small = file.small })
          known in
      (
        text_start at + start_in_text at + left_in_text n at,
        start_in_text at + left_in_text n at,
        rw (e, run),
      )
]

abbrev pub Readable : Hmsg → Type 0
Readable s = (s.m.w_mode ≡ mopen_read) ⊎ (s.m.w_mode ≡ mopen_rw)

pub squish_read_mode-ok : (s : Hmsg) → Readable s → squish_read_mode s ≡ ok tt s
unfolding squish_read_mode
squish_read_mode-ok s readable =
    let t : (not (s.m.w_mode == mopen_read) && not (s.m.w_mode == mopen_rw)) ≡ false =
      ground (arith, readable) in
    if-false _ _ t

-- On a handle that may read, of a message that lies in the file with the header `x`,
-- apiSquishReadMsg succeeds: it gives `x`, the control information up to `n_ctrl` bytes, and the
-- text from `dw_ofs` on up to `n_txt` bytes, where a length of 0 asks for nothing. Only the
-- positions and the identifier of the handle change.
pub api_squish_read_msg_lem :
    (s : Hmsg) (x : Xmsg) (dw_ofs n_txt n_ctrl : ℕ)
    → Readable s
    → Stores x s
    → (pos uid cur : ℕ) × (api_squish_read_msg true dw_ofs n_txt n_ctrl s
        ≡ ok
            (record {
              pxm = some x;
              sz_ctrl =
                  asked n_ctrl
                    (window s.ha.sfd.bytes (ctrl_start s) (min_of n_ctrl s.m.sqh_read.clen));
              sz_txt = asked n_txt (text_from dw_ofs n_txt s);
            })
            (read_to pos uid cur s))
unfolding api_squish_read_msg
api_squish_read_msg_lem s x dw_ofs n_txt n_ctrl readable stores =
    let (o1, p1, u1, run1, k1) =
      read_header-ok s stores.file x dword_max stores (λ h. absurd (omega (arith, h))) in
    let s1 = read_to p1 u1 s.m.cur_pos s in
    let same : (p u c : ℕ) → IsInFile (read_to p u c s) = λ p u c. record {
      long_enough = stores.file.long_enough;
      inside = stores.file.inside;
      small = stores.file.small;
    } in
    let (o2, p2, run2, k2) = read_ctrl-ok s1 (same p1 u1 s.m.cur_pos) n_ctrl o1 k1 in
    let s2 = read_to p2 u1 s.m.cur_pos s in
    let (p3, c3, run3) = read_txt-ok s2 dw_ofs n_txt o2 (same p2 u1 s.m.cur_pos) k2 in
    (p3, u1, c3, rw (squish_read_mode-ok s readable, run1, run2, run3))
