-- ===== src/Squish/Write/Whole.antt =====
-- What apiSquishWriteMsg writes into a frame, and that apiSquishReadMsg gives it back.
use mathlib.Core.Path.{subst₂}
use xmsgapi.Base.{
  List, [], ap, arith, false, get_elem?, if-false, inl, length, refl, some, sym, take, take-length,
  true, ℕ, ◌+◌, ◌-◌, ◌<◌, ◌==◌, ◌∙◌, ◌∷◌, ◌≡◌, ◌≢◌, ◌≤◌,
}
use xmsgapi.Base.Cmd.{ok}
use xmsgapi.Base.Word.{add32, dword_max}
use xmsgapi.File.{File, window}
use xmsgapi.Squish.Index.{sidx_get}
use xmsgapi.Squish.Index.Laws.{
  Buffered, entries, get_elem?-set_self, get_elem?-some, sidx_get-flat, sidx_put-stored, stored,
}
use xmsgapi.Squish.Msg.{Hmsg}
use xmsgapi.Squish.Read.Laws.{Known}
use xmsgapi.Squish.Read.Text.{text_size}
use xmsgapi.Squish.Sqidx.{Sqidx}
use xmsgapi.Squish.Write.{
  mark_uid, squish_update_index, squish_write_xmsg, updated_sqidx, write_ctrl, write_header,
  write_parts, write_txt,
}
use xmsgapi.Squish.Write.Laws.{Laid, Laid-apart}
use xmsgapi.Squish.Write.Parts.{header_start, squish_write_ctrl-ok, squish_write_xmsg-ok, with_sfd}
use xmsgapi.Squish.Write.Text.{HasFrame, room_for, squish_write_txt_lem, write_start}
use xmsgapi.Squish.Xmsg.{Xmsg, encode_xmsg, xmsg_size}
use xmsgapi.Squish.Xmsg.RoundTrip.{FitsXmsg, length-encode_xmsg}

-- The first write of a message into the frame that the handle has: the identifier is known, and
-- the control information and the text have the lengths that the frame was made for.
pub record FirstWrite (s : Hmsg) (x : Xmsg) (t c : List ℕ) : Type 0 where
  pub frame : HasFrame s
  pub first : s.m.f_written ≡ false
  pub uid : s.m.uid_us ≢ 0
  pub fits : FitsXmsg (mark_uid s.m.uid_us x)
  pub ctrl : length c ≡ s.m.sqh_write.clen
  pub text : length t ≡ text_size s.m.sqh_write
  pub index : Buffered s.ha
  pub entry : (1 ≤ s.m.dw_msg) × (s.m.dw_msg ≤ length (entries s.ha))

-- `b` has the three parts of a message at the places of the frame.
pub record Parts (s : Hmsg) (b : ℕ → ℕ) (x : Xmsg) (t c : List ℕ) : Type 0 where
  pub header : window b (header_start s) xmsg_size ≡ encode_xmsg x
  pub ctrl : window b (header_start s + xmsg_size) (length c) ≡ c
  pub text : window b (write_start s) (length t) ≡ t

module _ (s : Hmsg) (x : Xmsg) (t c : List ℕ) (w : FirstWrite s x t c) where
  open w use {frame, ctrl, text}

  -- The three pieces, laid down one after the other.
  Laid-Parts :
      {f g h : File}
      → Laid s.ha.sfd (header_start s) (encode_xmsg (mark_uid s.m.uid_us x)) f
      → Laid f (header_start s + xmsg_size) c g
      → Laid g (write_start s) t h
      → Parts s h.bytes (mark_uid s.m.uid_us x) t c
  Laid-Parts l1 l2 l3 =
      let n = length-encode_xmsg (mark_uid s.m.uid_us x) w.fits in
      let start = header_start s in
      record {
        header =
            Laid-apart start xmsg_size l3 (inl (omega arith))
            ∙ (Laid-apart start xmsg_size l2 (inl (omega arith))
                ∙ (ap (window _ start) (sym n) ∙ l1.inside));
        ctrl = Laid-apart (start + xmsg_size) (length c) l3 (inl (omega (arith, ctrl))) ∙ l2.inside;
        text = l3.inside;
      }

squish_update_index-ok :
    (s : Hmsg) (x : Xmsg)
    → Buffered s.ha
    → 1 ≤ s.m.dw_msg
    → s.m.dw_msg ≤ length (entries s.ha)
    → (r : Sqidx) × (sidx_get s.m.dw_msg s.ha ≡ ok r s.ha)
      × (squish_update_index x s
          ≡ ok tt (record s { ha = stored s.m.dw_msg (updated_sqidx s.m.fo_write x r) s.ha }))
      × (sidx_get s.m.dw_msg (stored s.m.dw_msg (updated_sqidx s.m.fo_write x r) s.ha)
          ≡ ok
              (updated_sqidx s.m.fo_write x r)
              (stored s.m.dw_msg (updated_sqidx s.m.fo_write x r) s.ha))
unfolding squish_update_index
squish_update_index-ok s x b low high =
    let (r, g) = get_elem?-some (entries s.ha) (s.m.dw_msg - 1) (omega arith) in
    let got = sidx_get-flat s.ha s.m.dw_msg r b low g in
    let new = updated_sqidx s.m.fo_write x r in
    let (put, e, b') = sidx_put-stored s.ha s.m.dw_msg new b low high in
    (
      r,
      got,
      rw (got, put),
      sidx_get-flat _ s.m.dw_msg new b' low (
          ap (λ l. get_elem? l (s.m.dw_msg - 1)) e
          ∙ get_elem?-set_self (entries s.ha) (s.m.dw_msg - 1) new (omega arith)),
    )

HasFrame-with :
    (s : Hmsg) (p : ℕ) (d : List ℕ) (g : File)
    → HasFrame s
    → Laid s.ha.sfd p d g
    → HasFrame (with_sfd g s)
HasFrame-with s p d g frame laid = record {
  long_enough = frame.long_enough;
  inside = omega (arith, frame.inside, laid.size);
  small = omega (arith, frame.small, laid.size);
  room = omega (arith, frame.room, laid.size, laid.room);
}

write_txt-ok :
    (s : Hmsg) (t : List ℕ) (o : ℕ)
    → HasFrame s
    → Known o s.ha
    → length t ≡ text_size s.m.sqh_write
    → (g : File) × (cur : ℕ) × (write_txt false t o s
        ≡ ok tt
            (record { ha = record (s.ha) { sfd = g }; m = record (s.m) { dw_write_pos = cur } }))
      × Laid s.ha.sfd (write_start s) t g
unfolding write_txt
write_txt-ok s [] o frame known len = (
  s.ha.sfd,
  s.m.dw_write_pos,
  refl,
  record { size = refl; room = refl; inside = unfold window in refl; outside = λ q h. refl },
)
write_txt-ok s (b ∷ t) o frame known len =
    let (g, run, laid, _) = squish_write_txt_lem s false (b ∷ t) o frame (λ h. absurd (cc)) known in
    let whole : room_for false (b ∷ t) s ≡ length (b ∷ t) = ground (arith, len) in
    let all : take (room_for false (b ∷ t) s) (b ∷ t) ≡ b ∷ t =
      ap (λ k. take k (b ∷ t)) whole ∙ take-length (b ∷ t) in
    let start : write_start s + 0 ≡ write_start s = omega arith in
    let not_empty : (length (b ∷ t) == 0) ≡ false = ground arith in
    (
      g,
      add32 s.m.dw_write_pos (room_for false (b ∷ t) s),
      if-false _ _ not_empty ∙ run,
      subst₂ (λ p d. Laid s.ha.sfd p d g) start all laid,
    )

-- The handle behind the writes of apiSquishWriteMsg, before the index.
abbrev behind : File → ℕ → Hmsg → Hmsg
behind g cur s = record {
  ha = record (s.ha) { sfd = g };
  m = record (s.m) { dw_write_pos = cur; f_written = true };
}

write_parts_steps :
    (s : Hmsg) (x x' : Xmsg) (t c : List ℕ) (o o' cur : ℕ) (g1 g2 g3 : File) (s' : Hmsg)
    → squish_write_xmsg x dword_max s ≡ ok (x', o) (with_sfd g1 s)
    → write_ctrl c o (with_sfd g1 s) ≡ ok o' (with_sfd g2 s)
    → write_txt false t o' (with_sfd g2 s)
      ≡ ok tt (record { ha = record (s.ha) { sfd = g3 }; m = record (s.m) { dw_write_pos = cur } })
    → squish_update_index x' (behind g3 cur s) ≡ ok tt s'
    → write_parts false (some x) t c s ≡ ok tt s'
unfolding write_parts write_header
write_parts_steps s x x' t c o o' cur g1 g2 g3 s' w1 w2 w3 w4 = rw (w1, w2, w3, w4)

-- The handle behind the first write of a message whose index record was `r`.
abbrev pub saved : File → ℕ → Xmsg → Sqidx → Hmsg → Hmsg
saved g cur x r s = record {
  ha = stored s.m.dw_msg (updated_sqidx s.m.fo_write x r) (record (s.ha) { sfd = g });
  m = record (s.m) { dw_write_pos = cur; f_written = true };
}

pub write_parts-Parts :
    (s : Hmsg) (x : Xmsg) (t c : List ℕ)
    → FirstWrite s x t c
    → (g : File) × (cur : ℕ) × (r : Sqidx) × (write_parts false (some x) t c s
        ≡ ok tt (saved g cur (mark_uid s.m.uid_us x) r s))
      × (sidx_get s.m.dw_msg (saved g cur (mark_uid s.m.uid_us x) r s).ha
          ≡ ok
              (updated_sqidx s.m.fo_write (mark_uid s.m.uid_us x) r)
              (saved g cur (mark_uid s.m.uid_us x) r s).ha)
      × (g.size ≡ s.ha.sfd.size)
      × Parts s g.bytes (mark_uid s.m.uid_us x) t c
      × ((q : ℕ) → q < header_start s → g.bytes q ≡ s.ha.sfd.bytes q)
write_parts-Parts s x t c w =
    let x' = mark_uid s.m.uid_us x in
    let (o1, g1, run1, l1, k1) =
      squish_write_xmsg-ok s w.frame x dword_max w.uid w.fits (λ h. absurd (omega (arith, h))) in
    let f1 = HasFrame-with s _ _ g1 w.frame l1 in
    let (o2, g2, run2, l2, k2) = squish_write_ctrl-ok (with_sfd g1 s) f1 c o1 w.first w.ctrl k1 in
    let f2 = HasFrame-with (with_sfd g1 s) _ _ g2 f1 l2 in
    let (g3, cur, run3, l3) = write_txt-ok (with_sfd g2 s) t o2 f2 k2 w.text in
    let b : Buffered (behind g3 cur s).ha = record {
      open_buffer = w.index.open_buffer;
      fits = w.index.fits;
      counted = w.index.counted;
    } in
    let (r, _, run4, got) = squish_update_index-ok (behind g3 cur s) x' b w.entry.0 w.entry.1 in
    (
      g3,
      cur,
      r,
      write_parts_steps s x x' t c o1 o2 cur g1 g2 g3 _ run1 run2 run3 run4,
      got,
      l3.size ∙ (l2.size ∙ l1.size),
      Laid-Parts s x t c w l1 l2 l3,
      λ q h.
          l3.outside q (inl (omega arith))
          ∙ (l2.outside q (inl (omega arith)) ∙ l1.outside q (inl h)),
    )
