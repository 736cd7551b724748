-- ===== src/Squish/Write/Allocate.antt =====
-- The frame that the first call of apiSquishWriteMsg allocates for a new message, at the end of
-- the data file.
use mathlib.Core.Path.{subst}
use xmsgapi.Base.{
  [], ap, arith, eq→==, false, if-false, if-true, inl, inr, length, ne→==, none, refl, ℕ, ◌+◌, ◌-◌,
  ◌<◌, ◌==◌, ◌^◌, ◌∙◌, ◌∷◌, ◌≡◌, ◌≤◌, ◌⊎◌,
}
use xmsgapi.Base.Cmd.{Cmd, Run, and_then, modify, ok, pure, ◌>>◌}
use xmsgapi.Base.Word.{IsLong, add32}
use xmsgapi.File.{File, overlay, seek, write}
use xmsgapi.Squish.Area.{Area}
use xmsgapi.Squish.BaseHeader.{Sqbase, encode_sqbase, sqbase_size, write_sqbase}
use xmsgapi.Squish.BaseHeader.RoundTrip.{FitsSqbase, length-encode_sqbase}
use xmsgapi.Squish.Frame.{next_unless_null, prev_unless_null, squish_write_hdr}
use xmsgapi.Squish.Frame.Chain.{Cells}
use xmsgapi.Squish.Frame.Heap.{Holds, moved, with_hdr}
use xmsgapi.Squish.Frame.Laws.{squish_set_frame_next-ok}
use xmsgapi.Squish.FreeChain.{serve, squish_get_new_frame, squish_probe_free_chain}
use xmsgapi.Squish.FreeChain.AtEnd.{CanGrow, FrameAt-grow, eof-grown, grown}
use xmsgapi.Squish.FreeChain.Inv.{IsFreeChain}
use xmsgapi.Squish.FreeChain.Probe.{Answers, at_pos, first_fit, squish_probe_free_chain-first_fit}
use xmsgapi.Squish.Header.{Sqhdr, frame_normal, null_frame, sqhdr_id, sqhdr_size}
use xmsgapi.Squish.Lock.{
  squish_copy_base_to_data, squish_copy_data_to_base, squish_exclusive_begin, squish_exclusive_end,
  squish_write_base_header,
}
use xmsgapi.Squish.Lock.Laws.{begun}
use xmsgapi.Squish.Msg.{Hmsg, Msgh, mopen_create, on_area, set_msgh}
use xmsgapi.Squish.Write.{
  allocate, fill_sqhdr, get_new_write_frame, link_ends, squish_get_write_frame,
  squish_link_message_frame, take_frame,
}
use xmsgapi.Squish.Write.Laws.{Laid, write-Laid}
use xmsgapi.Squish.Xmsg.{xmsg_size}

-- The length of the message in its frame.
abbrev pub total_of : ℕ → ℕ → ℕ
total_of n_txt n_ctrl = xmsg_size + n_txt + n_ctrl

-- The header of the frame of a new last message, behind the message at `last`.
abbrev pub new_hdr : ℕ → ℕ → ℕ → Sqhdr
new_hdr last n_txt n_ctrl = record {
  id = sqhdr_id;
  next_frame = null_frame;
  prev_frame = last;
  frame_length = total_of n_txt n_ctrl;
  msg_length = total_of n_txt n_ctrl;
  clen = n_ctrl;
  frame_type = frame_normal;
  rsvd = 0;
}

-- The last message, where there is one, has its frame.
abbrev pub HasLast : Area → Type 0
HasLast a = (a.fo_last ≡ null_frame) ⊎ ((l : Sqhdr) × Holds a a.fo_last l)

-- An area with no free frame of `n` bytes, whose file can grow by a frame for them.
pub record CanExtend (n : ℕ) (xs : Cells) (a : Area) : Type 0 where
  pub chain : IsFreeChain a xs
  pub short : first_fit n xs ≡ none
  pub grow : CanGrow n a
  pub last : HasLast a
  pub base : sqbase_size ≤ a.fo_end
  pub header : sqhdr_size ≤ a.cb_sqhdr

-- The area with the new end, and other bytes at another position.
abbrev pub extended : ℕ → (ℕ → ℕ) → ℕ → Area → Area
extended end b p a = record a {
  sfd = record (a.sfd) { bytes = b; size = end; pos = p };
  fo_end = end;
}

abbrev pub new_end : ℕ → Area → ℕ
new_end n a = a.fo_end + a.cb_sqhdr + n

pub got_frame :
    (n : ℕ) (xs : Cells) (a : Area)
    → CanExtend n xs a
    → (b : ℕ → ℕ) × (p : ℕ) × (squish_get_new_frame n a
        ≡ ok (a.fo_end, 0) (extended (new_end n a) b p a))
      × ((g : ℕ) (k : Sqhdr) → Holds a g k → Holds (extended (new_end n a) b p a) g k)
unfolding squish_get_new_frame serve grown
got_frame n xs a can =
    let (p, found) =
      subst (λ o. Answers a o (squish_probe_free_chain n a)) can.short
        (squish_probe_free_chain-first_fit n a xs can.chain) in
    let can' : CanGrow n (at_pos p a) = record {
      some_bytes = can.grow.some_bytes;
      small = can.grow.small;
      room = can.grow.room;
      size = can.grow.size;
    } in
    let end = new_end n a in
    (
      overlay a.sfd.bytes (end - 1) (0 ∷ []),
      end,
      ap (λ o. and_then o (serve n)) found
          ∙ ap (λ o. and_then o (λ fo. pure (fo, 0))) (eof-grown n (at_pos p a) can'),
      λ g k at.
          FrameAt-grow a.sfd.bytes end at can.grow.size (omega (arith, can.grow.some_bytes))
            can.grow.small,
    )

-- The message before the new one is linked to it.
pub linked_back :
    (fo : ℕ) (a : Area)
    → HasLast a
    → a.sfd.size ≤ a.sfd.room
    → (b : ℕ → ℕ) × (p : ℕ) × (next_unless_null a.fo_last fo a ≡ ok tt (moved b p a))
linked_back fo a (inl e) room = (
  a.sfd.bytes,
  a.sfd.pos,
  ap (λ (c : Cmd Area (Unit {0})). c a) (if-true _ _ (eq→== a.fo_last null_frame e)),
)
linked_back fo a (inr (l, at)) room =
    let ne : (a.fo_last == null_frame) ≡ false =
      ne→== a.fo_last null_frame (omega (arith, at.base)) in
    (
      with_hdr a.sfd.bytes a.fo_last (record l { next_frame = fo }),
      a.fo_last + sqhdr_size,
      ap (λ (c : Cmd Area (Unit {0})). c a) (if-false _ _ ne)
          ∙ squish_set_frame_next-ok a a.fo_last fo at room,
    )

-- _SquishLinkMessageFrame with the header that it has filled.
abbrev linking : Hmsg → Sqhdr → Run Hmsg (Unit {0})
linking s h =
    (do
      modify (set_msgh (λ m. record m { sqh_write = h }))
      on_area (prev_unless_null h.next_frame s.m.fo_write)
      on_area (next_unless_null h.prev_frame s.m.fo_write)
      on_area (modify (link_ends s.m.dw_msg s.m.fo_write h))
      on_area (squish_write_hdr s.m.fo_write h))
      s

filled :
    (s : Hmsg) (n_txt n_ctrl : ℕ)
    → s.m.fo_read ≡ null_frame
    → fill_sqhdr (total_of n_txt n_ctrl) n_ctrl 0 s ≡ new_hdr s.ha.fo_last n_txt n_ctrl
unfolding fill_sqhdr
filled s n_txt n_ctrl new = rw new

-- _SquishLinkMessageFrame for a new last message, from what its calls give.
link_steps :
    (s : Hmsg) (n_txt n_ctrl : ℕ) (a3 a4 : Area)
    → s.m.fo_read ≡ null_frame
    → next_unless_null s.ha.fo_last s.m.fo_write s.ha ≡ ok tt a3
    → squish_write_hdr s.m.fo_write
        (new_hdr s.ha.fo_last n_txt n_ctrl)
        (link_ends s.m.dw_msg s.m.fo_write (new_hdr s.ha.fo_last n_txt n_ctrl) a3)
      ≡ ok tt a4
    → squish_link_message_frame (total_of n_txt n_ctrl) n_ctrl 0 s
      ≡ ok tt
          (record { ha = a4; m = record (s.m) { sqh_write = new_hdr s.ha.fo_last n_txt n_ctrl } })
unfolding squish_link_message_frame
link_steps s n_txt n_ctrl a3 a4 new next put =
    ap (linking s) (filled s n_txt n_ctrl new) ∙ linked_steps
  where
    linked_steps :
        linking s (new_hdr s.ha.fo_last n_txt n_ctrl)
        ≡ ok tt
            (record { ha = a4; m = record (s.m) { sqh_write = new_hdr s.ha.fo_last n_txt n_ctrl } })
    linked_steps = rw (next, put)

-- The handle of a new message, from the handle `m`: nothing was read or written through it.
abbrev pub unwritten : Msgh → Msgh
unwritten m = record m {
  fo_read = null_frame;
  fo_write = null_frame;
  w_mode = mopen_create;
  f_written = false;
}

-- The same with its frame.
abbrev pub with_frame : ℕ → Sqhdr → Msgh → Msgh
with_frame fo h m = record (unwritten m) { fo_write = fo; sqh_write = h; dw_write_pos = 0 }

-- _SquishGetWriteFrame for a new message.
pub frame_steps :
    (m : Msgh) (a1 a2 a3 a4 : Area) (n_txt n_ctrl fo : ℕ)
    → total_of n_txt n_ctrl < 2 ^ 31
    → squish_get_new_frame (total_of n_txt n_ctrl) a1 ≡ ok (fo, 0) a2
    → next_unless_null a2.fo_last fo a2 ≡ ok tt a3
    → squish_write_hdr fo
        (new_hdr a2.fo_last n_txt n_ctrl)
        (link_ends m.dw_msg fo (new_hdr a2.fo_last n_txt n_ctrl) a3)
      ≡ ok tt a4
    → squish_get_write_frame n_txt n_ctrl (record { ha = a1; m = unwritten m })
      ≡ ok tt (record { ha = a4; m = with_frame fo (new_hdr a2.fo_last n_txt n_ctrl) m })
unfolding squish_get_write_frame get_new_write_frame take_frame
frame_steps m a1 a2 a3 a4 n_txt n_ctrl fo small got next put =
    let total : add32 (add32 xmsg_size n_txt) n_ctrl ≡ total_of n_txt n_ctrl =
      omega (arith, small) in
    let link =
      link_steps (record { ha = a2; m = record (unwritten m) { fo_write = fo } }) n_txt n_ctrl a3 a4
        refl next put in
    rw (total, got, link)

pub allocate_steps :
    (m : Msgh) (a a1 a4 a5 : Area) (n_txt n_ctrl fo : ℕ) (h : Sqhdr)
    → squish_exclusive_begin a ≡ ok tt a1
    → squish_get_write_frame n_txt n_ctrl (record { ha = a1; m = unwritten m })
      ≡ ok tt (record { ha = a4; m = with_frame fo h m })
    → squish_exclusive_end a4 ≡ ok tt a5
    → allocate n_txt n_ctrl (record { ha = a; m = unwritten m })
      ≡ ok tt (record { ha = a5; m = with_frame fo h m })
unfolding allocate
allocate_steps m a a1 a4 a5 n_txt n_ctrl fo h begins frame ends = rw (begins, frame, ends)

-- The header of the base, written over the one that is there.
pub base_header-Laid :
    (a : Area) (b : Sqbase)
    → FitsSqbase b
    → sqbase_size ≤ a.sfd.size
    → a.sfd.size ≤ a.sfd.room
    → (f : File) × (squish_write_base_header b a ≡ ok tt (record a { sfd = f }))
      × Laid a.sfd 0 (encode_sqbase b) f
unfolding squish_write_base_header write_sqbase seek
base_header-Laid a b fits inside room =
    let n = length-encode_sqbase b fits in
    let (f, w, laid, _) =
      write-Laid (record (a.sfd) { pos = 0 }) (encode_sqbase b) (omega (arith, n, inside)) room in
    (
      f,
      base_written a b f n w,
      record { size = laid.size; room = laid.room; inside = laid.inside; outside = laid.outside },
    )
  where
    base_written :
        (a : Area) (b : Sqbase) (f : File)
        → length (encode_sqbase b) ≡ sqbase_size
        → write (encode_sqbase b) (record (a.sfd) { pos = 0 }) ≡ (length (encode_sqbase b), f)
        → squish_write_base_header b a ≡ ok tt (record a { sfd = f })
    base_written a b f n w = rw (w, n)

-- The header of the base after the allocation fits.
pub linked_fits :
    (a : Area) (b : Sqbase) (h : Sqhdr) (dw_msg end p : ℕ) (bytes : ℕ → ℕ) (f : File)
    → FitsSqbase b
    → IsLong end
    → b.end_frame ≤ end
    → FitsSqbase (
        squish_copy_data_to_base
          (link_ends dw_msg b.end_frame h (moved bytes p (extended end bytes p (begun f b a)))))
unfolding squish_copy_data_to_base squish_copy_base_to_data link_ends
linked_fits a b h dw_msg end p bytes f fits small more = record {
  len = fits.len;
  rsvd1 = omega arith;
  num_msg = fits.num_msg;
  high_msg = fits.num_msg;
  skip_msg = omega arith;
  high_water = fits.high_water;
  uid = fits.uid;
  base = refl;
  begin_frame = let e = fits.begin_frame in ground (arith, e, small, more);
  last_frame = let e = fits.last_frame in ground (arith, e, small, more);
  free_frame = fits.free_frame;
  last_free_frame = fits.last_free_frame;
  end_frame = omega (arith, small);
  max_msg = fits.max_msg;
  keep_days = fits.keep_days;
  sz_sqhdr = fits.sz_sqhdr;
  rsvd2 = refl;
}
