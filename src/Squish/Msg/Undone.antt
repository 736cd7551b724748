-- ===== src/Squish/Msg/Undone.antt =====
-- Creating a message, and closing it before anything was written.
use mathlib.Core.Path.{subst}
use xmsgapi.Base.{
  [], ap, arith, inl, refl, replicate, sym, ℕ, ◌%◌, ◌*◌, ◌+◌, ◌<◌, ◌^◌, ◌∙◌, ◌∷◌, ◌≡◌, ◌≤◌, ◌⊎◌,
}
use xmsgapi.Base.Cmd.{ok}
use xmsgapi.Base.Word.{add32, sub32, word_mod}
use xmsgapi.File.{File}
use xmsgapi.Squish.Area.{Area}
use xmsgapi.Squish.BaseHeader.{Sqbase, sqbase_size}
use xmsgapi.Squish.BaseHeader.RoundTrip.{FitsSqbase}
use xmsgapi.Squish.Lock.{
  squish_copy_base_to_data, squish_copy_data_to_base, squish_write_base_header,
}
use xmsgapi.Squish.Lock.Laws.{
  StoresBase, Waits, begun, ended, past_header, squish_exclusive_begin-ok, squish_exclusive_end-ok,
  squish_unlock_base_lem, squish_write_base_header-ok,
}
use xmsgapi.Squish.Msg.{Hmsg, Msgh}
use xmsgapi.Squish.Msg.Create.{squish_close_undo_write, squish_open_msg_create}
use xmsgapi.Squish.Msg.New.{
  create_steps, open_steps, place_of, sidx_put-direct, undo_steps, with_message,
}
use xmsgapi.Squish.Reduce.{one_less}
use xmsgapi.Squish.Sqidx.{sqidx_size}
use xmsgapi.Squish.Sqidx.Saved.{Wrote}

-- The base `b` as the next user finds it, with `n` messages and the next identifier `uid`.
abbrev pub kept : ℕ → ℕ → Sqbase → Sqbase
kept n uid b = record b {
  rsvd1 = 0;
  num_msg = n;
  high_msg = n;
  skip_msg = b.skip_msg % word_mod;
  uid = uid;
  base = replicate 80 0;
  rsvd2 = replicate 124 0;
}

kept-FitsSqbase :
    (n uid : ℕ) (b : Sqbase) → FitsSqbase b → n < 2 ^ 32 → uid < 2 ^ 32 → FitsSqbase (kept n uid b)
kept-FitsSqbase n uid b fits small small_uid = record {
  len = fits.len;
  rsvd1 = omega arith;
  num_msg = small;
  high_msg = small;
  skip_msg = omega arith;
  high_water = fits.high_water;
  uid = small_uid;
  base = refl;
  begin_frame = fits.begin_frame;
  last_frame = fits.last_frame;
  free_frame = fits.free_frame;
  last_free_frame = fits.last_free_frame;
  end_frame = fits.end_frame;
  max_msg = fits.max_msg;
  keep_days = fits.keep_days;
  sz_sqhdr = fits.sz_sqhdr;
  rsvd2 = refl;
}

-- A user who can get the lock, with the base `b` on the disk: it has no limit on its messages,
-- the index is not in memory, and there is room for one message more.
pub record CanCreate (a : Area) (b : Sqbase) : Type 0 where
  pub waits : Waits a
  pub fits : FitsSqbase b
  pub stores : StoresBase a.sfd b
  pub no_limit : b.max_msg ≡ 0
  pub unbuffered : a.hix.f_buffer ≡ 0
  pub few : (b.num_msg + 1) * sqidx_size < 2 ^ 31
  pub more_uids : b.uid + 1 < 2 ^ 32
  pub sfd_room : sqbase_size ≤ a.sfd.room
  pub ifd_room : (b.num_msg + 1) * sqidx_size ≤ a.ifd.room

-- What stands in the handle and the files after a message has been created.
pub record Created (a : Area) (b : Sqbase) (s : Hmsg) : Type 0 where
  pub dw_msg : s.m.dw_msg ≡ b.num_msg + 1
  pub uid_us : s.m.uid_us ≡ b.uid
  pub stores : StoresBase s.ha.sfd (kept (b.num_msg + 1) (b.uid + 1) b)
  pub place : Wrote (record (a.ifd) { pos = b.num_msg * sqidx_size }) (place_of b.uid ∷ []) s.ha.ifd
  pub waits : Waits s.ha
  pub room : sqbase_size ≤ s.ha.sfd.room

-- Where a user can get the lock on a base `b` with no limit on its messages, the index is in the
-- file, and there is room for one message more, _SquishOpenMsgCreate, asked for message 0 or for
-- a number after the last one, creates message `num_msg + 1` with the next identifier of the
-- base. Its place is in the index file, with no frame yet and every other record as it was. The
-- header on the disk has it as the number of messages and as the highest message, and names the
-- identifier after it, with the pointers, limits and sizes as before; but the name of the base
-- and the reserved bytes are zero then, and the messages to skip are modulo 2 ^ 16. Exclusive
-- access is given up.
pub squish_open_msg_create-Created :
    (a : Area) (b : Sqbase) (m : Msgh) (dw_msg : ℕ)
    → CanCreate a b
    → (dw_msg ≡ 0) ⊎ (b.num_msg < dw_msg)
    → (s : Hmsg) × (squish_open_msg_create dw_msg (record { ha = a; m = m }) ≡ ok tt s)
      × Created a b s
unfolding squish_copy_base_to_data squish_copy_data_to_base
squish_open_msg_create-Created a b m dw_msg can new =
    let a1 = begun (past_header a.sfd) b a in
    let begin = squish_exclusive_begin-ok a b can.waits can.fits can.stores in
    let n = b.num_msg + 1 in
    let uid = b.uid + 1 in
    let (i, put, wrote) =
      sidx_put-direct (record a1 { uid_next = uid }) b.num_msg b.uid can.unbuffered can.few
        can.ifd_room in
    let s1 : Hmsg = record { ha = a1; m = m } in
    let next : add32 b.num_msg 1 ≡ n = omega (arith, can.few) in
    let next_uid : add32 b.uid 1 ≡ uid = omega (arith, can.more_uids) in
    let create = create_steps s1 n uid i can.no_limit next next next_uid put in
    let t = with_message n uid i s1 in
    let fits = kept-FitsSqbase n uid b can.fits (omega (arith, can.few)) can.more_uids in
    let (g, w, stores, room) = squish_write_base_header-ok t.ha (kept n uid b) fits can.sfd_room in
    let end = squish_exclusive_end-ok t.ha g refl w in
    let e = squish_unlock_base_lem (record (t.ha) { sfd = g }) in
    (
      record t { ha = ended g t.ha },
      open_steps (record { ha = a; m = m }) t a1 (ended g t.ha) dw_msg begin (ground (arith, new))
          create end,
      record {
        dw_msg = refl;
        uid_us = refl;
        stores = subst (λ q. StoresBase q.sfd (kept n uid b)) (sym e) stores;
        place =
            subst
              (λ q.
                Wrote (record (a.ifd) { pos = b.num_msg * sqidx_size }) (place_of b.uid ∷ []) q.ifd)
              (sym e) wrote;
        waits = record {
          idle = refl;
          unlocked = ap (λ q. q.f_locked) e ∙ omega (arith, can.waits.unlocked);
          granted = ap (λ q. q.os.lock_granted) e ∙ can.waits.granted;
        };
        room = subst (λ q. sqbase_size ≤ q.sfd.room) (sym e) (omega (arith, room, can.sfd_room));
      },
    )

one_less-kept :
    (b : Sqbase) (f : File) (a : Area)
    → b.num_msg + 1 < 2 ^ 32
    → squish_copy_data_to_base (one_less (begun f (kept (b.num_msg + 1) (b.uid + 1) b) a))
      ≡ kept b.num_msg (b.uid + 1) b
unfolding squish_copy_data_to_base squish_copy_base_to_data one_less
one_less-kept b f a few =
    let back : sub32 (b.num_msg + 1) 1 ≡ b.num_msg = omega (arith, few) in
    let skip : b.skip_msg % word_mod % word_mod ≡ b.skip_msg % word_mod = omega arith in
    λ i. record (kept b.num_msg (b.uid + 1) b) {
      num_msg = back i;
      high_msg = back i;
      skip_msg = skip i;
    }

-- If the message that _SquishOpenMsgCreate has created is closed before anything was written,
-- _SquishCloseUndoWrite takes the number back: the base has as many messages as before, in the
-- handle and in the header on the disk. The identifier stays used, and in the index file the record
-- of the message stays behind the others. The header is else as it was, but for the highest
-- message, which is the number of messages, the name of the base and the reserved bytes, which are
-- zero, and the messages to skip, which are modulo 2 ^ 16. The conditions are those of the
-- creation.
pub squish_close_undo_write-squish_open_msg_create :
    (a : Area) (b : Sqbase) (m : Msgh)
    → CanCreate a b
    → (s : Hmsg) × (squish_open_msg_create 0 (record { ha = a; m = m }) ≡ ok tt s)
      × ((c : Area) × (squish_close_undo_write s.m.dw_msg s.ha ≡ ok tt c)
          × (c.num_msg ≡ b.num_msg)
          × (c.uid_next ≡ b.uid + 1)
          × Wrote (record (a.ifd) { pos = b.num_msg * sqidx_size }) (place_of b.uid ∷ []) c.ifd
          × StoresBase c.sfd (kept b.num_msg (b.uid + 1) b))
unfolding squish_copy_base_to_data one_less
squish_close_undo_write-squish_open_msg_create a b m can =
    let (s, run, made) = squish_open_msg_create-Created a b m 0 can (inl refl) in
    let k = kept (b.num_msg + 1) (b.uid + 1) b in
    let fits =
      kept-FitsSqbase (b.num_msg + 1) (b.uid + 1) b can.fits (omega (arith, can.few))
        can.more_uids in
    let b1 = begun (past_header s.ha.sfd) k s.ha in
    let begin = squish_exclusive_begin-ok s.ha k made.waits fits made.stores in
    let less = one_less b1 in
    let same = one_less-kept b (past_header s.ha.sfd) s.ha (omega (arith, can.few)) in
    let fits' =
      kept-FitsSqbase b.num_msg (b.uid + 1) b can.fits (omega (arith, can.few)) can.more_uids in
    let (g, w, stores, _) =
      squish_write_base_header-ok less (kept b.num_msg (b.uid + 1) b) fits' made.room in
    let end =
      squish_exclusive_end-ok less g refl (ap (λ h. squish_write_base_header h less) same ∙ w) in
    let e = squish_unlock_base_lem (record less { sfd = g }) in
    (
      s,
      run,
      (
        ended g less,
        undo_steps s.ha b1 s.m.dw_msg (ended g less) begin made.dw_msg end,
        ap (λ q. q.num_msg) e ∙ omega (arith, can.few),
        ap (λ q. q.uid_next) e,
        subst
            (λ q.
              Wrote (record (a.ifd) { pos = b.num_msg * sqidx_size }) (place_of b.uid ∷ []) q.ifd)
            (sym e) made.place,
        subst (λ q. StoresBase q.sfd (kept b.num_msg (b.uid + 1) b)) (sym e) stores,
      ),
    )
