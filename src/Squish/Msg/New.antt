-- ===== src/Squish/Msg/New.antt =====
-- A new message from its creation to the undoing of its number.
use xmsgapi.Base.{
  [], ap, arith, eq→==, if-true, if◌then◌else◌, leb, ltb, lt→leb_false, true, ℕ, ◌%◌, ◌*◌, ◌+◌, ◌<◌,
  ◌^◌, ◌||◌, ◌∙◌, ◌∷◌, ◌≡◌, ◌≤◌,
}
use xmsgapi.Base.Cmd.{ok}
use xmsgapi.Base.Word.{add32, dword_mod, sub32}
use xmsgapi.File.{File, seek}
use xmsgapi.Squish.Area.{Area}
use xmsgapi.Squish.Header.{null_frame}
use xmsgapi.Squish.Index.Entries.{sidx_put, sidx_put_direct}
use xmsgapi.Squish.Lock.{squish_exclusive_begin, squish_exclusive_end}
use xmsgapi.Squish.Msg.{Hmsg}
use xmsgapi.Squish.Msg.Create.{
  blank_msg, create_msg, no_hash, one_more, squish_blank_new_msg, squish_close_undo_write,
  squish_open_msg_create,
}
use xmsgapi.Squish.Reduce.{one_less, squish_reduce_max_msgs}
use xmsgapi.Squish.Sqidx.{Sqidx, sqidx_size, write_sqidx}
use xmsgapi.Squish.Sqidx.Saved.{Wrote, write_sqidx-Wrote}

-- The record that keeps the place of a message which is being written.
abbrev pub place_of : ℕ → Sqidx
place_of uid = record { ofs = null_frame; umsgid = uid; hash = no_hash }

-- SidxPut into the index file, which is not in memory.
pub put_steps :
    (a : Area) (m ofs : ℕ) (r : Sqidx) (i : File)
    → a.hix.f_buffer ≡ 0
    → sub32 m 1 * sqidx_size % dword_mod ≡ ofs
    → ofs < 2 ^ 31
    → write_sqidx a.os.mem (r ∷ []) (record (a.ifd) { pos = ofs }) ≡ (true, i)
    → sidx_put m r a ≡ ok tt (record a { ifd = i })
unfolding sidx_put sidx_put_direct seek
put_steps a m ofs r i unbuffered at small w =
    if-true _ _ (eq→== a.hix.f_buffer 0 unbuffered) ∙ rw (at, lt→leb_false (2 ^ 31) ofs small, w)

pub sidx_put-direct :
    (a : Area) (n uid : ℕ)
    → a.hix.f_buffer ≡ 0
    → (n + 1) * sqidx_size < 2 ^ 31
    → (n + 1) * sqidx_size ≤ a.ifd.room
    → (i : File) × (sidx_put (n + 1) (place_of uid) a ≡ ok tt (record a { ifd = i }))
      × Wrote (record (a.ifd) { pos = n * sqidx_size }) (place_of uid ∷ []) i
sidx_put-direct a n uid unbuffered small room =
    let (i, w, wrote) =
      write_sqidx-Wrote a.os.mem (place_of uid ∷ []) (record (a.ifd) { pos = n * sqidx_size })
        (omega (arith, room)) in
    (
      i,
      put_steps a (n + 1) (n * sqidx_size) (place_of uid) i unbuffered (omega (arith, small))
          (omega (arith, small)) w,
      wrote,
    )

reduce-none : (a : Area) → a.dw_max_msg ≡ 0 → squish_reduce_max_msgs a ≡ ok true a
unfolding squish_reduce_max_msgs
reduce-none a e = if-true _ _ (
    ap (λ t. t || (ltb a.num_msg a.dw_max_msg || leb a.num_msg a.w_skip_msg))
      (eq→== a.dw_max_msg 0 e))

blank_new_steps :
    (s : Hmsg) (uid' : ℕ) (i : File)
    → add32 s.ha.uid_next 1 ≡ uid'
    → sidx_put s.m.dw_msg (place_of s.ha.uid_next) (record (s.ha) { uid_next = uid' })
      ≡ ok tt (record (s.ha) { uid_next = uid'; ifd = i })
    → squish_blank_new_msg s
      ≡ ok tt (record {
        ha = record (s.ha) { uid_next = uid'; ifd = i };
        m = record (s.m) { uid_us = s.ha.uid_next };
      })
unfolding squish_blank_new_msg
blank_new_steps s uid' i e put = rw (e, put)

-- The handle between the two ends of the exclusive access, for an area without a limit.
abbrev pub with_message : ℕ → ℕ → File → Hmsg → Hmsg
with_message n' uid' i s = record {
  ha = record (s.ha) { num_msg = n'; high_msg = n'; uid_next = uid'; ifd = i };
  m = record (s.m) { dw_msg = n'; uid_us = s.ha.uid_next };
}

pub create_steps :
    (s : Hmsg) (n' uid' : ℕ) (i : File)
    → s.ha.dw_max_msg ≡ 0
    → add32 s.ha.num_msg 1 ≡ n'
    → add32 s.ha.high_msg 1 ≡ n'
    → add32 s.ha.uid_next 1 ≡ uid'
    → sidx_put n' (place_of s.ha.uid_next) (record (s.ha) { uid_next = uid' })
      ≡ ok tt (record (s.ha) { uid_next = uid'; ifd = i })
    → create_msg 0 s ≡ ok true (with_message n' uid' i s)
unfolding create_msg blank_msg one_more
create_steps s n' uid' i no_limit num high next put =
    let blank =
      blank_new_steps (record { ha = s.ha; m = record (s.m) { dw_msg = n' } }) uid' i next put in
    rw (reduce-none s.ha no_limit, num, blank, num, high)

pub open_steps :
    (s t : Hmsg) (a a' : Area) (dw_msg : ℕ)
    → squish_exclusive_begin s.ha ≡ ok tt a
    → (if ltb a.num_msg dw_msg then 0 else dw_msg) ≡ 0
    → create_msg 0 (record s { ha = a }) ≡ ok true t
    → squish_exclusive_end t.ha ≡ ok tt a'
    → squish_open_msg_create dw_msg s ≡ ok tt (record t { ha = a' })
unfolding squish_open_msg_create
open_steps s t a a' dw_msg begin new create end = rw (begin, new, create, end)

pub undo_steps :
    (a b : Area) (dw_msg : ℕ) (c : Area)
    → squish_exclusive_begin a ≡ ok tt b
    → dw_msg ≡ b.num_msg
    → squish_exclusive_end (one_less b) ≡ ok tt c
    → squish_close_undo_write dw_msg a ≡ ok tt c
unfolding squish_close_undo_write
undo_steps a b dw_msg c begin same end = rw (begin, eq→== dw_msg b.num_msg same, end)
