-- ===== src/Squish/Lock.antt =====
-- Locks of an area, sq_lock.c, with the copies between the header of the data file and the memory
-- in sq_area.c.
pub mod Laws
pub mod Buffers
pub mod Local
pub mod Api
pub mod Users
pub mod Handover
pub mod Failed
use xmsgapi.Base.{
  Option, false, if◌then◌else◌, none, not, replicate, some, true, ℕ, ◌%◌, ◌+◌, ◌-◌, ◌==◌,
}
use xmsgapi.Base.Cmd.{Cmd, Run, and_then, attempt, fail, modify, ok, pure, stuck, ◌>>=◌, ◌>>◌}
use xmsgapi.Base.Word.{word_mod}
use xmsgapi.Date.{done}
use xmsgapi.File.{seek}
use xmsgapi.Kludge.RoundTrip.{counted}
use xmsgapi.Squish.Area.{Area, badf, nods, nolock, refuse, share}
use xmsgapi.Squish.BaseHeader.{Sqbase, read_sqbase, write_sqbase}
use xmsgapi.Squish.Index.{squish_begin_buffer, squish_end_buffer}
use xmsgapi.Squish.Uid.{uid_next}

abbrev pub base_or_err : Option Sqbase → Cmd Area Sqbase
base_or_err none a = refuse (if a.os.errno_shared then share else badf) a
base_or_err (some b) a = ok b a

-- _SquishReadBaseHeader and _SquishWriteBaseHeader of sq_help.c.
unfoldable pub squish_read_base_header : Cmd Area Sqbase
squish_read_base_header a =
    let (got, sfd') = read_sqbase (seek 0 a.sfd) in base_or_err got (record a { sfd = sfd' })

unfoldable pub squish_write_base_header : Sqbase → Cmd Area (Unit {0})
squish_write_base_header b a =
    let (done, sfd') = write_sqbase b (seek 0 a.sfd) in
    let a' = record a { sfd = sfd' } in if done then ok tt a' else refuse nods a'

-- _SquishCopyBaseToData. The copy `sqbDelta` is not modelled, since nothing reads it.
unfoldable pub squish_copy_base_to_data : Sqbase → Area → Area
squish_copy_base_to_data b a = record a {
  cb_sqbase = b.len;
  cb_sqhdr = b.sz_sqhdr;
  w_skip_msg = b.skip_msg % word_mod;
  dw_max_msg = b.max_msg;
  w_max_days = b.keep_days;
  dw_high_water = b.high_water;
  uid_next = b.uid;
  fo_first = b.begin_frame;
  fo_last = b.last_frame;
  fo_free = b.free_frame;
  fo_last_free = b.last_free_frame;
  fo_end = b.end_frame;
  num_msg = b.num_msg;
  high_msg = b.num_msg;
  high_water = b.high_water;
}

-- _SquishCopyDataToBase: the fields that it does not set are zeros.
unfoldable pub squish_copy_data_to_base : Area → Sqbase
squish_copy_data_to_base a = record {
  len = a.cb_sqbase;
  rsvd1 = 0;
  num_msg = a.num_msg;
  high_msg = a.high_msg;
  skip_msg = a.w_skip_msg;
  high_water = a.high_water;
  uid = a.uid_next;
  base = replicate 80 0;
  begin_frame = a.fo_first;
  last_frame = a.fo_last;
  free_frame = a.fo_free;
  last_free_frame = a.fo_last_free;
  end_frame = a.fo_end;
  max_msg = a.dw_max_msg;
  keep_days = a.w_max_days;
  sz_sqhdr = a.cb_sqhdr;
  rsvd2 = replicate 124 0;
}

-- `++` and `--` on the counters, which are of type `word`.
abbrev pub up16 : ℕ → ℕ
up16 n = (n + 1) % word_mod

abbrev pub down16 : ℕ → ℕ
down16 n = (n + word_mod - 1) % word_mod

-- _SquishLockBase. `held` is the lock on byte 0 of the file.
unfoldable pub squish_lock_base : Cmd Area (Unit {0})
squish_lock_base a =
    let counted = record a { f_locked = up16 a.f_locked } in
    if not (a.f_locked == 0)
    then ok tt counted
    else (if a.os.lock_granted then ok tt (record counted { held = true }) else refuse share a)

-- _SquishUnlockBase. Without a lock `--fLocked` wraps around and is not 0.
unfoldable pub squish_unlock_base : Area → Area
squish_unlock_base a =
    let left = record a { f_locked = down16 a.f_locked } in
    if not (down16 a.f_locked == 0)
    then left
    else (if a.os.haveshare then record left { held = false } else left)

-- "Obtain an up-to-date copy of the file header", with what was read of it.
abbrev pub taken_over : Run Area Sqbase → Run Area (Unit {0})
taken_over (ok b a) = ok tt (record (squish_copy_base_to_data b a) { have_exclusive = true })
taken_over (fail a) = fail (squish_unlock_base a)
taken_over stuck = stuck

-- _SquishExclusiveBegin.
unfoldable pub squish_exclusive_begin : Cmd Area (Unit {0})
squish_exclusive_begin a =
    if a.have_exclusive
    then refuse share a
    else and_then (squish_lock_base a) (λ _ s. taken_over (squish_read_base_header s))

-- _SquishExclusiveEnd.
unfoldable pub squish_exclusive_end : Cmd Area (Unit {0})
squish_exclusive_end a =
    if not a.have_exclusive
    then refuse nolock a
    else (do
      rc ← attempt (squish_write_base_header (squish_copy_data_to_base a))
      modify squish_unlock_base
      modify (λ s. record s { have_exclusive = false })
      if rc then pure tt else (λ s. fail s))
        a

-- apiSquishLock: `ok` for its result 0 and `fail` for -1. A failure leaves `fLockFunc` counted.
unfoldable pub api_squish_lock : Cmd Area (Unit {0})
api_squish_lock a =
    let counted = record a { f_lock_func = up16 a.f_lock_func } in
    if not (a.f_lock_func == 0)
    then ok tt counted
    else (do
      squish_lock_base
      rc ← attempt squish_begin_buffer
      if rc then pure tt else (λ s. fail (squish_unlock_base s)))
        counted

-- apiSquishUnlock.
unfoldable pub api_squish_unlock : Cmd Area (Unit {0})
api_squish_unlock a =
    let left = record a { f_lock_func = down16 a.f_lock_func } in
    if a.f_lock_func == 0
    then refuse nolock a
    else (if not (down16 a.f_lock_func == 0)
        then ok tt left
        else (do attempt squish_end_buffer; modify squish_unlock_base) left)
