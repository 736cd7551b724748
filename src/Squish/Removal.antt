-- ===== src/Squish/Removal.antt =====
-- Taking a record out of the index, and closing it: _SquishRemoveIndexEntry and _SquishCloseIndex
-- of sq_idx.c.
pub mod Buffered
use mathlib.Core.Option
use xmsgapi.Base.{
  List, Option, [], if◌then◌else◌, leb, length, ltb, none, not, some, suc, zero, ℕ, ◌%◌, ◌&&◌, ◌*◌,
  ◌+◌, ◌-◌, ◌/◌, ◌==◌, ◌∷◌,
}
use xmsgapi.Base.Cmd.{Cmd, and_then, attempt, fail, modify, ok, pure, stuck, ◌>>=◌, ◌>>◌}
use xmsgapi.Base.Word.{add32, dword_mod}
use xmsgapi.File.{File, read, seek, write}
use xmsgapi.Squish.Area.{Area, Sqidxseg, badf, nomem, refuse, seek_ifd, set_hix}
use xmsgapi.Squish.Header.{Sqhdr}
use xmsgapi.Squish.Index.{blank_sqidx, segs_size, squish_end_buffer}
use xmsgapi.Squish.Index.Entries.{lower_delta, squish_append_index_record}
use xmsgapi.Squish.Pointers.{squish_fix_memory_pointers}
use xmsgapi.Squish.Sqidx.{Sqidx, sqidx_size, write_sqidx}

abbrev pub shift_size : ℕ
shift_size = 32768

-- The record at place `j` of a list, and the list without it.
unfoldable pub remove_at : List Sqidx → ℕ → Option (Sqidx × List Sqidx)
remove_at [] j = none
remove_at (r ∷ rs) zero = some (r, rs)
remove_at (r ∷ rs) (suc j) = Option.map (λ p. (p.0, r ∷ p.1)) (remove_at rs j)

-- The loop over the segments, up to and with the `memmove`: `none` for "Message not in index!".
unfoldable pub remove_segs : List Sqidxseg → ℕ → ℕ → Option (Sqidx × List Sqidxseg)
unfolding remove_at
remove_segs [] dw_start dw_msg = none
remove_segs (s ∷ ss) dw_start dw_msg =
    let rest = remove_segs ss (add32 dw_start (length s.psqi)) dw_msg in
    if leb dw_start dw_msg && ltb dw_msg (add32 dw_start (length s.psqi))
    then Option.map (λ p. (p.0, record s { psqi = p.1 } ∷ ss))
        (remove_at s.psqi (dw_msg - dw_start))
    else Option.map (λ p. (p.0, s ∷ p.1)) rest

-- `if (fFixPointers) return _SquishFixMemoryPointers(hix->ha, dwMsg, psqh);`: `psqh` is `none`
-- where the caller does not want it.
abbrev pub fix_if_asked : ℕ → Option Sqhdr → Cmd Area (Unit {0})
fix_if_asked dw_msg none = pure tt
fix_if_asked dw_msg (some h) = squish_fix_memory_pointers dw_msg h

-- What follows the `memmove`: a blank record, the deltas, and the pointers if all went well.
unfoldable pub finish_removal : ℕ → Option Sqhdr → Cmd Area (Unit {0})
unfolding squish_append_index_record segs_size
finish_removal dw_msg fix = do
  rc ← attempt (squish_append_index_record blank_sqidx)
  modify (
      set_hix (λ x. record x {
        delta_lo = lower_delta dw_msg x.delta_lo;
        delta_hi = some (segs_size x.segs / sqidx_size);
      }))
  if rc then fix_if_asked dw_msg fix else (λ a. fail a)

-- `lseek(ifd, -n, SEEK_CUR)`: an offset below 0 is refused.
abbrev seek_back : ℕ → File → File
seek_back n f = if ltb f.pos n then f else seek (f.pos - n) f

-- The loop that moves the rest of the file down by a record. A round reads at least a byte, so
-- the size of the file bounds their number.
unfoldable pub shift_down : ℕ → Cmd Area (Unit {0})
shift_down zero a = stuck
shift_down (suc fuel) a =
    let (buf, f) = read shift_size a.ifd in
    let (n, g) = write buf (seek_back (length buf + sqidx_size) f) in
    let rest = shift_down fuel (record a { ifd = seek (g.pos + sqidx_size) g }) in
    if length buf == 0
    then ok tt (record a { ifd = f })
    else (if n == length buf then rest else refuse badf (record a { ifd = g }))

-- The unbuffered branch, without the pointers.
unfoldable pub remove_direct : ℕ → Cmd Area (Unit {0})
unfolding shift_down
remove_direct dw_msg a =
    let at = seek_ifd (dw_msg * sqidx_size % dword_mod) a in
    if not a.os.mem
    then refuse nomem at
    else (do
      shift_down (a.ifd.size + 1)
      (λ s.
          let (done, ifd') = write_sqidx s.os.mem (blank_sqidx ∷ []) (seek_back sqidx_size s.ifd) in
          let s' = record s { ifd = ifd' } in if done then ok tt s' else refuse badf s'))
        at

-- _SquishRemoveIndexEntry. Its result is `*psqiOut`, which the unbuffered branch does not set.
unfoldable pub squish_remove_index_entry : ℕ → Option Sqhdr → Cmd Area (Option Sqidx)
unfolding remove_segs finish_removal remove_direct
squish_remove_index_entry dw_msg fix a =
    if a.hix.f_buffer == 0
    then (do remove_direct dw_msg; fix_if_asked dw_msg fix; pure none) a
    else elim (remove_segs a.hix.segs 1 dw_msg) [
      | none ↦ fail a
      | some (r, ss) ↦
          (do
            modify (set_hix (λ x. record x { segs = ss }))
            finish_removal dw_msg fix
            pure (some r))
            a
    ]

-- _SquishCloseIndex: each round ends one use of the buffer.
unfoldable pub close_loop : ℕ → Cmd Area (Unit {0})
close_loop zero a = if a.hix.f_buffer == 0 then ok tt a else stuck
close_loop (suc fuel) a =
    let rest = and_then (squish_end_buffer a) (λ _. close_loop fuel) in
    if a.hix.f_buffer == 0 then ok tt a else rest

unfoldable pub squish_close_index : Cmd Area (Unit {0})
unfolding close_loop
squish_close_index a = close_loop a.hix.f_buffer a
