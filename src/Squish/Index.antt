-- ===== src/Squish/Index.antt =====
-- The index of an area, sq_idx.c: records of the file `.sqi`, read and written directly or through
-- a buffer of segments while `f_buffer` is not 0.
pub mod Entries
pub mod Flat
pub mod Resize
pub mod Laws
pub mod Append
pub mod Begin
pub mod End
use xmsgapi.Base.{
  Bool, List, Option, [], drop, get_elem?, if◌then◌else◌, leb, length, ltb, none, not, set, some,
  suc, take, true, zero, ℕ, ◌%◌, ◌&&◌, ◌*◌, ◌+◌, ◌-◌, ◌/◌, ◌==◌, ◌^◌, ◌∷◌,
}
use xmsgapi.Base.Cmd.{Cmd, Run, and_then, attempt, fail, modify, ok, pure, ◌>>=◌, ◌>>◌}
use xmsgapi.Base.Word.{add32, dword_max, dword_mod, min_of, sub32}
use xmsgapi.File.{seek, set_size}
use xmsgapi.Squish.Area.{
  Area, Hidx, Merr, Sqidxseg, badf, nods, nomem, refuse, seek_ifd, set_err, set_hix,
}
use xmsgapi.Squish.Header.{null_frame}
use xmsgapi.Squish.Sqidx.{Sqidx, read_singly, read_sqidx, sqidx_size, write_sqidx}

-- On a machine whose `long` has 32 bits: LONG_MAX / SQIDX_SIZE.
abbrev pub segment_size : ℕ
segment_size = (2 ^ 31 - 1) / sqidx_size

abbrev pub more_space : ℕ
more_space = 256

-- A record of the index for no message.
abbrev pub blank_sqidx : Sqidx
blank_sqidx = record { ofs = null_frame; umsgid = dword_max; hash = dword_max }

-- _SquishOpenIndex, given the memory.
unfoldable pub squish_open_index : Hidx
squish_open_index = record {
  allocated_records = 0;
  delta_lo = none;
  delta_hi = none;
  f_buffer = 0;
  segs = [];
}

-- The sum of the loop in _SquishIndexSize.
unfoldable pub segs_size : List Sqidxseg → ℕ
segs_size [] = 0
segs_size (s ∷ ss) = add32 (length s.psqi * sqidx_size % dword_mod) (segs_size ss)

-- _SquishIndexSize. Unbuffered, it leaves the file at its end.
unfoldable pub squish_index_size : Area → ℕ × Area
unfolding segs_size
squish_index_size a =
    if a.hix.f_buffer == 0
    then (a.ifd.size % dword_mod, record a { ifd = seek a.ifd.size a.ifd })
    else (segs_size a.hix.segs, a)

-- `hix->fBuffer = 0; msgapierr = e; return FALSE;`
abbrev pub abandon : {A : Type 0} → Merr → Cmd Area A
abandon e a = fail (record a { err = e; hix = record (a.hix) { f_buffer = 0 } })

-- The loop of _SquishBeginBuffer: `n` segments are left for `dw_msgs` records.
unfoldable pub fill_segs : ℕ → ℕ → Cmd Area (List Sqidxseg)
fill_segs zero dw_msgs a = ok [] a
fill_segs (suc n) dw_msgs a =
    let dw_size = min_of dw_msgs segment_size in
    let dw_max = min_of (add32 dw_msgs more_space) segment_size in
    let (got, ifd') = read_sqidx a.os.mem dw_size a.ifd in
    let a' = record a { ifd = ifd' } in
    let left = if dw_size == segment_size then dw_msgs - segment_size else 0 in
    let rest = fill_segs n left a' in
    if not a.os.mem then abandon nomem a else elim got [
      | none ↦ abandon badf a'
      | some rs ↦ and_then rest (λ ss. pure (record { psqi = rs; dw_max = dw_max } ∷ ss))
    ]

-- _SquishBeginBuffer.
unfoldable pub squish_begin_buffer : Cmd Area (Unit {0})
unfolding fill_segs
squish_begin_buffer a =
    let counted = set_hix (λ x. record x { f_buffer = x.f_buffer + 1 }) a in
    if not (a.hix.f_buffer == 0)
    then ok tt counted
    else (if not a.os.mem
        then abandon nomem counted
        else (do
          modify (set_hix (λ x. record x { allocated_records = a.ifd.size / sqidx_size }))
          modify (λ s. record s { ifd = seek 0 s.ifd })
          ss ← fill_segs (a.num_msg / segment_size + 1) a.num_msg
          modify (set_hix (λ x. record x { segs = ss })))
            counted)

-- sidx: the record of message `dw_msg`, the first segment starting with message `dw_start`.
unfoldable pub sidx : List Sqidxseg → ℕ → ℕ → Option Sqidx
sidx [] dw_start dw_msg = none
sidx (s ∷ ss) dw_start dw_msg =
    let rest = sidx ss (add32 dw_start (length s.psqi)) dw_msg in
    if leb dw_start dw_msg && ltb dw_msg (add32 dw_start (length s.psqi))
    then get_elem? s.psqi (dw_msg - dw_start)
    else rest

-- `*psqiFound = *psqi`, for the record that `sidx` finds.
unfoldable pub store_sidx : List Sqidxseg → ℕ → ℕ → Sqidx → List Sqidxseg
store_sidx [] dw_start dw_msg r = []
store_sidx (s ∷ ss) dw_start dw_msg r =
    let rest = s ∷ store_sidx ss (add32 dw_start (length s.psqi)) dw_msg r in
    if leb dw_start dw_msg && ltb dw_msg (add32 dw_start (length s.psqi))
    then record s { psqi = set s.psqi (dw_msg - dw_start) r } ∷ ss
    else rest

-- The part of a segment that lies between the deltas: `psqi + j` for `size` records. The counts
-- are small enough for a `long`.
unfoldable pub delta_part : Sqidxseg → ℕ → ℕ → ℕ → List Sqidx
delta_part s dw_start lo hi =
    let used = length s.psqi in
    let j = if ltb lo dw_start then 0 else lo - dw_start in
    let size = if ltb hi (dw_start + used) then hi + 1 - dw_start else used in
    take (size - j) (drop j s.psqi)

-- The loop of _SquishEndBuffer over the segments: `rc` is FALSE once a write has failed.
unfoldable pub write_segs : List Sqidxseg → ℕ → ℕ → ℕ → Bool → Area → Bool × Area
unfolding delta_part
write_segs [] dw_start lo hi rc a = (rc, a)
write_segs (s ∷ ss) dw_start lo hi rc a =
    let (done, ifd') = write_sqidx a.os.mem (delta_part s dw_start lo hi) a.ifd in
    let written = record a { ifd = ifd' } in
    let touched = ltb lo (dw_start + length s.psqi) && leb dw_start hi && rc in
    write_segs ss (add32 dw_start (length s.psqi)) lo hi (if touched then done else rc)
      (if touched then (if done then written else set_err nods written) else a)

-- The body, where both are there: the records from `lo` to `hi` are written.
unfoldable pub delta_between : Area → Option ℕ → Option ℕ → Bool × Area
unfolding write_segs
delta_between a none hi = (true, a)
delta_between a (some lo) none = (true, a)
delta_between a (some lo) (some hi) =
    write_segs a.hix.segs 1 lo hi true (seek_ifd ((lo - 1) * sqidx_size) a)

-- `if (lDeltaLo != -1 && lDeltaHi != -1)` with its body.
unfoldable pub write_delta : Area → Bool × Area
unfolding delta_between
write_delta a = delta_between a a.hix.delta_lo a.hix.delta_hi

-- "Free the memory used by these segments", and the result.
abbrev pub released : Bool × Area → Run Area (Unit {0})
released (rc, a) =
    let ended = set_hix (λ x. record x { segs = [] }) a in if rc then ok tt ended else fail ended

-- _SquishEndBuffer.
unfoldable pub squish_end_buffer : Cmd Area (Unit {0})
unfolding write_delta
squish_end_buffer a =
    let left = set_hix (λ x. record x { f_buffer = x.f_buffer - 1 }) a in
    let cut = record left { ifd = set_size (a.num_msg * sqidx_size) a.ifd } in
    if a.hix.f_buffer == 0
    then fail a
    else (if not (a.hix.f_buffer == 1) then ok tt left else released (write_delta cut))

-- _SquishFreeBuffer.
unfoldable pub squish_free_buffer : Cmd Area (Unit {0})
squish_free_buffer a =
    let left = set_hix (λ x. record x { f_buffer = x.f_buffer - 1 }) a in
    if a.hix.f_buffer == 0
    then fail a
    else (if not (a.hix.f_buffer == 1)
        then ok tt left
        else ok tt (set_hix (λ x. record x { segs = [] }) left))

-- The unbuffered branches of SidxGet and SidxPut.
unfoldable pub sidx_get_direct : ℕ → Cmd Area Sqidx
sidx_get_direct dw_msg a =
    let at = seek_ifd (sub32 dw_msg 1 * sqidx_size % dword_mod) a in
    let (got, ifd') = read_singly 1 at.ifd in
    let a' = record at { ifd = ifd' } in elim got [ some (r ∷ _) ↦ ok r a' | _ ↦ refuse badf a' ]

abbrev found : Option Sqidx → Cmd Area Sqidx
found none = λ a. fail a
found (some r) = pure r

-- SidxGet: a record that is not in the buffer is looked for once more after the index has been
-- written and read again, whatever these two report.
unfoldable pub sidx_get : ℕ → Cmd Area Sqidx
unfolding sidx sidx_get_direct
sidx_get dw_msg a =
    if a.hix.f_buffer == 0 then sidx_get_direct dw_msg a else elim (sidx a.hix.segs 1 dw_msg) [
      | some r ↦ ok r a
      | none ↦
          (do
            attempt squish_end_buffer
            attempt squish_begin_buffer
            (λ s. found (sidx s.hix.segs 1 dw_msg) s))
            a
    ]
