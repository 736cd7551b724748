-- ===== src/Squish/Index/Entries.antt =====
-- Changes of the buffered or unbuffered index: _SquishAppendIndexRecord and SidxPut of sq_idx.c.
use mathlib.Core.Option
use xmsgapi.Base.{
  Bool, List, Option, [], if◌then◌else◌, leb, length, ltb, none, not, some, ℕ, ◌%◌, ◌*◌, ◌++◌, ◌+◌,
  ◌==◌, ◌^◌, ◌∷◌,
}
use xmsgapi.Base.Cmd.{Cmd, fail, modify, ok, ◌>>◌}
use xmsgapi.Base.Word.{add32, dword_max, dword_mod, slt, sub32}
use xmsgapi.File.{seek}
use xmsgapi.Squish.Area.{Area, Sqidxseg, nods, nomem, refuse, seek_ifd, set_hix}
use xmsgapi.Squish.Index.{more_space, segment_size, sidx, store_sidx}
use xmsgapi.Squish.Sqidx.{Sqidx, sqidx_size, write_sqidx}

-- The segments with a record more at the end: into the last one if it has room or can grow, or in
-- a segment of its own. `mem` says whether `malloc` gives memory.
unfoldable pub append_segs : Bool → Sqidx → List Sqidxseg → Option (List Sqidxseg)
append_segs mem r [] =
    if mem then some (record { psqi = r ∷ []; dw_max = more_space } ∷ []) else none
append_segs mem r (s ∷ []) =
    let longer = s.psqi ++ (r ∷ []) in
    if ltb (length s.psqi) s.dw_max
    then some (record s { psqi = longer } ∷ [])
    else (if not mem
        then none
        else (if ltb s.dw_max segment_size
            then some (record { psqi = longer; dw_max = s.dw_max + more_space } ∷ [])
            else some (s ∷ record { psqi = r ∷ []; dw_max = more_space } ∷ [])))
append_segs mem r (s ∷ t ∷ ss) = Option.map (λ us. s ∷ us) (append_segs mem r (t ∷ ss))

-- `if ((long) num_msg > lAllocatedRecords)` with its body.
unfoldable pub make_room : Cmd Area (Unit {0})
make_room a =
    let n = add32 a.num_msg 64 in
    let at = sub32 n 1 * sqidx_size % dword_mod in
    let grown = set_hix (λ x. record x { allocated_records = n }) a in
    let (done, ifd') =
      write_sqidx a.os.mem (record { ofs = 0; umsgid = dword_max; hash = dword_max } ∷ [])
        (seek at a.ifd) in
    let written = record grown { ifd = ifd' } in
    if not (slt a.hix.allocated_records a.num_msg)
    then ok tt a
    else (if leb (2 ^ 31) at
        then refuse nods grown
        else (if done then ok tt written else refuse nods written))

abbrev with_segs : Option (List Sqidxseg) → Cmd Area (Unit {0})
with_segs none = refuse nomem
with_segs (some ss) = modify (set_hix (λ x. record x { segs = ss }))

-- _SquishAppendIndexRecord.
unfoldable pub squish_append_index_record : Sqidx → Cmd Area (Unit {0})
unfolding make_room append_segs
squish_append_index_record r = do make_room; (λ a. with_segs (append_segs a.os.mem r a.hix.segs) a)

-- A delta that is set to `(long) dw_msg`, -1 for the greatest.
abbrev pub delta_of : ℕ → Option ℕ
delta_of dw_msg = if dw_msg == dword_max then none else some dw_msg

-- `if (lDeltaLo == -1 || lDeltaLo > (long) dwMsg) lDeltaLo = (long) dwMsg;`
abbrev pub lower_delta : ℕ → Option ℕ → Option ℕ
lower_delta dw_msg none = delta_of dw_msg
lower_delta dw_msg (some lo) = if slt dw_msg lo then delta_of dw_msg else some lo

abbrev pub raise_delta : ℕ → Option ℕ → Option ℕ
raise_delta dw_msg none = delta_of dw_msg
raise_delta dw_msg (some hi) = if slt hi dw_msg then delta_of dw_msg else some hi

abbrev pub note_change : ℕ → Area → Area
note_change dw_msg = set_hix (λ x. record x {
  delta_lo = lower_delta dw_msg x.delta_lo;
  delta_hi = raise_delta dw_msg x.delta_hi;
})

-- The unbuffered branch of SidxPut.
unfoldable pub sidx_put_direct : ℕ → Sqidx → Cmd Area (Unit {0})
sidx_put_direct dw_msg r a =
    let at = seek_ifd (sub32 dw_msg 1 * sqidx_size % dword_mod) a in
    let (done, ifd') = write_sqidx a.os.mem (r ∷ []) at.ifd in
    let a' = record at { ifd = ifd' } in if done then ok tt a' else refuse nods a'

-- SidxPut.
unfoldable pub sidx_put : ℕ → Sqidx → Cmd Area (Unit {0})
unfolding sidx_put_direct sidx store_sidx squish_append_index_record
sidx_put dw_msg r a =
    if a.hix.f_buffer == 0 then sidx_put_direct dw_msg r a else elim (sidx a.hix.segs 1 dw_msg) [
      | some _ ↦
          ok tt
            (note_change dw_msg (set_hix (λ x. record x { segs = store_sidx x.segs 1 dw_msg r }) a))
      | none ↦
          if dw_msg == add32 a.num_msg 1
          then (do squish_append_index_record r; modify (note_change dw_msg)) a
          else fail a
    ]
