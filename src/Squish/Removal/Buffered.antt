-- ===== src/Squish/Removal/Buffered.antt =====
-- _SquishRemoveIndexEntry of sq_idx.c on a buffered index.
use xmsgapi.Base.{
  All, Option, [], ap, arith, get_elem?, length, length-append, ne→==, some, suc, true, ℕ, ◌++◌,
  ◌+◌, ◌-◌, ◌/◌, ◌<◌, ◌∙◌, ◌∷◌, ◌≡◌, ◌≢◌, ◌≤◌,
}
use xmsgapi.Base.Cmd.{and_then, pure}
use xmsgapi.Base.Word.{dword_mod}
use xmsgapi.File.{File}
use xmsgapi.Squish.Area.{Area, Hidx, set_hix}
use xmsgapi.Squish.Header.{Sqhdr}
use xmsgapi.Squish.Index.{blank_sqidx, segs_size}
use xmsgapi.Squish.Index.Append.{HasRoom, squish_append_index_record-ok}
use xmsgapi.Squish.Index.Entries.{lower_delta}
use xmsgapi.Squish.Index.Flat.{FitsSeg, flat, get_elem?-lt, without}
use xmsgapi.Squish.Index.Laws.{Buffered, entries}
use xmsgapi.Squish.Index.Resize.{length-without, remove_segs-flat}
use xmsgapi.Squish.Removal.{finish_removal, fix_if_asked, squish_remove_index_entry}
use xmsgapi.Squish.Sqidx.{Sqidx, sqidx_size}

-- `a` with another index, on disk and in memory.
abbrev pub reindexed : File → Hidx → Area → Area
reindexed f x a = record a { ifd = f; hix = x }

finish_removal-ok :
    (a : Area) (m : ℕ) (fix : Option Sqhdr)
    → All FitsSeg a.hix.segs
    → HasRoom a
    → a.os.mem ≡ true
    → a.hix.f_buffer ≢ 0
    → 2 + length (entries a) < dword_mod
    → (f : File) × (x : Hidx) × (finish_removal m fix a ≡ fix_if_asked m fix (reindexed f x a))
      × (flat x.segs ≡ entries a ++ (blank_sqidx ∷ []))
      × Buffered (reindexed f x a)
unfolding finish_removal
finish_removal-ok a m fix fits h mem on few =
    let (f, n, ss, e, q, fits') = squish_append_index_record-ok a blank_sqidx fits h mem in
    let many = ap length q ∙ length-append (entries a) (blank_sqidx ∷ []) in
    let x : Hidx = record {
      allocated_records = n;
      delta_lo = lower_delta m a.hix.delta_lo;
      delta_hi = some (segs_size ss / sqidx_size);
      f_buffer = a.hix.f_buffer;
      segs = ss;
    } in
    (f, x, rw e, q, record { open_buffer = on; fits = fits'; counted = omega (arith, many, few) })

-- In a buffered index, with memory and room on the disk, _SquishRemoveIndexEntry on the number `m`
-- of a record `r` gives `r`, takes it out of the records, each later one moving down by a number,
-- and puts a blank record at the end; what is left to do is to fix the pointers, where the caller
-- asks for it, and up to there nothing but the index has changed.
pub squish_remove_index_entry-Buffered :
    (a : Area) (m : ℕ) (fix : Option Sqhdr) (r : Sqidx)
    → Buffered a
    → HasRoom a
    → a.os.mem ≡ true
    → 1 ≤ m
    → get_elem? (entries a) (m - 1) ≡ some r
    → (f : File) × (x : Hidx) × (squish_remove_index_entry m fix a
        ≡ and_then (fix_if_asked m fix (reindexed f x a)) (λ _. pure (some r)))
      × (flat x.segs ≡ without (entries a) (m - 1) ++ (blank_sqidx ∷ []))
      × Buffered (reindexed f x a)
unfolding squish_remove_index_entry
squish_remove_index_entry-Buffered a m fix r b h mem one g =
    let (ss, e, (w, fits)) = remove_segs-flat a.hix.segs 1 m r b.fits one b.counted g in
    let cut = set_hix (λ x. record x { segs = ss }) a in
    let fewer : suc (length (flat ss)) ≡ length (entries a) =
      ap (λ xs. suc (length xs)) w
      ∙ length-without (entries a) (m - 1) (get_elem?-lt (entries a) (m - 1) r g) in
    let (f, x, p, q, b') =
      finish_removal-ok cut m fix fits (record { few = h.few; disk = h.disk }) mem b.open_buffer
        (omega (arith, fewer, b.counted)) in
    (
      f,
      x,
      rw (ne→== a.hix.f_buffer 0 b.open_buffer, e, p),
      q ∙ ap (λ xs. xs ++ (blank_sqidx ∷ [])) w,
      b',
    )
