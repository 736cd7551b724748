-- ===== src/Squish/Index/Append.antt =====
-- _SquishAppendIndexRecord and SidxPut of sq_idx.c on a message number one past the last.
use xmsgapi.Base.{
  All, Bool, Bool-cases, List, [], ap, arith, eq→==, false, get_elem?, inl, inr, leb, length,
  length-append, ne→==, none, refl, suc, true, zero, ℕ, ◌%◌, ◌*◌, ◌++◌, ◌+◌, ◌-◌, ◌^◌, ◌∙◌, ◌∷◌,
  ◌≡◌, ◌≤◌,
}
use xmsgapi.Base.Cmd.{ok}
use xmsgapi.Base.Word.{add32, dword_max, dword_mod, slt, sub32}
use xmsgapi.File.{File, seek, write}
use xmsgapi.File.Laws.{write_all}
use xmsgapi.Putword.{put_dword}
use xmsgapi.Squish.Area.{Area, Sqidxseg, set_hix}
use xmsgapi.Squish.Index.{sidx, sidx_get}
use xmsgapi.Squish.Index.Entries.{
  append_segs, make_room, note_change, sidx_put, squish_append_index_record,
}
use xmsgapi.Squish.Index.Flat.{FitsSeg, flat, get_elem?-append_r, sidx-flat}
use xmsgapi.Squish.Index.Laws.{Buffered, entries, sidx_get-flat}
use xmsgapi.Squish.Index.Resize.{append_segs-flat}
use xmsgapi.Squish.Sqidx.{Sqidx, encode_sqidx, sqidx_size, write_singly, write_sqidx}

-- The disk takes the blank record that makes room for 64 more, at an offset that a `long` holds.
pub record HasRoom (a : Area) : Type 0 where
  pub few : a.num_msg + 64 ≤ 2 ^ 27
  pub disk : (a.num_msg + 64) * sqidx_size ≤ a.ifd.room

-- `a` with another index file and another count of its records.
abbrev pub refiled : File → ℕ → Area → Area
refiled f n a = record a { ifd = f; hix = record (a.hix) { allocated_records = n } }

length-put_dword : (x : ℕ) → length (put_dword x) ≡ 4
unfolding put_dword
length-put_dword x = refl

length-encode_sqidx : (r : Sqidx) → length (encode_sqidx r) ≡ 12
unfolding encode_sqidx put_dword
length-encode_sqidx r = refl

write_one :
    (mem : Bool) (r : Sqidx) (f : File)
    → f.pos + 12 ≤ f.room
    → (g : File) × (write_sqidx mem (r ∷ []) f ≡ (true, g)) × (g.room ≡ f.room)
unfolding write_sqidx write_singly
write_one mem r f h =
    let w =
      write_all (encode_sqidx r) f (omega (arith, length-encode_sqidx r))
        (omega (arith, length-encode_sqidx r)) in
    ((write (encode_sqidx r) f).1, rw (w, length-encode_sqidx r), rw w refl)

-- The offset that _SquishAppendIndexRecord seeks to.
abbrev room_at : Area → ℕ
room_at a = sub32 (add32 a.num_msg 64) 1 * sqidx_size % dword_mod

make_room-written :
    (a : Area) (g : File)
    → leb (2 ^ 31) (room_at a) ≡ false
    → write_sqidx a.os.mem
        (record { ofs = 0; umsgid = dword_max; hash = dword_max } ∷ [])
        (seek (room_at a) a.ifd)
      ≡ (true, g)
    → (f : File) × (n : ℕ) × (make_room a ≡ ok tt (refiled f n a))
unfolding make_room
make_room-written a g short w = elim (Bool-cases (slt a.hix.allocated_records a.num_msg)) [
  | inl grow ↦ (g, add32 a.num_msg 64, rw (grow, short, w))
  | inr same ↦ (a.ifd, a.hix.allocated_records, rw same)
]

make_room-ok : (a : Area) → HasRoom a → (f : File) × (n : ℕ) × (make_room a ≡ ok tt (refiled f n a))
unfolding seek
make_room-ok a h =
    let at : room_at a ≡ (a.num_msg + 64 - 1) * sqidx_size = ground (arith, h.few) in
    let (g, w, _) =
      write_one a.os.mem (record { ofs = 0; umsgid = dword_max; hash = dword_max })
        (seek (room_at a) a.ifd) (omega (arith, at, h.disk)) in
    make_room-written a g (ground (arith, at, h.few)) w

-- With memory and room on the disk, appending to the buffer succeeds and the record is the last.
pub squish_append_index_record-ok :
    (a : Area) (r : Sqidx)
    → All FitsSeg a.hix.segs
    → HasRoom a
    → a.os.mem ≡ true
    → (f : File) × (n : ℕ) × (ss : List Sqidxseg) × (squish_append_index_record r a
        ≡ ok tt (set_hix (λ x. record x { segs = ss }) (refiled f n a)))
      × (flat ss ≡ entries a ++ (r ∷ []))
      × All FitsSeg ss
unfolding squish_append_index_record
squish_append_index_record-ok a r fits h m =
    let (f, n, e) = make_room-ok a h in
    let (ss, p, q, fits') = append_segs-flat a.hix.segs r fits in
    (f, n, ss, rw (e, ap (λ t. append_segs t r a.hix.segs) m ∙ p), q, fits')

get_elem?-none : (xs : List Sqidx) (i : ℕ) → length xs ≤ i → get_elem? xs i ≡ none
get_elem?-none [] i h = refl
get_elem?-none (x ∷ xs) zero h = absurd (omega arith)
get_elem?-none (x ∷ xs) (suc i) h = get_elem?-none xs i (omega arith)

-- In a buffered index of `num_msg` records, with memory and room on the disk, SidxPut on the
-- number after the last message succeeds and the records are those from before with the new one
-- at their end; SidxGet gives it, and the index is still a buffered one.
pub sidx_put-append :
    (a : Area) (r : Sqidx)
    → Buffered a
    → HasRoom a
    → a.os.mem ≡ true
    → length (entries a) ≡ a.num_msg
    → (a' : Area) × (sidx_put (a.num_msg + 1) r a ≡ ok tt a')
      × (entries a' ≡ entries a ++ (r ∷ []))
      × Buffered a'
      × (sidx_get (a.num_msg + 1) a' ≡ ok r a')
unfolding sidx_put
sidx_put-append a r b h m all =
    let (f, n, ss, e, q, fits) = squish_append_index_record-ok a r b.fits h m in
    let m' = a.num_msg + 1 in
    let a' = note_change m' (set_hix (λ x. record x { segs = ss }) (refiled f n a)) in
    let many : length (flat ss) ≡ m' =
      ap length q ∙ omega (arith, length-append (entries a) (r ∷ []), all) in
    let b' : Buffered a' = record {
      open_buffer = b.open_buffer;
      fits = fits;
      counted = omega (arith, many, h.few);
    } in
    let missing : sidx a.hix.segs 1 m' ≡ none =
      sidx-flat a.hix.segs 1 m' (omega arith) b.counted
      ∙ get_elem?-none (entries a) (m' - 1) (omega (arith, all)) in
    let next : add32 a.num_msg 1 ≡ m' = ground (arith, h.few) in
    (
      a',
      rw (ne→== a.hix.f_buffer 0 b.open_buffer, missing, next, eq→== m' m' refl, e),
      q,
      b',
      sidx_get-flat a' m' r b' (omega arith)
          (rw q (get_elem?-append_r (entries a) (r ∷ []) 0 (m' - 1) (omega (arith, all)))),
    )
