-- ===== src/Squish/Index/Begin.antt =====
-- _SquishBeginBuffer of sq_idx.c: the records of the index file come into memory.
use xmsgapi.Base.{
  [], ap, append-nil, arith, eq→==, if-false, length, not, refl, suc, true, zero, ℕ, ◌*◌, ◌+◌, ◌/◌,
  ◌∙◌, ◌∷◌, ◌≡◌, ◌≤◌,
}
use xmsgapi.Base.Cmd.{ok}
use xmsgapi.Base.Word.{add32, min_of}
use xmsgapi.File.{seek}
use xmsgapi.Squish.Area.{Area}
use xmsgapi.Squish.Index.{fill_segs, more_space, segment_size, squish_begin_buffer}
use xmsgapi.Squish.Index.Flat.{flat}
use xmsgapi.Squish.Index.Laws.{Buffered, entries}
use xmsgapi.Squish.Sqidx.{sqidx_size}
use xmsgapi.Squish.Sqidx.Buffer.{read_singly-all, read_sqidx-read_singly, records_at}

length-read : (b : ℕ → ℕ) (p n : ℕ) → length (records_at b p n) ≡ n
unfolding records_at
length-read b p zero = refl
length-read b p (suc n) = ap suc (length-read b (p + sqidx_size) n)

-- The area behind _SquishBeginBuffer, with the one segment that up to 1,000,000 records fill.
begun : Area → Area
begun a = record a {
  ifd = record (a.ifd) { pos = 0 + a.num_msg * sqidx_size };
  hix = record (a.hix) {
    allocated_records = a.ifd.size / sqidx_size;
    f_buffer = a.hix.f_buffer + 1;
    segs =
        record { psqi = records_at a.ifd.bytes 0 a.num_msg; dw_max = a.num_msg + more_space } ∷ [];
  };
}

fill_segs-one :
    (a : Area) (m : ℕ)
    → a.os.mem ≡ true
    → m ≤ 1_000_000
    → a.ifd.pos + m * sqidx_size ≤ a.ifd.size
    → fill_segs 1 m a
      ≡ ok
          (record { psqi = records_at a.ifd.bytes a.ifd.pos m; dw_max = m + more_space } ∷ [])
          (record a { ifd = record (a.ifd) { pos = a.ifd.pos + m * sqidx_size } })
unfolding fill_segs
fill_segs-one a m mem few h =
    let size : min_of m segment_size ≡ m = ground (arith, few) in
    let max : min_of (add32 m more_space) segment_size ≡ m + more_space = ground (arith, few) in
    let r = read_sqidx-read_singly a.os.mem m a.ifd h ∙ read_singly-all m a.ifd h in
    if-false _ _ (ap not mem) ∙ rw (size, r, max, size, r)

squish_begin_buffer-begun :
    (a : Area)
    → a.hix.f_buffer ≡ 0
    → a.os.mem ≡ true
    → a.num_msg ≤ 1_000_000
    → a.num_msg * sqidx_size ≤ a.ifd.size
    → squish_begin_buffer a ≡ ok tt (begun a)
unfolding squish_begin_buffer begun seek
squish_begin_buffer-begun a off mem few h =
    let one : a.num_msg / segment_size + 1 ≡ 1 = ground (arith, few) in
    let start = record a {
      ifd = record (a.ifd) { pos = 0 };
      hix = record (a.hix) {
        allocated_records = a.ifd.size / sqidx_size;
        f_buffer = a.hix.f_buffer + 1;
      };
    } in
    let filled = fill_segs-one start a.num_msg mem few (omega (arith, h)) in
    if-false _ _ (ap not (eq→== a.hix.f_buffer 0 off))
    ∙ (if-false _ _ (ap not mem) ∙ rw (one, filled))

-- With memory, on an index that is not yet in memory and a file that has the records of the up to
-- 1,000,000 messages of the area, _SquishBeginBuffer succeeds: the index in memory is the records
-- of the file in order, one for each message, none lies outside its segment, and neither the bytes
-- of the file nor what the area knows of its messages changes.
pub squish_begin_buffer-Buffered :
    (a : Area)
    → a.hix.f_buffer ≡ 0
    → a.os.mem ≡ true
    → a.num_msg ≤ 1_000_000
    → a.num_msg * sqidx_size ≤ a.ifd.size
    → (b : Area) × (squish_begin_buffer a ≡ ok tt b)
      × (entries b ≡ records_at a.ifd.bytes 0 a.num_msg)
      × (length (entries b) ≡ a.num_msg)
      × Buffered b
      × (b.ifd.bytes ≡ a.ifd.bytes)
      × (b.num_msg ≡ a.num_msg)
unfolding begun flat
squish_begin_buffer-Buffered a off mem few h =
    let n = length-read a.ifd.bytes 0 a.num_msg in
    let all = append-nil (records_at a.ifd.bytes 0 a.num_msg) in
    let many = ap length all ∙ n in
    (
      begun a,
      squish_begin_buffer-begun a off mem few h,
      all,
      many,
      record {
        open_buffer = λ e. absurd (omega (arith, e));
        fits = (omega (arith, n), tt);
        counted = omega (arith, many, few);
      },
      refl,
      refl,
    )
