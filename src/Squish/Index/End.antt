-- ===== src/Squish/Index/End.antt =====
-- _SquishEndBuffer of sq_idx.c: the changed records go back to the index file.
use xmsgapi.Base.{
  List, [], ap, arith, drop, false, if◌then◌else◌, leb, length, length-take, le→ltb_false, ltb,
  refl, some, take, true, ℕ, ◌&&◌, ◌*◌, ◌+◌, ◌-◌, ◌^◌, ◌∷◌, ◌≡◌, ◌≤◌,
}
use xmsgapi.Base.Cmd.{ok}
use xmsgapi.File.{File, seek, set_size}
use xmsgapi.Squish.Area.{Area, Sqidxseg}
use xmsgapi.Squish.Index.{delta_part, released, squish_end_buffer, write_delta, write_segs}
use xmsgapi.Squish.Sqidx.{Sqidx, sqidx_size, write_sqidx}
use xmsgapi.Squish.Sqidx.Saved.{Wrote, length-drop, write_sqidx-Wrote}

-- The area `a` with `uses` of the buffer, whose only segment is `s`, and with the records from
-- `lo` to `hi` changed.
abbrev pub changed : ℕ → ℕ → ℕ → ℕ → Sqidxseg → Area → Area
changed uses n lo hi s a = record a {
  hix = record {
    allocated_records = n;
    delta_lo = some lo;
    delta_hi = some hi;
    f_buffer = uses;
    segs = s ∷ [];
  };
}

-- The records from number `lo` to number `hi`.
abbrev pub slice : List Sqidx → ℕ → ℕ → List Sqidx
slice rs lo hi = take (hi - (lo - 1)) (drop (lo - 1) rs)

-- The file of the index, cut to the messages of the area, at the record `lo`.
abbrev pub cut_at : ℕ → Area → File
cut_at lo a = seek ((lo - 1) * sqidx_size) (set_size (a.num_msg * sqidx_size) a.ifd)

length-slice :
    (rs : List Sqidx) (lo hi : ℕ)
    → 1 ≤ lo
    → lo ≤ hi
    → hi ≤ length rs
    → length (slice rs lo hi) ≡ hi - (lo - 1)
length-slice rs lo hi one le h =
    length-take (hi - (lo - 1)) (drop (lo - 1) rs)
      (omega (arith, one, le, h, length-drop (lo - 1) rs (omega (arith, le, h))))

delta_part-slice :
    (s : Sqidxseg) (lo hi : ℕ)
    → 1 ≤ lo
    → lo ≤ hi
    → hi ≤ length s.psqi
    → delta_part s 1 lo hi ≡ slice s.psqi lo hi
unfolding delta_part
delta_part-slice s lo hi one le h =
    let size : (if ltb hi (1 + length s.psqi) then hi + 1 - 1 else length s.psqi) ≡ hi =
      ground (arith, h) in
    rw (le→ltb_false lo 1 one, size)

write_delta-changed :
    (a : Area) (uses n lo hi : ℕ) (s : Sqidxseg) (g : File)
    → 1 ≤ lo
    → lo ≤ hi
    → hi ≤ length s.psqi
    → lo ≤ 2 ^ 27
    → write_sqidx a.os.mem (slice s.psqi lo hi) (seek ((lo - 1) * sqidx_size) a.ifd) ≡ (true, g)
    → write_delta (changed uses n lo hi s a) ≡ (true, record (changed uses n lo hi s a) { ifd = g })
unfolding write_delta write_segs
write_delta-changed a uses n lo hi s g one le h small w =
    let short : leb (2 ^ 31) ((lo - 1) * sqidx_size) ≡ false = ground (arith, small) in
    let touched : (ltb lo (1 + length s.psqi) && leb 1 hi && true) ≡ true =
      ground (arith, one, le, h) in
    rw (short, delta_part-slice s lo hi one le h, touched, w)

cut_at-room :
    (lo hi k : ℕ) (a : Area)
    → 1 ≤ lo
    → lo ≤ hi
    → hi * sqidx_size ≤ a.ifd.room
    → k ≡ hi - (lo - 1)
    → (cut_at lo a).pos + k * sqidx_size ≤ (cut_at lo a).room
unfolding seek set_size
cut_at-room lo hi k a one le room e = omega (arith, one, le, room, e)

-- At the end of the last use of the buffer, with one segment of records and those from `lo` to
-- `hi` changed, where the disk has room for them, _SquishEndBuffer succeeds: the index file is cut
-- to the messages of the area, and the changed records are written at their places, every other
-- byte of it being kept; the index is no longer in memory.
pub squish_end_buffer-Wrote :
    (a : Area) (n lo hi : ℕ) (s : Sqidxseg)
    → 1 ≤ lo
    → lo ≤ hi
    → hi ≤ length s.psqi
    → lo ≤ 2 ^ 27
    → hi * sqidx_size ≤ a.ifd.room
    → (a' : Area) × (squish_end_buffer (changed 1 n lo hi s a) ≡ ok tt a')
      × Wrote (cut_at lo a) (slice s.psqi lo hi) a'.ifd
      × (a'.hix.f_buffer ≡ 0)
      × (a'.hix.segs ≡ [])
unfolding squish_end_buffer
squish_end_buffer-Wrote a n lo hi s one le h small room =
    let count = length-slice s.psqi lo hi one le h in
    let (g, w, v) =
      write_sqidx-Wrote a.os.mem (slice s.psqi lo hi) (cut_at lo a)
        (cut_at-room lo hi _ a one le room count) in
    let short = record a { ifd = set_size (a.num_msg * sqidx_size) a.ifd } in
    let d = write_delta-changed short 0 n lo hi s g one le h small w in
    (
      record (changed 0 n lo hi s a) {
        ifd = g;
        hix = record {
          allocated_records = n;
          delta_lo = some lo;
          delta_hi = some hi;
          f_buffer = 0;
          segs = [];
        };
      },
      ap released d,
      v,
      refl,
      refl,
    )
