-- ===== src/Squish/BaseHeader.antt =====
-- The header of the data file: `struct _sqbase` with its serialisers in sq_help.c, and its
-- validation and first values in sq_area.c.
pub mod RoundTrip
use xmsgapi.Base.{
  Bool, List, Option, drop, if◌then◌else◌, leb, length, ltb, none, not, replicate, some, take, ℕ,
  ◌++◌, ◌==◌, ◌||◌,
}
use xmsgapi.Base.Word.{add32, slt}
use xmsgapi.File.{File, read, write}
use xmsgapi.Putword.{get_dword, get_word, put_dword, put_word}
use xmsgapi.Squish.Header.{sqhdr_size}

pub record Sqbase : Type 0 where
  pub len : ℕ
  pub rsvd1 : ℕ
  pub num_msg : ℕ
  pub high_msg : ℕ
  pub skip_msg : ℕ
  pub high_water : ℕ
  pub uid : ℕ
  pub base : List ℕ
  pub begin_frame : ℕ
  pub last_frame : ℕ
  pub free_frame : ℕ
  pub last_free_frame : ℕ
  pub end_frame : ℕ
  pub max_msg : ℕ
  pub keep_days : ℕ
  pub sz_sqhdr : ℕ
  pub rsvd2 : List ℕ

abbrev pub sqbase_size : ℕ
sqbase_size = 256

-- `pbuf` at the field `begin_frame`, behind the 80 bytes of `base`.
abbrev tail_of : List ℕ → List ℕ
tail_of buf = drop 80 (drop 24 buf)

unfoldable pub decode_sqbase : List ℕ → Sqbase
decode_sqbase buf = record {
  len = get_word buf;
  rsvd1 = get_word (drop 2 buf);
  num_msg = get_dword (drop 4 buf);
  high_msg = get_dword (drop 8 buf);
  skip_msg = get_dword (drop 12 buf);
  high_water = get_dword (drop 16 buf);
  uid = get_dword (drop 20 buf);
  base = take 80 (drop 24 buf);
  begin_frame = get_dword (tail_of buf);
  last_frame = get_dword (drop 4 (tail_of buf));
  free_frame = get_dword (drop 8 (tail_of buf));
  last_free_frame = get_dword (drop 12 (tail_of buf));
  end_frame = get_dword (drop 16 (tail_of buf));
  max_msg = get_dword (drop 20 (tail_of buf));
  keep_days = get_word (drop 24 (tail_of buf));
  sz_sqhdr = get_word (drop 26 (tail_of buf));
  rsvd2 = take 124 (drop 28 (tail_of buf));
}

-- The 28 bytes from `begin_frame` to `sz_sqhdr`.
unfoldable pub encode_frames : Sqbase → List ℕ
encode_frames b =
    put_dword b.begin_frame
    ++ (put_dword b.last_frame
        ++ (put_dword b.free_frame
            ++ (put_dword b.last_free_frame
                ++ (put_dword b.end_frame
                    ++ (put_dword b.max_msg ++ (put_word b.keep_days ++ put_word b.sz_sqhdr))))))

-- The 24 bytes from `len` to `uid`.
unfoldable pub encode_counts : Sqbase → List ℕ
encode_counts b =
    put_word b.len
    ++ (put_word b.rsvd1
        ++ (put_dword b.num_msg
            ++ (put_dword b.high_msg
                ++ (put_dword b.skip_msg ++ (put_dword b.high_water ++ put_dword b.uid)))))

unfoldable pub encode_sqbase : Sqbase → List ℕ
encode_sqbase b = encode_counts b ++ (b.base ++ (encode_frames b ++ b.rsvd2))

unfoldable pub read_sqbase : File → Option Sqbase × File
read_sqbase f =
    let (buf, f') = read sqbase_size f in
    (if length buf == sqbase_size then some (decode_sqbase buf) else none, f')

unfoldable pub write_sqbase : Sqbase → File → Bool × File
write_sqbase b f = let (n, f') = write (encode_sqbase b) f in (n == sqbase_size, f')

-- _SquishFillBaseHeader: a header of zeros, but for these four fields.
unfoldable pub fill_base_header : Sqbase
fill_base_header = record {
  len = sqbase_size;
  rsvd1 = 0;
  num_msg = 0;
  high_msg = 0;
  skip_msg = 0;
  high_water = 0;
  uid = 1;
  base = replicate 80 0;
  begin_frame = 0;
  last_frame = 0;
  free_frame = 0;
  last_free_frame = 0;
  end_frame = sqbase_size;
  max_msg = 0;
  keep_days = 0;
  sz_sqhdr = sqhdr_size;
  rsvd2 = replicate 124 0;
}

-- The test of _SquishValidateBaseHeader, whose offsets are signed; true where the code goes on
-- with MERR_BADF.
unfoldable pub base_is_bad : Sqbase → Bool
base_is_bad b =
    ltb b.high_msg b.num_msg
    || ltb (add32 b.uid 1) b.num_msg
    || ltb (add32 b.uid 1) b.high_msg
    || ltb 1000000 b.num_msg
    || not (b.num_msg == b.high_msg)
    || ltb b.len sqbase_size
    || leb 1024 b.len
    || slt b.end_frame b.begin_frame
    || slt b.end_frame b.last_frame
    || slt b.end_frame b.free_frame
    || slt b.end_frame b.last_free_frame
    || b.end_frame == 0
