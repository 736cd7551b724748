-- ===== src/Squish/Header.antt =====
-- The frame header of api_sq.h and its two serialisers in sq_help.c.
pub mod RoundTrip
use xmsgapi.Base.{Bool, List, Option, drop, if◌then◌else◌, length, none, some, ℕ, ◌++◌, ◌==◌}
use xmsgapi.File.{File, read, write}
use xmsgapi.Putword.{get_dword, get_word, put_dword, put_word}

-- `struct _sqhdr`. Offsets are `long`, all else is a `dword` or a `word`.
pub record Sqhdr : Type 0 where
  pub id : ℕ
  pub next_frame : ℕ
  pub prev_frame : ℕ
  pub frame_length : ℕ
  pub msg_length : ℕ
  pub clen : ℕ
  pub frame_type : ℕ
  pub rsvd : ℕ

abbrev pub sqhdr_id : ℕ
sqhdr_id = 0xafae4453

abbrev pub sqhdr_size : ℕ
sqhdr_size = 28

abbrev pub null_frame : ℕ
null_frame = 0

abbrev pub frame_normal : ℕ
frame_normal = 0

abbrev pub frame_free : ℕ
frame_free = 1

abbrev pub frame_update : ℕ
frame_update = 3

-- The fields of `buf`, `pbuf` being `buf` from the field on.
unfoldable pub decode_sqhdr : List ℕ → Sqhdr
decode_sqhdr buf = record {
  id = get_dword buf;
  next_frame = get_dword (drop 4 buf);
  prev_frame = get_dword (drop 8 buf);
  frame_length = get_dword (drop 12 buf);
  msg_length = get_dword (drop 16 buf);
  clen = get_dword (drop 20 buf);
  frame_type = get_word (drop 24 buf);
  rsvd = get_word (drop 26 buf);
}

unfoldable pub encode_sqhdr : Sqhdr → List ℕ
encode_sqhdr h =
    put_dword h.id
    ++ (put_dword h.next_frame
        ++ (put_dword h.prev_frame
            ++ (put_dword h.frame_length
                ++ (put_dword h.msg_length
                    ++ (put_dword h.clen ++ (put_word h.frame_type ++ put_word h.rsvd))))))

-- `none` is the return value 0: the file did not hold 28 bytes.
unfoldable pub read_sqhdr : File → Option Sqhdr × File
read_sqhdr f =
    let (buf, f') = read sqhdr_size f in
    (if length buf == sqhdr_size then some (decode_sqhdr buf) else none, f')

-- `write(...) == SQHDR_SIZE`.
unfoldable pub write_sqhdr : Sqhdr → File → Bool × File
write_sqhdr h f = let (n, f') = write (encode_sqhdr h) f in (n == sqhdr_size, f')
