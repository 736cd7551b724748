-- ===== src/Squish/Sqidx.antt =====
-- A record of the index file: `struct _sqidx` and its serialisers in sq_idx.c.
pub mod RoundTrip
pub mod Buffer
pub mod Saved
pub mod Disk
use mathlib.Core.Option
use xmsgapi.Base.{
  Bool, List, Option, [], drop, false, if◌then◌else◌, leb, length, ltb, none, some, suc, take, true,
  zero, ℕ, ◌%◌, ◌&&◌, ◌*◌, ◌++◌, ◌-◌, ◌/◌, ◌==◌, ◌∷◌,
}
use xmsgapi.Base.Word.{dword_mod}
use xmsgapi.File.{File, read, write}
use xmsgapi.Putword.{get_dword, put_dword}

pub record Sqidx : Type 0 where
  pub ofs : ℕ
  pub umsgid : ℕ
  pub hash : ℕ

abbrev pub sqidx_size : ℕ
sqidx_size = 12

-- The record between "begin" and "stop reading in a single structure".
unfoldable pub decode_sqidx : List ℕ → Sqidx
decode_sqidx pbuf = record {
  ofs = get_dword pbuf;
  umsgid = get_dword (drop 4 pbuf);
  hash = get_dword (drop 8 pbuf);
}

unfoldable pub encode_sqidx : Sqidx → List ℕ
encode_sqidx r = put_dword r.ofs ++ (put_dword r.umsgid ++ put_dword r.hash)

-- `malloc(SQIDX_SIZE * maxbuf)` holds this many records.
abbrev pub max_buffer : ℕ → ℕ
max_buffer n = if leb 32768 (sqidx_size * n % dword_mod) then 32768 / sqidx_size else n

-- The records of one filled buffer, `n` of them from `pbuf` on.
unfoldable pub decode_sqidxs : ℕ → List ℕ → List Sqidx
decode_sqidxs zero pbuf = []
decode_sqidxs (suc n) pbuf = decode_sqidx pbuf ∷ decode_sqidxs n (drop 12 pbuf)

-- The loop of read_sqidx by buffers of at most `maxbuf` records; `n` are left to read. A round of
-- the fuel is a buffer.
unfoldable pub read_chunks : ℕ → ℕ → ℕ → File → Option (List Sqidx) × File
read_chunks zero maxbuf n f = (none, f)
read_chunks (suc fuel) maxbuf n f =
    let rd = if ltb n maxbuf then n else maxbuf in
    let (buf, f') = read (rd * sqidx_size) f in
    let (rest, f'') = read_chunks fuel maxbuf (n - rd) f' in
    if n == 0
    then (some [], f)
    else (if length buf == rd * sqidx_size
        then (Option.map (λ rs. decode_sqidxs rd buf ++ rs) rest, f'')
        else (none, f'))

-- The loop without the buffer: one `read` for each record.
unfoldable pub read_singly : ℕ → File → Option (List Sqidx) × File
read_singly zero f = (some [], f)
read_singly (suc n) f =
    let (buf, f') = read sqidx_size f in
    let (rest, f'') = read_singly n f' in
    if length buf == sqidx_size
    then (Option.map (λ rs. decode_sqidx buf ∷ rs) rest, f'')
    else (none, f')

-- `mem` says whether `malloc` gives the buffer; without it the records are read one by one.
unfoldable pub read_sqidx : Bool → ℕ → File → Option (List Sqidx) × File
read_sqidx mem n f =
    if ltb 1 n && mem then read_chunks (suc n) (max_buffer n) n f else read_singly n f

unfoldable pub encode_sqidxs : List Sqidx → List ℕ
encode_sqidxs [] = []
encode_sqidxs (r ∷ rs) = encode_sqidx r ++ encode_sqidxs rs

-- The loop of write_sqidx with a buffer of `maxbuf` records: each full buffer and the last one go
-- out by a `write`.
unfoldable pub write_chunks : ℕ → ℕ → List Sqidx → File → Bool × File
write_chunks zero maxbuf rs f = (false, f)
write_chunks (suc fuel) maxbuf rs f =
    let n = length rs in
    let wr = if ltb n maxbuf then n else maxbuf in
    let (put, f') = write (encode_sqidxs (take wr rs)) f in
    let rest = write_chunks fuel maxbuf (drop wr rs) f' in
    if n == 0 then (true, f) else if put == wr * sqidx_size then rest else (false, f')

unfoldable pub write_singly : List Sqidx → File → Bool × File
write_singly [] f = (true, f)
write_singly (r ∷ rs) f =
    let (put, f') = write (encode_sqidx r) f in
    let rest = write_singly rs f' in if put == sqidx_size then rest else (false, f')

unfoldable pub write_sqidx : Bool → List Sqidx → File → Bool × File
write_sqidx mem rs f =
    let n = length rs in
    if ltb 1 n && mem then write_chunks (suc n) (max_buffer n) rs f else write_singly rs f
