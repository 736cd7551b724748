-- ===== src/Squish/Sqidx/RoundTrip.antt =====
-- A record of the index, serialised and read back.
use xmsgapi.Base.{List, arith, length, refl, ℕ, ◌++◌, ◌≡◌}
use xmsgapi.Base.Word.{IsDword}
use xmsgapi.Putword.{get_dword, put_dword}
use xmsgapi.Squish.Sqidx.{Sqidx, decode_sqidx, encode_sqidx, sqidx_size}

pub record FitsSqidx (r : Sqidx) : Type 0 where
  pub ofs : IsDword r.ofs
  pub umsgid : IsDword r.umsgid
  pub hash : IsDword r.hash

pub length-encode_sqidx : (r : Sqidx) → length (encode_sqidx r) ≡ sqidx_size
unfolding encode_sqidx put_dword
length-encode_sqidx r = refl

-- Reading back the 12 bytes of a record, whatever follows them.
pub decode-encode_sqidx :
    (r : Sqidx) (rest : List ℕ) → FitsSqidx r → decode_sqidx (encode_sqidx r ++ rest) ≡ r
unfolding decode_sqidx encode_sqidx put_dword get_dword
decode-encode_sqidx r rest fits = ground arith
