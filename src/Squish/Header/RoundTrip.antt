-- ===== src/Squish/Header/RoundTrip.antt =====
-- A frame header, serialised and read back.
use xmsgapi.Base.{arith, length, refl, ◌≡◌}
use xmsgapi.Base.Word.{IsDword, IsWord}
use xmsgapi.Putword.{get_dword, get_word, put_dword, put_word}
use xmsgapi.Squish.Header.{Sqhdr, decode_sqhdr, encode_sqhdr, sqhdr_size}

-- Every field fits its width on disk.
pub record FitsSqhdr (h : Sqhdr) : Type 0 where
  pub id : IsDword h.id
  pub next_frame : IsDword h.next_frame
  pub prev_frame : IsDword h.prev_frame
  pub frame_length : IsDword h.frame_length
  pub msg_length : IsDword h.msg_length
  pub clen : IsDword h.clen
  pub frame_type : IsWord h.frame_type
  pub rsvd : IsWord h.rsvd

pub length-encode_sqhdr : (h : Sqhdr) → length (encode_sqhdr h) ≡ sqhdr_size
unfolding encode_sqhdr put_dword put_word
length-encode_sqhdr h = refl

-- Reading back the 28 bytes of a header whose fields fit gives that header.
pub decode-encode_sqhdr : (h : Sqhdr) → FitsSqhdr h → decode_sqhdr (encode_sqhdr h) ≡ h
unfolding decode_sqhdr encode_sqhdr put_dword put_word get_dword get_word
decode-encode_sqhdr h fits = ground arith
