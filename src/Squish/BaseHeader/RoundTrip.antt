-- ===== src/Squish/BaseHeader/RoundTrip.antt =====
-- The header of the data file, serialised and read back.
use xmsgapi.Base.{
  List, [], ap, append-nil, arith, drop, drop-append, length, length-append, sym, take, take-append,
  ℕ, ◌++◌, ◌∙◌, ◌≡◌,
}
use xmsgapi.Base.Word.{IsDword, IsWord}
use xmsgapi.Putword.{get_dword, get_word, put_dword, put_word}
use xmsgapi.Squish.BaseHeader.{
  Sqbase, decode_sqbase, encode_counts, encode_frames, encode_sqbase, sqbase_size,
}

pub record FitsSqbase (b : Sqbase) : Type 0 where
  pub len : IsWord b.len
  pub rsvd1 : IsWord b.rsvd1
  pub num_msg : IsDword b.num_msg
  pub high_msg : IsDword b.high_msg
  pub skip_msg : IsDword b.skip_msg
  pub high_water : IsDword b.high_water
  pub uid : IsDword b.uid
  pub base : length b.base ≡ 80
  pub begin_frame : IsDword b.begin_frame
  pub last_frame : IsDword b.last_frame
  pub free_frame : IsDword b.free_frame
  pub last_free_frame : IsDword b.last_free_frame
  pub end_frame : IsDword b.end_frame
  pub max_msg : IsDword b.max_msg
  pub keep_days : IsWord b.keep_days
  pub sz_sqhdr : IsWord b.sz_sqhdr
  pub rsvd2 : length b.rsvd2 ≡ 124

-- The counts, whatever stands behind them.
record CountsRead (b : Sqbase) (rest : List ℕ) : Type 0 where
  len : get_word (encode_counts b ++ rest) ≡ b.len
  rsvd1 : get_word (drop 2 (encode_counts b ++ rest)) ≡ b.rsvd1
  num_msg : get_dword (drop 4 (encode_counts b ++ rest)) ≡ b.num_msg
  high_msg : get_dword (drop 8 (encode_counts b ++ rest)) ≡ b.high_msg
  skip_msg : get_dword (drop 12 (encode_counts b ++ rest)) ≡ b.skip_msg
  high_water : get_dword (drop 16 (encode_counts b ++ rest)) ≡ b.high_water
  uid : get_dword (drop 20 (encode_counts b ++ rest)) ≡ b.uid

counts_read : (b : Sqbase) (rest : List ℕ) → FitsSqbase b → CountsRead b rest
unfolding encode_counts put_dword put_word get_dword get_word
counts_read b rest fits = ground arith

record FramesRead (b : Sqbase) (rest : List ℕ) : Type 0 where
  begin_frame : get_dword (encode_frames b ++ rest) ≡ b.begin_frame
  last_frame : get_dword (drop 4 (encode_frames b ++ rest)) ≡ b.last_frame
  free_frame : get_dword (drop 8 (encode_frames b ++ rest)) ≡ b.free_frame
  last_free_frame : get_dword (drop 12 (encode_frames b ++ rest)) ≡ b.last_free_frame
  end_frame : get_dword (drop 16 (encode_frames b ++ rest)) ≡ b.end_frame
  max_msg : get_dword (drop 20 (encode_frames b ++ rest)) ≡ b.max_msg
  keep_days : get_word (drop 24 (encode_frames b ++ rest)) ≡ b.keep_days
  sz_sqhdr : get_word (drop 26 (encode_frames b ++ rest)) ≡ b.sz_sqhdr

frames_read : (b : Sqbase) (rest : List ℕ) → FitsSqbase b → FramesRead b rest
unfolding encode_frames put_dword put_word get_dword get_word
frames_read b rest fits = ground arith

-- Behind the counts and behind the name.
base_at : (b : Sqbase) → FitsSqbase b → take 80 (drop 24 (encode_sqbase b)) ≡ b.base
unfolding encode_sqbase encode_counts put_dword put_word
base_at b fits = take-append 80 b.base _ fits.base

tail_at :
    (b : Sqbase) → FitsSqbase b → drop 80 (drop 24 (encode_sqbase b)) ≡ encode_frames b ++ b.rsvd2
unfolding encode_sqbase encode_counts put_dword put_word
tail_at b fits = drop-append 80 b.base _ fits.base

rsvd2_at : (b : Sqbase) → FitsSqbase b → take 124 (drop 28 (encode_frames b ++ b.rsvd2)) ≡ b.rsvd2
unfolding encode_frames put_dword put_word
rsvd2_at b fits =
    rw (← append-nil b.rsvd2) (take-append 124 b.rsvd2 [] fits.rsvd2 ∙ sym (append-nil b.rsvd2))

pub length-encode_sqbase : (b : Sqbase) → FitsSqbase b → length (encode_sqbase b) ≡ sqbase_size
unfolding encode_sqbase encode_counts encode_frames put_dword put_word
length-encode_sqbase b fits = omega (
  arith,
  fits.base,
  fits.rsvd2,
  length-append {0} b.base (encode_frames b ++ b.rsvd2),
  length-append {0} (encode_frames b) b.rsvd2,
)

-- Reading back the 256 bytes of a header whose fields fit gives that header.
pub decode-encode_sqbase : (b : Sqbase) → FitsSqbase b → decode_sqbase (encode_sqbase b) ≡ b
unfolding decode_sqbase encode_sqbase
decode-encode_sqbase b fits = λ i. record {
  len = c.len i;
  rsvd1 = c.rsvd1 i;
  num_msg = c.num_msg i;
  high_msg = c.high_msg i;
  skip_msg = c.skip_msg i;
  high_water = c.high_water i;
  uid = c.uid i;
  base = base_at b fits i;
  begin_frame = (ap get_dword t ∙ f.begin_frame) i;
  last_frame = (ap (λ p. get_dword (drop 4 p)) t ∙ f.last_frame) i;
  free_frame = (ap (λ p. get_dword (drop 8 p)) t ∙ f.free_frame) i;
  last_free_frame = (ap (λ p. get_dword (drop 12 p)) t ∙ f.last_free_frame) i;
  end_frame = (ap (λ p. get_dword (drop 16 p)) t ∙ f.end_frame) i;
  max_msg = (ap (λ p. get_dword (drop 20 p)) t ∙ f.max_msg) i;
  keep_days = (ap (λ p. get_word (drop 24 p)) t ∙ f.keep_days) i;
  sz_sqhdr = (ap (λ p. get_word (drop 26 p)) t ∙ f.sz_sqhdr) i;
  rsvd2 = (ap (λ p. take 124 (drop 28 p)) t ∙ rsvd2_at b fits) i;
}
  where
    c : CountsRead b (b.base ++ (encode_frames b ++ b.rsvd2))
    c = counts_read b _ fits

    f : FramesRead b b.rsvd2
    f = frames_read b _ fits

    t : drop 80 (drop 24 (encode_sqbase b)) ≡ encode_frames b ++ b.rsvd2
    t = tail_at b fits
