-- ===== src/Squish/Tests/Records.antt =====
-- Round trips of concrete records.
use mathlib.Core.List.{map}
use xmsgapi.Base.{List, [], arith, false, refl, replicate, some, true, ℕ, ◌++◌, ◌<◌, ◌^◌, ◌∷◌, ◌≡◌}
use xmsgapi.File.{File}
use xmsgapi.Squish.BaseHeader.{decode_sqbase, encode_sqbase, fill_base_header}
use xmsgapi.Squish.BaseHeader.RoundTrip.{FitsSqbase, decode-encode_sqbase}
use xmsgapi.Squish.Hash.{squish_hash, tolower}
use xmsgapi.Squish.Hash.Case.{squish_hash-tolower}
use xmsgapi.Squish.Header.{decode_sqhdr, encode_sqhdr}
use xmsgapi.Squish.Header.RoundTrip.{decode-encode_sqhdr}
use xmsgapi.Squish.Sqidx.{Sqidx, decode_sqidx, encode_sqidx, read_sqidx, write_sqidx}
use xmsgapi.Squish.Sqidx.Disk.{read_sqidx-write_sqidx}
use xmsgapi.Squish.Sqidx.RoundTrip.{decode-encode_sqidx}
use xmsgapi.Squish.Sqidx.Saved.{Wrote, write_sqidx-Wrote}
use xmsgapi.Squish.Tests.Sample.{message, record_of, sample}
use xmsgapi.Squish.Xmsg.{Netaddr, Stamp, Xmsg, decode_xmsg, encode_xmsg}
use xmsgapi.Squish.Xmsg.RoundTrip.{FitsXmsg, decode-encode_xmsg}

header_fits : FitsSqbase fill_base_header
unfolding fill_base_header
header_fits = record {
  len = omega arith;
  rsvd1 = omega arith;
  num_msg = omega arith;
  high_msg = omega arith;
  skip_msg = omega arith;
  high_water = omega arith;
  uid = omega arith;
  base = refl;
  begin_frame = omega arith;
  last_frame = omega arith;
  free_frame = omega arith;
  last_free_frame = omega arith;
  end_frame = omega arith;
  max_msg = omega arith;
  keep_days = omega arith;
  sz_sqhdr = omega arith;
  rsvd2 = refl;
}

base_example : decode_sqbase (encode_sqbase fill_base_header) ≡ fill_base_header
base_example = decode-encode_sqbase fill_base_header header_fits

hdr_example : decode_sqhdr (encode_sqhdr message) ≡ message
hdr_example = decode-encode_sqhdr message (omega arith)

sqidx_example : decode_sqidx (encode_sqidx (record_of 612 5) ++ (1 ∷ [])) ≡ record_of 612 5
sqidx_example = decode-encode_sqidx (record_of 612 5) (1 ∷ []) (omega arith)

abbrev pub address : ℕ → Netaddr
address node = record { zone = 2; net = 250; node = node; point = 0 }

abbrev pub noon : Stamp
noon = record { da = 26; mo = 11; yr = 46; ss = 0; mm = 0; hh = 12 }

abbrev pub letter : Xmsg
letter = record {
  attr = 1;
  from = replicate 36 65;
  to = replicate 36 66;
  subj = replicate 72 67;
  orig = address 1;
  dest = address 2;
  date_written = noon;
  date_arrived = noon;
  utc_ofs = 0;
  replyto = 0;
  replies = replicate 9 0;
  umsgid = 5;
  ftsc_date = replicate 20 0;
}

pub letter_fits : FitsXmsg letter
letter_fits = record {
  attr = omega arith;
  from = refl;
  to = refl;
  subj = refl;
  orig = omega arith;
  dest = omega arith;
  date_written = omega arith;
  date_arrived = omega arith;
  utc_ofs = omega arith;
  replyto = omega arith;
  replies_count = refl;
  replies = omega arith;
  umsgid = omega arith;
  ftsc_date = refl;
}

xmsg_example : decode_xmsg (encode_xmsg letter) ≡ letter
xmsg_example = decode-encode_xmsg letter letter_fits

-- "Ab" and "aB".
hash_example :
    (squish_hash (65 ∷ 98 ∷ 0 ∷ []) ≡ squish_hash (97 ∷ 66 ∷ 0 ∷ []))
    × (squish_hash (map tolower (65 ∷ 98 ∷ 0 ∷ [])) ≡ squish_hash (65 ∷ 98 ∷ 0 ∷ []))
    × (squish_hash (65 ∷ 98 ∷ 0 ∷ []) < 2 ^ 31)
hash_example = squish_hash-tolower (65 ∷ 98 ∷ 0 ∷ []) (97 ∷ 66 ∷ 0 ∷ []) (unfold tolower in refl)

abbrev three : List Sqidx
three = record_of 612 5 ∷ record_of 700 7 ∷ record_of 800 9 ∷ []

write_records_example :
    (g : File) × (write_sqidx true three (sample.ifd) ≡ (true, g)) × Wrote (sample.ifd) three g
write_records_example = write_sqidx-Wrote true three (sample.ifd) (omega arith)

read_back_example :
    (g : File) × (write_sqidx true three (sample.ifd) ≡ (true, g))
    × (read_sqidx false 3 (record g { pos = 0 }) ≡ (some three, g))
read_back_example =
    read_sqidx-write_sqidx true false three (sample.ifd) (omega arith) (omega arith) (omega arith)
