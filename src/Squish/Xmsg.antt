-- ===== src/Squish/Xmsg.antt =====
-- The message header `struct _xmsg` of msgapi.h as it stands in a Squish frame: write_xmsg of
-- sq_write.c and read_xmsg of sq_read.c.
pub mod RoundTrip
use xmsgapi.Base.{
  Bool, List, Option, [], drop, if◌then◌else◌, length, none, some, suc, take, zero, ℕ, ◌%◌, ◌*◌,
  ◌++◌, ◌+◌, ◌/◌, ◌==◌, ◌^◌, ◌∷◌,
}
use xmsgapi.File.{File, read, write}
use xmsgapi.Putword.{get_dword, get_word, put_dword, put_word}

-- `struct _netaddr`.
pub record Netaddr : Type 0 where
  pub zone : ℕ
  pub net : ℕ
  pub node : ℕ
  pub point : ℕ

-- `struct _stamp`: a day, month and year from 1980, and seconds by two, minutes and hours.
pub record Stamp : Type 0 where
  pub da : ℕ
  pub mo : ℕ
  pub yr : ℕ
  pub ss : ℕ
  pub mm : ℕ
  pub hh : ℕ

-- `utc_ofs`, a signed word, is its bit pattern.
pub record Xmsg : Type 0 where
  pub attr : ℕ
  pub from : List ℕ
  pub to : List ℕ
  pub subj : List ℕ
  pub orig : Netaddr
  pub dest : Netaddr
  pub date_written : Stamp
  pub date_arrived : Stamp
  pub utc_ofs : ℕ
  pub replyto : ℕ
  pub replies : List ℕ
  pub umsgid : ℕ
  pub ftsc_date : List ℕ

abbrev pub max_reply : ℕ
max_reply = 9

abbrev pub xmsg_size : ℕ
xmsg_size = 94 + 36 + 36 + 72

unfoldable pub encode_netaddr : Netaddr → List ℕ
encode_netaddr a = put_word a.zone ++ (put_word a.net ++ (put_word a.node ++ put_word a.point))

unfoldable pub decode_netaddr : List ℕ → Netaddr
decode_netaddr p = record {
  zone = get_word p;
  net = get_word (drop 2 p);
  node = get_word (drop 4 p);
  point = get_word (drop 6 p);
}

-- `rawdate` and `rawtime`: the fields are masked and stand in disjoint bits, so `|` is `+`.
unfoldable pub raw_date : Stamp → ℕ
raw_date s = s.da % 32 + s.mo % 16 * 2 ^ 5 + s.yr % 128 * 2 ^ 9

unfoldable pub raw_time : Stamp → ℕ
raw_time s = s.ss % 32 + s.mm % 64 * 2 ^ 5 + s.hh % 32 * 2 ^ 11

unfoldable pub encode_stamp : Stamp → List ℕ
encode_stamp s = put_word (raw_date s) ++ put_word (raw_time s)

unfoldable pub stamp_of_raw : ℕ → ℕ → Stamp
stamp_of_raw rawdate rawtime = record {
  da = rawdate % 32;
  mo = rawdate / 2 ^ 5 % 16;
  yr = rawdate / 2 ^ 9 % 128;
  ss = rawtime % 32;
  mm = rawtime / 2 ^ 5 % 64;
  hh = rawtime / 2 ^ 11 % 32;
}

unfoldable pub decode_stamp : List ℕ → Stamp
decode_stamp p = stamp_of_raw (get_word p) (get_word (drop 2 p))

-- `for (i = 0; i < MAX_REPLY; i++) put_dword(pbuf, replies[i])`, and its counterpart.
unfoldable pub put_dwords : List ℕ → List ℕ
put_dwords [] = []
put_dwords (r ∷ rs) = put_dword r ++ put_dwords rs

unfoldable pub get_dwords : ℕ → List ℕ → List ℕ
get_dwords zero p = []
get_dwords (suc n) p = get_dword p ∷ get_dwords n (drop 4 p)

-- From `umsgid` back to `subj`, each piece with what follows it.
unfoldable pub encode_last : Xmsg → List ℕ
encode_last x = put_dword x.umsgid ++ x.ftsc_date

unfoldable pub encode_replies : Xmsg → List ℕ
encode_replies x =
    put_word x.utc_ofs ++ (put_dword x.replyto ++ (put_dwords x.replies ++ encode_last x))

unfoldable pub encode_addrs : Xmsg → List ℕ
encode_addrs x =
    encode_netaddr x.orig
    ++ (encode_netaddr x.dest
        ++ (encode_stamp x.date_written ++ (encode_stamp x.date_arrived ++ encode_replies x)))

unfoldable pub encode_xmsg : Xmsg → List ℕ
encode_xmsg x = put_dword x.attr ++ (x.from ++ (x.to ++ (x.subj ++ encode_addrs x)))

-- `pbuf` behind the three texts, and behind the replies.
abbrev addrs_of : List ℕ → List ℕ
addrs_of buf = drop 72 (drop 36 (drop 36 (drop 4 buf)))

abbrev replies_of : List ℕ → List ℕ
replies_of buf = drop 24 (addrs_of buf)

abbrev last_of : List ℕ → List ℕ
last_of buf = drop 36 (drop 6 (replies_of buf))

unfoldable pub decode_xmsg : List ℕ → Xmsg
decode_xmsg buf = record {
  attr = get_dword buf;
  from = take 36 (drop 4 buf);
  to = take 36 (drop 36 (drop 4 buf));
  subj = take 72 (drop 36 (drop 36 (drop 4 buf)));
  orig = decode_netaddr (addrs_of buf);
  dest = decode_netaddr (drop 8 (addrs_of buf));
  date_written = decode_stamp (drop 16 (addrs_of buf));
  date_arrived = decode_stamp (drop 20 (addrs_of buf));
  utc_ofs = get_word (replies_of buf);
  replyto = get_dword (drop 2 (replies_of buf));
  replies = get_dwords max_reply (drop 6 (replies_of buf));
  umsgid = get_dword (last_of buf);
  ftsc_date = take 20 (drop 4 (last_of buf));
}

unfoldable pub read_xmsg : File → Option Xmsg × File
read_xmsg f =
    let (buf, f') = read xmsg_size f in
    (if length buf == xmsg_size then some (decode_xmsg buf) else none, f')

unfoldable pub write_xmsg : Xmsg → File → Bool × File
write_xmsg x f = let (n, f') = write (encode_xmsg x) f in (n == xmsg_size, f')
