-- ===== src/Squish/Xmsg/RoundTrip.antt =====
-- A message header, serialised and read back.
use mathlib.Core.Path.{ap₂}
use xmsgapi.Base.{
  All, List, [], ap, append-nil, arith, drop, drop-append, length, length-append, refl, sym, take,
  take-append, ℕ, ◌*◌, ◌++◌, ◌<◌, ◌∙◌, ◌∷◌, ◌≡◌,
}
use xmsgapi.Base.Word.{IsDword, IsWord}
use xmsgapi.Putword.{get_dword, get_word, put_dword, put_word}
use xmsgapi.Putword.RoundTrip.{get_dword-put_dword, get_word-put_word}
use xmsgapi.Squish.Xmsg.{
  Netaddr, Stamp, Xmsg, decode_netaddr, decode_stamp, decode_xmsg, encode_addrs, encode_last,
  encode_netaddr, encode_replies, encode_stamp, encode_xmsg, get_dwords, max_reply, put_dwords,
  raw_date, raw_time, stamp_of_raw, xmsg_size,
}

pub record FitsNetaddr (a : Netaddr) : Type 0 where
  pub zone : IsWord a.zone
  pub net : IsWord a.net
  pub node : IsWord a.node
  pub point : IsWord a.point

-- The widths of the bit fields.
pub record FitsStamp (s : Stamp) : Type 0 where
  pub da : s.da < 32
  pub mo : s.mo < 16
  pub yr : s.yr < 128
  pub ss : s.ss < 32
  pub mm : s.mm < 64
  pub hh : s.hh < 32

pub record FitsXmsg (x : Xmsg) : Type 0 where
  pub attr : IsDword x.attr
  pub from : length x.from ≡ 36
  pub to : length x.to ≡ 36
  pub subj : length x.subj ≡ 72
  pub orig : FitsNetaddr x.orig
  pub dest : FitsNetaddr x.dest
  pub date_written : FitsStamp x.date_written
  pub date_arrived : FitsStamp x.date_arrived
  pub utc_ofs : IsWord x.utc_ofs
  pub replyto : IsDword x.replyto
  pub replies_count : length x.replies ≡ max_reply
  pub replies : All IsDword x.replies
  pub umsgid : IsDword x.umsgid
  pub ftsc_date : length x.ftsc_date ≡ 20

pub decode-encode_netaddr :
    (a : Netaddr) (rest : List ℕ) → FitsNetaddr a → decode_netaddr (encode_netaddr a ++ rest) ≡ a
unfolding decode_netaddr encode_netaddr put_word get_word
decode-encode_netaddr a rest fits = ground arith

stamp_of_raw-raw : (s : Stamp) → FitsStamp s → stamp_of_raw (raw_date s) (raw_time s) ≡ s
unfolding stamp_of_raw raw_date raw_time
stamp_of_raw-raw s fits = ground arith

raw_fits : (s : Stamp) → IsWord (raw_date s) × IsWord (raw_time s)
unfolding raw_date raw_time
raw_fits s = (omega arith, omega arith)

pub decode-encode_stamp :
    (s : Stamp) (rest : List ℕ) → FitsStamp s → decode_stamp (encode_stamp s ++ rest) ≡ s
unfolding decode_stamp encode_stamp put_word
decode-encode_stamp s rest fits =
    ap₂ stamp_of_raw (get_word-put_word (raw_date s) (put_word (raw_time s) ++ rest) (raw_fits s).0)
      (get_word-put_word (raw_time s) rest (raw_fits s).1)
    ∙ stamp_of_raw-raw s fits

get_dwords-put_dwords :
    (rs : List ℕ) (rest : List ℕ)
    → All IsDword rs
    → get_dwords (length rs) (put_dwords rs ++ rest) ≡ rs
unfolding get_dwords put_dwords put_dword
get_dwords-put_dwords [] rest h = refl
get_dwords-put_dwords (r ∷ rs) rest (hr, h) =
    ap₂ (λ x xs. x ∷ xs) (get_dword-put_dword r (put_dwords rs ++ rest) hr)
      (get_dwords-put_dwords rs rest h)

length-put_dwords : (rs : List ℕ) → length (put_dwords rs) ≡ 4 * length rs
unfolding put_dwords put_dword
length-put_dwords [] = refl
length-put_dwords (r ∷ rs) = omega (arith, length-put_dwords rs)

module _ (x : Xmsg) (fits : FitsXmsg x) where
  behind_from : drop 36 (drop 4 (encode_xmsg x)) ≡ x.to ++ (x.subj ++ encode_addrs x)
  unfolding encode_xmsg put_dword
  behind_from = drop-append 36 x.from _ fits.from

  behind_to : drop 36 (drop 36 (drop 4 (encode_xmsg x))) ≡ x.subj ++ encode_addrs x
  behind_to = ap (drop 36) behind_from ∙ drop-append 36 x.to _ fits.to

  behind_subj : drop 72 (drop 36 (drop 36 (drop 4 (encode_xmsg x)))) ≡ encode_addrs x
  behind_subj = ap (drop 72) behind_to ∙ drop-append 72 x.subj _ fits.subj

  behind_addrs : drop 24 (encode_addrs x) ≡ encode_replies x
  unfolding encode_addrs encode_netaddr encode_stamp put_word
  behind_addrs = refl

  behind_replyto : drop 6 (encode_replies x) ≡ put_dwords x.replies ++ encode_last x
  unfolding encode_replies put_word put_dword
  behind_replyto = refl

  behind_replies : drop 36 (put_dwords x.replies ++ encode_last x) ≡ encode_last x
  behind_replies =
      drop-append 36 (put_dwords x.replies) _
        (omega (arith, length-put_dwords x.replies, fits.replies_count))

  at_replies : drop 24 (drop 72 (drop 36 (drop 36 (drop 4 (encode_xmsg x))))) ≡ encode_replies x
  at_replies = ap (drop 24) behind_subj ∙ behind_addrs

  at_last :
      drop 36 (drop 6 (drop 24 (drop 72 (drop 36 (drop 36 (drop 4 (encode_xmsg x)))))))
      ≡ encode_last x
  at_last = ap (λ p. drop 36 (drop 6 p)) at_replies ∙ ap (drop 36) behind_replyto ∙ behind_replies

  attr_read : get_dword (encode_xmsg x) ≡ x.attr
  unfolding encode_xmsg
  attr_read = get_dword-put_dword x.attr _ fits.attr

  from_read : take 36 (drop 4 (encode_xmsg x)) ≡ x.from
  unfolding encode_xmsg put_dword
  from_read = take-append 36 x.from _ fits.from

  orig_read : decode_netaddr (encode_addrs x) ≡ x.orig
  unfolding encode_addrs
  orig_read = decode-encode_netaddr x.orig _ fits.orig

  dest_read : decode_netaddr (drop 8 (encode_addrs x)) ≡ x.dest
  unfolding encode_addrs encode_netaddr put_word
  dest_read = decode-encode_netaddr x.dest _ fits.dest

  written_read : decode_stamp (drop 16 (encode_addrs x)) ≡ x.date_written
  unfolding encode_addrs encode_netaddr put_word
  written_read = decode-encode_stamp x.date_written _ fits.date_written

  arrived_read : decode_stamp (drop 20 (encode_addrs x)) ≡ x.date_arrived
  unfolding encode_addrs encode_netaddr encode_stamp put_word
  arrived_read = decode-encode_stamp x.date_arrived _ fits.date_arrived

  utc_read : get_word (encode_replies x) ≡ x.utc_ofs
  unfolding encode_replies
  utc_read = get_word-put_word x.utc_ofs _ fits.utc_ofs

  replyto_read : get_dword (drop 2 (encode_replies x)) ≡ x.replyto
  unfolding encode_replies put_word
  replyto_read = get_dword-put_dword x.replyto _ fits.replyto

  replies_read : get_dwords max_reply (put_dwords x.replies ++ encode_last x) ≡ x.replies
  replies_read =
      ap (λ n. get_dwords n (put_dwords x.replies ++ encode_last x)) (sym fits.replies_count)
      ∙ get_dwords-put_dwords x.replies (encode_last x) fits.replies

  umsgid_read : get_dword (encode_last x) ≡ x.umsgid
  unfolding encode_last
  umsgid_read = get_dword-put_dword x.umsgid x.ftsc_date fits.umsgid

  ftsc_read : take 20 (drop 4 (encode_last x)) ≡ x.ftsc_date
  unfolding encode_last put_dword
  ftsc_read =
      ap (take 20) (sym (append-nil x.ftsc_date)) ∙ take-append 20 x.ftsc_date [] fits.ftsc_date

  -- Reading back the 238 bytes of a message header whose fields fit gives that header.
  pub decode-encode_xmsg : decode_xmsg (encode_xmsg x) ≡ x
  unfolding decode_xmsg
  decode-encode_xmsg = λ i. record {
    attr = attr_read i;
    from = from_read i;
    to = (ap (take 36) behind_from ∙ take-append 36 x.to _ fits.to) i;
    subj = (ap (take 72) behind_to ∙ take-append 72 x.subj _ fits.subj) i;
    orig = (ap decode_netaddr behind_subj ∙ orig_read) i;
    dest = (ap (λ p. decode_netaddr (drop 8 p)) behind_subj ∙ dest_read) i;
    date_written = (ap (λ p. decode_stamp (drop 16 p)) behind_subj ∙ written_read) i;
    date_arrived = (ap (λ p. decode_stamp (drop 20 p)) behind_subj ∙ arrived_read) i;
    utc_ofs = (ap get_word at_replies ∙ utc_read) i;
    replyto = (ap (λ p. get_dword (drop 2 p)) at_replies ∙ replyto_read) i;
    replies =
        (ap (λ p. get_dwords max_reply (drop 6 p)) at_replies
            ∙ ap (get_dwords max_reply) behind_replyto
            ∙ replies_read)
          i;
    umsgid = (ap get_dword at_last ∙ umsgid_read) i;
    ftsc_date = (ap (λ p. take 20 (drop 4 p)) at_last ∙ ftsc_read) i;
  }

  -- The header takes 238 bytes.
  pub length-encode_xmsg : length (encode_xmsg x) ≡ xmsg_size
  unfolding encode_xmsg encode_addrs encode_replies encode_last encode_netaddr encode_stamp put_word
      put_dword
  length-encode_xmsg = omega (
    arith,
    fits.from,
    fits.to,
    fits.subj,
    fits.ftsc_date,
    fits.replies_count,
    length-put_dwords x.replies,
    length-append {0} x.from (x.to ++ (x.subj ++ encode_addrs x)),
    length-append {0} x.to (x.subj ++ encode_addrs x),
    length-append {0} x.subj (encode_addrs x),
    length-append {0} (put_dwords x.replies) (encode_last x),
  )
