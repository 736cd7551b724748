-- ===== src/Squish/Sqidx/Disk.antt =====
-- write_sqidx of sq_idx.c and then read_sqidx.
use mathlib.Core.Path.{ap₂}
use xmsgapi.Base.{
  All, Bool, List, [], ap, drop-append, length, refl, some, sym, true, ◌*◌, ◌+◌, ◌∙◌, ◌∷◌, ◌≡◌, ◌≤◌,
}
use xmsgapi.File.{File}
use xmsgapi.Squish.Sqidx.{
  Sqidx, decode_sqidxs, encode_sqidx, encode_sqidxs, read_sqidx, sqidx_size, write_sqidx,
}
use xmsgapi.Squish.Sqidx.Buffer.{
  decode_sqidxs-window, read_singly-all, read_sqidx-read_singly, records_at,
}
use xmsgapi.Squish.Sqidx.RoundTrip.{FitsSqidx, decode-encode_sqidx, length-encode_sqidx}
use xmsgapi.Squish.Sqidx.Saved.{write_sqidx-Wrote}

decode_sqidxs-encode_sqidxs :
    (rs : List Sqidx) → All FitsSqidx rs → decode_sqidxs (length rs) (encode_sqidxs rs) ≡ rs
unfolding decode_sqidxs encode_sqidxs
decode_sqidxs-encode_sqidxs [] fits = refl
decode_sqidxs-encode_sqidxs (r ∷ rs) (fit, fits) =
    ap₂ (λ s ss. s ∷ ss) (decode-encode_sqidx r (encode_sqidxs rs) fit)
      (ap (decode_sqidxs (length rs))
          (drop-append 12 (encode_sqidx r) (encode_sqidxs rs) (length-encode_sqidx r))
        ∙ decode_sqidxs-encode_sqidxs rs fits)

-- Where the disk has room for records whose fields fit, write_sqidx succeeds, and read_sqidx from
-- the same position gives back the records and ends where the writing ended; each of the two may
-- have its buffer or not.
pub read_sqidx-write_sqidx :
    (mem mem' : Bool) (rs : List Sqidx) (f : File)
    → All FitsSqidx rs
    → 1 ≤ length rs
    → f.pos + length rs * sqidx_size ≤ f.room
    → (g : File) × (write_sqidx mem rs f ≡ (true, g))
      × (read_sqidx mem' (length rs) (record g { pos = f.pos }) ≡ (some rs, g))
read_sqidx-write_sqidx mem mem' rs f fits some_records h =
    let n = length rs in
    let (g, w, v) = write_sqidx-Wrote mem rs f h in
    let there : records_at g.bytes f.pos n ≡ rs =
      sym (decode_sqidxs-window g.bytes f.pos n (n * sqidx_size) refl)
      ∙ (ap (decode_sqidxs n) v.inside ∙ decode_sqidxs-encode_sqidxs rs fits) in
    let start = record g { pos = f.pos } in
    (
      g,
      w,
      read_sqidx-read_singly mem' n start (v.holds some_records)
          ∙ (read_singly-all n start (v.holds some_records)
              ∙ (λ i. (some (there i), record g { pos = sym v.pos i }))),
    )
