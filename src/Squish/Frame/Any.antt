-- ===== src/Squish/Frame/Any.antt =====
-- Reading a frame header from any file, sound or not.
use native.Mathlib.Decide.{dec_le}
use xmsgapi.Base.{
  Bool-cases, arith, inl, inr, length, ne→==, none, not, some, ℕ, ◌+◌, ◌-◌, ◌<◌, ◌==◌, ◌≡◌, ◌≢◌,
  ◌≤◌, ◌⊎◌,
}
use xmsgapi.Base.Cmd.{fail, ok}
use xmsgapi.Base.Word.{slt}
use xmsgapi.File.{File, available, read, seek, window}
use xmsgapi.File.Laws.{length-window, read_all}
use xmsgapi.Squish.Area.{Area, bada, badf, set_err}
use xmsgapi.Squish.BaseHeader.{sqbase_size}
use xmsgapi.Squish.Frame.{squish_read_hdr}
use xmsgapi.Squish.Frame.Heap.{past}
use xmsgapi.Squish.Header.{Sqhdr, decode_sqhdr, read_sqhdr, sqhdr_id, sqhdr_size}

-- The header whose bytes stand at `fo`.
abbrev pub raw_hdr : (ℕ → ℕ) → ℕ → Sqhdr
raw_hdr b fo = decode_sqhdr (window b fo sqhdr_size)

short_window : (f : File) → f.size < f.pos + sqhdr_size → length (read sqhdr_size f).0 ≢ sqhdr_size
unfolding read available
short_window f h = ground (arith, length-window f.bytes f.pos (f.size - f.pos))

read_sqhdr_cases :
    (f : File)
    → ((read_sqhdr f).0 ≡ none)
      ⊎ (read_sqhdr f ≡ (some (raw_hdr f.bytes f.pos), record f { pos = f.pos + sqhdr_size }))
unfolding read_sqhdr
read_sqhdr_cases f = elim (dec_le (f.pos + sqhdr_size) f.size) [
  | yes fits ↦ inr (rw (read_all sqhdr_size f fits, length-window f.bytes f.pos sqhdr_size))
  | no short ↦ inl (rw (ne→== _ sqhdr_size (short_window f (omega arith))))
]

-- The read fails, or it gives the header of the bytes there, at an offset behind the base header
-- and before the end, and moves the position only.
pub record ReadsRaw (a : Area) (fo : ℕ) : Type 0 where
  pub base : sqbase_size ≤ fo
  pub below : fo < a.fo_end
  pub gives : squish_read_hdr fo a ≡ ok (raw_hdr a.sfd.bytes fo) (past fo a)

pub squish_read_hdr-cases :
    (a : Area) (fo : ℕ) → ((a' : Area) × (squish_read_hdr fo a ≡ fail a')) ⊎ ReadsRaw a fo
unfolding squish_read_hdr seek
squish_read_hdr-cases a fo = elim (Bool-cases (slt fo sqbase_size)) [
  | inl low ↦ inl (set_err bada a, rw low)
  | inr base ↦ elim (Bool-cases (not (slt fo a.fo_end))) [
    | inl high ↦ inl (set_err badf a, rw (base, high))
    | inr below ↦ elim (read_sqhdr_cases (record (a.sfd) { pos = fo })) [
      | inl none_read ↦ inl (
        set_err badf (record a { sfd = (read_sqhdr (record (a.sfd) { pos = fo })).1 }),
        rw (base, below, none_read),
      )
      | inr got ↦ elim (Bool-cases ((raw_hdr a.sfd.bytes fo).id == sqhdr_id)) [
        | inl good ↦ inr (record {
          base = ground arith;
          below = ground arith;
          gives = rw (base, below, got, good);
        })
        | inr bad ↦ inl (set_err badf (past fo a), rw (base, below, got, bad))
      ]
    ]
  ]
]
