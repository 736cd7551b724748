-- ===== src/Squish/Read/Laws.antt =====
-- Seeks and reads of the parts of a message that the data file has.
use xmsgapi.Base.{
  ==→eq, Bool-cases, arith, eq→==, inl, inr, lt→leb_false, refl, ℕ, ◌+◌, ◌<◌, ◌==◌, ◌^◌, ◌∙◌, ◌≡◌,
  ◌≤◌,
}
use xmsgapi.Base.Cmd.{ok}
use xmsgapi.File.{seek, window}
use xmsgapi.File.Laws.{length-window, read_all}
use xmsgapi.Squish.Area.{Area, Merr}
use xmsgapi.Squish.Read.{get_bytes, get_xmsg, seek_unless_there}
use xmsgapi.Squish.Xmsg.{Xmsg, encode_xmsg, read_xmsg, xmsg_size}
use xmsgapi.Squish.Xmsg.RoundTrip.{FitsXmsg, decode-encode_xmsg, length-encode_xmsg}

-- The file at `ofs`.
abbrev pub at_ofs : ℕ → Area → Area
at_ofs ofs a = record a { sfd = record (a.sfd) { pos = ofs } }

-- The position is known where the seek is left out.
abbrev pub Known : ℕ → Area → Type 0
Known dw_ofs a = dw_ofs < 2 ^ 31 → a.sfd.pos ≡ dw_ofs

pub seek_unless_there-ok :
    (e : Merr) (dw_ofs ofs : ℕ) (a : Area)
    → Known dw_ofs a
    → ofs < 2 ^ 31
    → seek_unless_there e dw_ofs ofs a ≡ ok tt (at_ofs ofs a)
unfolding seek
seek_unless_there-ok e dw_ofs ofs a known small = elim (Bool-cases (dw_ofs == ofs)) [
  | inl same ↦
      let there : a.sfd.pos ≡ ofs = known (ground arith) ∙ ==→eq dw_ofs ofs same in
      rw same (λ i. ok tt (at_ofs (there i) a))
  | inr other ↦ rw (other, lt→leb_false (2 ^ 31) ofs small)
]

pub get_bytes-ok :
    (n : ℕ) (a : Area)
    → a.sfd.pos + n ≤ a.sfd.size
    → get_bytes n a ≡ ok (window a.sfd.bytes a.sfd.pos n) (at_ofs (a.sfd.pos + n) a)
unfolding get_bytes
get_bytes-ok n a inside =
    rw (read_all n a.sfd inside, length-window a.sfd.bytes a.sfd.pos n, eq→== n n refl)

pub get_xmsg-ok :
    (a : Area) (x : Xmsg)
    → FitsXmsg x
    → a.sfd.pos + xmsg_size ≤ a.sfd.size
    → window a.sfd.bytes a.sfd.pos xmsg_size ≡ encode_xmsg x
    → get_xmsg a ≡ ok x (at_ofs (a.sfd.pos + xmsg_size) a)
unfolding get_xmsg read_xmsg
get_xmsg-ok a x fits inside stored =
    rw (
      read_all xmsg_size a.sfd inside,
      stored,
      length-encode_xmsg x fits,
      decode-encode_xmsg x fits,
    )
