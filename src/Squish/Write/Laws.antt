-- ===== src/Squish/Write/Laws.antt =====
-- Writes over bytes that the data file has.
use xmsgapi.Base.{
  List, [], ap, arith, eq→==, inl, inr, length, refl, true, ℕ, ◌+◌, ◌<◌, ◌==◌, ◌∙◌, ◌∷◌, ◌≡◌, ◌≤◌,
  ◌⊎◌,
}
use xmsgapi.Base.Cmd.{ok}
use xmsgapi.File.{File, accepted, overlay, window, write}
use xmsgapi.File.Laws.{window-overlay_self, window_ext, write_within}
use xmsgapi.Squish.Area.{Area}
use xmsgapi.Squish.Write.{put_bytes, put_xmsg}
use xmsgapi.Squish.Xmsg.{Xmsg, encode_xmsg, write_xmsg, xmsg_size}
use xmsgapi.Squish.Xmsg.RoundTrip.{FitsXmsg, length-encode_xmsg}

-- `g` is the file `f` with `d` at offset `p`.
pub record Laid (f : File) (p : ℕ) (d : List ℕ) (g : File) : Type 0 where
  pub size : g.size ≡ f.size
  pub room : g.room ≡ f.room
  pub inside : window g.bytes p (length d) ≡ d
  pub outside : (q : ℕ) → (q < p) ⊎ (p + length d ≤ q) → g.bytes q ≡ f.bytes q

-- Bytes apart from the ones laid down.
pub Laid-apart :
    {f g : File} {p : ℕ} {d : List ℕ} (q n : ℕ)
    → Laid f p d g
    → (q + n ≤ p) ⊎ (p + length d ≤ q)
    → window g.bytes q n ≡ window f.bytes q n
Laid-apart q n laid (inl before) = window_ext _ _ q n (λ r a b. laid.outside r (inl (omega arith)))
Laid-apart q n laid (inr behind) = window_ext _ _ q n (λ r a b. laid.outside r (inr (omega arith)))

overlay-outside :
    (f : ℕ → ℕ) (p : ℕ) (d : List ℕ) (q : ℕ) → (q < p) ⊎ (p + length d ≤ q) → overlay f p d q ≡ f q
unfolding overlay
overlay-outside f p d q h = ground arith

accepted-none : (f : File) → accepted 0 f ≡ 0
unfolding accepted
accepted-none f = ground arith

write-none : (f : File) → write [] f ≡ (0, f)
unfolding write
write-none f = rw (accepted-none f)

pub write-Laid :
    (f : File) (d : List ℕ)
    → f.pos + length d ≤ f.size
    → f.size ≤ f.room
    → (g : File) × (write d f ≡ (length d, g)) × Laid f f.pos d g × (g.pos ≡ f.pos + length d)
write-Laid f [] inside room = (
  f,
  write-none f,
  record { size = refl; room = refl; inside = unfold window in refl; outside = λ q h. refl },
  omega arith,
)
write-Laid f (x ∷ xs) inside room = (
  record f { bytes = overlay f.bytes f.pos (x ∷ xs); pos = f.pos + length (x ∷ xs) },
  write_within (x ∷ xs) f (omega arith) inside room,
  record {
    size = refl;
    room = refl;
    inside = window-overlay_self f.bytes f.pos (x ∷ xs);
    outside = overlay-outside f.bytes f.pos (x ∷ xs);
  },
  refl,
)

pub put_bytes-ok :
    (a : Area) (d : List ℕ)
    → a.sfd.pos + length d ≤ a.sfd.size
    → a.sfd.size ≤ a.sfd.room
    → (g : File) × (put_bytes d a ≡ ok tt (record a { sfd = g }))
      × Laid a.sfd a.sfd.pos d g
      × (g.pos ≡ a.sfd.pos + length d)
unfolding put_bytes
put_bytes-ok a d inside room =
    let (g, w, laid, p) = write-Laid a.sfd d inside room in
    (g, rw (w, eq→== (length d) (length d) refl), laid, p)

written :
    (a : Area) (x : Xmsg) (g : File)
    → FitsXmsg x
    → write (encode_xmsg x) a.sfd ≡ (length (encode_xmsg x), g)
    → write_xmsg x a.sfd ≡ (true, g)
unfolding write_xmsg
written a x g fits w = rw w (ap (λ k. (k == xmsg_size, g)) (length-encode_xmsg x fits))

pub put_xmsg-ok :
    (a : Area) (x : Xmsg)
    → FitsXmsg x
    → a.sfd.pos + xmsg_size ≤ a.sfd.size
    → a.sfd.size ≤ a.sfd.room
    → (g : File) × (put_xmsg x a ≡ ok tt (record a { sfd = g }))
      × Laid a.sfd a.sfd.pos (encode_xmsg x) g
      × (g.pos ≡ a.sfd.pos + xmsg_size)
unfolding put_xmsg
put_xmsg-ok a x fits inside room =
    let n = length-encode_xmsg x fits in
    let (g, w, laid, p) = write-Laid a.sfd (encode_xmsg x) (omega (arith, n)) room in
    (g, rw (written a x g fits w), laid, p ∙ ap (λ k. a.sfd.pos + k) n)
