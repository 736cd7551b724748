-- ===== src/Squish/Frame/Unlink.antt =====
-- Linking the frames on both sides of a cell over it.
use xmsgapi.Base.{All-split, if◌then◌else◌, ℕ, ◌++◌, ◌==◌, ◌∷◌, ◌≡◌, ◌≤◌}
use xmsgapi.Base.Cmd.{ok}
use xmsgapi.Squish.Area.{Area}
use xmsgapi.Squish.Frame.{next_unless_null, prev_unless_null}
use xmsgapi.Squish.Frame.Chain.{
  Cells, Keeps, Linked, Linked-Keeps, Linked-join, Separate, Separate-middle, cross_flip,
}
use xmsgapi.Squish.Frame.Heap.{Apart, moved}
use xmsgapi.Squish.Frame.Relink.{relink_next, relink_prev}
use xmsgapi.Squish.Header.{Sqhdr, null_frame}
use xmsgapi.Squish.Header.RoundTrip.{FitsSqhdr}

-- The outcome of the two link setters around the cell with the header `h`.
pub record Unlinked (ft : ℕ) (a : Area) (ys zs : Cells) (c l : ℕ) (h : Sqhdr) : Type 0 where
  pub between : Area
  pub bytes : ℕ → ℕ
  pub pos : ℕ
  pub next_runs : next_unless_null h.prev_frame h.next_frame a ≡ ok tt between
  pub prev_runs : prev_unless_null h.next_frame h.prev_frame between ≡ ok tt (moved bytes pos a)
  pub chain :
      Linked ft bytes a.sfd.size a.fo_end null_frame
        (if h.prev_frame == null_frame then h.next_frame else c)
        (if h.next_frame == null_frame then h.prev_frame else l)
        null_frame
        (ys ++ zs)
  pub keeps : Keeps (ys ++ zs) a.sfd.bytes bytes a.sfd.size a.fo_end

pub unlink :
    (ft : ℕ) (a : Area) (ys zs : Cells) (fo n c l : ℕ) (h : Sqhdr)
    → a.sfd.size ≤ a.sfd.room
    → Separate (ys ++ ((fo, n) ∷ zs))
    → FitsSqhdr h
    → Linked ft a.sfd.bytes a.sfd.size a.fo_end null_frame c h.prev_frame fo ys
    → Linked ft a.sfd.bytes a.sfd.size a.fo_end fo h.next_frame l null_frame zs
    → Unlinked ft a ys zs c l h
unlink ft a ys zs fo n c l h room sep fits front back =
    let (sy, sz, fo_ys, fo_zs, ys_zs) = Separate-middle ys zs fo n sep in
    let zs_ys = cross_flip ys zs ys_zs in
    let b = a.sfd.bytes in
    let (b1, p1, r1) =
      relink_next ft a room ys c h.prev_frame fo h.next_frame front sy fits.next_frame in
    let back1 =
      Linked-Keeps ft b b1 a.sfd.size a.fo_end ys zs fo h.next_frame l null_frame back r1.keeps
        zs_ys in
    let (b2, p2, r2) =
      relink_prev ft (moved b1 p1 a) room zs fo h.next_frame l h.prev_frame back1 sz
        fits.prev_frame in
    let c' = if h.prev_frame == null_frame then h.next_frame else c in
    let l' = if h.next_frame == null_frame then h.prev_frame else l in
    let front2 =
      Linked-Keeps ft b1 b2 a.sfd.size a.fo_end zs ys null_frame c' h.prev_frame h.next_frame
        r1.chain r2.keeps ys_zs in
    record {
      between = moved b1 p1 a;
      bytes = b2;
      pos = p2;
      next_runs = r1.runs;
      prev_runs = r2.runs;
      chain =
          Linked-join ft b2 a.sfd.size a.fo_end ys zs null_frame c' h.prev_frame h.next_frame l'
            null_frame front2 r2.chain;
      keeps = λ g k apart there.
          let (g_ys, g_zs) = All-split (λ q. Apart g q.0) ys zs apart in
          r2.keeps g k g_zs (r1.keeps g k g_ys there);
    }
