-- ===== src/Squish/Write/Allocated.antt =====
-- The allocation of the frame of a new message, put together.
use mathlib.Core.Path.{subst}
use xmsgapi.Base.{ap, arith, inl, inr, refl, sym, ℕ, ◌+◌, ◌<◌, ◌^◌, ◌∙◌, ◌≡◌, ◌≤◌}
use xmsgapi.Base.Cmd.{ok}
use xmsgapi.Base.Word.{IsLong}
use xmsgapi.File.{File, window}
use xmsgapi.File.Laws.{window-overlay_self}
use xmsgapi.Squish.Area.{Area}
use xmsgapi.Squish.BaseHeader.{Sqbase, encode_sqbase, sqbase_size}
use xmsgapi.Squish.BaseHeader.RoundTrip.{FitsSqbase, length-encode_sqbase}
use xmsgapi.Squish.Frame.{squish_write_hdr}
use xmsgapi.Squish.Frame.Chain.{Cells}
use xmsgapi.Squish.Frame.Heap.{FrameAt, Holds, moved, put_hdr, with_hdr}
use xmsgapi.Squish.Frame.Laws.{squish_write_hdr-ok}
use xmsgapi.Squish.Header.{Sqhdr, encode_sqhdr, sqhdr_id, sqhdr_size}
use xmsgapi.Squish.Header.RoundTrip.{FitsSqhdr, length-encode_sqhdr}
use xmsgapi.Squish.Lock.{squish_copy_base_to_data, squish_copy_data_to_base}
use xmsgapi.Squish.Lock.Laws.{
  StoresBase, Waits, begun, ended, past_header, squish_exclusive_begin-ok, squish_exclusive_end-ok,
  squish_unlock_base_lem,
}
use xmsgapi.Squish.Msg.{Msgh}
use xmsgapi.Squish.Write.{allocate, link_ends}
use xmsgapi.Squish.Write.Allocate.{
  CanExtend, HasLast, allocate_steps, base_header-Laid, extended, frame_steps, got_frame,
  linked_back, linked_fits, new_end, new_hdr, total_of, unwritten, with_frame,
}
use xmsgapi.Squish.Write.Laws.{Laid, Laid-apart}

-- A user who can get the lock, with the base `b` on the disk, whose area can then be extended.
pub record CanAllocate (a : Area) (b : Sqbase) (n_txt n_ctrl : ℕ) (xs : Cells) : Type 0 where
  pub waits : Waits a
  pub fits : FitsSqbase b
  pub stores : StoresBase a.sfd b
  pub extend : CanExtend (total_of n_txt n_ctrl) xs (begun (past_header a.sfd) b a)

-- The area after the allocation: the frame is at the old end of the file, with its header.
pub record Allocated (a : Area) (b : Sqbase) (n_txt n_ctrl : ℕ) (c : Area) : Type 0 where
  pub cb_sqhdr : c.cb_sqhdr ≡ b.sz_sqhdr
  pub hix : c.hix ≡ a.hix
  pub size : c.sfd.size ≡ b.end_frame + b.sz_sqhdr + total_of n_txt n_ctrl
  pub room : c.sfd.size ≤ c.sfd.room
  pub small : IsLong c.sfd.size
  pub frame :
      FrameAt c.sfd.bytes c.sfd.size c.sfd.size b.end_frame (new_hdr b.last_frame n_txt n_ctrl)

-- The new frame below the end of the file, behind the header of the base.
frame_there :
    (bytes : ℕ → ℕ) (f g : File) (b : Sqbase) (fo end : ℕ) (h : Sqhdr)
    → FitsSqbase b
    → Laid f 0 (encode_sqbase b) g
    → f.bytes ≡ with_hdr bytes fo h
    → f.size ≡ end
    → sqbase_size ≤ fo
    → fo + sqhdr_size ≤ end
    → IsLong end
    → FitsSqhdr h
    → h.id ≡ sqhdr_id
    → FrameAt g.bytes g.size g.size fo h
frame_there bytes f g b fo end h fits laid same size base inside small hdr id =
    let n = length-encode_sqbase b fits in
    let k = length-encode_sqhdr h in
    record {
      base = base;
      inside = omega (arith, laid.size, size, inside);
      below = omega (arith, laid.size, size, inside);
      small = omega (arith, laid.size, size, small);
      fits = hdr;
      id = id;
      stored =
          Laid-apart fo sqhdr_size laid (inr (omega (arith, n, base)))
          ∙ (ap (λ q. window q fo sqhdr_size) same
              ∙ (ap (window (with_hdr bytes fo h) fo) (sym k)
                  ∙ window-overlay_self bytes fo (encode_sqhdr h)));
    }

new_hdr-FitsSqhdr :
    (last n_txt n_ctrl : ℕ)
    → last < 2 ^ 32
    → total_of n_txt n_ctrl < 2 ^ 31
    → FitsSqhdr (new_hdr last n_txt n_ctrl)
new_hdr-FitsSqhdr last n_txt n_ctrl small fits = omega (arith, small, fits)

-- _SquishExclusiveEnd, which has left the data file `f`, keeps the rest.
ended-Allocated :
    (a a4 : Area) (b : Sqbase) (f : File) (n_txt n_ctrl end : ℕ)
    → a4.cb_sqhdr ≡ b.sz_sqhdr
    → a4.hix ≡ a.hix
    → f.size ≡ end
    → f.size ≤ f.room
    → end ≡ b.end_frame + b.sz_sqhdr + total_of n_txt n_ctrl
    → IsLong end
    → FrameAt f.bytes f.size f.size b.end_frame (new_hdr b.last_frame n_txt n_ctrl)
    → Allocated a b n_txt n_ctrl (ended f a4)
ended-Allocated a a4 b f n_txt n_ctrl end cb hix size room at small frame =
    let e = squish_unlock_base_lem (record a4 { sfd = f }) in
    let file : (ended f a4).sfd ≡ f = ap (λ q. q.sfd) e in
    record {
      cb_sqhdr = ap (λ q. q.cb_sqhdr) e ∙ cb;
      hix = ap (λ q. q.hix) e ∙ hix;
      size = ap (λ g. g.size) file ∙ (size ∙ at);
      room = subst (λ g. g.size ≤ g.room) (sym file) room;
      small = subst (λ g. IsLong g.size) (sym file) (omega (arith, size, small));
      frame =
          subst (λ g. FrameAt g.bytes g.size g.size b.end_frame (new_hdr b.last_frame n_txt n_ctrl))
            (sym file) frame;
    }

last_kept :
    (a a' : Area)
    → a'.fo_last ≡ a.fo_last
    → ((g : ℕ) (k : Sqhdr) → Holds a g k → Holds a' g k)
    → HasLast a
    → HasLast a'
last_kept a a' same keep (inl e) = inl (same ∙ e)
last_kept a a' same keep (inr (l, at)) =
    inr (l, subst (λ g. Holds a' g l) (sym same) (keep a.fo_last l at))

pub allocate-ok :
    (a : Area) (b : Sqbase) (m : Msgh) (n_txt n_ctrl : ℕ) (xs : Cells)
    → CanAllocate a b n_txt n_ctrl xs
    → (c : Area) × (allocate n_txt n_ctrl (record { ha = a; m = unwritten m })
        ≡ ok tt
            (record { ha = c; m = with_frame b.end_frame (new_hdr b.last_frame n_txt n_ctrl) m }))
      × Allocated a b n_txt n_ctrl c
unfolding squish_copy_base_to_data squish_copy_data_to_base link_ends
allocate-ok a b m n_txt n_ctrl xs can =
    let n = total_of n_txt n_ctrl in
    let a1 = begun (past_header a.sfd) b a in
    let fo = b.end_frame in
    let end = new_end n a1 in
    let h = new_hdr b.last_frame n_txt n_ctrl in
    let grow = can.extend.grow in
    let (b2, p2, got, keep) = got_frame n xs a1 can.extend in
    let a2 = extended end b2 p2 a1 in
    let last2 : HasLast a2 = last_kept a1 a2 refl keep can.extend.last in
    let (b3, p3, next) = linked_back fo a2 last2 grow.room in
    let a3 = link_ends m.dw_msg fo h (moved b3 p3 a2) in
    let base = can.extend.base in
    let header = can.extend.header in
    let inside : fo + sqhdr_size ≤ end = omega (arith, header) in
    let put : squish_write_hdr fo h a3 ≡ ok tt (put_hdr fo h a3) =
      squish_write_hdr-ok a3 fo h base (omega (arith, grow.small)) inside grow.room in
    let a4 = put_hdr fo h a3 in
    let frame =
      frame_steps m a1 a2 (moved b3 p3 a2) a4 n_txt n_ctrl fo (omega (arith, grow.small)) got next
        put in
    let fits =
      linked_fits a b h m.dw_msg end p3 b3 (past_header a.sfd) can.fits grow.small (omega arith) in
    let (f, w, laid) =
      base_header-Laid a4 (squish_copy_data_to_base a4) fits (omega (arith, base)) grow.room in
    let begins = squish_exclusive_begin-ok a b can.waits can.fits can.stores in
    let ends = squish_exclusive_end-ok a4 f refl w in
    let hdr =
      new_hdr-FitsSqhdr b.last_frame n_txt n_ctrl can.fits.last_frame (omega (arith, grow.small)) in
    (
      ended f a4,
      allocate_steps m a a1 a4 (ended f a4) n_txt n_ctrl fo h begins frame ends,
      ended-Allocated a a4 b f n_txt n_ctrl end refl refl laid.size
          (omega (arith, laid.size, laid.room, grow.room)) refl grow.small
          (frame_there b3 a4.sfd f (squish_copy_data_to_base a4) fo end h fits laid refl refl base
            inside grow.small hdr refl),
    )
