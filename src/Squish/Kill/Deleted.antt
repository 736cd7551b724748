-- ===== src/Squish/Kill/Deleted.antt =====
-- _SquishKill of sq_kill.c on a base in order.
use mathlib.Core.Path.{subst, subst₂}
use xmsgapi.Base.{
  All, All-append, All-split, Option, [], ap, arith, get_elem?, if◌then◌else◌, length, some, sym,
  true, ℕ, ◌%◌, ◌++◌, ◌+◌, ◌-◌, ◌∙◌, ◌∷◌, ◌≡◌, ◌≢◌,
}
use xmsgapi.Base.Cmd.{and_then, ok, pure}
use xmsgapi.Base.Word.{dword_mod}
use xmsgapi.File.{File}
use xmsgapi.Squish.Area.{Area, Hidx}
use xmsgapi.Squish.Frame.{next_unless_null, prev_unless_null}
use xmsgapi.Squish.Frame.Chain.{
  ApartFrom, Cells, Keeps, Linked, Linked-Keeps, Linked-split, Separate, Separate-append,
  Separate-middle, cross_flip,
}
use xmsgapi.Squish.Frame.Heap.{Apart, FrameAt, FrameAt-unique, Holds, moved}
use xmsgapi.Squish.Frame.Unlink.{Unlinked, unlink}
use xmsgapi.Squish.FreeChain.{squish_insert_free_chain}
use xmsgapi.Squish.FreeChain.Insert.{Inserted, squish_insert_free_chain_lem}
use xmsgapi.Squish.FreeChain.Inv.{IsFreeChain}
use xmsgapi.Squish.Header.{Sqhdr, frame_free, frame_normal, null_frame}
use xmsgapi.Squish.Index.{blank_sqidx}
use xmsgapi.Squish.Index.Append.{HasRoom}
use xmsgapi.Squish.Index.Flat.{flat, without}
use xmsgapi.Squish.Index.Laws.{Buffered, entries}
use xmsgapi.Squish.Kill.{squish_kill}
use xmsgapi.Squish.Kill.Ends.{first_test, last_test}
use xmsgapi.Squish.Kill.Whole.{IsBase, cross-cons, cross-snoc, fix-other, fixed}
use xmsgapi.Squish.Pointers.{count_down, fix_links}
use xmsgapi.Squish.Removal.{squish_remove_index_entry}
use xmsgapi.Squish.Removal.Buffered.{reindexed, squish_remove_index_entry-Buffered}
use xmsgapi.Squish.Sqidx.{Sqidx}

-- What the deletion of the frame at `fo` from between `ys` and `zs` does, `m` being its number.
pub record Deleted (ys zs xs : Cells) (fo n m : ℕ) (a a' : Area) : Type 0 where
  pub base : IsBase a' (ys ++ zs) (xs ++ ((fo, n) ∷ []))
  pub num_msg : a'.num_msg + 1 ≡ a.num_msg
  pub index : entries a' ≡ without (entries a) (m - 1) ++ (blank_sqidx ∷ [])

module _ (a : Area) (ys zs xs : Cells) (fo n : ℕ) (h : Sqhdr) (at : Holds a fo h)
    (base : IsBase a (ys ++ ((fo, n) ∷ zs)) xs)
    (u : Unlinked frame_normal a ys zs a.fo_first a.fo_last h) where
  -- The frames that the free chain and the two sides of the message have, apart from each other.
  sides :
      All (λ c. ApartFrom c.0 xs) (ys ++ zs)
      × ApartFrom fo xs
      × ApartFrom fo (ys ++ zs)
      × Separate (ys ++ zs)
  sides =
      let (sy, sz, fo_ys, fo_zs, ys_zs) = Separate-middle ys zs fo n base.separate in
      let (cy, (cf, cz)) = All-split (λ c. ApartFrom c.0 xs) ys ((fo, n) ∷ zs) base.cross in
      (
        All-append (λ c. ApartFrom c.0 xs) ys zs cy cz,
        cf,
        All-append (λ q. Apart fo q.0) ys zs fo_ys fo_zs,
        Separate-append ys zs sy sz ys_zs,
      )

  -- The area before the frame is made free.
  before : ℕ → File → Hidx → Area
  before m f x = fixed m h (reindexed f x (moved u.bytes u.pos a))

  still_free : (m : ℕ) (f : File) (x : Hidx) → IsFreeChain (before m f x) xs
  unfolding before fix_links count_down
  still_free m f x = record {
    chain =
        Linked-Keeps frame_free a.sfd.bytes u.bytes a.sfd.size a.fo_end (ys ++ zs) xs null_frame
          a.fo_free a.fo_last_free null_frame base.free.chain u.keeps
          (cross_flip (ys ++ zs) xs sides.0);
    separate = base.free.separate;
    room = base.free.room;
    small = base.free.small;
  }

  still_there : (m : ℕ) (f : File) (x : Hidx) → Holds (before m f x) fo h
  unfolding before fix_links count_down
  still_there m f x = u.keeps fo h sides.2 at

  -- The messages between the two ends that the pointers of the area give.
  still_chained :
      (f : File) (x : Hidx)
      → Linked frame_normal a.sfd.bytes a.sfd.size a.fo_end null_frame a.fo_first h.prev_frame fo ys
      → Linked frame_normal a.sfd.bytes a.sfd.size a.fo_end fo h.next_frame a.fo_last null_frame zs
      → a.num_msg ≡ length ys + 1 + length zs
      → let d = before (length ys + 1) f x in
        Linked frame_normal d.sfd.bytes d.sfd.size d.fo_end null_frame d.fo_first d.fo_last
          null_frame
          (ys ++ zs)
  unfolding before fix_links count_down
  still_chained f x front back count =
      subst₂
        (λ p q.
          Linked frame_normal u.bytes a.sfd.size a.fo_end null_frame p q null_frame (ys ++ zs))
        (ap (λ t. if t then h.next_frame else a.fo_first)
          (first_test frame_normal a.sfd.bytes a.sfd.size a.fo_end ys a.fo_first h.prev_frame fo
            front))
        (ap (λ t. if t then h.prev_frame else a.fo_last)
          (last_test frame_normal a.sfd.bytes a.sfd.size a.fo_end zs fo h.next_frame a.fo_last
            (length ys + 1) a.num_msg back count))
        u.chain

  -- The base once the frame has been made the last free one.
  Inserted-IsBase :
      (d a' : Area)
      → Inserted fo h.frame_length xs d a'
      → Linked frame_normal d.sfd.bytes d.sfd.size d.fo_end null_frame d.fo_first d.fo_last
          null_frame
          (ys ++ zs)
      → IsBase a' (ys ++ zs) (xs ++ ((fo, h.frame_length) ∷ []))
  Inserted-IsBase d a' ins chained =
      let (cross, fo_xs, fo_ms, sep) = sides in
      let keeps : Keeps ((fo, h.frame_length) ∷ xs) d.sfd.bytes a'.sfd.bytes d.sfd.size d.fo_end =
        λ g k apart there.
          subst₂ (λ s e. FrameAt a'.sfd.bytes s e g k) ins.same.size ins.same.fo_end
            (ins.frames g k apart there) in
      let away : All (λ c. ApartFrom c.0 ((fo, h.frame_length) ∷ xs)) (ys ++ zs) =
        cross-cons (ys ++ zs) xs fo h.frame_length cross fo_ms in
      let moved_on =
        Linked-Keeps frame_normal d.sfd.bytes a'.sfd.bytes d.sfd.size d.fo_end
          ((fo, h.frame_length) ∷ xs) (ys ++ zs) null_frame d.fo_first d.fo_last null_frame chained
          keeps away in
      record {
        messages =
            subst₂
              (λ s e.
                Linked frame_normal a'.sfd.bytes s e null_frame a'.fo_first a'.fo_last null_frame
                  (ys ++ zs))
              (sym ins.same.size) (sym ins.same.fo_end)
              (subst₂
                (λ p q.
                  Linked frame_normal a'.sfd.bytes d.sfd.size d.fo_end null_frame p q null_frame
                    (ys ++ zs))
                (sym ins.same.fo_first) (sym ins.same.fo_last) moved_on);
        separate = sep;
        free = ins.chain;
        cross = cross-snoc (ys ++ zs) xs fo h.frame_length cross fo_ms;
      }

-- _SquishKill, put together from what its calls give.
killed :
    (a : Area) (m fo : ℕ) (h : Sqhdr) (between after d e : Area) (r : Option Sqidx)
    → next_unless_null h.prev_frame h.next_frame a ≡ ok tt between
    → prev_unless_null h.next_frame h.prev_frame between ≡ ok tt after
    → squish_remove_index_entry m (some h) after ≡ ok r d
    → squish_insert_free_chain fo h d ≡ ok tt e
    → squish_kill m h fo a ≡ ok tt e
unfolding squish_kill
killed a m fo h between after d e r next prev removed inserted = rw (next, prev, removed, inserted)

-- On a base in order whose index is in memory with a record for each message, with memory and
-- room on the disk, for a message that is not the current one, _SquishKill succeeds: the messages
-- before and behind it are linked to each other and the pointers of the area are to the first and
-- the last of those that are left, its frame is the last one of the free chain, no two frame
-- headers overlap, there is one message less, and the index has lost its record and has a blank
-- one at the end.
pub squish_kill_lem :
    (a : Area) (ys zs xs : Cells) (fo n : ℕ) (h : Sqhdr) (r : Sqidx)
    → Holds a fo h
    → IsBase a (ys ++ ((fo, n) ∷ zs)) xs
    → Buffered a
    → HasRoom a
    → a.os.mem ≡ true
    → a.num_msg ≡ length ys + 1 + length zs
    → length ys + 1 ≢ a.cur_msg
    → get_elem? (entries a) (length ys) ≡ some r
    → (a' : Area) × (squish_kill (length ys + 1) h fo a ≡ ok tt a')
      × Deleted ys zs xs fo h.frame_length (length ys + 1) a a'
unfolding before fix_links count_down
squish_kill_lem a ys zs xs fo n h r at base buffered room mem count other got =
    let b = a.sfd.bytes in
    let m = length ys + 1 in
    let (p, k, front', (h', cell, back')) =
      Linked-split frame_normal b a.sfd.size a.fo_end ys ((fo, n) ∷ zs) null_frame a.fo_first
        a.fo_last null_frame base.messages in
    let same : h' ≡ h = FrameAt-unique cell.frame at in
    let prev : p ≡ h.prev_frame = sym cell.back ∙ ap (λ (j : Sqhdr). j.prev_frame) same in
    let front =
      subst₂ (λ u v. Linked frame_normal b a.sfd.size a.fo_end null_frame a.fo_first u v ys) prev
        cell.here front' in
    let back =
      subst
        (λ (j : Sqhdr).
          Linked frame_normal b a.sfd.size a.fo_end fo j.next_frame a.fo_last null_frame zs)
        same back' in
    let u =
      unlink frame_normal a ys zs fo n a.fo_first a.fo_last h base.free.room base.separate at.fits
        front back in
    let after = moved u.bytes u.pos a in
    let (f, x, removed, index, _) =
      squish_remove_index_entry-Buffered after m (some h) r
        (record {
          open_buffer = buffered.open_buffer;
          fits = buffered.fits;
          counted = buffered.counted;
        })
        (record { few = room.few; disk = room.disk }) mem (omega arith)
        (ap (get_elem? (entries a)) (omega arith) ∙ got) in
    let d = before a ys zs xs fo n h at base u m f x in
    let pointers = fix-other m h (reindexed f x after) other in
    let (a', inserted, ins) =
      squish_insert_free_chain_lem d fo h xs (still_there a ys zs xs fo n h at base u m f x)
        (still_free a ys zs xs fo n h at base u m f x) (sides a ys zs xs fo n h at base u).1 in
    (
      a',
      killed a m fo h u.between after d a' (some r) u.next_runs u.prev_runs
          (removed ∙ ap (λ o. and_then o (λ _. pure (some r))) pointers) inserted,
      record {
        base =
            Inserted-IsBase a ys zs xs fo n h at base u d a' ins
              (still_chained a ys zs xs fo n h at base u f x front back count);
        num_msg =
            let same_num : a'.num_msg ≡ (a.num_msg + dword_mod - 1) % dword_mod =
              ins.same.num_msg in
            ground (arith, same_num, count, room.few);
        index = ap (λ (y : Hidx). flat y.segs) ins.same.hix ∙ index;
      },
    )
