-- ===== src/Squish/FreeChain/Inv.antt =====
-- When the free chain of an area is in order, and what an operation on it leaves alone.
use xmsgapi.Base.{ℕ, ◌≡◌, ◌≤◌}
use xmsgapi.Base.Word.{IsLong}
use xmsgapi.Squish.Area.{Area}
use xmsgapi.Squish.Frame.Chain.{ApartFrom, Cells, Linked, Separate}
use xmsgapi.Squish.Frame.Heap.{Holds}
use xmsgapi.Squish.Header.{Sqhdr, frame_free, null_frame}

-- The frames of `xs` are marked free and linked both ways between `fo_free` and `fo_last_free`,
-- none overlaps another, the disk has room for the file, and the end is no negative `long`.
pub record IsFreeChain (a : Area) (xs : Cells) : Type 0 where
  pub chain :
      Linked frame_free a.sfd.bytes a.sfd.size a.fo_end null_frame a.fo_free a.fo_last_free
        null_frame xs
  pub separate : Separate xs
  pub room : a.sfd.size ≤ a.sfd.room
  pub small : IsLong a.fo_end

-- `a'` is `a` but for the bytes of the data file and the two ends of the free chain.
pub record SameButFree (a a' : Area) : Type 0 where
  pub num_msg : a'.num_msg ≡ a.num_msg
  pub cur_msg : a'.cur_msg ≡ a.cur_msg
  pub high_msg : a'.high_msg ≡ a.high_msg
  pub high_water : a'.high_water ≡ a.high_water
  pub uid_next : a'.uid_next ≡ a.uid_next
  pub fo_first : a'.fo_first ≡ a.fo_first
  pub fo_last : a'.fo_last ≡ a.fo_last
  pub fo_end : a'.fo_end ≡ a.fo_end
  pub fo_next : a'.fo_next ≡ a.fo_next
  pub fo_prev : a'.fo_prev ≡ a.fo_prev
  pub fo_cur : a'.fo_cur ≡ a.fo_cur
  pub size : a'.sfd.size ≡ a.sfd.size
  pub ifd : a'.ifd ≡ a.ifd
  pub hix : a'.hix ≡ a.hix
  pub have_exclusive : a'.have_exclusive ≡ a.have_exclusive
  pub cb_sqbase : a'.cb_sqbase ≡ a.cb_sqbase
  pub cb_sqhdr : a'.cb_sqhdr ≡ a.cb_sqhdr
  pub dw_max_msg : a'.dw_max_msg ≡ a.dw_max_msg
  pub w_max_days : a'.w_max_days ≡ a.w_max_days
  pub w_skip_msg : a'.w_skip_msg ≡ a.w_skip_msg
  pub dw_high_water : a'.dw_high_water ≡ a.dw_high_water
  pub f_locked : a'.f_locked ≡ a.f_locked
  pub f_lock_func : a'.f_lock_func ≡ a.f_lock_func
  pub held : a'.held ≡ a.held
  pub err : a'.err ≡ a.err
  pub os : a'.os ≡ a.os
  pub room : a'.sfd.room ≡ a.sfd.room

-- Each frame that stands apart from the cells keeps its header.
abbrev pub KeepsFrames : Cells → Area → Area → Type 0
KeepsFrames xs a a' = (g : ℕ) (k : Sqhdr) → ApartFrom g xs → Holds a g k → Holds a' g k
