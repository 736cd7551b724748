-- ===== src/Squish/Lock/Laws.antt =====
-- Exclusive access, sq_lock.c: the header of the data file between two users of an area.
use xmsgapi.Base.{
  Bool, Bool-cases, ap, arith, eq→==, false, if-false, if-true, if◌then◌else◌, inl, inr, length,
  ltb, not, refl, sym, true, ◌+◌, ◌==◌, ◌∙◌, ◌≡◌, ◌≤◌,
}
use xmsgapi.Base.Cmd.{and_then, ok}
use xmsgapi.Base.Word.{IsWord}
use xmsgapi.File.{File, overlay, seek, window}
use xmsgapi.File.Laws.{read_all, window-overlay_self, write_all}
use xmsgapi.Squish.Area.{Area}
use xmsgapi.Squish.BaseHeader.{Sqbase, encode_sqbase, read_sqbase, sqbase_size, write_sqbase}
use xmsgapi.Squish.BaseHeader.RoundTrip.{FitsSqbase, decode-encode_sqbase, length-encode_sqbase}
use xmsgapi.Squish.Index.Laws.{stored}
use xmsgapi.Squish.Lock.{
  down16, squish_copy_base_to_data, squish_copy_data_to_base, squish_exclusive_begin,
  squish_exclusive_end, squish_lock_base, squish_read_base_header, squish_unlock_base,
  squish_write_base_header, taken_over, up16,
}

-- The file starts with the header `s`.
abbrev pub StoresBase : File → Sqbase → Type 0
StoresBase f s = (sqbase_size ≤ f.size) × (window f.bytes 0 sqbase_size ≡ encode_sqbase s)

pub squish_write_base_header-ok :
    (a : Area) (s : Sqbase)
    → FitsSqbase s
    → sqbase_size ≤ a.sfd.room
    → (f : File) × (squish_write_base_header s a ≡ ok tt (record a { sfd = f }))
      × StoresBase f s
      × (f.room ≡ a.sfd.room)
unfolding squish_write_base_header write_sqbase seek
squish_write_base_header-ok a s fits room =
    let n = length-encode_sqbase s fits in
    let w =
      write_all (encode_sqbase s) (record (a.sfd) { pos = 0 }) (omega (arith, n))
        (omega (arith, n, room)) in
    let laid = overlay a.sfd.bytes 0 (encode_sqbase s) in
    let p : window laid 0 sqbase_size ≡ encode_sqbase s =
      ap (window laid 0) (sym n) ∙ window-overlay_self a.sfd.bytes 0 (encode_sqbase s) in
    let end = 0 + length (encode_sqbase s) in
    (
      record (a.sfd) {
        bytes = laid;
        size = if ltb a.sfd.size end then end else a.sfd.size;
        pos = end;
      },
      rw (w, n),
      (ground (arith, n), p),
      refl,
    )

-- The file behind its header.
abbrev pub past_header : File → File
past_header f = record f { pos = sqbase_size }

pub squish_read_base_header-ok :
    (a : Area) (s : Sqbase)
    → FitsSqbase s
    → StoresBase a.sfd s
    → squish_read_base_header a ≡ ok s (record a { sfd = past_header a.sfd })
unfolding squish_read_base_header read_sqbase seek
squish_read_base_header-ok a s fits (big, stored) = rw (
  read_all sqbase_size (record (a.sfd) { pos = 0 }) big,
  stored,
  length-encode_sqbase s fits,
  decode-encode_sqbase s fits,
)

-- `c` has taken over what the header of the file keeps of `a`.
pub record SameBase (a c : Area) : Type 0 where
  pub num_msg : c.num_msg ≡ a.num_msg
  pub high_msg : c.high_msg ≡ a.num_msg
  pub high_water : c.high_water ≡ a.high_water
  pub cb_sqbase : c.cb_sqbase ≡ a.cb_sqbase
  pub cb_sqhdr : c.cb_sqhdr ≡ a.cb_sqhdr
  pub dw_max_msg : c.dw_max_msg ≡ a.dw_max_msg
  pub w_max_days : c.w_max_days ≡ a.w_max_days
  pub w_skip_msg : c.w_skip_msg ≡ a.w_skip_msg
  pub uid_next : c.uid_next ≡ a.uid_next
  pub fo_first : c.fo_first ≡ a.fo_first
  pub fo_last : c.fo_last ≡ a.fo_last
  pub fo_free : c.fo_free ≡ a.fo_free
  pub fo_last_free : c.fo_last_free ≡ a.fo_last_free
  pub fo_end : c.fo_end ≡ a.fo_end

-- Another user, who has the area open and no access to it, and gets the lock.
pub record Waits (b : Area) : Type 0 where
  pub idle : b.have_exclusive ≡ false
  pub unlocked : b.f_locked ≡ 0
  pub granted : b.os.lock_granted ≡ true

unlock-sfd : (a : Area) → (squish_unlock_base a).sfd ≡ a.sfd
unfolding squish_unlock_base
unlock-sfd a = elim (Bool-cases (down16 a.f_locked == 0)) [
  | inl e ↦ elim (Bool-cases a.os.haveshare) [ inl h ↦ rw (e, h) | inr h ↦ rw (e, h) ]
  | inr e ↦ rw e
]

-- What _SquishUnlockBase leaves of the lock.
abbrev pub held_after : Area → Bool
held_after a =
    if not (down16 a.f_locked == 0) then a.held else (if a.os.haveshare then false else a.held)

pub squish_unlock_base_lem :
    (a : Area)
    → squish_unlock_base a ≡ record a { f_locked = down16 a.f_locked; held = held_after a }
unfolding squish_unlock_base
squish_unlock_base_lem a = elim (Bool-cases (down16 a.f_locked == 0)) [
  | inl e ↦ elim (Bool-cases a.os.haveshare) [ inl h ↦ rw (e, h) | inr h ↦ rw (e, h) ]
  | inr e ↦ rw e
]

-- The area behind _SquishExclusiveEnd, with the data file `f`.
abbrev pub ended : File → Area → Area
ended f a = record (squish_unlock_base (record a { sfd = f })) { have_exclusive = false }

pub squish_exclusive_end-ok :
    (a : Area) (f : File)
    → a.have_exclusive ≡ true
    → squish_write_base_header (squish_copy_data_to_base a) a ≡ ok tt (record a { sfd = f })
    → squish_exclusive_end a ≡ ok tt (ended f a)
unfolding squish_exclusive_end
squish_exclusive_end-ok a f have w = simp (have, w)

-- The area behind _SquishExclusiveBegin, with the data file `f` and its header `s`.
abbrev pub begun : File → Sqbase → Area → Area
begun f s b =
    record (squish_copy_base_to_data s
      (record b { f_locked = up16 b.f_locked; held = true; sfd = f })) { have_exclusive = true }

pub squish_exclusive_begin-ok :
    (b : Area) (s : Sqbase)
    → Waits b
    → FitsSqbase s
    → StoresBase b.sfd s
    → squish_exclusive_begin b ≡ ok tt (begun (past_header b.sfd) s b)
unfolding squish_exclusive_begin squish_lock_base
squish_exclusive_begin-ok b s waits fits stores =
    let locked = record b { f_locked = up16 b.f_locked; held = true } in
    let r = squish_read_base_header-ok locked s fits stores in
    let lock : squish_lock_base b ≡ ok tt locked =
      if-false _ _ (ap not (eq→== b.f_locked 0 waits.unlocked)) ∙ if-true _ _ waits.granted in
    if-false _ _ waits.idle
    ∙ (ap (λ l. and_then l (λ _ c. taken_over (squish_read_base_header c))) lock ∙ ap taken_over r)

pub begun-SameBase :
    (a b : Area) (f : File)
    → IsWord a.w_skip_msg
    → SameBase a (begun f (squish_copy_data_to_base a) b)
unfolding squish_copy_base_to_data squish_copy_data_to_base
begun-SameBase a b f word = record {
  num_msg = refl;
  high_msg = refl;
  high_water = refl;
  cb_sqbase = refl;
  cb_sqhdr = refl;
  dw_max_msg = refl;
  w_max_days = refl;
  w_skip_msg = ground (arith, word);
  uid_next = refl;
  fo_first = refl;
  fo_last = refl;
  fo_free = refl;
  fo_last_free = refl;
  fo_end = refl;
}

-- With exclusive access, fields that fit the header and room on the disk, _SquishExclusiveEnd
-- succeeds and gives the access up; then _SquishExclusiveBegin of any user who waits, has the same
-- file open and gets the lock, succeeds, and that user has the counts, the pointers, the limits
-- and the next identifier of the first one.
pub squish_exclusive_begin-squish_exclusive_end :
    (a : Area)
    → a.have_exclusive ≡ true
    → FitsSqbase (squish_copy_data_to_base a)
    → IsWord a.w_skip_msg
    → sqbase_size ≤ a.sfd.room
    → (a' : Area) × (squish_exclusive_end a ≡ ok tt a')
      × (a'.have_exclusive ≡ false)
      × ((b : Area)
          → Waits b
          → b.sfd.bytes ≡ a'.sfd.bytes
          → b.sfd.size ≡ a'.sfd.size
          → (c : Area) × (squish_exclusive_begin b ≡ ok tt c)
            × (c.have_exclusive ≡ true)
            × (c.held ≡ true)
            × SameBase a c)
unfolding squish_copy_base_to_data
squish_exclusive_begin-squish_exclusive_end a have fits word room =
    let s = squish_copy_data_to_base a in
    let (f, w, (big, stored), _) = squish_write_base_header-ok a s fits room in
    let e = unlock-sfd (record a { sfd = f }) in
    (
      ended f a,
      squish_exclusive_end-ok a f have w,
      refl,
      λ b waits bytes size.
          let same_bytes = bytes ∙ ap (λ g. g.bytes) e in
          let same_size = size ∙ ap (λ g. g.size) e in
          let stores : StoresBase b.sfd s = (omega (arith, same_size, big), rw same_bytes stored) in
          (
            begun (past_header b.sfd) s b,
            squish_exclusive_begin-ok b s waits fits stores,
            refl,
            refl,
            begun-SameBase a b (past_header b.sfd) word,
          ),
    )
