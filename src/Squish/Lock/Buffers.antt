-- ===== src/Squish/Lock/Buffers.antt =====
-- What the buffering of the index leaves of the locks of an area, sq_idx.c.
use xmsgapi.Base.{
  Bool, Bool-cases, List, Option, [], false, if◌then◌else◌, inl, inr, leb, none, not, refl, some,
  suc, true, zero, ℕ, ◌*◌, ◌+◌, ◌-◌, ◌/◌, ◌==◌, ◌^◌, ◌∙◌, ◌∷◌, ◌≡◌,
}
use xmsgapi.Base.Cmd.{Run, and_then, fail, modify, ok, pure, stuck}
use xmsgapi.Date.{done}
use xmsgapi.File.{File, seek, set_size}
use xmsgapi.Squish.Area.{Area, Hidx, Merr, Sqidxseg, badf, nods, nomem, seek_ifd, set_err, set_hix}
use xmsgapi.Squish.Index.{
  abandon, delta_between, fill_segs, released, segment_size, squish_begin_buffer, squish_end_buffer,
  write_delta, write_segs,
}
use xmsgapi.Squish.Sqidx.{Sqidx, sqidx_size}

-- The fields of the area on its locks are the same.
pub record SameLocks (a b : Area) : Type 0 where
  pub have : b.have_exclusive ≡ a.have_exclusive
  pub locked : b.f_locked ≡ a.f_locked
  pub func : b.f_lock_func ≡ a.f_lock_func
  pub held : b.held ≡ a.held

-- Another file, index handle and error code.
same_locks :
    {a : Area} {f : File} {x : Hidx} {e : Merr}
    → SameLocks a (record a { ifd = f; hix = x; err = e })
same_locks = record { have = refl; locked = refl; func = refl; held = refl }

SameLocks-trans : {a b c : Area} → SameLocks a b → SameLocks b c → SameLocks a c
SameLocks-trans h k = record {
  have = k.have ∙ h.have;
  locked = k.locked ∙ h.locked;
  func = k.func ∙ h.func;
  held = k.held ∙ h.held;
}

-- The area that a call leaves, however it ends.
abbrev pub Leaves : {A : Type 0} → (Area → Type 0) → Run Area A → Type 0
Leaves P (ok _ b) = P b
Leaves P (fail b) = P b
Leaves P stuck = Unit {0}

Leaves-if :
    {A : Type 0} (P : Area → Type 0) (t : Bool) (x y : Run Area A)
    → Leaves P x
    → Leaves P y
    → Leaves P (if t then x else y)
Leaves-if P true x y h k = h
Leaves-if P false x y h k = k

Leaves-map :
    {A B : Type 0} (a b : Area) (f : A → B) (r : Run Area A)
    → SameLocks a b
    → Leaves (SameLocks b) r
    → Leaves (SameLocks a) (and_then r (λ x. pure (f x)))
Leaves-map a b f (ok x c) h k = SameLocks-trans h k
Leaves-map a b f (fail c) h k = SameLocks-trans h k
Leaves-map a b f stuck h k = tt

-- The end of a round of the loop of _SquishBeginBuffer.
segment_read :
    (a a' : Area) (dw_max : ℕ) (mem : Bool) (got : Option (List Sqidx))
    (rest : Run Area (List Sqidxseg))
    → SameLocks a a'
    → Leaves (SameLocks a') rest
    → Leaves {A = List Sqidxseg} (SameLocks a) (
        if not mem then abandon nomem a else elim got [
          | none ↦ abandon badf a'
          | some rs ↦ and_then rest (λ ss. pure (record { psqi = rs; dw_max = dw_max } ∷ ss))
        ])
segment_read a a' dw_max false got rest h k = same_locks
segment_read a a' dw_max true none rest h k = record {
  have = h.have;
  locked = h.locked;
  func = h.func;
  held = h.held;
}
segment_read a a' dw_max true (some rs) rest h k =
    Leaves-map a a' (λ ss. record { psqi = rs; dw_max = dw_max } ∷ ss) rest h k

fill_segs-SameLocks : (n dw_msgs : ℕ) (a : Area) → Leaves (SameLocks a) (fill_segs n dw_msgs a)
unfolding fill_segs
fill_segs-SameLocks zero dw_msgs a = same_locks
fill_segs-SameLocks (suc n) dw_msgs a =
    segment_read a _ _ a.os.mem _ _ (same_locks {a = a}) (fill_segs-SameLocks n _ _)

filled :
    (a b : Area) (r : Run Area (List Sqidxseg))
    → SameLocks a b
    → Leaves (SameLocks b) r
    → Leaves (SameLocks a) (and_then r (λ ss. modify (set_hix (λ x. record x { segs = ss }))))
filled a b (ok ss c) h k =
    let same = SameLocks-trans h k in
    record { have = same.have; locked = same.locked; func = same.func; held = same.held }
filled a b (fail c) h k = SameLocks-trans h k
filled a b stuck h k = tt

pub squish_begin_buffer-SameLocks : (a : Area) → Leaves (SameLocks a) (squish_begin_buffer a)
unfolding squish_begin_buffer
squish_begin_buffer-SameLocks a =
    let counted = set_hix (λ x. record x { f_buffer = x.f_buffer + 1 }) a in
    let start =
      record (set_hix (λ x. record x { allocated_records = a.ifd.size / sqidx_size }) counted) {
        ifd = seek 0 a.ifd;
      } in
    let rest : Run Area (Unit {0}) =
      and_then (fill_segs (a.num_msg / segment_size + 1) a.num_msg start)
        (λ ss. modify (set_hix (λ x. record x { segs = ss }))) in
    let first : Run Area (Unit {0}) = if not a.os.mem then abandon nomem counted else rest in
    Leaves-if (SameLocks a) (not (a.hix.f_buffer == 0)) (ok tt counted) first same_locks (
      Leaves-if (SameLocks a) (not a.os.mem) (abandon nomem counted) rest same_locks (
        filled a start _ same_locks
          (fill_segs-SameLocks (a.num_msg / segment_size + 1) a.num_msg start)))

wrote_segment :
    (a : Area) (f : File) (touched done : Bool)
    → SameLocks a (
        if touched
        then (if done then record a { ifd = f } else set_err nods (record a { ifd = f }))
        else a)
wrote_segment a f true true = same_locks
wrote_segment a f true false = same_locks
wrote_segment a f false done = same_locks

write_segs-SameLocks :
    (ss : List Sqidxseg) (dw_start lo hi : ℕ) (rc : Bool) (a : Area)
    → SameLocks a (write_segs ss dw_start lo hi rc a).1
unfolding write_segs
write_segs-SameLocks [] dw_start lo hi rc a = same_locks
write_segs-SameLocks (s ∷ ss) dw_start lo hi rc a =
    SameLocks-trans (wrote_segment a _ _ _) (write_segs-SameLocks ss _ lo hi _ _)

seek_ifd-SameLocks : (ofs : ℕ) (a : Area) → SameLocks a (seek_ifd ofs a)
seek_ifd-SameLocks ofs a = elim (Bool-cases (leb (2 ^ 31) ofs)) [
  | inl e ↦ rw e same_locks
  | inr e ↦ rw e same_locks
]

delta_written : (a : Area) (lo hi : Option ℕ) → SameLocks a (delta_between a lo hi).1
unfolding delta_between
delta_written a none hi = same_locks
delta_written a (some l) none = same_locks
delta_written a (some l) (some h) =
    SameLocks-trans (seek_ifd-SameLocks ((l - 1) * sqidx_size) a)
      (write_segs-SameLocks a.hix.segs 1 l h true (seek_ifd ((l - 1) * sqidx_size) a))

freed :
    (a b : Area) (w : Bool × Area)
    → SameLocks a b
    → SameLocks b w.1
    → Leaves (SameLocks a) (released w)
freed a b (true, c) h k =
    let s = SameLocks-trans h k in
    record { have = s.have; locked = s.locked; func = s.func; held = s.held }
freed a b (false, c) h k =
    let s = SameLocks-trans h k in
    record { have = s.have; locked = s.locked; func = s.func; held = s.held }

pub squish_end_buffer-SameLocks : (a : Area) → Leaves (SameLocks a) (squish_end_buffer a)
unfolding squish_end_buffer write_delta
squish_end_buffer-SameLocks a =
    let left = set_hix (λ x. record x { f_buffer = x.f_buffer - 1 }) a in
    let cut = record left { ifd = set_size (a.num_msg * sqidx_size) a.ifd } in
    let last : Run Area (Unit {0}) = released (write_delta cut) in
    let more : Run Area (Unit {0}) = if not (a.hix.f_buffer == 1) then ok tt left else last in
    Leaves-if (SameLocks a) (a.hix.f_buffer == 0) (fail a) more same_locks (
      Leaves-if (SameLocks a) (not (a.hix.f_buffer == 1)) (ok tt left) last same_locks (
        freed a cut (write_delta cut) same_locks (delta_written cut a.hix.delta_lo a.hix.delta_hi)))
