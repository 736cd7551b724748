-- ===== src/Squish/Area.antt =====
-- The state of an open area: `struct _msgapi` of msgapi.h together with its private part
-- `struct _sqdata` and the index handle of api_sq.h, the two open files, and `msgapierr`.
use xmsgapi.Base.{Bool, List, Option, if◌then◌else◌, leb, ℕ, ◌^◌}
use xmsgapi.Base.Cmd.{Cmd, fail, ok}
use xmsgapi.File.{File, seek}
use xmsgapi.Squish.Sqidx.{Sqidx}

-- The codes MERR_xxx of msgapi.h.
pub data Merr : Type 0 where
  no_error badh badf nomem nods noent bada eopen nolock share eacces badmsg toobig : Merr

-- SQIDXSEG: `dwUsed` is the length of `psqi`, the entries in use.
pub record Sqidxseg : Type 0 where
  pub psqi : List Sqidx
  pub dw_max : ℕ

-- HIDX. The two deltas are -1 while nothing has changed, which is `none`.
pub record Hidx : Type 0 where
  pub allocated_records : ℕ
  pub delta_lo : Option ℕ
  pub delta_hi : Option ℕ
  pub f_buffer : ℕ
  pub segs : List Sqidxseg

-- What the operating system answers: whether `malloc` gives memory, whether the lock on byte 0 of
-- the file is granted, and whether the system shares files at all (`mi.haveshare`), and whether
-- `errno` is EACCES or -1 behind a header that was not read.
pub record Os : Type 0 where
  pub mem : Bool
  pub lock_granted : Bool
  pub haveshare : Bool
  pub errno_shared : Bool

pub record Area : Type 0 where
  -- struct _msgapi
  pub num_msg : ℕ
  pub cur_msg : ℕ
  pub high_msg : ℕ
  pub high_water : ℕ
  -- struct _sqdata
  pub cb_sqbase : ℕ
  pub cb_sqhdr : ℕ
  pub dw_max_msg : ℕ
  pub w_max_days : ℕ
  pub w_skip_msg : ℕ
  pub dw_high_water : ℕ
  pub uid_next : ℕ
  pub fo_first : ℕ
  pub fo_last : ℕ
  pub fo_free : ℕ
  pub fo_last_free : ℕ
  pub fo_end : ℕ
  pub fo_next : ℕ
  pub fo_prev : ℕ
  pub fo_cur : ℕ
  pub have_exclusive : Bool
  pub f_locked : ℕ
  pub f_lock_func : ℕ
  pub sfd : File
  pub ifd : File
  pub hix : Hidx
  -- outside of the area
  pub held : Bool
  pub err : Merr
  pub os : Os

-- `msgapierr = e`
abbrev pub set_err : Merr → Area → Area
set_err e a = record a { err = e }

-- `msgapierr = e; return FALSE;`
abbrev pub refuse : {A : Type 0} → Merr → Cmd Area A
refuse e a = fail (set_err e a)

-- `if (lseek(sfd, ofs, SEEK_SET) != ofs) { msgapierr = e; return FALSE; }`: `lseek` refuses a
-- negative offset.
abbrev pub seek_sfd : Merr → ℕ → Cmd Area (Unit {0})
seek_sfd e ofs a =
    if leb (2 ^ 31) ofs then refuse e a else ok tt (record a { sfd = seek ofs a.sfd })

-- The same without the test, on the index file: a refused `lseek` leaves the position.
abbrev pub seek_ifd : ℕ → Area → Area
seek_ifd ofs a = if leb (2 ^ 31) ofs then a else record a { ifd = seek ofs a.ifd }

-- `hix->field = ...`
abbrev pub set_hix : (Hidx → Hidx) → Area → Area
set_hix f a = record a { hix = f a.hix }
