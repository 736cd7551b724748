-- ===== src/Squish/Open.antt =====
-- Opening and closing an area: sq_area.c. An area starts from the files of a disk, and the
-- Squish part of its handle from zeros.
pub mod Created
pub mod Kept
use xmsgapi.Base.{Bool, Option, false, if◌then◌else◌, none, some, true, ℕ, ◌&&◌, ◌==◌, ◌||◌}
use xmsgapi.Base.Cmd.{Cmd, Run, and_then, fail, lift, modify, ok, stuck, ◌>>=◌, ◌>>◌}
use xmsgapi.File.{File, seek}
use xmsgapi.Squish.Area.{Area, Merr, Os, badf, no_error, noent, refuse}
use xmsgapi.Squish.BaseHeader.{Sqbase, base_is_bad, fill_base_header}
use xmsgapi.Squish.Header.{null_frame}
use xmsgapi.Squish.Index.{squish_open_index}
use xmsgapi.Squish.Lock.{
  squish_copy_base_to_data, squish_read_base_header, squish_write_base_header,
}
use xmsgapi.Squish.Uid.{uid_next}

-- The data file and the index file of a base, where they can be opened, and whether the system
-- lets each be created or cut to length 0; `room` is the size to which a new file may grow.
pub record Disk : Type 0 where
  pub sqd : Option File
  pub sqi : Option File
  pub creates_sqd : Bool
  pub creates_sqi : Bool
  pub room : ℕ

-- A base on the disk with the handle that is being opened for it.
pub record Site : Type 0 where
  pub disk : Disk
  pub ha : Area

abbrev pub on_handle_of : {A : Type 0} → Cmd Area A → Cmd Site A
on_handle_of = lift (λ s. s.ha) (λ a s. record s { ha = a })

abbrev pub empty_file : ℕ → File
empty_file room = record { bytes = λ _. 0; size = 0; pos = 0; room = room }

-- NewHarea, with the memory of `_sqdata` set to zeros and the index handle of _SquishOpenIndex.
-- `f_first` and the like are zeros, and so are the files until they are opened.
unfoldable pub new_harea : Os → Area
new_harea os = record {
  num_msg = 0;
  cur_msg = 0;
  high_msg = 0;
  high_water = 0;
  cb_sqbase = 0;
  cb_sqhdr = 0;
  dw_max_msg = 0;
  w_max_days = 0;
  w_skip_msg = 0;
  dw_high_water = 0;
  uid_next = 0;
  fo_first = null_frame;
  fo_last = null_frame;
  fo_free = null_frame;
  fo_last_free = null_frame;
  fo_end = null_frame;
  fo_next = null_frame;
  fo_prev = null_frame;
  fo_cur = null_frame;
  have_exclusive = false;
  f_locked = 0;
  f_lock_func = 0;
  sfd = empty_file 0;
  ifd = empty_file 0;
  hix = squish_open_index;
  held = false;
  err = no_error;
  os = os;
}

-- `sopen`, with O_CREAT | O_TRUNC or without.
unfoldable pub sopen : Bool → Bool → ℕ → Option File → Option File
sopen true creates room f = if creates then some (empty_file room) else none
sopen false creates room none = none
sopen false creates room (some f) = some (seek 0 f)

-- What is left on the disk of a file that `sopen` has opened or not.
abbrev pub left_of : Option File → Option File → Option File
left_of none before = before
left_of (some f) before = some f

abbrev pub no_ent : {A : Type 0} → Cmd Site A
no_ent = on_handle_of (refuse noent)

-- The second half of _SquishOpenBaseFiles, the index file.
abbrev pub open_sqi : Option File → Cmd Site (Unit {0})
open_sqi none = no_ent
open_sqi (some f) = modify (λ s. record s { ha = record (s.ha) { ifd = f } })

abbrev pub open_sqd : Option File → Option File → Cmd Site (Unit {0})
open_sqd none i s = no_ent s
open_sqd (some f) i s = open_sqi i (record {
  ha = record (s.ha) { sfd = f };
  disk = record (s.disk) { sqd = some f; sqi = left_of i s.disk.sqi };
})

-- _SquishOpenBaseFiles: the mode is O_CREAT | O_TRUNC or 0. The names of the files and the
-- directories that are made for them stand for themselves.
unfoldable pub squish_open_base_files : Bool → Cmd Site (Unit {0})
unfolding sopen
squish_open_base_files creat s =
    open_sqd (sopen creat s.disk.creates_sqd s.disk.room s.disk.sqd)
      (sopen creat s.disk.creates_sqi s.disk.room s.disk.sqi) s

-- _SquishCloseBaseFiles: what was written is on the disk.
unfoldable pub squish_close_base_files : Site → Site
squish_close_base_files s = record s {
  disk = record (s.disk) { sqd = some s.ha.sfd; sqi = some s.ha.ifd };
}

-- _SquishUnlinkBaseFiles, for the two files of a base.
unfoldable pub squish_unlink_base_files : Site → Site
squish_unlink_base_files s = record s { disk = record (s.disk) { sqd = none; sqi = none } }

-- _SquishSetBaseDefaults.
unfoldable pub squish_set_base_defaults : Area → Area
squish_set_base_defaults a = record a {
  fo_next = a.fo_first;
  fo_cur = null_frame;
  fo_prev = null_frame;
  cur_msg = 0;
}

-- _SquishValidateBaseHeader.
unfoldable pub squish_validate_base_header : Sqbase → Cmd Area (Unit {0})
squish_validate_base_header b a = if base_is_bad b then refuse badf a else ok tt a

-- _SquishCopyBaseToData and _SquishSetBaseDefaults.
unfoldable pub take_base : Sqbase → Cmd Area (Unit {0})
unfolding squish_set_base_defaults
take_base b = do modify (squish_copy_base_to_data b); modify squish_set_base_defaults

-- `if (...) { the files are given up; return FALSE; }`
abbrev pub or_else : (Site → Site) → Run Site (Unit {0}) → Run Site (Unit {0})
or_else undo (ok _ s) = ok tt s
or_else undo (fail s) = fail (undo s)
or_else undo stuck = stuck

-- _SquishCreateNewBase.
unfoldable pub squish_create_new_base : Cmd Site (Unit {0})
unfolding squish_open_base_files take_base
squish_create_new_base s = and_then (squish_open_base_files true s) (λ _ t.
    or_else (λ u. squish_unlink_base_files (squish_close_base_files u))
      (on_handle_of (do squish_write_base_header fill_base_header; take_base fill_base_header) t))

-- _SquishOpenExistingBase.
unfoldable pub squish_open_existing_base : Cmd Site (Unit {0})
unfolding squish_open_base_files take_base squish_validate_base_header
squish_open_existing_base s = and_then (squish_open_base_files false s) (λ _ t.
    or_else squish_close_base_files
      (on_handle_of (do b ← squish_read_base_header; squish_validate_base_header b; take_base b) t))

abbrev pub msgarea_normal : ℕ
msgarea_normal = 0

abbrev pub msgarea_create : ℕ
msgarea_create = 1

abbrev pub msgarea_crifnec : ℕ
msgarea_crifnec = 2

abbrev pub is_noent : Merr → Bool
is_noent noent = true
is_noent _ = false

-- "If we want to create a new area, try that now".
abbrev pub create_if : ℕ → Run Site (Unit {0}) → Run Site (Unit {0})
create_if w_mode (ok _ s) = ok tt s
create_if w_mode (fail s) =
    if is_noent s.ha.err && (w_mode == msgarea_create || w_mode == msgarea_crifnec)
    then squish_create_new_base s
    else fail s
create_if w_mode stuck = stuck

-- "If we want to open an existing area, try it here".
unfoldable pub try_existing : ℕ → Cmd Site (Unit {0})
unfolding squish_open_existing_base
try_existing w_mode =
    if w_mode == msgarea_normal || w_mode == msgarea_crifnec
    then squish_open_existing_base
    else no_ent

-- SquishOpenArea, where `malloc` gives the memory for the handle: the handle, or the refusal.
unfoldable pub squish_open_area : ℕ → Os → Disk → Run Site (Unit {0})
unfolding try_existing squish_create_new_base
squish_open_area w_mode os d =
    if os.mem
    then create_if w_mode (try_existing w_mode (record { disk = d; ha = new_harea os }))
    else fail (record { disk = d; ha = new_harea os })
