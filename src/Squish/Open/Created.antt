-- ===== src/Squish/Open/Created.antt =====
-- A base that SquishOpenArea creates, and that it opens again.
use xmsgapi.Base.{arith, false, refl, some, true, ◌≡◌, ◌≤◌}
use xmsgapi.Base.Cmd.{ok}
use xmsgapi.File.{File, seek}
use xmsgapi.Squish.Area.{Area, Os, noent, set_err}
use xmsgapi.Squish.BaseHeader.{Sqbase, base_is_bad, fill_base_header, sqbase_size}
use xmsgapi.Squish.BaseHeader.RoundTrip.{FitsSqbase}
use xmsgapi.Squish.Header.{null_frame}
use xmsgapi.Squish.Lock.{
  squish_copy_base_to_data, squish_read_base_header, squish_write_base_header,
}
use xmsgapi.Squish.Lock.Laws.{
  SameBase, past_header, squish_read_base_header-ok, squish_write_base_header-ok,
}
use xmsgapi.Squish.Open.{
  Disk, Site, empty_file, msgarea_create, msgarea_normal, new_harea, sopen, squish_close_base_files,
  squish_create_new_base, squish_open_area, squish_open_base_files, squish_open_existing_base,
  squish_set_base_defaults, squish_validate_base_header, take_base, try_existing,
}

pub fill_base_header-Fits : FitsSqbase fill_base_header
unfolding fill_base_header
fill_base_header-Fits = record {
  len = omega arith;
  rsvd1 = omega arith;
  num_msg = omega arith;
  high_msg = omega arith;
  skip_msg = omega arith;
  high_water = omega arith;
  uid = omega arith;
  base = refl;
  begin_frame = omega arith;
  last_frame = omega arith;
  free_frame = omega arith;
  last_free_frame = omega arith;
  end_frame = omega arith;
  max_msg = omega arith;
  keep_days = omega arith;
  sz_sqhdr = omega arith;
  rsvd2 = refl;
}

-- The area `a` of a base whose header is `b`, with its files.
abbrev pub opened : Sqbase → File → File → Area → Area
opened b f i a =
    squish_set_base_defaults (squish_copy_base_to_data b (record a { sfd = f; ifd = i }))

-- The handle before the files are opened, after a refusal that let the base be created.
abbrev pub unopened : Os → Area
unopened os = set_err noent (new_harea os)

created_steps :
    (os : Os) (d : Disk) (f : File)
    → os.mem ≡ true
    → d.creates_sqd ≡ true
    → d.creates_sqi ≡ true
    → squish_write_base_header fill_base_header
        (record (unopened os) { sfd = empty_file d.room; ifd = empty_file d.room })
      ≡ ok tt (record (unopened os) { sfd = f; ifd = empty_file d.room })
    → squish_open_area msgarea_create os d
      ≡ ok tt (record {
        disk = record d { sqd = some (empty_file d.room); sqi = some (empty_file d.room) };
        ha = opened fill_base_header f (empty_file d.room) (unopened os);
      })
unfolding squish_open_area try_existing squish_create_new_base squish_open_base_files sopen
    take_base
created_steps os d f mem cd ci w = simp (mem, cd, ci, w)

existing_steps :
    (os : Os) (d : Disk) (f i g : File) (b : Sqbase)
    → os.mem ≡ true
    → d.sqd ≡ some f
    → d.sqi ≡ some i
    → squish_read_base_header (record (new_harea os) { sfd = seek 0 f; ifd = seek 0 i })
      ≡ ok b (record (new_harea os) { sfd = g; ifd = seek 0 i })
    → base_is_bad b ≡ false
    → squish_open_area msgarea_normal os d
      ≡ ok tt (record {
        disk = record d { sqd = some (seek 0 f); sqi = some (seek 0 i) };
        ha = opened b g (seek 0 i) (new_harea os);
      })
unfolding squish_open_area try_existing squish_open_existing_base squish_open_base_files sopen
    take_base squish_validate_base_header
existing_steps os d f i g b mem fd fi r good = simp (mem, fd, fi, r, good)

fill_base_header-good : base_is_bad fill_base_header ≡ false
unfolding base_is_bad fill_base_header
fill_base_header-good = refl

opened-SameBase :
    (f i g j : File) (a b : Area)
    → SameBase (opened fill_base_header f i a) (opened fill_base_header g j b)
unfolding squish_set_base_defaults squish_copy_base_to_data
opened-SameBase f i g j a b = record {
  num_msg = refl;
  high_msg = refl;
  high_water = refl;
  cb_sqbase = refl;
  cb_sqhdr = refl;
  dw_max_msg = refl;
  w_max_days = refl;
  w_skip_msg = refl;
  uid_next = refl;
  fo_first = refl;
  fo_last = refl;
  fo_free = refl;
  fo_last_free = refl;
  fo_end = refl;
}

-- An area with no message, no frame and the first identifier, placed before its first message.
pub record IsEmpty (a : Area) : Type 0 where
  pub num_msg : a.num_msg ≡ 0
  pub cur_msg : a.cur_msg ≡ 0
  pub uid_next : a.uid_next ≡ 1
  pub frames : (a.fo_first ≡ null_frame) × (a.fo_last ≡ null_frame)
  pub free : (a.fo_free ≡ null_frame) × (a.fo_last_free ≡ null_frame)
  pub fo_end : a.fo_end ≡ sqbase_size

pub opened-IsEmpty : (f i : File) (a : Area) → IsEmpty (opened fill_base_header f i a)
unfolding squish_set_base_defaults squish_copy_base_to_data fill_base_header
opened-IsEmpty f i a = record {
  num_msg = refl;
  cur_msg = refl;
  uid_next = refl;
  frames = (refl, refl);
  free = (refl, refl);
  fo_end = refl;
}

-- Where there is memory, both files can be created and the disk has room for the header,
-- SquishOpenArea with MSGAREA_CREATE succeeds and gives an empty area. After its files are closed,
-- SquishOpenArea with MSGAREA_NORMAL opens them, for any user with memory: an empty area with the
-- same counts, pointers, limits and next identifier.
pub squish_open_area-created :
    (os : Os) (d : Disk)
    → os.mem ≡ true
    → d.creates_sqd ≡ true
    → d.creates_sqi ≡ true
    → sqbase_size ≤ d.room
    → (s : Site) × (squish_open_area msgarea_create os d ≡ ok tt s)
      × IsEmpty s.ha
      × ((os' : Os)
          → os'.mem ≡ true
          → (s' : Site) × (squish_open_area msgarea_normal os' (squish_close_base_files s).disk
              ≡ ok tt s')
            × IsEmpty s'.ha
            × SameBase s.ha s'.ha)
unfolding squish_close_base_files seek squish_set_base_defaults squish_copy_base_to_data
squish_open_area-created os d mem cd ci room =
    let fits = fill_base_header-Fits in
    let empty = empty_file d.room in
    let (f, w, stores, _) =
      squish_write_base_header-ok (record (unopened os) { sfd = empty; ifd = empty })
        fill_base_header fits room in
    (
      _,
      created_steps os d f mem cd ci w,
      opened-IsEmpty f empty (unopened os),
      λ os' mem'.
          let at = record (new_harea os') { sfd = seek 0 f; ifd = seek 0 empty } in
          let g = past_header (seek 0 f) in
          let r = squish_read_base_header-ok at fill_base_header fits stores in
          (
            _,
            existing_steps os' _ f empty g fill_base_header mem' refl refl r fill_base_header-good,
            opened-IsEmpty g (seek 0 empty) (new_harea os'),
            opened-SameBase f empty g (seek 0 empty) (unopened os) (new_harea os'),
          ),
    )
