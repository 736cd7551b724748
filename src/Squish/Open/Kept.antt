-- ===== src/Squish/Open/Kept.antt =====
-- What SquishOpenArea with MSGAREA_CRIFNEC does to the files that are there.
use mathlib.Core.Path.{subst}
use xmsgapi.Base.{
  Bool, Bool-cases, Option, ap, arith, false, if◌then◌else◌, inl, inr, none, refl, some, sym, true,
  ℕ, ◌∙◌, ◌≡◌, ◌≤◌,
}
use xmsgapi.Base.Cmd.{Cmd, Run, and_then, fail, lifted, ok, stuck, ◌>>=◌, ◌>>◌}
use xmsgapi.File.{File, overlay, read, seek, window}
use xmsgapi.File.Laws.{window-overlay_self, write_all}
use xmsgapi.Squish.Area.{Area, Os, badf, share}
use xmsgapi.Squish.BaseHeader.{
  Sqbase, base_is_bad, encode_sqbase, fill_base_header, read_sqbase, sqbase_size, write_sqbase,
}
use xmsgapi.Squish.BaseHeader.RoundTrip.{length-encode_sqbase}
use xmsgapi.Squish.Lock.{
  base_or_err, squish_copy_base_to_data, squish_read_base_header, squish_write_base_header,
}
use xmsgapi.Squish.Open.{
  Disk, Site, create_if, empty_file, is_noent, msgarea_crifnec, new_harea, on_handle_of, or_else,
  sopen, squish_close_base_files, squish_create_new_base, squish_open_area, squish_open_base_files,
  squish_open_existing_base, squish_set_base_defaults, squish_validate_base_header, take_base,
  try_existing,
}
use xmsgapi.Squish.Open.Created.{IsEmpty, fill_base_header-Fits, opened, opened-IsEmpty, unopened}

-- The files of a base have the bytes of `f` and `i`: on the disk, and in the handle if it is open.
abbrev pub OnDisk : File → Option File → Type 0
OnDisk f none = ⊥
OnDisk f (some g) = (g.bytes ≡ f.bytes) × (g.size ≡ f.size)

abbrev pub KeepsFiles : File → File → Run Site (Unit {0}) → Type 0
KeepsFiles f i (ok _ s) = OnDisk f (some s.ha.sfd) × OnDisk i (some s.ha.ifd)
KeepsFiles f i (fail s) = OnDisk f s.disk.sqd × OnDisk i s.disk.sqi
KeepsFiles f i stuck = ⊥

-- What the reading and the checking of the header leave of a handle, which is not MERR_NOENT.
abbrev Checked : File → File → Run Area (Unit {0}) → Type 0
Checked f i (ok _ a) = OnDisk f (some a.sfd) × OnDisk i (some a.ifd)
Checked f i (fail a) = OnDisk f (some a.sfd) × OnDisk i (some a.ifd) × (is_noent a.err ≡ false)
Checked f i stuck = ⊥

-- The rest of _SquishOpenExistingBase, from the header on.
abbrev checking : Sqbase → Cmd Area (Unit {0})
checking b = squish_validate_base_header b >> take_base b

refused_read : (t : Bool) → is_noent (if t then share else badf) ≡ false
refused_read true = refl
refused_read false = refl

module _ (f i : File) where
  validated :
      (a : Area) (b : Sqbase)
      → OnDisk f (some a.sfd)
      → OnDisk i (some a.ifd)
      → Checked f i (checking b a)
  unfolding squish_validate_base_header take_base squish_set_base_defaults squish_copy_base_to_data
  validated a b same_f same_i = elim (Bool-cases (base_is_bad b)) [
    | inl e ↦ rw e (same_f, same_i, refl)
    | inr e ↦ rw e (same_f, same_i)
  ]

  header_cases :
      (a : Area) (got : Option Sqbase)
      → OnDisk f (some a.sfd)
      → OnDisk i (some a.ifd)
      → Checked f i (and_then (base_or_err got a) checking)
  header_cases a none same_f same_i = (same_f, same_i, refused_read a.os.errno_shared)
  header_cases a (some b) same_f same_i = validated a b same_f same_i

  checked :
      (a : Area)
      → OnDisk f (some a.sfd)
      → OnDisk i (some a.ifd)
      → Checked f i (and_then (squish_read_base_header a) checking)
  unfolding squish_read_base_header read_sqbase read seek
  checked a same_f same_i =
      header_cases (record a { sfd = (read_sqbase (seek 0 a.sfd)).1 })
        (read_sqbase (seek 0 a.sfd)).0 same_f same_i

  outcome :
      (s : Site) (r : Run Area (Unit {0}))
      → Checked f i r
      → KeepsFiles f i (
          create_if msgarea_crifnec
            (or_else squish_close_base_files (lifted (λ t. t.ha) (λ a t. record t { ha = a }) s r)))
  unfolding squish_close_base_files
  outcome s (ok _ a) h = h
  outcome s (fail a) (x, y, e) = rw e (x, y)
  outcome s stuck h = h

  -- The files, opened.
  abbrev opened_site : Disk → Os → Site
  opened_site d os = record {
    disk = record d { sqd = some (seek 0 f); sqi = some (seek 0 i) };
    ha = record (new_harea os) { sfd = seek 0 f; ifd = seek 0 i };
  }

  existing_run :
      (os : Os) (d : Disk)
      → os.mem ≡ true
      → d.sqd ≡ some f
      → d.sqi ≡ some i
      → squish_open_area msgarea_crifnec os d
        ≡ create_if msgarea_crifnec (
            or_else squish_close_base_files
              (on_handle_of (squish_read_base_header >>= checking) (opened_site d os)))
  unfolding squish_open_area try_existing squish_open_existing_base squish_open_base_files sopen
  existing_run os d mem fd fi = simp (mem, fd, fi)

-- Where both files of a base can be opened, SquishOpenArea with MSGAREA_CRIFNEC leaves their bytes
-- as they are, whatever they hold: the area is opened with them, or the files stay on the disk. So
-- a base that is damaged is refused, and no new one is put in its place.
pub squish_open_area-KeepsFiles :
    (os : Os) (d : Disk) (f i : File)
    → d.sqd ≡ some f
    → d.sqi ≡ some i
    → KeepsFiles f i (squish_open_area msgarea_crifnec os d)
unfolding squish_open_area seek
squish_open_area-KeepsFiles os d f i fd fi = elim (Bool-cases os.mem) [
  | inl e ↦ subst (KeepsFiles f i) (sym (existing_run f i os d e fd fi)) (
      outcome f i (opened_site f i d os) _
        (checked f i (opened_site f i d os).ha (refl, refl) (refl, refl)))
  | inr e ↦ rw (e, fd, fi) ((refl, refl), (refl, refl))
]

-- The header of a new base, alone in its file.
abbrev new_file : ℕ → File
new_file room = record {
  bytes = overlay (λ _. 0) 0 (encode_sqbase fill_base_header);
  size = sqbase_size;
  pos = sqbase_size;
  room = room;
}

new_file-written :
    (a : Area) (room : ℕ)
    → sqbase_size ≤ room
    → squish_write_base_header fill_base_header (record a { sfd = empty_file room })
      ≡ ok tt (record a { sfd = new_file room })
unfolding squish_write_base_header write_sqbase seek
new_file-written a room enough =
    let n = length-encode_sqbase fill_base_header fill_base_header-Fits in
    rw (
      write_all (encode_sqbase fill_base_header) (empty_file room) (omega (arith, n))
          (omega (arith, n, enough)),
      n,
    )

new_file-header :
    (room : ℕ) → window (new_file room).bytes 0 sqbase_size ≡ encode_sqbase fill_base_header
new_file-header room =
    let n = length-encode_sqbase fill_base_header fill_base_header-Fits in
    ap (window (new_file room).bytes 0) (sym n)
    ∙ window-overlay_self (λ _. 0) 0 (encode_sqbase fill_base_header)

lost_run :
    (os : Os) (d : Disk) (f : File)
    → os.mem ≡ true
    → d.sqd ≡ some f
    → d.sqi ≡ none
    → d.creates_sqd ≡ true
    → d.creates_sqi ≡ true
    → (g : File)
    → squish_write_base_header fill_base_header
        (record (unopened os) { sfd = empty_file d.room; ifd = empty_file d.room })
      ≡ ok tt (record (unopened os) { sfd = g; ifd = empty_file d.room })
    → squish_open_area msgarea_crifnec os d
      ≡ ok tt (record {
        disk = record d { sqd = some (empty_file d.room); sqi = some (empty_file d.room) };
        ha = opened fill_base_header g (empty_file d.room) (unopened os);
      })
unfolding squish_open_area try_existing squish_create_new_base squish_open_existing_base
    squish_open_base_files sopen take_base
lost_run os d f mem fd fi cd ci g w = simp (mem, fd, fi, cd, ci, w)

-- Where the data file of a base is there and the index file is not, SquishOpenArea with
-- MSGAREA_CRIFNEC creates a new base in its place, if it can create the two files: the area is
-- empty, and its data file holds the new header and nothing else.
pub squish_open_area-lost :
    (os : Os) (d : Disk) (f : File)
    → os.mem ≡ true
    → d.sqd ≡ some f
    → d.sqi ≡ none
    → d.creates_sqd ≡ true
    → d.creates_sqi ≡ true
    → sqbase_size ≤ d.room
    → (s : Site) × (squish_open_area msgarea_crifnec os d ≡ ok tt s)
      × IsEmpty s.ha
      × (s.ha.sfd.size ≡ sqbase_size)
      × (window s.ha.sfd.bytes 0 sqbase_size ≡ encode_sqbase fill_base_header)
unfolding squish_set_base_defaults squish_copy_base_to_data
squish_open_area-lost os d f mem fd fi cd ci room =
    let empty = empty_file d.room in
    (
      _,
      lost_run os d f mem fd fi cd ci (new_file d.room)
          (new_file-written (record (unopened os) { ifd = empty }) d.room room),
      opened-IsEmpty (new_file d.room) empty (unopened os),
      refl,
      new_file-header d.room,
    )
