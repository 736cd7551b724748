-- ===== src/Squish/Tests/Areas.antt =====
-- Runs of the opening of areas.
use xmsgapi.Base.{arith, false, none, refl, some, true, ◌≡◌}
use xmsgapi.Base.Cmd.{ok}
use xmsgapi.File.{File, window}
use xmsgapi.Squish.Area.{Os}
use xmsgapi.Squish.BaseHeader.{encode_sqbase, fill_base_header}
use xmsgapi.Squish.Lock.Laws.{SameBase}
use xmsgapi.Squish.Open.{
  Disk, Site, msgarea_create, msgarea_crifnec, msgarea_normal, squish_close_base_files,
  squish_open_area,
}
use xmsgapi.Squish.Open.Created.{IsEmpty, squish_open_area-created}
use xmsgapi.Squish.Open.Kept.{KeepsFiles, squish_open_area-KeepsFiles, squish_open_area-lost}

abbrev willing : Os
willing = record { mem = true; lock_granted = true; haveshare = true; errno_shared = false }

abbrev blank_disk : Disk
blank_disk = record {
  sqd = none;
  sqi = none;
  creates_sqd = true;
  creates_sqi = true;
  room = 100_000;
}

abbrev damaged : File
damaged = record { bytes = λ q. q; size = 10; pos = 0; room = 100_000 }

-- The data file of a base that is damaged, and an index file.
abbrev damaged_disk : Disk
damaged_disk = record blank_disk { sqd = some damaged; sqi = some damaged }

created_example :
    (s : Site) × (squish_open_area msgarea_create willing blank_disk ≡ ok tt s)
    × IsEmpty s.ha
    × ((os' : Os)
        → os'.mem ≡ true
        → (s' : Site) × (squish_open_area msgarea_normal os' (squish_close_base_files s).disk
            ≡ ok tt s')
          × IsEmpty s'.ha
          × SameBase s.ha s'.ha)
created_example = squish_open_area-created willing blank_disk refl refl refl (omega arith)

kept_example : KeepsFiles damaged damaged (squish_open_area msgarea_crifnec willing damaged_disk)
kept_example = squish_open_area-KeepsFiles willing damaged_disk damaged damaged refl refl

lost_example :
    (s : Site) × (squish_open_area msgarea_crifnec willing (record damaged_disk { sqi = none })
      ≡ ok tt s)
    × IsEmpty s.ha
    × (s.ha.sfd.size ≡ 256)
    × (window s.ha.sfd.bytes 0 256 ≡ encode_sqbase fill_base_header)
lost_example =
    squish_open_area-lost willing (record damaged_disk { sqi = none }) damaged refl refl refl refl
      refl (omega arith)
