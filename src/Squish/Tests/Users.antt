-- ===== src/Squish/Tests/Users.antt =====
-- Runs of several users of a base.
use xmsgapi.Base.{arith, false, refl, true, ◌<◌, ◌^◌, ◌≡◌, ◌≤◌}
use xmsgapi.Base.Cmd.{fail, ok}
use xmsgapi.File.{available, overlay, read, seek, window}
use xmsgapi.Putword.{get_dword, get_word}
use xmsgapi.Squish.Area.{Area}
use xmsgapi.Squish.BaseHeader.{decode_sqbase, read_sqbase}
use xmsgapi.Squish.BaseHeader.RoundTrip.{FitsSqbase}
use xmsgapi.Squish.Lock.{
  api_squish_lock, squish_copy_base_to_data, squish_copy_data_to_base, squish_exclusive_begin,
  squish_lock_base, squish_read_base_header,
}
use xmsgapi.Squish.Lock.Failed.{api_squish_lock-Refused}
use xmsgapi.Squish.Lock.Handover.{Reach-handover}
use xmsgapi.Squish.Lock.Laws.{SameBase}
use xmsgapi.Squish.Lock.Local.{state_after}
use xmsgapi.Squish.Lock.Users.{
  IsStart, Reach, Reach-exclusive, Step, System, after_call, begin, seen, start, stepped,
}
use xmsgapi.Squish.Tests.Sample.{sample, sample_bytes}

abbrev user : Area
user = record sample {
  have_exclusive = false;
  sfd = record { bytes = sample_bytes; size = 690; pos = 0; room = 100_000 };
}

abbrev idle_system : System
idle_system = record { base = user.sfd; users = λ _. user }

idle-IsStart : IsStart idle_system
idle-IsStart = record {
  idle = λ _. refl;
  unlocked = λ _. refl;
  uncalled = λ _. refl;
  free = λ _. refl;
}

-- User 0 has begun.
abbrev first_in : System
first_in =
    after_call idle_system 0
      (state_after (seen user.sfd true user) (squish_exclusive_begin (seen user.sfd true user)))

first-Step : Step idle_system 0 first_in
first-Step = begin true (λ _ j ne. refl) refl

first_reached : Reach first_in
first_reached = stepped 0 (start idle-IsStart) first-Step

first_has : (first_in.users 0).have_exclusive ≡ true
unfolding squish_exclusive_begin squish_lock_base squish_read_base_header read_sqbase read seek
    squish_copy_base_to_data window available
first_has = refl

exclusive_users_example : (first_in.users 1).have_exclusive ≡ false
exclusive_users_example =
    Reach-exclusive 0 1 first_reached first_has (λ e. absurd (omega (arith, e)))

lock_refused_example :
    (b : Area) × (api_squish_lock (record user {
      os = record { mem = true; lock_granted = false; haveshare = true; errno_shared = false };
    })
      ≡ fail b)
    × ((c : Area) × (api_squish_lock b ≡ ok tt c) × (c.held ≡ false) × (c.f_locked ≡ 0))
lock_refused_example =
    api_squish_lock-Refused
      (record user {
        os = record { mem = true; lock_granted = false; haveshare = true; errno_shared = false };
      })
      refl refl refl refl

first_fits : FitsSqbase (squish_copy_data_to_base (first_in.users 0))
unfolding squish_copy_data_to_base squish_exclusive_begin squish_lock_base squish_read_base_header
    read_sqbase read seek squish_copy_base_to_data window available decode_sqbase get_word get_dword
    overlay
first_fits = record {
  len = omega arith;
  rsvd1 = omega arith;
  num_msg = omega arith;
  high_msg = omega arith;
  skip_msg = omega arith;
  high_water = omega arith;
  uid = omega arith;
  base = refl;
  begin_frame = omega arith;
  last_frame = omega arith;
  free_frame = omega arith;
  last_free_frame = omega arith;
  end_frame = omega arith;
  max_msg = omega arith;
  keep_days = omega arith;
  sz_sqhdr = omega arith;
  rsvd2 = refl;
}

first_word : (first_in.users 0).w_skip_msg < 2 ^ 16
unfolding squish_exclusive_begin squish_lock_base squish_read_base_header read_sqbase read seek
    squish_copy_base_to_data window available decode_sqbase get_word get_dword overlay
first_word = omega arith

first_uncalled : (first_in.users 0).f_lock_func ≡ 0
unfolding squish_exclusive_begin squish_lock_base squish_read_base_header read_sqbase read seek
    squish_copy_base_to_data window available
first_uncalled = refl

first_shares : (first_in.users 0).os.haveshare ≡ true
unfolding squish_exclusive_begin squish_lock_base squish_read_base_header read_sqbase read seek
    squish_copy_base_to_data window available decode_sqbase get_word get_dword overlay
first_shares = refl

first_room : 256 ≤ first_in.base.room
unfolding squish_exclusive_begin squish_lock_base squish_read_base_header read_sqbase read seek
    squish_copy_base_to_data window available decode_sqbase get_word get_dword overlay
first_room = omega arith

handover_example :
    (t : System) × Step first_in 0 t
    × (u : System) × Step t 1 u
    × ((u.users 1).have_exclusive ≡ true)
    × SameBase (first_in.users 0) (u.users 1)
handover_example =
    Reach-handover 0 1 first_reached first_has (λ e. absurd (omega (arith, e))) first_uncalled
      first_shares first_fits first_word first_room
