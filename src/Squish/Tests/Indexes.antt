-- ===== src/Squish/Tests/Indexes.antt =====
-- Runs of the operations on the index in memory and of the search for an identifier.
use xmsgapi.Base.{
  [], arith, length, none, refl, some, suc, true, zero, ℕ, ◌++◌, ◌<◌, ◌∷◌, ◌≡◌, ◌≢◌, ◌≤◌,
}
use xmsgapi.Base.Cmd.{and_then, ok, pure}
use xmsgapi.File.{File}
use xmsgapi.Squish.Area.{Area, Hidx, Sqidxseg}
use xmsgapi.Squish.Index.{blank_sqidx, sidx_get, squish_begin_buffer, squish_end_buffer}
use xmsgapi.Squish.Index.Append.{HasRoom, sidx_put-append}
use xmsgapi.Squish.Index.Begin.{squish_begin_buffer-Buffered}
use xmsgapi.Squish.Index.End.{changed, cut_at, slice, squish_end_buffer-Wrote}
use xmsgapi.Squish.Index.Entries.{sidx_put}
use xmsgapi.Squish.Index.Flat.{flat, without}
use xmsgapi.Squish.Index.Laws.{Buffered, entries, sidx_get-sidx_put}
use xmsgapi.Squish.Removal.{fix_if_asked, squish_remove_index_entry}
use xmsgapi.Squish.Removal.Buffered.{reindexed, squish_remove_index_entry-Buffered}
use xmsgapi.Squish.Sqidx.{Sqidx, read_singly, read_sqidx}
use xmsgapi.Squish.Sqidx.Buffer.{read_sqidx-read_singly, records_at}
use xmsgapi.Squish.Sqidx.Saved.{Wrote}
use xmsgapi.Squish.Tests.Sample.{record_of, sample}
use xmsgapi.Squish.Uid.{api_squish_uid_to_msgn, uid_next, uid_prev}
use xmsgapi.Squish.Uid.Find.{answer, api_squish_uid_to_msgn-answer, api_squish_uid_to_msgn-empty}
use xmsgapi.Squish.Uid.Sorted.{Place, Sorted, uid_at}

pub buffered : Buffered sample
unfolding flat
buffered = record {
  open_buffer = λ e. absurd (omega (arith, e));
  fits = (omega arith, (omega arith, tt));
  counted = omega arith;
}

room : HasRoom sample
room = record { few = omega arith; disk = omega arith }

put_example :
    (a' : Area) × (sidx_put 2 (record_of 900 8) sample ≡ ok tt a')
    × (sidx_get 2 a' ≡ ok (record_of 900 8) a')
    × ((n : ℕ)
        → 1 ≤ n
        → n ≤ length (entries sample)
        → n ≢ 2
        → (old : Sqidx) × (sidx_get n sample ≡ ok old sample) × (sidx_get n a' ≡ ok old a'))
    × (length (entries a') ≡ length (entries sample))
put_example =
    sidx_get-sidx_put sample 2 (record_of 900 8) buffered (omega arith) (unfold flat in omega arith)

append_example :
    (a' : Area) × (sidx_put 4 (record_of 900 12) sample ≡ ok tt a')
    × (entries a' ≡ entries sample ++ (record_of 900 12 ∷ []))
    × Buffered a'
    × (sidx_get 4 a' ≡ ok (record_of 900 12) a')
append_example = sidx_put-append sample (record_of 900 12) buffered room refl (unfold flat in refl)

remove_entry_example :
    (f : File) × (x : Hidx) × (squish_remove_index_entry 2 none sample
      ≡ and_then (fix_if_asked 2 none (reindexed f x sample)) (λ _. pure (some (record_of 700 7))))
    × (flat x.segs ≡ without (entries sample) 1 ++ (blank_sqidx ∷ []))
    × Buffered (reindexed f x sample)
remove_entry_example =
    squish_remove_index_entry-Buffered sample 2 none (record_of 700 7) buffered room refl
      (omega arith) (unfold flat in refl)

-- The sample, its index taken into memory once more.
abbrev searched : Area
searched = record sample { hix = record (sample.hix) { f_buffer = 2 } }

searched_begun : squish_begin_buffer sample ≡ ok tt searched
unfolding squish_begin_buffer
searched_begun = refl

searched-Buffered : Buffered searched
unfolding flat
searched-Buffered = record {
  open_buffer = λ e. absurd (omega (arith, e));
  fits = (omega arith, (omega arith, tt));
  counted = omega arith;
}

sample-Sorted : Sorted (entries sample)
unfolding uid_at flat
sample-Sorted i zero h k = absurd (omega arith)
sample-Sorted zero (suc zero) h k = omega arith
sample-Sorted (suc i) (suc zero) h k = absurd (omega arith)
sample-Sorted zero (suc (suc zero)) h k = omega arith
sample-Sorted (suc zero) (suc (suc zero)) h k = omega arith
sample-Sorted (suc (suc i)) (suc (suc zero)) h k = absurd (omega arith)
sample-Sorted i (suc (suc (suc j))) h k = absurd (omega arith)

below_8 : (i : ℕ) → i < 2 → uid_at (entries sample) i < 8
unfolding uid_at flat
below_8 zero h = omega arith
below_8 (suc zero) h = omega arith
below_8 (suc (suc i)) h = absurd (omega arith)

above_8 : (i : ℕ) → 2 ≤ i → i < length (entries sample) → 8 ≤ uid_at (entries sample) i
unfolding uid_at flat
above_8 zero h k = absurd (omega arith)
above_8 (suc zero) h k = absurd (omega arith)
above_8 (suc (suc zero)) h k = omega arith
above_8 (suc (suc (suc i))) h k = absurd (omega arith)

eight_placed : Place (entries sample) 8 2
eight_placed = record { within = unfold flat in omega arith; below = below_8; above = above_8 }

-- The nearest message below 8 is the second one, that of 7.
search_example :
    (a' : Area) × (api_squish_uid_to_msgn 8 uid_prev sample
      ≡ ok (answer uid_prev 8 (entries searched) 2) a')
search_example =
    api_squish_uid_to_msgn-answer sample searched uid_prev 8 2 searched_begun searched-Buffered
      sample-Sorted (unfold flat in omega arith) (unfold flat in omega arith) (omega arith)
      eight_placed

abbrev no_messages : Area
no_messages = record sample { num_msg = 0; hix = record (sample.hix) { segs = [] } }

empty_begun :
    squish_begin_buffer no_messages
    ≡ ok tt (record no_messages { hix = record (no_messages.hix) { f_buffer = 2 } })
unfolding squish_begin_buffer
empty_begun = refl

empty_example :
    ((a' : Area) × (api_squish_uid_to_msgn 8 uid_prev no_messages ≡ ok 1 a'))
    × ((a' : Area) × (api_squish_uid_to_msgn 8 uid_next no_messages ≡ ok 2 a'))
empty_example =
    api_squish_uid_to_msgn-empty no_messages
      (record no_messages { hix = record (no_messages.hix) { f_buffer = 2 } }) 8 empty_begun
      (λ e. absurd (omega (arith, e))) (unfold flat in refl) (omega arith)

buffered_read_example : read_sqidx true 3 (sample.ifd) ≡ read_singly 3 (sample.ifd)
buffered_read_example = read_sqidx-read_singly true 3 (sample.ifd) (omega arith)

-- The sample before its index is taken into memory.
abbrev unbuffered : Area
unbuffered = record sample { hix = record (sample.hix) { f_buffer = 0; segs = [] } }

begin_example :
    (b : Area) × (squish_begin_buffer unbuffered ≡ ok tt b)
    × (entries b ≡ records_at (sample.ifd).bytes 0 3)
    × (length (entries b) ≡ 3)
    × Buffered b
    × (b.ifd.bytes ≡ (sample.ifd).bytes)
    × (b.num_msg ≡ 3)
begin_example = squish_begin_buffer-Buffered unbuffered refl refl (omega arith) (omega arith)

abbrev one_segment : Sqidxseg
one_segment = record {
  psqi = record_of 612 5 ∷ record_of 700 7 ∷ record_of 800 9 ∷ [];
  dw_max = 256;
}

end_example :
    (a' : Area) × (squish_end_buffer (changed 1 3 2 3 one_segment sample) ≡ ok tt a')
    × Wrote (cut_at 2 sample) (slice one_segment.psqi 2 3) a'.ifd
    × (a'.hix.f_buffer ≡ 0)
    × (a'.hix.segs ≡ [])
end_example =
    squish_end_buffer-Wrote sample 3 2 3 one_segment (omega arith) (omega arith) (omega arith)
      (omega arith) (omega arith)
