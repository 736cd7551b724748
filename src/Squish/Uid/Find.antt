-- ===== src/Squish/Uid/Find.antt =====
-- apiSquishUidToMsgn of sq_uid.c: what it finds in a sorted index, and in an empty area.
use mathlib.Core.Path.{subst}
use xmsgapi.Base.{
  Bool-cases, List, [], ap, arith, eq→==, false, if◌then◌else◌, inl, inr, length, length-append,
  le→ltb_false, ltb, ltb→lt, lt→ltb, ne→==, refl, suc, true, ℕ, ◌&&◌, ◌*◌, ◌+◌, ◌-◌, ◌/◌, ◌<◌, ◌==◌,
  ◌∙◌, ◌∷◌, ◌≡◌, ◌≢◌, ◌≤◌, ◌⊎◌,
}
use xmsgapi.Base.Cmd.{ok}
use xmsgapi.Base.Word.{dword_mod}
use xmsgapi.Squish.Area.{Area, Sqidxseg, set_hix}
use xmsgapi.Squish.Index.{segs_size, squish_begin_buffer, squish_free_buffer, squish_index_size}
use xmsgapi.Squish.Index.Flat.{flat}
use xmsgapi.Squish.Index.Laws.{Buffered, entries}
use xmsgapi.Squish.Sqidx.{Sqidx, sqidx_size}
use xmsgapi.Squish.Uid.{
  Search, UidType, api_squish_uid_to_msgn, nearest, noent_if_exact, search_loop, uid_exact,
  uid_next, uid_prev,
}
use xmsgapi.Squish.Uid.Sorted.{
  Bounds, Ended, Place, Place-unique, Sorted, Sorted-le, search_loop-ended, uid_at,
}

-- The number of the message of `uid`, or the nearest one by `w_type`, where `c` records of `rs`
-- are below `uid`.
unfoldable pub answer : UidType → ℕ → List Sqidx → ℕ → ℕ
answer w_type uid rs c = if ltb c (length rs) && (uid_at rs c == uid) then c + 1 else elim w_type [
  | uid_exact ↦ 0
  | uid_prev ↦ c
  | uid_next ↦ if ltb c (length rs) then c + 1 else length rs
]

abbrev chosen : UidType → ℕ → ℕ → Search → ℕ
chosen w_type uid n s = if s.hit == 0 then nearest w_type uid n s else s.hit

-- The record at the place is above `uid`.
not_here :
    (rs : List Sqidx) (uid c : ℕ)
    → ((i : ℕ) → c ≤ i → i < length rs → uid < uid_at rs i)
    → (ltb c (length rs) && (uid_at rs c == uid)) ≡ false
not_here rs uid c above = elim (Bool-cases (ltb c (length rs))) [
  | inl e ↦
      let more = above c (omega arith) (ltb→lt c (length rs) e) in
      let differs : (uid_at rs c == uid) ≡ false = ground (arith, more) in rw (e, differs)
  | inr e ↦ rw e
]

chosen-missed :
    (w : UidType) (uid : ℕ) (rs : List Sqidx) (c : ℕ) (s : Search)
    → s.hit ≡ 0
    → c ≤ length rs
    → ((i : ℕ) → c ≤ i → i < length rs → uid < uid_at rs i)
    → (((1 ≤ c) × (s.st_try ≡ c) × (s.seen < uid))
        ⊎ ((suc c ≤ length rs) × (s.st_try ≡ suc c) × (uid < s.seen)))
    → chosen w uid (length rs) s ≡ answer w uid rs c
unfolding answer nearest
chosen-missed uid_exact uid rs c s zero_hit within above side =
    rw (zero_hit, not_here rs uid c above)
chosen-missed uid_prev uid rs c s zero_hit within above (inl (one, at, less)) =
    rw (zero_hit, not_here rs uid c above, lt→ltb s.seen uid less) at
chosen-missed uid_prev uid rs c s zero_hit within above (inr (one, at, more)) =
    rw (zero_hit, not_here rs uid c above, at, le→ltb_false s.seen uid (omega (arith, more)))
      (ground arith)
chosen-missed uid_next uid rs c s zero_hit within above (inl (one, at, less)) =
    rw (zero_hit, not_here rs uid c above, at, le→ltb_false uid s.seen (omega (arith, less)))
      (ground (arith, within))
chosen-missed uid_next uid rs c s zero_hit within above (inr (one, at, more)) =
    rw (zero_hit, not_here rs uid c above, at, lt→ltb uid s.seen more, lt→ltb c (length rs) one)
      (omega arith)

chosen-answer :
    (w : UidType) (uid : ℕ) (rs : List Sqidx) (c : ℕ) (s : Search)
    → Sorted rs
    → Place rs uid c
    → Ended rs uid s
    → chosen w uid (length rs) s ≡ answer w uid rs c
unfolding Ended answer nearest
chosen-answer w uid rs c s sorted place (inl (one, within, found)) =
    let here : Place rs uid (s.hit - 1) = record {
      within = omega (arith, within);
      below = λ i h. omega (arith, found, sorted i (s.hit - 1) h (omega (arith, one, within)));
      above = λ i h k. omega (arith, found, Sorted-le rs sorted (s.hit - 1) i h k);
    } in
    let e : c ≡ s.hit - 1 = Place-unique rs uid c (s.hit - 1) place here in
    let hit : (ltb c (length rs) && (uid_at rs c == uid)) ≡ true =
      rw (
        e,
        found,
        eq→== uid uid refl,
        lt→ltb (s.hit - 1) (length rs) (omega (arith, one, within)),
      ) in
    let zero_hit : (s.hit == 0) ≡ false = ground (arith, one) in
    rw (zero_hit, hit) (omega (arith, e, one))
chosen-answer w uid rs c s sorted place (inr (d, zero_hit, there, above, side)) =
    let e : d ≡ c = Place-unique rs uid d c there place in
    subst (λ k. chosen w uid (length rs) s ≡ answer w uid rs k) {x = d} {y = c} e
      (chosen-missed w uid rs d s zero_hit there.within above side)

segs_size-flat :
    (ss : List Sqidxseg)
    → length (flat ss) * sqidx_size < dword_mod
    → segs_size ss ≡ length (flat ss) * sqidx_size
unfolding segs_size flat
segs_size-flat [] h = refl
segs_size-flat (s ∷ ss) h =
    let counted = length-append s.psqi (flat ss) in
    let rest = segs_size-flat ss (omega (arith, h, counted)) in rw rest (ground (arith, h, counted))

free-ok : (a : Area) → a.hix.f_buffer ≢ 0 → (b : Area) × (squish_free_buffer a ≡ ok tt b)
unfolding squish_free_buffer
free-ok a h = elim (Bool-cases (a.hix.f_buffer == 1)) [
  | inl e ↦ (
    set_hix (λ x. record x { segs = [] }) (set_hix (λ x. record x { f_buffer = x.f_buffer - 1 }) a),
    rw (ne→== a.hix.f_buffer 0 h, e),
  )
  | inr e ↦
      (set_hix (λ x. record x { f_buffer = x.f_buffer - 1 }) a, rw (ne→== a.hix.f_buffer 0 h, e))
]

-- The area as the search leaves it.
abbrev noted : UidType → Search → Area → Area
noted w s a = if s.hit == 0 then noent_if_exact w a else a

noted-buffer :
    (w : UidType) (s : Search) (a : Area) → a.hix.f_buffer ≢ 0 → (noted w s a).hix.f_buffer ≢ 0
noted-buffer w s a h = elim (Bool-cases (s.hit == 0)) [
  | inl e ↦ rw e (elim w as (λ v. (noent_if_exact v a).hix.f_buffer ≢ 0) [
    | uid_exact ↦ h
    | uid_next ↦ h
    | uid_prev ↦ h
  ])
  | inr e ↦ rw e h
]

abbrev start : Search
start = record { hit = 0; st_try = 1; seen = 0 }

-- apiSquishUidToMsgn, put together from what its calls give.
composed :
    (a b f : Area) (w : UidType) (uid n : ℕ) (s : Search)
    → 1 ≤ uid
    → squish_begin_buffer a ≡ ok tt b
    → b.hix.f_buffer ≢ 0
    → segs_size b.hix.segs / sqidx_size ≡ n
    → search_loop (n + 1) uid 1 n start b ≡ ok s b
    → squish_free_buffer (noted w s b) ≡ ok tt f
    → api_squish_uid_to_msgn uid w a ≡ ok (chosen w uid n s) f
unfolding api_squish_uid_to_msgn squish_index_size
composed a b f w uid n s pos begun on size searched freed = rw (
  ne→== uid 0 (λ e. omega (arith, pos, e)),
  begun,
  ne→== b.hix.f_buffer 0 on,
  size,
  searched,
  freed,
)

-- On an area whose index comes into memory as from 1 to 1,000,000 records in the order of their
-- identifiers, `c` of them below `uid`, apiSquishUidToMsgn returns, and its result is the number
-- of the message of `uid` where there is one; otherwise 0 for UID_EXACT, the number `c` of the last
-- message below for UID_PREV, and for UID_NEXT that of the first message above, or of the last
-- message where none is above.
pub api_squish_uid_to_msgn-answer :
    (a b : Area) (w : UidType) (uid c : ℕ)
    → squish_begin_buffer a ≡ ok tt b
    → Buffered b
    → Sorted (entries b)
    → 1 ≤ length (entries b)
    → length (entries b) ≤ 1_000_000
    → 1 ≤ uid
    → Place (entries b) uid c
    → (a' : Area) × (api_squish_uid_to_msgn uid w a ≡ ok (answer w uid (entries b) c) a')
api_squish_uid_to_msgn-answer a b w uid c begun buffered sorted one few pos place =
    let n = length (entries b) in
    let size : segs_size b.hix.segs ≡ n * sqidx_size =
      segs_size-flat b.hix.segs (omega (arith, few)) in
    let whole : Bounds (entries b) uid 1 n = record {
      first = omega arith;
      last = omega arith;
      near = omega arith;
      below = λ i h. absurd (omega (arith, h));
      above = λ i h k. absurd (omega (arith, h, k));
    } in
    let (s, searched, ended) =
      search_loop-ended b uid buffered sorted (n + 1) 1 n start whole refl (omega arith)
        (inl one) in
    let (f, freed) = free-ok (noted w s b) (noted-buffer w s b buffered.open_buffer) in
    (
      f,
      composed a b f w uid n s pos begun buffered.open_buffer (omega (arith, size)) searched freed
          ∙ ap (λ k. ok k f) (chosen-answer w uid (entries b) c s sorted place ended),
    )

-- On an area whose index comes into memory without a record, apiSquishUidToMsgn gives for every
-- identifier but 0 the message number 1 for UID_PREV and 2 for UID_NEXT, though no message has
-- these numbers.
pub api_squish_uid_to_msgn-empty :
    (a b : Area) (uid : ℕ)
    → squish_begin_buffer a ≡ ok tt b
    → b.hix.f_buffer ≢ 0
    → entries b ≡ []
    → 1 ≤ uid
    → ((a' : Area) × (api_squish_uid_to_msgn uid uid_prev a ≡ ok 1 a'))
      × ((a' : Area) × (api_squish_uid_to_msgn uid uid_next a ≡ ok 2 a'))
unfolding search_loop nearest
api_squish_uid_to_msgn-empty a b uid begun on none_there pos =
    let size : segs_size b.hix.segs / sqidx_size ≡ 0 = omega (
      arith,
      segs_size-flat b.hix.segs (omega (arith, ap length none_there)),
      ap length none_there,
    ) in
    let (f, freed) = free-ok b on in
    (
      (f, composed a b f uid_prev uid 0 start pos begun on size refl freed ∙ rw (lt→ltb 0 uid pos)),
      (
        f,
        composed a b f uid_next uid 0 start pos begun on size refl freed
            ∙ rw (le→ltb_false uid 0 (omega arith)),
      ),
    )
