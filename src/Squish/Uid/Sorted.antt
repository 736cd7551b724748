-- ===== src/Squish/Uid/Sorted.antt =====
-- The binary search of sq_uid.c on records in the order of their identifiers.
use mathlib.Core.Path.{subst}
use xmsgapi.Base.{
  ==→eq, Bool-cases, List, [], arith, false, get_elem?, inl, inr, length, ltb, ltb_false→le, ltb→lt,
  lt→ltb, refl, some, suc, sym, zero, ℕ, ◌+◌, ◌-◌, ◌/◌, ◌<◌, ◌==◌, ◌∙◌, ◌∷◌, ◌≡◌, ◌≤◌, ◌⊎◌,
}
use xmsgapi.Base.Cmd.{ok}
use xmsgapi.Squish.Area.{Area}
use xmsgapi.Squish.Index.Laws.{Buffered, entries, sidx_get-flat}
use xmsgapi.Squish.Sqidx.{Sqidx}
use xmsgapi.Squish.Uid.{Search, search_loop}

unfoldable pub uid_at : List Sqidx → ℕ → ℕ
uid_at [] i = 0
uid_at (r ∷ rs) zero = r.umsgid
uid_at (r ∷ rs) (suc i) = uid_at rs i

-- Each record has a greater identifier than those before it.
abbrev pub Sorted : List Sqidx → Type 0
Sorted rs = (i j : ℕ) → i < j → j < length rs → uid_at rs i < uid_at rs j

-- The first `c` records are those below `uid`.
pub record Place (rs : List Sqidx) (uid c : ℕ) : Type 0 where
  pub within : c ≤ length rs
  pub below : (i : ℕ) → i < c → uid_at rs i < uid
  pub above : (i : ℕ) → c ≤ i → i < length rs → uid ≤ uid_at rs i

pub Place-unique : (rs : List Sqidx) (uid c d : ℕ) → Place rs uid c → Place rs uid d → c ≡ d
Place-unique rs uid c d p q = elim (Bool-cases (ltb c d)) [
  | inl e ↦ absurd (
      omega (
        arith,
        ltb→lt c d e,
        q.below c (ltb→lt c d e),
        p.above c (omega arith) (omega (arith, ltb→lt c d e, q.within)),
      ))
  | inr e ↦ elim (Bool-cases (ltb d c)) [
    | inl e' ↦ absurd (
        omega (
          arith,
          ltb→lt d c e',
          p.below d (ltb→lt d c e'),
          q.above d (omega arith) (omega (arith, ltb→lt d c e', p.within)),
        ))
    | inr e' ↦ omega (arith, ltb_false→le c d e, ltb_false→le d c e')
  ]
]

pub get_elem?-uid_at :
    (rs : List Sqidx) (i : ℕ)
    → i < length rs
    → (r : Sqidx) × (get_elem? rs i ≡ some r) × (r.umsgid ≡ uid_at rs i)
unfolding uid_at
get_elem?-uid_at [] i h = absurd (omega arith)
get_elem?-uid_at (r ∷ rs) zero h = (r, refl, refl)
get_elem?-uid_at (r ∷ rs) (suc i) h = get_elem?-uid_at rs i (omega arith)

pub Sorted-le :
    (rs : List Sqidx) → Sorted rs → (i j : ℕ) → i ≤ j → j < length rs → uid_at rs i ≤ uid_at rs j
Sorted-le rs sorted i j h k = elim (Bool-cases (ltb i j)) [
  | inl e ↦ omega (arith, sorted i j (ltb→lt i j e) k)
  | inr e ↦
      let same : i ≡ j = omega (arith, h, ltb_false→le i j e) in
      subst (λ m. uid_at rs i ≤ uid_at rs m) {x = i} {y = j} same (omega arith)
]

-- What the search has ruled out: the records below `st_low` and those above `st_high`.
pub record Bounds (rs : List Sqidx) (uid st_low st_high : ℕ) : Type 0 where
  pub first : 1 ≤ st_low
  pub last : st_high ≤ length rs
  pub near : st_low ≤ st_high + 1
  pub below : (i : ℕ) → i + 1 < st_low → uid_at rs i < uid
  pub above : (i : ℕ) → st_high ≤ i → i < length rs → uid < uid_at rs i

-- Where the last try was, next to the bound that it moved.
pub Beside : ℕ → ℕ → ℕ → ℕ → Search → Type 0
Beside n uid st_low st_high s =
    ((1 ≤ s.st_try) × (s.st_try + 1 ≡ st_low) × (s.seen < uid))
    ⊎ ((s.st_try ≤ n) × (s.st_try ≡ st_high + 1) × (uid < s.seen))

-- How a search can end: on a record of the identifier, or beside the place `c` where it would be.
unfoldable pub Ended : List Sqidx → ℕ → Search → Type 0
Ended rs uid s =
    ((1 ≤ s.hit) × (s.hit ≤ length rs) × (uid_at rs (s.hit - 1) ≡ uid))
    ⊎ ((c : ℕ) × (s.hit ≡ 0)
        × Place rs uid c
        × ((i : ℕ) → c ≤ i → i < length rs → uid < uid_at rs i)
        × (((1 ≤ c) × (s.st_try ≡ c) × (s.seen < uid))
            ⊎ ((suc c ≤ length rs) × (s.st_try ≡ suc c) × (uid < s.seen))))

module _ (a : Area) (uid : ℕ) (buffered : Buffered a) (sorted : Sorted (entries a)) where
  Ended-Beside :
      (low high : ℕ) (s : Search)
      → Bounds (entries a) uid low high
      → s.hit ≡ 0
      → high < low
      → Beside (length (entries a)) uid low high s
      → Ended (entries a) uid s
  unfolding Ended Beside
  Ended-Beside low high s b zero_hit over beside = inr (
    high,
    zero_hit,
    record {
      within = b.last;
      below = λ i h. b.below i (omega arith);
      above = λ i h k. omega (arith, b.above i h k);
    },
    b.above,
    elim beside [
      | inl p ↦ inl (omega (arith, p.0, p.1, b.near), omega (arith, p.1, b.near), p.2)
      | inr p ↦ inr (omega (arith, p.0, p.1), omega (arith, p.1), p.2)
    ],
  )

  -- What the search has to give from a range on, with `fuel` rounds.
  abbrev pub Searches : ℕ → Type 0
  Searches fuel =
      (low high : ℕ) (s : Search)
      → Bounds (entries a) uid low high
      → s.hit ≡ 0
      → high + 1 ≤ low + fuel
      → ((low ≤ high) ⊎ Beside (length (entries a)) uid low high s)
      → (t : Search) × (search_loop fuel uid low high s a ≡ ok t a) × Ended (entries a) uid t

  -- A round on a range that is not empty.
  search_loop-round :
      (n low high : ℕ) (s : Search)
      → Bounds (entries a) uid low high
      → s.hit ≡ 0
      → high + 1 ≤ low + suc n
      → ltb high low ≡ false
      → Searches n
      → (t : Search) × (search_loop (suc n) uid low high s a ≡ ok t a) × Ended (entries a) uid t
  unfolding search_loop Beside Ended
  search_loop-round n low high s b zero_hit fuel more ih =
      let mid = (low + high) / 2 in
      let some_left = ltb_false→le high low more in
      let low_mid : low ≤ mid = omega (arith, some_left) in
      let mid_high : mid ≤ high = omega (arith, some_left) in
      let (r, g, u) =
        get_elem?-uid_at (entries a) (mid - 1)
          (omega (arith, b.first, b.last, low_mid, mid_high)) in
      let got = sidx_get-flat a mid r buffered (omega (arith, b.first, low_mid)) g in
      let next = record s { st_try = mid; seen = r.umsgid } in
      elim (Bool-cases (r.umsgid == uid)) [
        | inl e ↦ (
          record { hit = mid; st_try = mid; seen = r.umsgid },
          rw (more, got, e),
          inl (
            omega (arith, b.first, low_mid),
            omega (arith, b.last, mid_high),
            sym u ∙ ==→eq r.umsgid uid e,
          ),
        )
        | inr e ↦ elim (Bool-cases (ltb r.umsgid uid)) [
          | inl up ↦
              let (t, p, q) =
                ih (mid + 1) high next
                  (record {
                    first = omega arith;
                    last = b.last;
                    near = omega (arith, mid_high);
                    below = λ i h. omega (
                      arith,
                      Sorted-le (entries a) sorted i (mid - 1) (omega (arith, h))
                          (omega (arith, b.first, b.last, low_mid, mid_high)),
                      u,
                      ltb→lt r.umsgid uid up,
                    );
                    above = b.above;
                  })
                  zero_hit (omega (arith, fuel, low_mid))
                  (inr (inl (omega (arith, b.first, low_mid), refl, ltb→lt r.umsgid uid up))) in
              (t, rw (more, got, e, up, p), q)
          | inr down ↦
              let greater : uid < r.umsgid = ground (arith, down, e) in
              let (t, p, q) =
                ih low (mid - 1) next
                  (record {
                    first = b.first;
                    last = omega (arith, b.last, mid_high);
                    near = omega (arith, low_mid);
                    below = b.below;
                    above = λ i h k.
                        omega (arith, Sorted-le (entries a) sorted (mid - 1) i h k, u, greater);
                  })
                  zero_hit (omega (arith, fuel, mid_high, low_mid, b.first))
                  (inr (
                    inr (
                      omega (arith, mid_high, b.last),
                      omega (arith, b.first, low_mid),
                      greater,
                    ))) in
              (t, rw (more, got, e, down, p), q)
        ]
      ]

  -- With a round for each record that is left and one more, the search ends, and where it should.
  pub search_loop-ended : (fuel : ℕ) → Searches fuel
  unfolding search_loop
  search_loop-ended zero low high s b zero_hit fuel open_or_beside = elim open_or_beside [
    | inl h ↦ absurd (omega (arith, h, fuel))
    | inr p ↦ (
      s,
      rw (lt→ltb high low (omega (arith, fuel))),
      Ended-Beside low high s b zero_hit (omega (arith, fuel)) p,
    )
  ]
  search_loop-ended (suc n) low high s b zero_hit fuel open_or_beside =
      elim (Bool-cases (ltb high low)) [
        | inl over ↦ (
          s,
          rw over,
          elim open_or_beside [
            | inl h ↦ absurd (omega (arith, h, ltb→lt high low over))
            | inr p ↦ Ended-Beside low high s b zero_hit (ltb→lt high low over) p
          ],
        )
        | inr more ↦ search_loop-round n low high s b zero_hit fuel more (search_loop-ended n)
      ]
