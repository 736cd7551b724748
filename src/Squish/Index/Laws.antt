-- ===== src/Squish/Index/Laws.antt =====
-- The buffered index of an area as a list of records: SidxGet, SidxPut and
-- _SquishAppendIndexRecord of sq_idx.c.
use xmsgapi.Base.{
  All, Bool-cases, List, [], ap, arith, get_elem?, inl, inr, leb, length, length-set, ltb, ne→==,
  refl, set, some, suc, zero, ℕ, ◌&&◌, ◌+◌, ◌-◌, ◌<◌, ◌∙◌, ◌∷◌, ◌≡◌, ◌≢◌, ◌≤◌,
}
use xmsgapi.Base.Cmd.{ok}
use xmsgapi.Base.Word.{add32, dword_mod}
use xmsgapi.Squish.Area.{Area, Sqidxseg, set_hix}
use xmsgapi.Squish.Index.{sidx_get, store_sidx}
use xmsgapi.Squish.Index.Entries.{note_change, sidx_put}
use xmsgapi.Squish.Index.Flat.{FitsSeg, flat, sidx-flat, store_sidx-flat}
use xmsgapi.Squish.Sqidx.{Sqidx}

-- The index is in memory, and a `dword` counts its records.
pub record Buffered (a : Area) : Type 0 where
  pub open_buffer : a.hix.f_buffer ≢ 0
  pub fits : All FitsSeg a.hix.segs
  pub counted : 1 + length (flat a.hix.segs) < dword_mod

abbrev pub entries : Area → List Sqidx
entries a = flat a.hix.segs

pub sidx_get-flat :
    (a : Area) (m : ℕ) (r : Sqidx)
    → Buffered a
    → 1 ≤ m
    → get_elem? (entries a) (m - 1) ≡ some r
    → sidx_get m a ≡ ok r a
unfolding sidx_get
sidx_get-flat a m r b h g =
    rw (ne→== a.hix.f_buffer 0 b.open_buffer, sidx-flat a.hix.segs 1 m h b.counted, g)

pub get_elem?-set_self :
    (xs : List Sqidx) (i : ℕ) (r : Sqidx) → i < length xs → get_elem? (set xs i r) i ≡ some r
get_elem?-set_self [] i r h = absurd (omega arith)
get_elem?-set_self (x ∷ xs) zero r h = refl
get_elem?-set_self (x ∷ xs) (suc i) r h = get_elem?-set_self xs i r (omega arith)

pub get_elem?-set_ne :
    (xs : List Sqidx) (i j : ℕ) (r : Sqidx) → i ≢ j → get_elem? (set xs i r) j ≡ get_elem? xs j
get_elem?-set_ne [] i j r h = refl
get_elem?-set_ne (x ∷ xs) zero zero r h = absurd (h refl)
get_elem?-set_ne (x ∷ xs) zero (suc j) r h = refl
get_elem?-set_ne (x ∷ xs) (suc i) zero r h = refl
get_elem?-set_ne (x ∷ xs) (suc i) (suc j) r h = get_elem?-set_ne xs i j r (λ e. h (ap suc e))

pub get_elem?-some :
    (xs : List Sqidx) (i : ℕ) → i < length xs → (r : Sqidx) × (get_elem? xs i ≡ some r)
get_elem?-some [] i h = absurd (omega arith)
get_elem?-some (x ∷ xs) zero h = (x, refl)
get_elem?-some (x ∷ xs) (suc i) h = get_elem?-some xs i (omega arith)

pub store_sidx-fits :
    (ss : List Sqidxseg) (start m : ℕ) (r : Sqidx)
    → All FitsSeg ss
    → All FitsSeg (store_sidx ss start m r)
unfolding store_sidx
store_sidx-fits [] start m r fits = tt
store_sidx-fits (s ∷ ss) start m r (fit, fits) =
    elim (Bool-cases (leb start m && ltb m (add32 start (length s.psqi)))) [
      | inl e ↦ rw e (omega (arith, length-set s.psqi (m - start) r), fits)
      | inr e ↦ rw e (fit, store_sidx-fits ss (add32 start (length s.psqi)) m r fits)
    ]

-- The area after a record has been stored.
unfoldable pub stored : ℕ → Sqidx → Area → Area
stored m r a = note_change m (set_hix (λ x. record x { segs = store_sidx x.segs 1 m r }) a)

pub sidx_put-stored :
    (a : Area) (m : ℕ) (r : Sqidx)
    → Buffered a
    → 1 ≤ m
    → m ≤ length (entries a)
    → (sidx_put m r a ≡ ok tt (stored m r a))
      × (entries (stored m r a) ≡ set (entries a) (m - 1) r)
      × Buffered (stored m r a)
unfolding sidx_put stored
sidx_put-stored a m r b h k =
    let (old, g) = get_elem?-some (entries a) (m - 1) (omega arith) in
    let e = store_sidx-flat a.hix.segs 1 m r h b.counted in
    (
      rw (ne→== a.hix.f_buffer 0 b.open_buffer, sidx-flat a.hix.segs 1 m h b.counted, g),
      e,
      record {
        open_buffer = b.open_buffer;
        fits = store_sidx-fits a.hix.segs 1 m r b.fits;
        counted = rw (e, length-set (entries a) (m - 1) r) b.counted;
      },
    )

-- In a buffered index SidxPut on the number `m` of a record that is there succeeds; then SidxGet
-- gives the record stored for `m`, and for each other number of a record what it gave before, and
-- the index has as many records as before.
pub sidx_get-sidx_put :
    (a : Area) (m : ℕ) (r : Sqidx)
    → Buffered a
    → 1 ≤ m
    → m ≤ length (entries a)
    → (a' : Area) × (sidx_put m r a ≡ ok tt a')
      × (sidx_get m a' ≡ ok r a')
      × ((n : ℕ)
          → 1 ≤ n
          → n ≤ length (entries a)
          → n ≢ m
          → (old : Sqidx) × (sidx_get n a ≡ ok old a) × (sidx_get n a' ≡ ok old a'))
      × (length (entries a') ≡ length (entries a))
sidx_get-sidx_put a m r b h k =
    let (p, e, b') = sidx_put-stored a m r b h k in
    (
      stored m r a,
      p,
      sidx_get-flat _ m r b' h (rw (e, get_elem?-set_self (entries a) (m - 1) r (omega arith))),
      (λ n h' k' ne.
          let (old, g) = get_elem?-some (entries a) (n - 1) (omega arith) in
          let apart = get_elem?-set_ne (entries a) (m - 1) (n - 1) r (λ q. ne (omega arith)) in
          (old, sidx_get-flat a n old b h' g, sidx_get-flat _ n old b' h' (rw (e, apart) g))),
      ap length e ∙ length-set (entries a) (m - 1) r,
    )
