-- ===== src/Squish/Index/Flat.antt =====
-- The segments of the buffer as one list of records: what the loops of sq_idx.c over them look
-- up, store, append and take out.
use xmsgapi.Base.{
  Bool-cases, List, [], ap, arith, false, get_elem?, inl, inr, leb, length, length-append, ltb,
  refl, set, some, suc, true, zero, ℕ, ◌&&◌, ◌++◌, ◌+◌, ◌-◌, ◌<◌, ◌∷◌, ◌≡◌, ◌≤◌, ◌⊎◌,
}
use xmsgapi.Base.Word.{add32, dword_mod}
use xmsgapi.Squish.Area.{Sqidxseg}
use xmsgapi.Squish.Index.{sidx, store_sidx}
use xmsgapi.Squish.Sqidx.{Sqidx}

-- The records of all the segments.
unfoldable pub flat : List Sqidxseg → List Sqidx
flat [] = []
flat (s ∷ ss) = s.psqi ++ flat ss

-- No record is written outside of its segment's memory.
abbrev pub FitsSeg : Sqidxseg → Type 0
FitsSeg s = length s.psqi ≤ s.dw_max

-- A list without its element at `j`.
unfoldable pub without : List Sqidx → ℕ → List Sqidx
without [] j = []
without (r ∷ rs) zero = rs
without (r ∷ rs) (suc j) = r ∷ without rs j

pub get_elem?-append_l :
    (xs ys : List Sqidx) (i : ℕ) → i < length xs → get_elem? (xs ++ ys) i ≡ get_elem? xs i
get_elem?-append_l [] ys i h = absurd (omega arith)
get_elem?-append_l (x ∷ xs) ys zero h = refl
get_elem?-append_l (x ∷ xs) ys (suc i) h = get_elem?-append_l xs ys i (omega arith)

pub get_elem?-append_r :
    (xs ys : List Sqidx) (i k : ℕ) → k ≡ length xs + i → get_elem? (xs ++ ys) k ≡ get_elem? ys i
get_elem?-append_r [] ys i k e = ap (get_elem? ys) (omega arith)
get_elem?-append_r (x ∷ xs) ys i zero e = absurd (omega arith)
get_elem?-append_r (x ∷ xs) ys i (suc k) e = get_elem?-append_r xs ys i k (omega arith)

set-append_l :
    (xs ys : List Sqidx) (i : ℕ) (r : Sqidx) → i < length xs → set (xs ++ ys) i r ≡ set xs i r ++ ys
set-append_l [] ys i r h = absurd (omega arith)
set-append_l (x ∷ xs) ys zero r h = refl
set-append_l (x ∷ xs) ys (suc i) r h = ap (λ zs. x ∷ zs) (set-append_l xs ys i r (omega arith))

set-append_r :
    (xs ys : List Sqidx) (i k : ℕ) (r : Sqidx)
    → k ≡ length xs + i
    → set (xs ++ ys) k r ≡ xs ++ set ys i r
set-append_r [] ys i k r e = ap (λ n. set ys n r) (omega arith)
set-append_r (x ∷ xs) ys i zero r e = absurd (omega arith)
set-append_r (x ∷ xs) ys i (suc k) r e = ap (λ zs. x ∷ zs) (set-append_r xs ys i k r (omega arith))

pub without-append_l :
    (xs ys : List Sqidx) (i : ℕ) → i < length xs → without (xs ++ ys) i ≡ without xs i ++ ys
unfolding without
without-append_l [] ys i h = absurd (omega arith)
without-append_l (x ∷ xs) ys zero h = refl
without-append_l (x ∷ xs) ys (suc i) h = ap (λ zs. x ∷ zs) (without-append_l xs ys i (omega arith))

pub without-append_r :
    (xs ys : List Sqidx) (i k : ℕ) → k ≡ length xs + i → without (xs ++ ys) k ≡ xs ++ without ys i
unfolding without
without-append_r [] ys i k e = ap (without ys) (omega arith)
without-append_r (x ∷ xs) ys i zero e = absurd (omega arith)
without-append_r (x ∷ xs) ys i (suc k) e =
    ap (λ zs. x ∷ zs) (without-append_r xs ys i k (omega arith))

-- Where the test of the loops lies, with the counts below the size of a `dword`.
pub here_or_later :
    (used start m : ℕ)
    → start ≤ m
    → start + used < dword_mod
    → (((leb start m && ltb m (add32 start used)) ≡ true) × (m - start < used))
      ⊎ (((leb start m && ltb m (add32 start used)) ≡ false)
          × (add32 start used ≤ m)
          × (m - start ≡ used + (m - add32 start used)))
here_or_later used start m h k = elim (Bool-cases (ltb m (start + used))) [
  | inl e ↦ inl (ground arith, ground arith)
  | inr e ↦ inr (ground arith, ground arith, ground arith)
]

pub sidx-flat :
    (ss : List Sqidxseg) (start m : ℕ)
    → start ≤ m
    → start + length (flat ss) < dword_mod
    → sidx ss start m ≡ get_elem? (flat ss) (m - start)
unfolding sidx flat
sidx-flat [] start m h k = refl
sidx-flat (s ∷ ss) start m h k =
    elim (here_or_later (length s.psqi) start m h (omega (arith, length-append s.psqi (flat ss)))) [
      | inl p ↦ rw (p.0, get_elem?-append_l s.psqi (flat ss) (m - start) p.1)
      | inr p ↦ rw (
        p.0,
        get_elem?-append_r s.psqi (flat ss) (m - add32 start (length s.psqi)) (m - start) p.2,
        sidx-flat ss (add32 start (length s.psqi)) m p.1
            (omega (arith, length-append s.psqi (flat ss))),
      )
    ]

pub store_sidx-flat :
    (ss : List Sqidxseg) (start m : ℕ) (r : Sqidx)
    → start ≤ m
    → start + length (flat ss) < dword_mod
    → flat (store_sidx ss start m r) ≡ set (flat ss) (m - start) r
unfolding store_sidx flat
store_sidx-flat [] start m r h k = refl
store_sidx-flat (s ∷ ss) start m r h k =
    elim (here_or_later (length s.psqi) start m h (omega (arith, length-append s.psqi (flat ss)))) [
      | inl p ↦ rw (p.0, set-append_l s.psqi (flat ss) (m - start) r p.1)
      | inr p ↦ rw (
        p.0,
        set-append_r s.psqi (flat ss) (m - add32 start (length s.psqi)) (m - start) r p.2,
        store_sidx-flat ss (add32 start (length s.psqi)) m r p.1
            (omega (arith, length-append s.psqi (flat ss))),
      )
    ]

pub get_elem?-lt : (xs : List Sqidx) (i : ℕ) (r : Sqidx) → get_elem? xs i ≡ some r → i < length xs
get_elem?-lt [] i r h = cc
get_elem?-lt (x ∷ xs) zero r h = omega arith
get_elem?-lt (x ∷ xs) (suc i) r h = omega (arith, get_elem?-lt xs i r h)
