-- ===== src/Squish/Index/Resize.antt =====
-- Segments that grow and shrink: the appending loop and the removing loop of sq_idx.c, on the one
-- list of records that the segments hold.
use mathlib.Core.Option
use xmsgapi.Base.{
  All, Bool-cases, List, [], ap, append-nil, append_assoc, arith, get_elem?, inl, inr, length,
  length-append, ltb, ltb→lt, refl, some, suc, sym, true, zero, ℕ, ◌++◌, ◌+◌, ◌-◌, ◌<◌, ◌∙◌, ◌∷◌,
  ◌≡◌, ◌≤◌,
}
use xmsgapi.Base.Word.{add32, dword_mod}
use xmsgapi.Squish.Area.{Sqidxseg}
use xmsgapi.Squish.Index.{more_space, segment_size}
use xmsgapi.Squish.Index.Entries.{append_segs}
use xmsgapi.Squish.Index.Flat.{
  FitsSeg, flat, get_elem?-append_l, get_elem?-append_r, here_or_later, without, without-append_l,
  without-append_r,
}
use xmsgapi.Squish.Removal.{remove_at, remove_segs}
use xmsgapi.Squish.Sqidx.{Sqidx}

remove_at-without :
    (rs : List Sqidx) (j : ℕ) (r : Sqidx)
    → get_elem? rs j ≡ some r
    → remove_at rs j ≡ some (r, without rs j)
unfolding remove_at without
remove_at-without [] j r h = cc
remove_at-without (x ∷ rs) zero r h = ap (λ o. Option.map (λ y. (y, rs)) o) h
remove_at-without (x ∷ rs) (suc j) r h = rw (remove_at-without rs j r h)

pub length-without :
    (rs : List Sqidx) (j : ℕ) → j < length rs → suc (length (without rs j)) ≡ length rs
unfolding without
length-without [] j h = absurd (omega arith)
length-without (x ∷ rs) zero h = refl
length-without (x ∷ rs) (suc j) h = ap suc (length-without rs j (omega arith))

-- The outcome of a removal: the record, the rest in order, and every segment in its memory.
abbrev pub RemovedAt : List Sqidxseg → ℕ → Sqidx → List Sqidxseg → Type 0
RemovedAt ss j r ss' = (flat ss' ≡ without (flat ss) j) × All FitsSeg ss'

pub remove_segs-flat :
    (ss : List Sqidxseg) (start m : ℕ) (r : Sqidx)
    → All FitsSeg ss
    → start ≤ m
    → start + length (flat ss) < dword_mod
    → get_elem? (flat ss) (m - start) ≡ some r
    → (ss' : List Sqidxseg) × (remove_segs ss start m ≡ some (r, ss'))
      × RemovedAt ss (m - start) r ss'
unfolding remove_segs flat
remove_segs-flat [] start m r fits h k g = cc
remove_segs-flat (s ∷ ss) start m r (fit, fits) h k g =
    let counted = length-append s.psqi (flat ss) in
    let i = m - start in
    elim (here_or_later (length s.psqi) start m h (omega (arith, counted))) [
      | inl p ↦ (
        record s { psqi = without s.psqi i } ∷ ss,
        rw (
          p.0,
          remove_at-without s.psqi i r (sym (get_elem?-append_l s.psqi (flat ss) i p.1) ∙ g),
        ),
        (
          sym (without-append_l s.psqi (flat ss) i p.1),
          (omega (arith, length-without s.psqi i p.1), fits),
        ),
      )
      | inr p ↦
          let start' = add32 start (length s.psqi) in
          let got = sym (get_elem?-append_r s.psqi (flat ss) (m - start') i p.2) ∙ g in
          let (ss', e, (f, fits')) =
            remove_segs-flat ss start' m r fits p.1 (omega (arith, counted)) got in
          (
            s ∷ ss',
            rw (p.0, e),
            (
              ap (λ zs. s.psqi ++ zs) f
                  ∙ sym (without-append_r s.psqi (flat ss) (m - start') i p.2),
              (fit, fits'),
            ),
          )
    ]

length-snoc : (xs : List Sqidx) (r : Sqidx) → length (xs ++ (r ∷ [])) ≡ suc (length xs)
length-snoc xs r = length-append xs (r ∷ []) ∙ omega arith

-- With memory a record always finds a place, and it is the last one.
pub append_segs-flat :
    (ss : List Sqidxseg) (r : Sqidx)
    → All FitsSeg ss
    → (ss' : List Sqidxseg) × (append_segs true r ss ≡ some ss')
      × (flat ss' ≡ flat ss ++ (r ∷ []))
      × All FitsSeg ss'
unfolding append_segs flat
append_segs-flat [] r fits =
    (record { psqi = r ∷ []; dw_max = more_space } ∷ [], refl, refl, (omega arith, tt))
append_segs-flat (s ∷ []) r (fit, _) =
    let snoc = ap (λ xs. xs ++ (r ∷ [])) (sym (append-nil s.psqi)) in
    elim (Bool-cases (ltb (length s.psqi) s.dw_max)) [
      | inl e ↦ (
        record s { psqi = s.psqi ++ (r ∷ []) } ∷ [],
        rw e,
        append-nil _ ∙ snoc,
        (omega (arith, length-snoc s.psqi r, ltb→lt (length s.psqi) s.dw_max e), tt),
      )
      | inr e ↦ elim (Bool-cases (ltb s.dw_max segment_size)) [
        | inl e' ↦ (
          record { psqi = s.psqi ++ (r ∷ []); dw_max = s.dw_max + more_space } ∷ [],
          rw (e, e'),
          append-nil _ ∙ snoc,
          (omega (arith, length-snoc s.psqi r), tt),
        )
        | inr e' ↦ (
          s ∷ record { psqi = r ∷ []; dw_max = more_space } ∷ [],
          rw (e, e'),
          snoc,
          (fit, (omega arith, tt)),
        )
      ]
    ]
append_segs-flat (s ∷ t ∷ ss) r (fit, fits) =
    let (ss', e, f, fits') = append_segs-flat (t ∷ ss) r fits in
    (s ∷ ss', rw e, ap (λ zs. s.psqi ++ zs) f ∙ sym (append_assoc s.psqi _ _), (fit, fits'))
