-- ===== src/Squish/Sqidx/Saved.antt =====
-- write_sqidx of sq_idx.c, with the buffer and without.
use mathlib.Core.Path.{ap₂, subst}
use xmsgapi.Base.{
  ==→eq, Bool, Bool-cases, List, [], ap, append-nil, append_assoc, arith, drop, eq→==, false,
  if-false, if-true, if◌then◌else◌, inl, inr, length, length-append, length-take, ltb, ne→==, refl,
  suc, sym, take, true, zero, ℕ, ◌&&◌, ◌*◌, ◌++◌, ◌+◌, ◌<◌, ◌==◌, ◌∙◌, ◌∷◌, ◌≡◌, ◌≤◌, ◌⊎◌,
}
use xmsgapi.File.{File, overlay, window, write}
use xmsgapi.File.Laws.{window-overlay_self, window_ext, write_all}
use xmsgapi.Squish.Sqidx.{
  Sqidx, encode_sqidx, encode_sqidxs, max_buffer, sqidx_size, write_chunks, write_singly,
  write_sqidx,
}
use xmsgapi.Squish.Sqidx.RoundTrip.{length-encode_sqidx}

-- `g` is `f` after the records `rs` were written at its position.
pub record Wrote (f : File) (rs : List Sqidx) (g : File) : Type 0 where
  pub pos : g.pos ≡ f.pos + length rs * sqidx_size
  pub room : g.room ≡ f.room
  pub grows : f.size ≤ g.size
  pub holds : 1 ≤ length rs → f.pos + length rs * sqidx_size ≤ g.size
  pub inside : window g.bytes f.pos (length rs * sqidx_size) ≡ encode_sqidxs rs
  pub outside : (q : ℕ) → (q < f.pos) ⊎ (f.pos + length rs * sqidx_size ≤ q) → g.bytes q ≡ f.bytes q

window-append : (b : ℕ → ℕ) (p m n : ℕ) → window b p m ++ window b (p + m) n ≡ window b p (m + n)
unfolding window
window-append b p zero n = ap₂ (λ q k. window b q k) (omega arith) (omega arith)
window-append b p (suc m) n =
    let e : suc m + n ≡ suc (m + n) = omega arith in
    let q : p + suc m ≡ suc p + m = omega arith in rw (e, q, window-append b (suc p) m n)

encode_sqidxs-append :
    (rs ss : List Sqidx) → encode_sqidxs (rs ++ ss) ≡ encode_sqidxs rs ++ encode_sqidxs ss
unfolding encode_sqidxs
encode_sqidxs-append [] ss = refl
encode_sqidxs-append (r ∷ rs) ss =
    ap (λ b. encode_sqidx r ++ b) (encode_sqidxs-append rs ss)
    ∙ sym (append_assoc (encode_sqidx r) (encode_sqidxs rs) (encode_sqidxs ss))

length-encode_sqidxs : (rs : List Sqidx) → length (encode_sqidxs rs) ≡ length rs * sqidx_size
unfolding encode_sqidxs
length-encode_sqidxs [] = refl
length-encode_sqidxs (r ∷ rs) = omega (
  arith,
  length-append (encode_sqidx r) (encode_sqidxs rs),
  length-encode_sqidx r,
  length-encode_sqidxs rs,
)

Wrote-nothing : (f : File) → Wrote f [] f
unfolding window encode_sqidxs
Wrote-nothing f = record {
  pos = omega arith;
  room = refl;
  grows = omega arith;
  holds = λ e. absurd (omega (arith, e));
  inside = refl;
  outside = λ q h. refl;
}

Wrote-holds :
    (f g h : File) (rs ss : List Sqidx)
    → Wrote f rs g
    → Wrote g ss h
    → 1 ≤ length rs + length ss
    → f.pos + (length rs + length ss) * sqidx_size ≤ h.size
Wrote-holds f g h rs ss v w some_records = elim (Bool-cases (length ss == 0)) [
  | inl e ↦
      let z = ==→eq (length ss) 0 e in
      omega (arith, z, w.grows, v.holds (omega (arith, z, some_records)))
  | inr e ↦ omega (arith, v.pos, w.holds (ground (arith, e)))
]

Wrote-append :
    (f g h : File) (rs ss : List Sqidx) → Wrote f rs g → Wrote g ss h → Wrote f (rs ++ ss) h
Wrote-append f g h rs ss v w =
    let n = length-append rs ss in
    let m = length rs * sqidx_size in
    let k = length ss * sqidx_size in
    record {
      pos = omega (arith, n, v.pos, w.pos);
      room = w.room ∙ v.room;
      grows = omega (arith, v.grows, w.grows);
      holds = λ e. omega (arith, n, Wrote-holds f g h rs ss v w (omega (arith, e, n)));
      inside =
          let left : window h.bytes f.pos m ≡ encode_sqidxs rs =
            window_ext h.bytes g.bytes f.pos m
              (λ q a b. w.outside q (inl (omega (arith, b, v.pos))))
            ∙ v.inside in
          let right : window h.bytes (f.pos + m) k ≡ encode_sqidxs ss =
            ap (λ q. window h.bytes q k) (sym v.pos) ∙ w.inside in
          ap (window h.bytes f.pos) (omega (arith, n))
          ∙ (sym (window-append h.bytes f.pos m k)
              ∙ (ap₂ (λ x y. x ++ y) left right ∙ sym (encode_sqidxs-append rs ss)));
      outside = λ q e. elim e [
        | inl a ↦ w.outside q (inl (omega (arith, a, v.pos))) ∙ v.outside q (inl a)
        | inr a ↦
            w.outside q (inr (omega (arith, a, v.pos, n))) ∙ v.outside q (inr (omega (arith, a, n)))
      ];
    }

overlay-outside :
    (b : ℕ → ℕ) (p : ℕ) (d : List ℕ) (q : ℕ) → (q < p) ⊎ (p + length d ≤ q) → overlay b p d q ≡ b q
unfolding overlay
overlay-outside b p d q h = ground arith

-- One `write` of records that the disk takes whole.
write-Wrote :
    (f : File) (rs : List Sqidx)
    → 1 ≤ length rs
    → f.pos + length rs * sqidx_size ≤ f.room
    → (g : File) × (write (encode_sqidxs rs) f ≡ (length rs * sqidx_size, g)) × Wrote f rs g
write-Wrote f rs some_records h =
    let n = length-encode_sqidxs rs in
    let w = write_all (encode_sqidxs rs) f (omega (arith, n, some_records)) (omega (arith, n, h)) in
    let end = f.pos + length (encode_sqidxs rs) in
    let laid = overlay f.bytes f.pos (encode_sqidxs rs) in
    (
      record {
        bytes = laid;
        size = if ltb f.size end then end else f.size;
        pos = end;
        room = f.room;
      },
      rw (w, n),
      record {
        pos = omega (arith, n);
        room = refl;
        grows = ground arith;
        holds = λ e. ground (arith, n);
        inside =
            ap (window laid f.pos) (sym n) ∙ window-overlay_self f.bytes f.pos (encode_sqidxs rs);
        outside = λ q e.
            overlay-outside f.bytes f.pos (encode_sqidxs rs) q
              (elim e [ inl a ↦ inl a | inr a ↦ inr (omega (arith, a, n)) ]);
      },
    )

write_singly-Wrote :
    (rs : List Sqidx) (f : File)
    → f.pos + length rs * sqidx_size ≤ f.room
    → (g : File) × (write_singly rs f ≡ (true, g)) × Wrote f rs g
unfolding write_singly encode_sqidxs
write_singly-Wrote [] f h = (f, refl, Wrote-nothing f)
write_singly-Wrote (r ∷ rs) f h =
    let (g, w, v) = write-Wrote f (r ∷ []) (omega arith) (omega (arith, h)) in
    let w' : write (encode_sqidx r) f ≡ (sqidx_size, g) =
      ap (λ d. write d f) (sym (append-nil (encode_sqidx r))) ∙ w in
    let (k, e, x) = write_singly-Wrote rs g (omega (arith, h, v.pos, v.room)) in
    (k, rw (w', e), Wrote-append f g k (r ∷ []) rs v x)

take-drop : (n : ℕ) (rs : List Sqidx) → take n rs ++ drop n rs ≡ rs
take-drop zero rs = refl
take-drop (suc n) [] = refl
take-drop (suc n) (r ∷ rs) = ap (λ ss. r ∷ ss) (take-drop n rs)

pub length-drop : (n : ℕ) (rs : List Sqidx) → n ≤ length rs → length (drop n rs) + n ≡ length rs
length-drop zero rs h = omega arith
length-drop (suc n) [] h = absurd (omega arith)
length-drop (suc n) (r ∷ rs) h = omega (arith, length-drop n rs (omega (arith, h)))

-- A round of write_chunks, from what its `write` and the rounds after it give.
chunk-runs :
    (fuel maxbuf : ℕ) (r : Sqidx) (rs : List Sqidx) (f g k : File)
    → let n = suc (length rs) in
      let wr = if ltb n maxbuf then n else maxbuf in
      write (encode_sqidxs (take wr (r ∷ rs))) f ≡ (wr * sqidx_size, g)
      → write_chunks fuel maxbuf (drop wr (r ∷ rs)) g ≡ (true, k)
      → write_chunks (suc fuel) maxbuf (r ∷ rs) f ≡ (true, k)
unfolding write_chunks
chunk-runs fuel maxbuf r rs f g k w e =
    let n = suc (length rs) in
    let wr = if ltb n maxbuf then n else maxbuf in
    let some_left : (length (r ∷ rs) == 0) ≡ false = ne→== n 0 (λ q. omega (arith, q)) in
    rw (w, eq→== (wr * sqidx_size) (wr * sqidx_size) refl, some_left, e)

write_chunks-Wrote :
    (fuel maxbuf : ℕ) (rs : List Sqidx) (f : File)
    → 1 ≤ maxbuf
    → length rs < fuel
    → f.pos + length rs * sqidx_size ≤ f.room
    → (g : File) × (write_chunks fuel maxbuf rs f ≡ (true, g)) × Wrote f rs g
unfolding write_chunks
write_chunks-Wrote zero maxbuf rs f one enough h = absurd (omega (arith, enough))
write_chunks-Wrote (suc fuel) maxbuf [] f one enough h = (f, refl, Wrote-nothing f)
write_chunks-Wrote (suc fuel) maxbuf (r ∷ rs) f one enough h =
    let n = suc (length rs) in
    let wr = if ltb n maxbuf then n else maxbuf in
    let within : wr ≤ n = ground arith in
    let moves : 1 ≤ wr = ground (arith, one) in
    let part = take wr (r ∷ rs) in
    let left = drop wr (r ∷ rs) in
    let count : length part ≡ wr = length-take wr (r ∷ rs) within in
    let others = length-drop wr (r ∷ rs) within in
    let (g, w, v) =
      write-Wrote f part (omega (arith, count, moves)) (omega (arith, count, within, h)) in
    let (k, e, x) =
      write_chunks-Wrote fuel maxbuf left g one (omega (arith, others, moves, enough))
        (omega (arith, others, count, v.pos, v.room, h)) in
    (
      k,
      chunk-runs fuel maxbuf r rs f g k (w ∙ ap (λ c. (c * sqidx_size, g)) count) e,
      subst (λ ss. Wrote f ss k) (take-drop wr (r ∷ rs)) (Wrote-append f g k part left v x),
    )

-- Where the disk has room for the records, write_sqidx succeeds with the buffer and without it: it
-- writes the records one behind the other at the file's position and leaves every other byte.
pub write_sqidx-Wrote :
    (mem : Bool) (rs : List Sqidx) (f : File)
    → f.pos + length rs * sqidx_size ≤ f.room
    → (g : File) × (write_sqidx mem rs f ≡ (true, g)) × Wrote f rs g
unfolding write_sqidx
write_sqidx-Wrote mem rs f h = elim (Bool-cases (ltb 1 (length rs) && mem)) [
  | inl e ↦
      let many : 1 ≤ max_buffer (length rs) = ground (arith, e) in
      let (g, w, v) =
        write_chunks-Wrote (suc (length rs)) (max_buffer (length rs)) rs f many (omega arith) h in
      (g, if-true _ _ e ∙ w, v)
  | inr e ↦ let (g, w, v) = write_singly-Wrote rs f h in (g, if-false _ _ e ∙ w, v)
]
