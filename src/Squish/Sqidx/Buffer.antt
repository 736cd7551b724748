-- ===== src/Squish/Sqidx/Buffer.antt =====
-- The buffered loop of read_sqidx of sq_idx.c, against reading record by record.
use mathlib.Core.Path.{ap₂, subst}
use xmsgapi.Base.{
  ==→eq, Bool, Bool-cases, List, Option, [], ap, arith, drop, eq→==, if◌then◌else◌, inl, inr,
  length, ltb, refl, some, suc, sym, zero, ℕ, ◌&&◌, ◌*◌, ◌++◌, ◌+◌, ◌-◌, ◌<◌, ◌==◌, ◌^◌, ◌∙◌, ◌∷◌,
  ◌≡◌, ◌≤◌,
}
use xmsgapi.File.{File, window}
use xmsgapi.File.Laws.{length-window, read_all}
use xmsgapi.Putword.{get_dword}
use xmsgapi.Squish.Sqidx.{
  Sqidx, decode_sqidx, decode_sqidxs, max_buffer, read_chunks, read_singly, read_sqidx, sqidx_size,
}

-- The `n` records from offset `p` on.
unfoldable pub records_at : (ℕ → ℕ) → ℕ → ℕ → List Sqidx
records_at b p zero = []
records_at b p (suc n) = decode_sqidx (window b p sqidx_size) ∷ records_at b (p + sqidx_size) n

length-records_at : (b : ℕ → ℕ) (p n : ℕ) → length (records_at b p n) ≡ n
unfolding records_at
length-records_at b p zero = refl
length-records_at b p (suc n) = ap suc (length-records_at b (p + sqidx_size) n)

records_at-append :
    (b : ℕ → ℕ) (p m n : ℕ)
    → records_at b p m ++ records_at b (p + m * sqidx_size) n ≡ records_at b p (m + n)
unfolding records_at
records_at-append b p zero n = ap₂ (λ q k. records_at b q k) (omega arith) (omega arith)
records_at-append b p (suc m) n =
    let e : suc m + n ≡ suc (m + n) = omega arith in
    let q : p + suc m * sqidx_size ≡ p + sqidx_size + m * sqidx_size = omega arith in
    rw (e, q, records_at-append b (p + sqidx_size) m n)

drop-window : (b : ℕ → ℕ) (p n k : ℕ) → k ≤ n → drop k (window b p n) ≡ window b (p + k) (n - k)
unfolding window
drop-window b p n zero h = ap₂ (λ q k. window b q k) (omega arith) (omega arith)
drop-window b p zero (suc k) h = absurd (omega arith)
drop-window b p (suc n) (suc k) h =
    drop-window b (suc p) n k (omega arith) ∙ ap₂ (λ q k. window b q k) (omega arith) (omega arith)

get_dword-window :
    (b : ℕ → ℕ) (p n : ℕ)
    → 4 ≤ n
    → get_dword (window b p n)
      ≡ b p + b (suc p) * 2 ^ 8 + b (suc (suc p)) * 2 ^ 16 + b (suc (suc (suc p))) * 2 ^ 24
unfolding get_dword window
get_dword-window b p zero h = absurd (omega arith)
get_dword-window b p (suc zero) h = absurd (omega arith)
get_dword-window b p (suc (suc zero)) h = absurd (omega arith)
get_dword-window b p (suc (suc (suc zero))) h = absurd (omega arith)
get_dword-window b p (suc (suc (suc (suc n)))) h = refl

-- A record reads its own 12 bytes only.
decode_sqidx-window :
    (b : ℕ → ℕ) (p n : ℕ)
    → sqidx_size ≤ n
    → decode_sqidx (window b p n) ≡ decode_sqidx (window b p sqidx_size)
unfolding decode_sqidx
decode_sqidx-window b p n h = rw (
  drop-window b p n 4 (omega arith),
  drop-window b p n 8 (omega arith),
  get_dword-window b p n (omega arith),
  get_dword-window b (p + 4) (n - 4) (omega arith),
  get_dword-window b (p + 8) (n - 8) (omega arith),
  drop-window b p sqidx_size 4 (omega arith),
  drop-window b p sqidx_size 8 (omega arith),
  get_dword-window b p sqidx_size (omega arith),
  get_dword-window b (p + 4) 8 (omega arith),
  get_dword-window b (p + 8) 4 (omega arith),
)

pub decode_sqidxs-window :
    (b : ℕ → ℕ) (p m n : ℕ) → m * sqidx_size ≡ n → decode_sqidxs m (window b p n) ≡ records_at b p m
unfolding decode_sqidxs records_at
decode_sqidxs-window b p zero n e = refl
decode_sqidxs-window b p (suc m) n e = rw (
  decode_sqidx-window b p n (omega (arith, e)),
  drop-window b p n 12 (omega (arith, e)),
  decode_sqidxs-window b (p + 12) m (n - 12) (omega (arith, e)),
)

-- The file, moved on by `n` records.
abbrev past_records : ℕ → File → File
past_records n f = record f { pos = f.pos + n * sqidx_size }

-- `(rs, f at pos)`, by an equation of positions.
at_position :
    (f : File) (rs : List Sqidx) {p q : ℕ}
    → p ≡ q
    → ◌≡◌ {A = Option (List Sqidx) × File}
        (some rs, record f { pos = p })
        (some rs, record f { pos = q })
at_position f rs e = λ i. (some rs, record f { pos = e i })

pub read_singly-all :
    (n : ℕ) (f : File)
    → f.pos + n * sqidx_size ≤ f.size
    → read_singly n f ≡ (some (records_at f.bytes f.pos n), past_records n f)
unfolding read_singly records_at
read_singly-all zero f h = at_position f [] (omega arith)
read_singly-all (suc n) f h =
    let next = record f { pos = f.pos + sqidx_size } in
    rw
      (
        read_all sqidx_size f (omega (arith, h)),
        length-window f.bytes f.pos sqidx_size,
        read_singly-all n next (omega (arith, h)),
      )
      (at_position f (records_at f.bytes f.pos (suc n)) (omega arith))

read_chunks-all :
    (fuel maxbuf n : ℕ) (f : File)
    → 1 ≤ maxbuf
    → n < fuel
    → f.pos + n * sqidx_size ≤ f.size
    → read_chunks fuel maxbuf n f ≡ (some (records_at f.bytes f.pos n), past_records n f)
unfolding read_chunks
read_chunks-all zero maxbuf n f one enough h = absurd (omega arith)
read_chunks-all (suc fuel) maxbuf n f one enough h = elim (Bool-cases (n == 0)) [
  | inl e ↦
      let z : n ≡ 0 = ==→eq n 0 e in
      let none_left : ◌≡◌ {A = Option (List Sqidx) × File} (some [], f)
          (some (records_at f.bytes f.pos 0), past_records 0 f) =
        unfold records_at in at_position f [] (omega arith) in
      rw e (
        subst
          (λ k.
            ◌≡◌ {A = Option (List Sqidx) × File} (some [], f)
              (some (records_at f.bytes f.pos k), past_records k f))
          {x = 0} {y = n} (sym z) none_left)
  | inr e ↦
      let rd = if ltb n maxbuf then n else maxbuf in
      let some_left : 1 ≤ n = ground (arith, e) in
      let within : rd ≤ n = ground arith in
      let moves : 1 ≤ rd = ground (arith, some_left, one) in
      let next = record f { pos = f.pos + rd * sqidx_size } in
      let ends : f.pos + rd * sqidx_size + (n - rd) * sqidx_size ≡ f.pos + n * sqidx_size =
        omega (arith, within) in
      let both : rd + (n - rd) ≡ n = omega (arith, within) in
      rw
        (
          e,
          read_all (rd * sqidx_size) f (omega (arith, h, within)),
          length-window f.bytes f.pos (rd * sqidx_size),
          eq→== (rd * sqidx_size) (rd * sqidx_size) refl,
          read_chunks-all fuel maxbuf (n - rd) next one (omega (arith, enough, moves, within))
              (omega (arith, h, within)),
          decode_sqidxs-window f.bytes f.pos rd (rd * sqidx_size) refl,
          records_at-append f.bytes f.pos rd (n - rd),
        )
        (λ i. (some (records_at f.bytes f.pos (both i)), record f { pos = ends i }))
]

-- Where the file has the bytes of `n` records from its position on, read_sqidx gives the same
-- records and leaves the file at the same place with the buffer as without it: reading and
-- decoding the records one by one.
pub read_sqidx-read_singly :
    (mem : Bool) (n : ℕ) (f : File)
    → f.pos + n * sqidx_size ≤ f.size
    → read_sqidx mem n f ≡ read_singly n f
unfolding read_sqidx
read_sqidx-read_singly mem n f h = elim (Bool-cases (ltb 1 n && mem)) [
  | inl e ↦
      let many : 1 ≤ max_buffer n = ground (arith, e) in
      rw (e, read_chunks-all (suc n) (max_buffer n) n f many (omega arith) h, read_singly-all n f h)
  | inr e ↦ rw e
]
