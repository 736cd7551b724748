-- ===== src/File/Laws.antt =====
-- What a read sees after a write.
use mathlib.Core.Path.{ap₂}
use xmsgapi.Base.{
  List, [], ap, arith, false, get_or, if◌then◌else◌, length, le→ltb_false, ltb, refl, suc, take,
  take-length, zero, ℕ, ◌+◌, ◌-◌, ◌<◌, ◌==◌, ◌∙◌, ◌∷◌, ◌≡◌, ◌≤◌, ◌⊎◌,
}
use xmsgapi.Base.Word.{min_of}
use xmsgapi.File.{File, accepted, available, overlay, read, window, write}

pub length-window : (f : ℕ → ℕ) (p n : ℕ) → length (window f p n) ≡ n
unfolding window
length-window f p zero = refl
length-window f p (suc n) = ap suc (length-window f (suc p) n)

pub window_ext :
    (f g : ℕ → ℕ) (p n : ℕ)
    → ((q : ℕ) → p ≤ q → q < p + n → f q ≡ g q)
    → window f p n ≡ window g p n
unfolding window
window_ext f g p zero h = refl
window_ext f g p (suc n) h =
    ap₂ (λ x xs. x ∷ xs) (h p (omega arith) (omega arith))
      (window_ext f g (suc p) n (λ q a b. h q (omega arith) (omega arith)))

window_of_list :
    (f : ℕ → ℕ) (p : ℕ) (d : List ℕ)
    → ((i : ℕ) → i < length d → f (p + i) ≡ get_or d i 0)
    → window f p (length d) ≡ d
unfolding window
window_of_list f p [] h = refl
window_of_list f p (x ∷ xs) h =
    ap₂ (λ y ys. y ∷ ys) (ap f (omega arith) ∙ h 0 (omega arith))
      (window_of_list f (suc p) xs (λ i b. ap f (omega arith) ∙ h (suc i) (omega arith)))

-- The bytes just laid down.
pub window-overlay_self : (f : ℕ → ℕ) (p : ℕ) (d : List ℕ) → window (overlay f p d) p (length d) ≡ d
unfolding overlay
window-overlay_self f p d =
    window_of_list _ p d (λ i h. ground (arith, ap (λ k. get_or d k 0) (the_index i)))
  where
    the_index : (i : ℕ) → p + i - p ≡ i
    the_index i = omega arith

-- Bytes elsewhere.
pub window-overlay_apart :
    (f : ℕ → ℕ) (p q n : ℕ) (d : List ℕ)
    → (q + n ≤ p) ⊎ (p + length d ≤ q)
    → window (overlay f p d) q n ≡ window f q n
unfolding overlay
window-overlay_apart f p q n d h = window_ext _ _ q n (λ r a b. ground arith)

-- A read of bytes that are all there.
pub read_all :
    (n : ℕ) (f : File)
    → f.pos + n ≤ f.size
    → read n f ≡ (window f.bytes f.pos n, record f { pos = f.pos + n })
unfolding read available
read_all n f h =
    let e : min_of n (f.size - f.pos) ≡ n = ground arith in
    λ i. (window f.bytes f.pos (e i), record f { pos = f.pos + e i })

-- A write that the disk takes whole.
pub write_all :
    (d : List ℕ) (f : File)
    → 0 < length d
    → f.pos + length d ≤ f.room
    → write d f ≡ (
      length d,
      record f {
        bytes = overlay f.bytes f.pos d;
        size = if ltb f.size (f.pos + length d) then f.pos + length d else f.size;
        pos = f.pos + length d;
      },
    )
unfolding write
write_all d f some_bytes h =
    let e : accepted (length d) f ≡ length d = unfold accepted in ground arith in
    let whole : take (accepted (length d) f) d ≡ d = rw e (take-length d) in
    let more : (accepted (length d) f == 0) ≡ false = ground (arith, e) in
    rw (more, e, take-length d)

-- Where the bytes were there before, the size stays.
pub write_within :
    (d : List ℕ) (f : File)
    → 0 < length d
    → f.pos + length d ≤ f.size
    → f.size ≤ f.room
    → write d f ≡ (length d, record f { bytes = overlay f.bytes f.pos d; pos = f.pos + length d })
write_within d f some_bytes inside room =
    rw (write_all d f some_bytes (omega arith), le→ltb_false f.size (f.pos + length d) inside)
