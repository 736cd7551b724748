-- ===== src/File.antt =====
-- An open file of the C library, as the code uses it: `lseek`, `read`, `write` and the truncation
-- of `setfsize`. The bytes at and beyond `size` are 0, so a write past the end leaves a gap of
-- zeros. `room` is the size up to which the disk lets the file grow: a write beyond it is short.
pub mod Laws
use xmsgapi.Base.{
  List, [], get_or, if◌then◌else◌, leb, length, ltb, suc, take, zero, ℕ, ◌&&◌, ◌+◌, ◌-◌, ◌==◌, ◌∷◌,
}
use xmsgapi.Base.Word.{min_of}

pub record File : Type 0 where
  pub bytes : ℕ → ℕ
  pub size : ℕ
  pub pos : ℕ
  pub room : ℕ

-- The `n` bytes from offset `p` on.
unfoldable pub window : (ℕ → ℕ) → ℕ → ℕ → List ℕ
window f p zero = []
window f p (suc n) = f p ∷ window f (suc p) n

-- `f`, with `d` laid over it at offset `p`.
unfoldable pub overlay : (ℕ → ℕ) → ℕ → List ℕ → ℕ → ℕ
overlay f p d q = if leb p q && ltb q (p + length d) then get_or d (q - p) 0 else f q

-- `lseek(fd, p, SEEK_SET)` on a regular file, for `p` from 0 on.
unfoldable pub seek : ℕ → File → File
seek p f = record f { pos = p }

-- How many of `n` bytes the file has from its position on.
unfoldable pub available : ℕ → File → ℕ
available n f = min_of n (f.size - f.pos)

-- `read(fd, buf, n)`: the bytes that were there, and the file at its new position.
unfoldable pub read : ℕ → File → List ℕ × File
unfolding available
read n f = (window f.bytes f.pos (available n f), record f { pos = f.pos + available n f })

-- How many of `n` bytes the disk takes at the file's position.
unfoldable pub accepted : ℕ → File → ℕ
accepted n f = min_of n (f.room - f.pos)

-- `write(fd, d, length d)`: the count that was written.
unfoldable pub write : List ℕ → File → ℕ × File
unfolding accepted overlay
write d f =
    let n = accepted (length d) f in
    if n == 0 then (0, f) else (
      n,
      record f {
        bytes = overlay f.bytes f.pos (take n d);
        size = if ltb f.size (f.pos + n) then f.pos + n else f.size;
        pos = f.pos + n;
      },
    )

-- `setfsize(fd, n)`, which leaves the position alone.
unfoldable pub set_size : ℕ → File → File
set_size n f = record f { bytes = λ q. if ltb q n then f.bytes q else 0; size = n }
