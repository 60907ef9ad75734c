-- ===== src/Registry/Names.antt =====
-- Names in fixed buffers: `memcpy` of a text and `strncmp` with it, as src/ldal.c uses them.
use ldal.Base.{◌≤◌, ◌≡◌, refl, true, some, [], ◌∷◌, ◌++◌, arith, length}
use ldal.Kernel.{Bytes}
use ldal.Registry.{memcpy, strncmp_zero}

-- A text that fits is copied; the buffer keeps its length.
pub memcpy-some :
    (buf s : Bytes)
    → length s ≤ length buf
    → (buf' : Bytes) × (memcpy buf s ≡ some buf') × (length buf' ≡ length buf)
unfolding memcpy
memcpy-some buf [] h = (buf, refl, refl)
memcpy-some [] (c ∷ s) h = absurd (omega arith)
memcpy-some (b ∷ buf) (c ∷ s) h =
    let (rest, copied, long) = memcpy-some buf s (omega arith) in (c ∷ rest, rw copied, omega arith)

-- What was copied compares equal, whatever stands behind the buffer.
pub strncmp_zero-memcpy :
    (buf s buf' rest : Bytes) → memcpy buf s ≡ some buf' → strncmp_zero (buf' ++ rest) s ≡ true
unfolding memcpy strncmp_zero
strncmp_zero-memcpy buf [] buf' rest h = refl
strncmp_zero-memcpy [] (c ∷ s) buf' rest h = ground arith
strncmp_zero-memcpy (b ∷ buf) (c ∷ s) [] rest h = ground arith
strncmp_zero-memcpy (b ∷ buf) (c ∷ s) (b' ∷ buf') rest h =
    ground (arith, strncmp_zero-memcpy buf s buf' rest)
