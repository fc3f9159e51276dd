-- ===== src/Memory/Blocks.antt =====
-- What memset, bzero and memcpy leave in each byte.
use james_m.Base.{
  ℕ, zero, suc, ◌+◌, ◌-◌, ◌≤◌, ◌≡◌, ◌⊎◌, arith, u8, ltb, leb, ◌&&◌, if◌then◌else◌, Bool,
}
use james_m.Memory.{Mem, store8, load32, memset, bzero, memcpy}
use james_m.Memory.Words.{IsBytes, store8-IsBytes}

-- Is `a` one of the `len` addresses from `b` on?
abbrev pub in_block : ℕ → ℕ → ℕ → Bool
in_block b len a = leb b a && ltb a (b + len)

-- `memset` writes the low byte of `c` into each of the `len` bytes at `b`, and nowhere else.
pub memset_lem :
    (m : Mem) (b c len a : ℕ) → memset m b c len a ≡ (if in_block b len a then u8 c else m a)
unfolding memset store8
memset_lem m b c zero a = ground arith
memset_lem m b c (suc len) a = ground (arith, memset_lem (store8 m b c) (b + 1) c len a)

pub bzero-IsBytes : (m : Mem) (b len : ℕ) → IsBytes m → IsBytes (bzero m b len)
unfolding bzero
bzero-IsBytes m b len h a = ground (arith, memset_lem m b 0 len a, h a)

-- A word of a zeroed block is 0.
pub load32-bzero : (m : Mem) (b len p : ℕ) → b ≤ p → p + 4 ≤ b + len → load32 (bzero m b len) p ≡ 0
unfolding load32 bzero
load32-bzero m b len p h k = ground (
  arith,
  memset_lem m b 0 len p,
  memset_lem m b 0 len (p + 1),
  memset_lem m b 0 len (p + 2),
  memset_lem m b 0 len (p + 3),
)

-- A word outside a zeroed block is as before.
pub load32-bzero_ne :
    (m : Mem) (b len p : ℕ) → (p + 4 ≤ b) ⊎ (b + len ≤ p) → load32 (bzero m b len) p ≡ load32 m p
unfolding load32 bzero
load32-bzero_ne m b len p h = ground (
  arith,
  memset_lem m b 0 len p,
  memset_lem m b 0 len (p + 1),
  memset_lem m b 0 len (p + 2),
  memset_lem m b 0 len (p + 3),
)

-- When the destination does not begin inside the source, `memcpy` leaves in byte `dest + i` what
-- byte `src + i` held, for each `i` below `count`, and changes no other byte.
pub memcpy_lem :
    (m : Mem) (dest src count a : ℕ)
    → IsBytes m
    → (dest ≤ src) ⊎ (src + count ≤ dest)
    → memcpy m dest src count a ≡ (if in_block dest count a then m (src + (a - dest)) else m a)
unfolding memcpy store8
memcpy_lem m dest src zero a bytes h = ground arith
memcpy_lem m dest src (suc count) a bytes h = ground (
  arith,
  bytes src,
  memcpy_lem (store8 m dest (m src)) (dest + 1) (src + 1) count a
      (store8-IsBytes m dest (m src) bytes) (later h),
)
  where
    later :
        (dest ≤ src) ⊎ (src + suc count ≤ dest)
        → (dest + 1 ≤ src + 1) ⊎ (src + 1 + count ≤ dest + 1)
    later k = omega arith
