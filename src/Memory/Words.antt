-- ===== src/Memory/Words.antt =====
-- Reading back words: a word that was written, and a word that a write does not touch.
use james_m.Base.{ℕ, ◌+◌, ◌≤◌, ◌<◌, ◌≡◌, ◌⊎◌, arith, u32}
use james_m.Memory.{Mem, store8, load32, store32}

-- Each cell holds a byte.
abbrev pub IsBytes : Mem → Type 0
IsBytes m = (a : ℕ) → m a < 256

pub store8-IsBytes : (m : Mem) (p v : ℕ) → IsBytes m → IsBytes (store8 m p v)
unfolding store8
store8-IsBytes m p v h a = ground (arith, h a)

pub store32-IsBytes : (m : Mem) (p v : ℕ) → IsBytes m → IsBytes (store32 m p v)
unfolding store32
store32-IsBytes m p v h a = ground (arith, h a)

pub load32-lt : (m : Mem) (p : ℕ) → IsBytes m → load32 m p < 4294967296
unfolding load32
load32-lt m p h = omega (arith, h p, h (p + 1), h (p + 2), h (p + 3))

pub load32-store32 : (m : Mem) (p v : ℕ) → v < 4294967296 → load32 (store32 m p v) p ≡ v
unfolding load32 store32
load32-store32 m p v h = ground arith

pub load32-store32_wrapped : (m : Mem) (p v : ℕ) → load32 (store32 m p v) p ≡ u32 v
unfolding load32 store32
load32-store32_wrapped m p v = ground arith

pub store32_elsewhere : (m : Mem) (p v a : ℕ) → (a < p) ⊎ (p + 4 ≤ a) → store32 m p v a ≡ m a
unfolding store32
store32_elsewhere m p v a h = ground arith

pub load32-store32_ne :
    (m : Mem) (p q v : ℕ) → (q + 4 ≤ p) ⊎ (p + 4 ≤ q) → load32 (store32 m p v) q ≡ load32 m q
unfolding load32
load32-store32_ne m p q v h = omega (
  arith,
  store32_elsewhere m p v q (ground arith),
  store32_elsewhere m p v (q + 1) (ground arith),
  store32_elsewhere m p v (q + 2) (ground arith),
  store32_elsewhere m p v (q + 3) (ground arith),
)
