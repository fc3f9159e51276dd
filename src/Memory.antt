-- ===== src/Memory.antt =====
-- The byte memory of the machine, and the memory and text routines of src/common.c.
--
-- The kernel runs on a 32-bit machine with paging set up as the identity on what it uses, so one
-- function from addresses to bytes stands for its memory. A uint32_t is four bytes, the lowest first.
pub mod Words
pub mod Blocks
pub mod Regions
pub mod Text
mod Tests
use james_m.Base.{
  ℕ, zero, suc, ◌+◌, ◌-◌, ◌*◌, ◌/◌, Bool, true, false, Run, ok, out_of_fuel, u8, sub32, ◌==◌,
  if◌then◌else◌,
}

abbrev pub Mem : Type 0
Mem = ℕ → ℕ

unfoldable pub store8 : Mem → ℕ → ℕ → Mem
store8 m p v a = if a == p then u8 v else m a

unfoldable pub load32 : Mem → ℕ → ℕ
load32 m p = m p + 256 * m (p + 1) + 65536 * m (p + 2) + 16777216 * m (p + 3)

unfoldable pub store32 : Mem → ℕ → ℕ → Mem
unfolding store8
store32 m p v =
    store8 (store8 (store8 (store8 m p v) (p + 1) (v / 256)) (p + 2) (v / 65536)) (p + 3)
      (v / 16777216)

-- `for (bb = b; len > 0; len--) *bb++ = c;`
unfoldable pub memset : Mem → ℕ → ℕ → ℕ → Mem
memset m b c zero = m
memset m b c (suc len) = memset (store8 m b c) (b + 1) c len

unfoldable pub bzero : Mem → ℕ → ℕ → Mem
unfolding memset
bzero m b len = memset m b 0 len

-- `while (count--) *dst8++ = *src8++;`
unfoldable pub memcpy : Mem → ℕ → ℕ → ℕ → Mem
memcpy m dest src zero = m
memcpy m dest src (suc count) = memcpy (store8 m dest (m src)) (dest + 1) (src + 1) count

-- `for (l = 0; s[l] != '\0'; l++);` from the count `l` on.
strlen_from : ℕ → Mem → ℕ → ℕ → Run ℕ
strlen_from zero m s l = out_of_fuel
strlen_from (suc fuel) m s l =
    let next = strlen_from fuel m s (l + 1) in if m (s + l) == 0 then ok l else next

unfoldable pub strlen : ℕ → Mem → ℕ → Run ℕ
unfolding strlen_from
strlen fuel m s = strlen_from fuel m s 0

-- The result is the bit pattern of the int that `strcmp` returns. The bytes of its last line are
-- those that the loop has just compared: `s1` is not advanced where they differ, and `s2` is.
unfoldable pub strcmp : ℕ → Mem → ℕ → ℕ → Run ℕ
strcmp zero m s1 s2 = out_of_fuel
strcmp (suc fuel) m s1 s2 =
    let rest = strcmp fuel m (s1 + 1) (s2 + 1) in
    if m s1 == m s2 then (if m s1 == 0 then ok 0 else rest) else ok (sub32 (m s1) (m s2))
