-- ===== src/Tar.antt =====
-- src/tar.c: the archive that the boot loader puts into memory.
--
-- A tail queue of FreeBSD's queue.h is a list; its head and each `struct tar_file` still take their
-- memory from kmalloc0, but are values here: nothing changes them after tar_parse_mem.
pub mod Size
pub mod Archive
mod Tests
use james_m.Base.{
  ℕ, zero, suc, ◌+◌, ◌/◌, ◌%◌, List, [], ◌∷◌, ◌++◌, Option, none, some, Run, ok, out_of_fuel, ◌>>=◌,
  ◌==◌, ltb, if◌then◌else◌, add32, sub32, mul32,
}
use james_m.Memory.{Mem}
use james_m.Kernel.{Kernel}
use james_m.Kmalloc.{Alloc, kmalloc0}

-- `struct tar_file` of src/include/tar.h; `tf_filename` has its 101 bytes.
pub record TarFile : Type 0 where
  pub tf_filename : List ℕ
  pub tf_datasiz : ℕ
  pub tf_data : ℕ

-- Where `size` stands in `struct tar_header`.
abbrev pub size_offset : ℕ
size_offset = 124

-- A char as a word: it is signed.
abbrev pub char_word : ℕ → ℕ
char_word c = if ltb c 128 then c else sub32 c 256

-- `for (j = 11; j > 0; j--, count *= 8)`, from `j` on.
unfoldable pub getsize_from : Mem → (addr j size count : ℕ) → ℕ
getsize_from m addr zero size count = size
getsize_from m addr (suc j) size count =
    getsize_from m addr j (add32 size (mul32 (sub32 (char_word (m (addr + j))) 48) count))
      (mul32 count 8)

unfoldable pub getsize : Mem → (addr : ℕ) → ℕ
getsize m addr = getsize_from m addr 11 0 1

-- What memcpy copies from `p`.
abbrev pub bytes : Mem → (p count : ℕ) → List ℕ
bytes m p zero = []
bytes m p (suc count) = m p ∷ bytes m (p + 1) count

-- The distance to the next header: the header's block, the whole blocks of the data, and one more for
-- the rest.
unfoldable pub stride : (siz : ℕ) → ℕ
stride siz = mul32 (add32 (siz / 512) 1) 512 + (if siz % 512 == 0 then 0 else 512)

abbrev pub sizeof_tar_file : ℕ
sizeof_tar_file = 120

abbrev pub sizeof_tar_queue : ℕ
sizeof_tar_queue = 8

-- `siz` has been read from the header before.
unfoldable pub tar_file : Mem → (p siz : ℕ) → TarFile
tar_file m p siz = record {
  tf_filename = bytes m p 100 ++ (0 ∷ []);
  tf_datasiz = siz;
  tf_data = p + 512;
}

-- The loop; `q` is the queue so far. The result `none` stands for -1, else it is `i` and the queue.
unfoldable pub tar_loop :
    Alloc → (fuel p i : ℕ) → List TarFile → Kernel → Run (Option (ℕ × List TarFile) × Kernel)
tar_loop alloc zero p i q k = out_of_fuel
tar_loop alloc (suc fuel) p i q k =
    let siz = getsize k.mem (p + size_offset) in
    let rest = kmalloc0 alloc sizeof_tar_file k >>= λ (tf, phys, k').
    let next =
      tar_loop alloc fuel (p + stride siz) (add32 i 1) (q ++ (tar_file k'.mem p siz ∷ [])) k' in
    if tf == 0 then ok (none, k') else next in
    if k.mem p == 0 then ok (some (i, q), k) else rest

unfoldable pub tar_parse_mem :
    Alloc → (fuel addr : ℕ) → Kernel → Run (Option (ℕ × List TarFile) × Kernel)
tar_parse_mem alloc fuel addr k = kmalloc0 alloc sizeof_tar_queue k >>= λ (q, phys, k').
    let files = tar_loop alloc fuel addr 0 [] k' in if q == 0 then ok (none, k') else files
