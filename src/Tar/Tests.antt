-- ===== src/Tar/Tests.antt =====
-- The theorems on archives at an archive of one file of five bytes.
use james_m.Base.{◌+◌, ◌/◌, ◌*◌, ◌%◌, ◌≡◌, refl, arith, [], ◌∷◌, none, some, ok, panic}
use james_m.Memory.{Mem}
use james_m.Memory.Text.{with_text}
use james_m.Kernel.{Kernel}
use james_m.Kmalloc.{Alloc}
use james_m.Tar.{getsize, stride, tar_parse_mem}
use james_m.Tar.Size.{getsize-IsOctal, stride_lem}
use james_m.Tar.Archive.{files_at, tar_parse_mem-files_at}

-- The name `a`, and the size in octal.
abbrev one_file : Mem
one_file =
    with_text (with_text (λ _. 0) 0x1000 (b'a' ∷ [])) 0x107C
      (48 ∷ 48 ∷ 48 ∷ 48 ∷ 48 ∷ 48 ∷ 48 ∷ 48 ∷ 48 ∷ 48 ∷ 53 ∷ [])

abbrev early : Kernel
early = record {
  mem = one_file;
  frames = 0;
  nframes = 0;
  kernel_directory = 0;
  current_directory = 0;
  placement_address = 0x2000;
  cr0 = 0;
  cr3 = 0;
  kernel_heap = none;
}

-- Never called while there is no heap.
abbrev no_alloc : Alloc
no_alloc size page_align k = panic

tar_parse_mem-files_at_example :
    (k' : Kernel) × (tar_parse_mem no_alloc 2 0x1000 early
      ≡ ok (some (1, files_at one_file 0x1000 (5 ∷ [])), k'))
tar_parse_mem-files_at_example =
    tar_parse_mem-files_at no_alloc 2 0x1401 0x1000 early (5 ∷ [])
      (record { no_heap = refl; behind = omega arith; fits = omega arith }) (omega arith)
      (omega arith)

getsize-IsOctal_example : getsize one_file 0x107C ≡ 5 % 4294967296
getsize-IsOctal_example = getsize-IsOctal one_file 0x107C 5 (omega arith) (omega arith)

stride_lem_example : stride 513 ≡ 512 + (513 + 511) / 512 * 512
stride_lem_example = stride_lem 513 (omega arith)
