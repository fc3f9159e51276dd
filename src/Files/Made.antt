-- ===== src/Files/Made.antt =====
-- What init_initrd makes of an archive.
use james_m.Base.{
  ℕ, ◌*◌, ◌<◌, ◌≡◌, refl, ap, sym, ◌∙◌, arith, List, [], ◌∷◌, ok, length, u32, mul32,
}
use james_m.Memory.{Mem}
use james_m.Memory.Regions.{SameBelow}
use james_m.Kernel.{Kernel}
use james_m.Kmalloc.{Alloc}
use james_m.Kmalloc.Supply.{Supply}
use james_m.Tar.{TarFile}
use james_m.Tar.Archive.{
  IsArchive, files_at, next_header, node_requests, tar_parse_mem-supplied, IsArchive-SameBelow,
  files_at-SameBelow,
}
use james_m.Files.{Initrd, Callbacks, directory, dev_name, file_nodes, init_initrd}

-- The ramdisk that init_initrd makes of the files of an archive.
abbrev pub disk : Callbacks → List TarFile → Initrd
disk c files = record {
  tar_files = files;
  root = directory c (b'i' ∷ b'n' ∷ b'i' ∷ b't' ∷ b'r' ∷ b'd' ∷ []);
  dev = directory c dev_name;
  root_nodes = file_nodes c files 0;
  nroot_nodes = length files;
}

pub length-files_at : (m : Mem) (p : ℕ) (ns : List ℕ) → length (files_at m p ns) ≡ length ns
length-files_at m p [] = refl
length-files_at m p (n ∷ ns) = omega (arith, length-files_at m (next_header p n) ns)

-- The blocks that init_initrd asks for, one after the other.
abbrev pub initrd_requests : List ℕ → List ℕ
initrd_requests ns = 312 ∷ 312 ∷ 8 ∷ node_requests ns (312 * length ns ∷ [])

module _ (alloc : Alloc) (limit : ℕ) (Has : List ℕ → Kernel → Type 0)
    (supply : Supply alloc limit Has) where
  -- From any source of memory that keeps what lies below the limit and can serve the requests: on an archive
  -- below the limit init_initrd returns the ramdisk of its files, with a node for each in their order,
  -- and keeps all that lies below the limit.
  pub init_initrd-disk :
      (c : Callbacks) (fuel addr : ℕ) (k : Kernel) (ns : List ℕ)
      → Has (initrd_requests ns) k
      → IsArchive k.mem limit addr ns
      → length ns < fuel
      → 312 * length ns < 4294967296
      → (k' : Kernel) × (init_initrd alloc c fuel addr k ≡ ok (disk c (files_at k.mem addr ns), k'))
        × Has [] k'
        × SameBelow limit k.mem k'.mem
  unfolding init_initrd
  init_initrd-disk c fuel addr k ns has h enough small =
      let g1 = supply.plain 312 (312 ∷ 8 ∷ node_requests ns (312 * length ns ∷ [])) k has in
      let g2 = supply.plain 312 (8 ∷ node_requests ns (312 * length ns ∷ [])) g1.k' g1.next in
      let same : SameBelow limit k.mem g2.k'.mem = λ a below. g2.same a below ∙ g1.same a below in
      let (k3, parsed, left, same3) =
        tar_parse_mem-supplied alloc limit Has supply fuel addr g2.k' ns (312 * length ns ∷ [])
          g2.next (IsArchive-SameBelow limit k.mem g2.k'.mem same addr ns h) enough in
      let g4 = supply.plain (312 * length ns) [] k3 left in
      let count : u32 (length ns) ≡ length ns = omega (arith, small) in
      let size : mul32 312 (length ns) ≡ 312 * length ns = omega (arith, small) in
      let files = files_at-SameBelow limit k.mem g2.k'.mem same addr ns h in
      (
        g4.k',
        rw (g1.returns, g2.returns, parsed, count, size, g4.returns, files)
            (ap (λ n. ok (record (disk c (files_at k.mem addr ns)) { nroot_nodes = n }, g4.k'))
              (sym (length-files_at k.mem addr ns))),
        g4.next,
        λ a below. g4.same a below ∙ same3 a below ∙ same a below,
      )
