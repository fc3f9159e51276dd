-- ===== src/Listing/ArchiveTests.antt =====
-- An archive of one file, a heap above it, and the screen.
use james_m.Base.{ℕ, ◌≡◌, refl, ap, arith, inl, inr, List, [], ◌∷◌, ◌++◌, some, ok}
use james_m.Memory.{Mem, load32, store32}
use james_m.Memory.Words.{IsBytes, store32-IsBytes}
use james_m.Memory.Text.{with_text, with_text-IsBytes}
use james_m.SortedArray.Cells.{cells}
use james_m.Kernel.{Kernel, VmHeap}
use james_m.Printf.Messages.{are_chars-Chars}
use james_m.Monitor.{Screen}
use james_m.Heap.{store_header, store_footer, vm_heap_header_cmp}
use james_m.Heap.Alloc.{alloc}
use james_m.Heap.Layout.{store_header-IsBytes, store_footer-IsBytes}
use james_m.Heap.Segments.{IsSeg, hole, count}
use james_m.Heap.Invariant.{IsHeap}
use james_m.Heap.Source.{IsServing, heap-Supply}
use james_m.Tar.{TarFile}
use james_m.Tar.Archive.{IsArchive, files_at}
use james_m.Files.{Callbacks, find_file, init_initrd}
use james_m.Files.Made.{disk, initrd_requests}
use james_m.Listing.{Session, vfs_print_content}
use james_m.Listing.Contents.{Printed}
use james_m.Listing.Entries.{AreSet, dev_pieces}
use james_m.Listing.Whole.{AreListed, listing_pieces}
use james_m.Listing.Archive.{init_initrd-vfs_print_content}

-- The index stands at 0x5000, and a hole of 2048 bytes at 0x6000.
abbrev heap_mem : Mem
heap_mem = store32 (store_footer (store_header (λ _. 0) 0x6000 1 2048) 0x67F8 0x6000) 0x5000 0x6000

-- The archive stands at 0x1000: the name `a`, the size in octal, and five characters.
abbrev size_text : List ℕ
size_text = 48 ∷ 48 ∷ 48 ∷ 48 ∷ 48 ∷ 48 ∷ 48 ∷ 48 ∷ 48 ∷ 48 ∷ 53 ∷ []

abbrev data_text : List ℕ
data_text = b'h' ∷ b'e' ∷ b'l' ∷ b'l' ∷ b'o' ∷ []

abbrev archive : Mem
archive =
    with_text (with_text (with_text heap_mem 0x1000 (b'a' ∷ [])) 0x107C size_text) 0x1200 data_text

abbrev heap : VmHeap
heap = record {
  h_index = record {
    sa_array = 0x5000;
    sa_size = 1;
    sa_maxsize = 8;
    sa_cmp = some vm_heap_header_cmp;
  };
  h_addr_start = 0x6000;
  h_addr_end = 0x6800;
  h_addr_max = 0x9000;
  h_su = 0;
  h_ro = 0;
}

abbrev kernel : Kernel
kernel = record {
  mem = archive;
  frames = 0x100;
  nframes = 64;
  kernel_directory = 0x4000;
  current_directory = 0x4000;
  placement_address = 0x8000;
  cr0 = 0;
  cr3 = 0;
  kernel_heap = some heap;
}

archive-IsBytes : IsBytes archive
archive-IsBytes = with_text-IsBytes _ 0x1200 data_text (are_chars-Chars data_text refl) (
    with_text-IsBytes _ 0x107C size_text (are_chars-Chars size_text refl) (
      with_text-IsBytes _ 0x1000 (b'a' ∷ []) (omega arith, omega arith, tt)
        (store32-IsBytes _ 0x5000 0x6000 (
          store_footer-IsBytes _ 0x67F8 0x6000
            (store_header-IsBytes (λ _. 0) 0x6000 1 2048 (λ a. omega arith))))))

only_hole : IsSeg archive 0x6800 0x6000 (hole 2048)
unfolding load32 store32
only_hole = record {
  room = omega arith;
  header = record { magic = refl; hole = refl; size_field = refl };
  footer = inl (record { magic = refl; names = refl });
}

no_footer : load32 archive 0x5FF8 ≡ 0
unfolding load32 store32
no_footer = refl

only_cell : cells archive 0x5000 0 1 ≡ 0x6000 ∷ []
unfolding cells load32 store32
only_cell = refl

one_hole-IsHeap : IsHeap kernel heap (hole 2048 ∷ [])
one_hole-IsHeap = record {
  heap = refl;
  bytes = archive-IsBytes;
  compares = refl;
  capacity = omega arith;
  index_below = omega arith;
  limit = omega arith;
  guard = λ e. absurd (omega (arith, e, no_footer));
  tiled = (only_hole, refl);
  entries = λ x. ap (count x) only_cell;
}

serving : IsServing 0x2000 (initrd_requests (5 ∷ [])) kernel
serving = record {
  h = heap;
  ss = hole 2048 ∷ [];
  is_heap = one_hole-IsHeap;
  x = 0x6000;
  f = record { before = []; size = 2048; after = []; splits = refl; place = refl };
  room = omega arith;
  above = omega arith;
}

one_file-IsArchive : IsArchive archive 0x2000 0x1000 (5 ∷ [])
unfolding store32
one_file-IsArchive = omega arith

abbrev callbacks : Callbacks
callbacks = record { read_at = 0x100; readdir_at = 0x200; finddir_at = 0x300 }

abbrev are_set : AreSet callbacks
are_set = record { read = omega arith; readdir = omega arith; finddir = omega arith }

abbrev files : List TarFile
files = files_at archive 0x1000 (5 ∷ [])

file_listed : AreListed callbacks are_set files 0x9000 (omega arith) (omega arith) archive files
unfolding find_file store32
file_listed = (
  record {
    chars = (omega arith, omega arith, tt);
    short = omega arith;
    not_dev = refl;
    first = refl;
    text = record {
      size = omega arith;
      apart = inr (omega arith);
      chars = are_chars-Chars data_text refl;
    };
  },
  tt,
)

abbrev blank : Screen
blank = record { video = λ _. 0; cursor_x = 0; cursor_y = 0; ports = [] }

init_initrd-vfs_print_content_example :
    (k' : Kernel) × (init_initrd (alloc 1) callbacks 2 0x1000 kernel
      ≡ ok (disk callbacks files, k'))
    × (s' : Session) × (vfs_print_content callbacks
          (disk callbacks files)
          0x9000
          3
          (record { mem = k'.mem; screen = blank })
        ≡ ok s')
    × Printed 0x9000
        (dev_pieces ++ listing_pieces archive 0x9000 files 0)
        (record { mem = k'.mem; screen = blank })
        s'
init_initrd-vfs_print_content_example =
    init_initrd-vfs_print_content (alloc 1) 0x2000 (IsServing 0x2000) (heap-Supply 0 0x2000)
      (λ reqs k has. has.is_heap.bytes) callbacks are_set 0x9000 (omega arith) 0x1000 kernel
      (5 ∷ []) (omega arith) 2 blank serving one_file-IsArchive (omega arith) (omega arith)
      file_listed
