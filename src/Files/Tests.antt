-- ===== src/Files/Tests.antt =====
-- The theorems on the initial ramdisk at a disk of two files.
use james_m.Base.{
  ℕ, ◌-◌, ◌<◌, ◌≡◌, refl, ap, arith, inl, List, [], ◌∷◌, some, ok, leb, if◌then◌else◌,
}
use james_m.Memory.{Mem, memcpy}
use james_m.Memory.Blocks.{in_block}
use james_m.Tar.{TarFile}
use james_m.Files.{
  Initrd, Callbacks, directory, file_node, find_file, initrd_read, initrd_readdir, initrd_finddir,
  initrd_root, dev_name,
}
use james_m.Files.Reading.{initrd_read-in_file, initrd_read-overrun}
use james_m.Monitor.{Screen}
use james_m.Printf.Pieces.{AllRendered, put_all}
use james_m.Files.Names.{FoundBy, found_pieces, readdir-finddir}

-- A file `a` of 700 bytes and a file `b` of 5 bytes.
abbrev first_file : TarFile
first_file = record { tf_filename = b'a' ∷ 0 ∷ []; tf_datasiz = 700; tf_data = 0x1200 }

abbrev second_file : TarFile
second_file = record { tf_filename = b'b' ∷ 0 ∷ []; tf_datasiz = 5; tf_data = 0x1800 }

abbrev callbacks : Callbacks
callbacks = record { read_at = 0x100; readdir_at = 0x200; finddir_at = 0x300 }

abbrev disk : Initrd
disk = record {
  tar_files = first_file ∷ second_file ∷ [];
  root = directory callbacks (b'i' ∷ []);
  dev = directory callbacks dev_name;
  root_nodes = file_node callbacks first_file 0 ∷ file_node callbacks second_file 1 ∷ [];
  nroot_nodes = 2;
}

second_found : find_file disk.tar_files (b'b' ∷ []) ≡ some second_file
unfolding find_file
second_found = refl

abbrev first_char : List ℕ → ℕ
first_char [] = 0
first_char (c ∷ cs) = c

abbrev sevens : Mem
sevens _ = 7

initrd_read-in_file_example :
    (count : ℕ) × (m' : Mem) × (initrd_read disk
        (file_node callbacks second_file 1)
        2
        1024
        0x100
        sevens
      ≡ ok (count, m'))
    × (count ≡ (if leb 1024 3 then 1024 else 3))
    × ((a : ℕ) → m' a ≡ (if in_block 0x100 count a then 7 else 7))
initrd_read-in_file_example =
    initrd_read-in_file disk (file_node callbacks second_file 1) 2 1024 0x100 sevens
      (first_file ∷ []) second_file [] (λ a. omega arith) refl
      ((λ e. absurd (omega (arith, ap first_char e))), tt) refl (omega arith) (omega arith)
      (omega arith) (inl (omega arith))

initrd_read-overrun_example :
    (initrd_read disk (file_node callbacks second_file 1) 2 4294967295 0x100 sevens
      ≡ ok (4294967295, memcpy sevens 0x100 0x1802 4294967295))
    × (5 - 2 < 4294967295)
initrd_read-overrun_example =
    initrd_read-overrun disk (file_node callbacks second_file 1) 2 4294967295 0x100 sevens
      second_file second_found (omega arith) (omega arith) (omega arith) (omega arith)

abbrev blank : Screen
blank = record { video = λ _. 0; cursor_x = 0; cursor_y = 0; ports = [] }

readdir-finddir_example :
    (out : List ℕ) × AllRendered (found_pieces (b'b' ∷ []) 2) out
    × (initrd_readdir disk initrd_root 2 blank
        ≡ ok (some (record { name = b'b' ∷ []; inode = 1 }), put_all out blank))
    × FoundBy disk.root_nodes 0 (b'b' ∷ []) 1 (initrd_finddir disk initrd_root (b'b' ∷ []))
readdir-finddir_example =
    readdir-finddir disk 1 (file_node callbacks second_file 1) blank refl (omega arith)
      (omega arith) refl (omega arith, omega arith, tt) (omega arith) refl
