-- ===== src/Listing/Tests.antt =====
-- The listing of a ramdisk with one file of five characters.
use james_m.Base.{◌≡◌, refl, arith, inr, [], ◌∷◌, ◌++◌, some, ok}
use james_m.Tar.{TarFile}
use james_m.Files.{Callbacks, find_file}
use james_m.Listing.{Session, vfs_print_content}
use james_m.Files.Made.{disk}
use james_m.Listing.Contents.{Printed}
use james_m.Listing.Entries.{AreSet, dev_pieces}
use james_m.Listing.Whole.{listing_pieces, vfs_print_content-Printed}

abbrev only_file : TarFile
only_file = record { tf_filename = b'b' ∷ 0 ∷ []; tf_datasiz = 5; tf_data = 0x1800 }

abbrev callbacks : Callbacks
callbacks = record { read_at = 0x100; readdir_at = 0x200; finddir_at = 0x300 }

abbrev are_set : AreSet callbacks
are_set = record { read = omega arith; readdir = omega arith; finddir = omega arith }

-- Each byte of the memory is an `A`.
abbrev session : Session
session = record {
  mem = λ _. b'A';
  screen = record { video = λ _. 0; cursor_x = 0; cursor_y = 0; ports = [] };
}

only_found : find_file (only_file ∷ []) (b'b' ∷ []) ≡ some only_file
unfolding find_file
only_found = refl

vfs_print_content-Printed_example :
    (s' : Session) × (vfs_print_content callbacks (disk callbacks (only_file ∷ [])) 0x9000 3 session
      ≡ ok s')
    × Printed 0x9000 (dev_pieces ++ listing_pieces (λ _. b'A') 0x9000 (only_file ∷ []) 0) session s'
vfs_print_content-Printed_example =
    vfs_print_content-Printed callbacks are_set (only_file ∷ []) 0x9000 (omega arith) (omega arith)
      2 session (λ a. omega arith)
      (
        record {
          chars = (omega arith, omega arith, tt);
          short = omega arith;
          not_dev = refl;
          first = only_found;
          text = record {
            size = omega arith;
            apart = inr (omega arith);
            chars = (
              omega arith,
              omega arith,
              (
                omega arith,
                omega arith,
                (
                  omega arith,
                  omega arith,
                  (omega arith, omega arith, (omega arith, omega arith, tt)),
                ),
              ),
            );
          };
        },
        tt,
      )
      (omega arith)
