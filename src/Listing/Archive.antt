-- ===== src/Listing/Archive.antt =====
-- From an archive in memory to the screen: init_initrd and then vfs_print_content.
use james_m.Base.{
  ℕ, suc, ◌+◌, ◌*◌, ◌≤◌, ◌<◌, ◌≡◌, refl, sym, subst, arith, List, [], ◌∷◌, ◌++◌, ok, length,
}
use james_m.Memory.{Mem}
use james_m.Memory.Words.{IsBytes}
use james_m.Memory.Text.{Chars}
use james_m.Memory.Regions.{SameBelow}
use james_m.Kernel.{Kernel}
use james_m.Kmalloc.{Alloc}
use james_m.Kmalloc.Supply.{Supply}
use james_m.Monitor.{Screen}
use james_m.Tar
use james_m.Tar.{TarFile}
use james_m.Tar.Archive.{IsArchive, files_at, next_header}
use james_m.Files.{Callbacks, init_initrd}
use james_m.Files.Made.{disk, initrd_requests, init_initrd-disk, length-files_at}
use james_m.Listing.{Session, vfs_print_content, literal_at}
use james_m.Listing.Contents.{Printed}
use james_m.Listing.Entries.{AreSet, IsListed, dev_pieces}
use james_m.Listing.Whole.{bytes-same, AreListed, listing_pieces, vfs_print_content-Printed}

-- The data of a file of the archive end before the limit.
IsArchive-end : (m : Mem) (limit p : ℕ) (ns : List ℕ) → IsArchive m limit p ns → p ≤ limit
IsArchive-end m limit p [] h = omega (arith, h)
IsArchive-end m limit p (n ∷ ns) h = omega (arith, h.1)

module _ (c : Callbacks) (set : AreSet c) (files : List TarFile) (buf : ℕ)
    (low : buf + 1025 ≤ literal_at) (few : length files < 4294967295) (limit : ℕ) (m m' : Mem)
    (same : SameBelow limit m m') where
  IsListed-SameBelow :
      (tf : TarFile)
      → tf.tf_data + tf.tf_datasiz ≤ limit
      → IsListed c set files buf low m tf
      → IsListed c set files buf low m' tf
  IsListed-SameBelow tf below is = record {
    chars = is.chars;
    short = is.short;
    not_dev = is.not_dev;
    first = is.first;
    text = record {
      size = is.text.size;
      apart = is.text.apart;
      chars =
          subst Chars
            (sym
              (bytes-same m m' tf.tf_data tf.tf_datasiz λ a lo hi. same a (omega (arith, below))))
            is.text.chars;
    };
  }

  AreListed-SameBelow :
      (at : Mem) (p : ℕ) (ns : List ℕ)
      → IsArchive at limit p ns
      → AreListed c set files buf low few m (files_at at p ns)
      → AreListed c set files buf low few m' (files_at at p ns)
  AreListed-SameBelow at p [] h are = tt
  AreListed-SameBelow at p (n ∷ ns) h are = (
    IsListed-SameBelow
        (record { tf_filename = Tar.bytes at p 100 ++ (0 ∷ []); tf_datasiz = n; tf_data = p + 512 })
        (omega (arith, IsArchive-end at limit (next_header p n) ns h.4)) are.0,
    AreListed-SameBelow at (next_header p n) ns h.4 are.1,
  )

listing_pieces-SameBelow :
    (m m' : Mem) (limit buf : ℕ) (at : Mem) (p : ℕ) (ns : List ℕ) (j : ℕ)
    → SameBelow limit m m'
    → IsArchive at limit p ns
    → listing_pieces m' buf (files_at at p ns) j ≡ listing_pieces m buf (files_at at p ns) j
listing_pieces-SameBelow m m' limit buf at p [] j same h = refl
listing_pieces-SameBelow m m' limit buf at p (n ∷ ns) j same h =
    let data_kept =
      bytes-same m m' (p + 512) n
        λ a lo hi. same a (omega (arith, IsArchive-end at limit (next_header p n) ns h.4)) in
    rw (data_kept, listing_pieces-SameBelow m m' limit buf at (next_header p n) ns (j + 1) same h.4)

module _ (alloc : Alloc) (limit : ℕ) (Has : List ℕ → Kernel → Type 0)
    (supply : Supply alloc limit Has)
    (bytes : (reqs : List ℕ) (k : Kernel) → Has reqs k → IsBytes k.mem) (c : Callbacks)
    (set : AreSet c) (buf : ℕ) (low : buf + 1025 ≤ literal_at) (addr : ℕ) (k : Kernel) (ns : List ℕ)
    (few : length (files_at k.mem addr ns) < 4294967295) where
  abbrev pub files : List TarFile
  files = files_at k.mem addr ns

  -- From any source of memory that keeps what lies below the limit and can serve the requests: on an archive
  -- below the limit of files with names of less than 128 characters, none of them `dev` and each the first of its name, and
  -- at most 1024 characters, with a buffer apart from them and more fuel than files, init_initrd returns
  -- a ramdisk, and vfs_print_content on it ends and shows on the screen, in the order of the archive, the
  -- directory `dev` and each file's lookup message, name and contents. It writes to no byte outside the buffer.
  pub init_initrd-vfs_print_content :
      (fuel : ℕ) (screen : Screen)
      → Has (initrd_requests ns) k
      → IsArchive k.mem limit addr ns
      → length ns < fuel
      → 312 * length ns < 4294967296
      → AreListed c set files buf low few k.mem files
      → (k' : Kernel) × (init_initrd alloc c fuel addr k ≡ ok (disk c files, k'))
        × (s' : Session) × (vfs_print_content c
              (disk c files)
              buf
              (suc fuel)
              (record { mem = k'.mem; screen = screen })
            ≡ ok s')
        × Printed buf
            (dev_pieces ++ listing_pieces k.mem buf files 0)
            (record { mem = k'.mem; screen = screen })
            s'
  init_initrd-vfs_print_content fuel screen has h enough small are =
      let (k', made, left, same) =
        init_initrd-disk alloc limit Has supply c fuel addr k ns has h enough small in
      let (s', listed, p) =
        vfs_print_content-Printed c set files buf low few fuel
          (record { mem = k'.mem; screen = screen }) (bytes [] k' left)
          (AreListed-SameBelow c set files buf low few limit k.mem k'.mem same k.mem addr ns h are)
          (omega (arith, enough, length-files_at k.mem addr ns)) in
      (
        k',
        made,
        s',
        listed,
        subst (λ ps. Printed buf (dev_pieces ++ ps) (record { mem = k'.mem; screen = screen }) s')
            (listing_pieces-SameBelow k.mem k'.mem limit buf k.mem addr ns 0 same h) p,
      )
