-- ===== src/Listing/Whole.antt =====
-- vfs_print_content on a ramdisk as init_initrd makes it.
use james_m.Base.{
  ℕ, zero, suc, ◌+◌, ◌≤◌, ◌<◌, ◌≡◌, ◌⊎◌, refl, ap, ◌∙◌, sym, subst, arith, List, [], ◌∷◌, ◌++◌,
  Option, some, none, ok, true, false, length, ◌==◌, leb, ltb, get_elem?, add32, sub32,
}
use james_m.Memory.{Mem}
use james_m.Memory.Words.{IsBytes}
use james_m.Memory.Text.{Chars}
use james_m.Monitor.{Screen}
use james_m.Tar.{TarFile}
use james_m.Tar
use james_m.Printf.Pieces.{Piece, plain, text_arg, put_all}
use james_m.Printf.Messages.{plains}
use james_m.Files.{
  Dirent, initrd_root, Callbacks, file_node, name_text, dev_name, node_at, vfs_readdir,
  initrd_readdir,
}
use james_m.Files.Names.{found_pieces, readdir-entry, say-found}
use james_m.Listing.{
  Session, readdir_call, print_from, vfs_print_content, literal_at, contents_line,
}
use james_m.Listing.Shows.{Shows, Shows-append, Shows-nothing, found_file_pieces}
use james_m.Files.Made.{disk}
use james_m.Listing.Contents.{Printed}
use james_m.Listing.Entries.{
  AreSet, IsListed, file_pieces, dev_pieces, print_entry-dev, print_entry-file, file_nodes-some,
}

-- All that is shown of the files `fs`, the first of them at index `j` of the nodes.
abbrev pub listing_pieces : Mem → (buf : ℕ) → List TarFile → (j : ℕ) → List Piece
listing_pieces m buf [] j = []
listing_pieces m buf (tf ∷ fs) j =
    found_pieces (name_text tf.tf_filename) (j + 1)
    ++ (file_pieces m buf tf ++ listing_pieces m buf fs (j + 1))

pub bytes-same :
    (m m' : Mem) (d n : ℕ)
    → ((a : ℕ) → d ≤ a → a < d + n → m' a ≡ m a)
    → Tar.bytes m' d n ≡ Tar.bytes m d n
bytes-same m m' d zero same = refl
bytes-same m m' d (suc n) same = rw (
  same d (omega arith) (omega arith),
  bytes-same m m' (d + 1) n (λ a lo hi. same a (omega arith) (omega arith)),
)

module _ (c : Callbacks) (set : AreSet c) (files : List TarFile) (buf : ℕ)
    (low : buf + 1025 ≤ literal_at) (few : length files < 4294967295) where
  abbrev pub AreListed : Mem → List TarFile → Type 0
  AreListed m [] = Unit
  AreListed m (tf ∷ fs) = IsListed c set files buf low m tf × AreListed m fs

  vfs_readdir-step :
      (index : ℕ) (s : Session) (entry : Option Dirent) (screen : Screen)
      → initrd_readdir (disk c files) initrd_root index s.screen ≡ ok (entry, screen)
      → vfs_readdir (node_at (disk c files)) (readdir_call c (disk c files)) initrd_root index s
        ≡ ok (entry, record s { screen = screen })
  unfolding vfs_readdir node_at
  vfs_readdir-step index s entry screen read =
      let used : ltb 0 c.readdir_at ≡ true = ground (arith, set.readdir) in
      let right : (c.readdir_at == c.readdir_at) ≡ true = ground arith in rw (used, right, read)

  contents-same :
      (m m' : Mem) (tf : TarFile)
      → ((a : ℕ) → (a < buf) ⊎ (buf + 1025 ≤ a) → m' a ≡ m a)
      → (buf + 1025 ≤ tf.tf_data) ⊎ (tf.tf_data + tf.tf_datasiz ≤ buf)
      → Tar.bytes m' tf.tf_data tf.tf_datasiz ≡ Tar.bytes m tf.tf_data tf.tf_datasiz
  contents-same m m' tf same apart =
      bytes-same m m' tf.tf_data tf.tf_datasiz λ a lo hi. same a (omega (arith, apart))

  file_pieces-same :
      (m m' : Mem) (tf : TarFile)
      → ((a : ℕ) → (a < buf) ⊎ (buf + 1025 ≤ a) → m' a ≡ m a)
      → (buf + 1025 ≤ tf.tf_data) ⊎ (tf.tf_data + tf.tf_datasiz ≤ buf)
      → file_pieces m' buf tf ≡ file_pieces m buf tf
  file_pieces-same m m' tf same apart =
      ap
        (λ xs.
          found_file_pieces (name_text tf.tf_filename)
          ++ ((plains contents_line ++ []) ++ (text_arg buf xs ∷ plain b'\n' ∷ [])))
        (contents-same m m' tf same apart)

  IsListed-same :
      (m m' : Mem) (tf : TarFile)
      → ((a : ℕ) → (a < buf) ⊎ (buf + 1025 ≤ a) → m' a ≡ m a)
      → IsListed c set files buf low m tf
      → IsListed c set files buf low m' tf
  IsListed-same m m' tf same is = record {
    chars = is.chars;
    short = is.short;
    not_dev = is.not_dev;
    first = is.first;
    text = record {
      size = is.text.size;
      apart = is.text.apart;
      chars = subst Chars (sym (contents-same m m' tf same is.text.apart)) is.text.chars;
    };
  }

  print_from-end :
      (fuel j : ℕ) (s : Session)
      → j ≡ length files
      → print_from c (disk c files) buf (suc fuel) (j + 1) s ≡ ok s
  unfolding print_from initrd_readdir
  print_from-end fuel j s e =
      let later : (j + 1 == 0) ≡ false = ground arith in
      let index : sub32 (j + 1) 1 ≡ j = omega (arith, few, e) in
      let over : leb (length files) j ≡ true = ground (arith, e) in
      let end : initrd_readdir (disk c files) initrd_root (j + 1) s.screen ≡ ok (none, s.screen) =
        rw (later, index, over) in
      rw (vfs_readdir-step (j + 1) s none s.screen end)

  -- The files from index `j` on.
  print_from-files :
      (m : Mem) (fs : List TarFile) (fuel j : ℕ) (s : Session)
      → length files ≡ j + length fs
      → ((i : ℕ) → get_elem? files (j + i) ≡ get_elem? fs i)
      → AreListed m fs
      → length fs < fuel
      → IsBytes s.mem
      → ((a : ℕ) → (a < buf) ⊎ (buf + 1025 ≤ a) → s.mem a ≡ m a)
      → (s' : Session) × (print_from c (disk c files) buf fuel (j + 1) s ≡ ok s')
        × Printed buf (listing_pieces m buf fs j) s s'
  unfolding print_from
  print_from-files m fs zero j s total suffix are enough bytes same = absurd (omega arith)
  print_from-files m [] (suc fuel) j s total suffix are enough bytes same = (
    s,
    print_from-end fuel j s (omega (arith, total)),
    record { shows = Shows-nothing s.screen; still_bytes = bytes; elsewhere = λ a o. refl },
  )
  print_from-files m (tf ∷ fs) (suc fuel) j s total suffix are enough bytes same =
      let name = name_text tf.tf_filename in
      let zeroth : 0 + j ≡ j = omega arith in
      let at : get_elem? files j ≡ some tf = ap (get_elem? files) (omega arith) ∙ suffix 0 in
      let node = file_nodes-some c files 0 j tf at ∙ ap (λ i. some (file_node c tf i)) zeroth in
      let (out, all, said) =
        say-found name (j + 1) s.screen are.0.chars (omega (arith, are.0.short))
          (omega (arith, few, total)) in
      let read =
        readdir-entry (disk c files) j (file_node c tf j) s.screen (put_all out s.screen) few
          (omega (arith, total)) node are.0.short said in
      let here = record s { screen = put_all out s.screen } in
      let (s1, printed, p) =
        print_entry-file c set files buf low here tf j bytes (IsListed-same m s.mem tf same are.0)
          at in
      let (s2, rest, q) =
        print_from-files m fs fuel (j + 1) s1 (omega (arith, total))
          (λ i. ap (get_elem? files) (omega arith) ∙ suffix (suc i)) are.1 (omega (arith, enough))
          p.still_bytes (λ a o. p.elsewhere a o ∙ same a o) in
      let next : add32 (j + 1) 1 ≡ j + 1 + 1 = omega (arith, few, total) in
      (
        s2,
        rw (vfs_readdir-step (j + 1) s _ _ read, printed, next) rest,
        record {
          shows =
              Shows-append (record { out = out; all = all; screen = refl })
                (Shows-append
                  (subst (λ b. Shows b here.screen s1.screen)
                    (file_pieces-same m s.mem tf same are.0.text.apart) p.shows)
                  q.shows);
          still_bytes = q.still_bytes;
          elsewhere = λ a o. q.elsewhere a o ∙ p.elsewhere a o;
        },
      )

  -- On a ramdisk as init_initrd makes it, of files with names of less than 128 characters, none of them `dev` and each the
  -- first of its name, and at most 1024 characters, with a buffer apart from the files, and more fuel than
  -- entries: vfs_print_content ends, and shows on the screen in this order the directory `dev` and, for
  -- each file, the message of its reading, its name and all its contents. It writes to no byte outside the
  -- buffer.
  pub vfs_print_content-Printed :
      (fuel : ℕ) (s : Session)
      → IsBytes s.mem
      → AreListed s.mem files
      → length files < fuel
      → (s' : Session) × (vfs_print_content c (disk c files) buf (suc fuel) s ≡ ok s')
        × Printed buf (dev_pieces ++ listing_pieces s.mem buf files 0) s s'
  unfolding vfs_print_content print_from
  vfs_print_content-Printed fuel s bytes are enough =
      let dev : initrd_readdir (disk c files) initrd_root 0 s.screen
          ≡ ok (some (record { name = dev_name; inode = 0 }), s.screen) =
        unfold initrd_readdir in refl in
      let (s1, printed, p) = print_entry-dev c set files buf low s bytes in
      let (s2, rest, q) =
        print_from-files s.mem files fuel 0 s1 (omega arith)
          (λ i. ap (get_elem? files) (omega arith)) are enough p.still_bytes p.elsewhere in
      (
        s2,
        rw (vfs_readdir-step 0 s _ _ dev, printed) rest,
        record {
          shows = Shows-append p.shows q.shows;
          still_bytes = q.still_bytes;
          elsewhere = λ a o. q.elsewhere a o ∙ p.elsewhere a o;
        },
      )
