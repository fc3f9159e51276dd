-- ===== src/Listing/Entries.antt =====
-- The listing of a ramdisk as init_initrd makes it: each entry, and all of them.
use james_m.Base.{
  ℕ, zero, suc, ◌+◌, ◌≤◌, ◌<◌, ◌≡◌, refl, ap, ◌∙◌, sym, arith, List, [], ◌∷◌, ◌++◌, some, none≢some,
  ok, true, false, length, ◌==◌, ltb, get_elem?,
}
use james_m.Memory.{Mem}
use james_m.Memory.Words.{IsBytes}
use james_m.Memory.Text.{Chars, text_eq}
use james_m.Tar.{TarFile}
use james_m.Printf.Pieces.{Piece}
use james_m.Printf.Messages.{plains}
use james_m.Files.{
  VfsNode, initrd_root, root_node, Initrd, Callbacks, file_node, file_nodes, name_text, dev_name,
  find_file, node_at, is_dir, vfs_finddir, initrd_finddir,
}
use james_m.Files.Names.{find_node-FoundBy, text_eq_refl, text_eq-true}
use james_m.Listing.{Session, directory_line, print_entry, literal_at}
use james_m.Listing.Shows.{Shows-append, found_file_pieces, say-found_file, say-directory_line}
use james_m.Files.Made.{disk}
use james_m.Listing.Contents.{Printed, IsTextFile, contents_pieces, print_contents-Printed}

pub length-file_nodes :
    (c : Callbacks) (fs : List TarFile) (i : ℕ) → length (file_nodes c fs i) ≡ length fs
unfolding file_nodes
length-file_nodes c [] i = refl
length-file_nodes c (tf ∷ fs) i = omega (arith, length-file_nodes c fs (i + 1))

pub file_nodes-some :
    (c : Callbacks) (fs : List TarFile) (b i : ℕ) (tf : TarFile)
    → get_elem? fs i ≡ some tf
    → get_elem? (file_nodes c fs b) i ≡ some (file_node c tf (b + i))
unfolding file_nodes
file_nodes-some c [] b i tf at = absurd (none≢some at)
file_nodes-some c (f ∷ fs) b zero tf at =
    let same : f ≡ tf = cc in rw same (ap (λ j. some (file_node c tf j)) (omega arith))
file_nodes-some c (f ∷ fs) b (suc i) tf at =
    file_nodes-some c fs (b + 1) i tf at ∙ ap (λ j. some (file_node c tf j)) (omega arith)

-- Every node is the node of a file.
file_nodes-file_node :
    (c : Callbacks) (fs : List TarFile) (b i : ℕ) (n : VfsNode)
    → get_elem? (file_nodes c fs b) i ≡ some n
    → (tf : TarFile) × (j : ℕ) × (n ≡ file_node c tf j)
unfolding file_nodes
file_nodes-file_node c [] b i n at = absurd (none≢some at)
file_nodes-file_node c (f ∷ fs) b zero n at = (f, b, cc)
file_nodes-file_node c (f ∷ fs) b (suc i) n at = file_nodes-file_node c fs (b + 1) i n at

node_at-some :
    (d : Initrd) (i : ℕ) (n : VfsNode)
    → get_elem? d.root_nodes i ≡ some n
    → node_at d (root_node i) ≡ ok n
unfolding node_at
node_at-some d i n at = rw (at, node_at)

-- The callbacks are functions, so none of them stands at the address 0.
pub record AreSet (c : Callbacks) : Type 0 where
  pub read : 0 < c.read_at
  pub readdir : 0 < c.readdir_at
  pub finddir : 0 < c.finddir_at

abbrev pub file_pieces : Mem → (buf : ℕ) → TarFile → List Piece
file_pieces m buf tf = found_file_pieces (name_text tf.tf_filename) ++ contents_pieces m buf tf

abbrev pub dev_pieces : List Piece
dev_pieces = found_file_pieces dev_name ++ (plains directory_line ++ [])

module _ (c : Callbacks) (set : AreSet c) (files : List TarFile) (buf : ℕ)
    (low : buf + 1025 ≤ literal_at) where
  pub print_entry-dev :
      (s : Session)
      → IsBytes s.mem
      → (s' : Session) × (print_entry c (disk c files) buf (record { name = dev_name; inode = 0 }) s
          ≡ ok s')
        × Printed buf dev_pieces s s'
  unfolding print_entry vfs_finddir node_at initrd_finddir
  print_entry-dev s bytes =
      let (screen, said, shown) =
        say-found_file dev_name s.screen
          (omega arith, omega arith, (omega arith, omega arith, (omega arith, omega arith, tt)))
          (omega arith) in
      let (screen', said', shown') = say-directory_line screen in
      let used : ltb 0 c.finddir_at ≡ true = ground (arith, set.finddir) in
      let right : (c.finddir_at == c.finddir_at) ≡ true = ground arith in
      (
        record s { screen = screen' },
        rw (said, used, right, said'),
        record {
          shows = Shows-append shown shown';
          still_bytes = bytes;
          elsewhere = λ a out. refl;
        },
      )

  -- A file whose name is a short text, and no other file of that name stands before it.
  pub record IsListed (m : Mem) (tf : TarFile) : Type 0 where
    pub chars : Chars (name_text tf.tf_filename)
    pub short : length (name_text tf.tf_filename) < 128
    pub not_dev : text_eq (name_text tf.tf_filename) dev_name ≡ false
    pub first : find_file files (name_text tf.tf_filename) ≡ some tf
    pub text : IsTextFile m buf tf

  pub print_entry-file :
      (s : Session) (tf : TarFile) (j : ℕ)
      → IsBytes s.mem
      → IsListed s.mem tf
      → get_elem? files j ≡ some tf
      → (s' : Session) × (print_entry c
            (disk c files)
            buf
            (record { name = name_text tf.tf_filename; inode = j })
            s
          ≡ ok s')
        × Printed buf (file_pieces s.mem buf tf) s s'
  unfolding print_entry vfs_finddir initrd_finddir
  print_entry-file s tf j bytes is at =
      let name = name_text tf.tf_filename in
      let (screen, said, shown) = say-found_file name s.screen is.chars (omega (arith, is.short)) in
      let f =
        find_node-FoundBy (file_nodes c files 0) 0 name j (file_node c tf (0 + j))
          (file_nodes-some c files 0 j tf at) (text_eq_refl name) in
      let (tf', j', node) = file_nodes-file_node c files 0 f.i f.entry f.there in
      let place : 0 + f.i ≡ f.i = omega arith in
      let there : node_at (disk c files) (root_node (0 + f.i)) ≡ ok f.entry =
        ap (λ i. node_at (disk c files) (root_node i)) place
        ∙ node_at-some (disk c files) f.i f.entry f.there in
      let same : find_file files f.entry.name ≡ some tf =
        ap (find_file files) (sym (text_eq-true name f.entry.name f.named)) ∙ is.first in
      let (s', printed, p) =
        print_contents-Printed c files buf (root_node (0 + f.i)) f.entry tf
          (record s { screen = screen }) there (ap (λ (n : VfsNode). n.read) node) set.read same
          bytes is.text low in
      let used : ltb 0 c.finddir_at ≡ true = ground (arith, set.finddir) in
      let right : (c.finddir_at == c.finddir_at) ≡ true = ground arith in
      let node_root : node_at (disk c files) initrd_root ≡ ok ((disk c files).root) =
        unfold node_at in refl in
      let no_dir : is_dir f.entry ≡ false = ap (λ (n : VfsNode). is_dir n) node in
      (
        s',
        rw (said, node_root, used, right, is.not_dev, f.result, there, no_dir) printed,
        record {
          shows = Shows-append shown p.shows;
          still_bytes = p.still_bytes;
          elsewhere = p.elsewhere;
        },
      )
