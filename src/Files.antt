-- ===== src/Files.antt =====
-- src/vfs.c: the calls of a file system's node; src/initrd.c: the file system on the archive.
--
-- A node is known by a reference, which is what the code compares when it compares pointers. `name` has
-- the bytes of a name up to its end, and strcmp on names is the equality of texts, by the theorem on it
-- in Memory/Text.antt. A callback is an address, and NULL is 0.
pub mod Reading
pub mod Names
pub mod Made
mod Tests
use james_m.Base.{
  ℕ, zero, suc, ◌+◌, ◌*◌, ◌/◌, ◌%◌, take, length, List, [], ◌∷◌, ◌++◌, Option, none, some, Run, ok,
  panic, fault, ◌>>=◌, ◌==◌, ltb, leb, Bool, true, false, if◌then◌else◌, add32, sub32, mul32, u32,
  get_elem?, ◌&&◌, bit_and,
}
use james_m.Memory.{Mem, memcpy}
use james_m.Memory.Text.{text_eq}
use james_m.Kernel.{Kernel}
use james_m.Kmalloc.{Alloc, kmalloc}
use james_m.Tar.{TarFile, tar_parse_mem}
use james_m.Monitor.{Screen}
use james_m.Printf.{say, text_at}

abbrev pub vfs_file : ℕ
vfs_file = 1

abbrev pub vfs_directory : ℕ
vfs_directory = 2

-- `struct vfs_node` of src/include/vfs.h, but for `ptr`, which is never followed.
pub record VfsNode : Type 0 where
  pub name : List ℕ
  pub mask : ℕ
  pub uid : ℕ
  pub gid : ℕ
  pub flags : ℕ
  pub inode : ℕ
  pub length : ℕ
  pub impl : ℕ
  pub read : ℕ
  pub write : ℕ
  pub open_call : ℕ
  pub close : ℕ
  pub readdir : ℕ
  pub finddir : ℕ

-- `struct dirent`
pub record Dirent : Type 0 where
  pub name : List ℕ
  pub inode : ℕ

abbrev pub is_dir : VfsNode → Bool
is_dir node = bit_and node.flags 7 == vfs_directory

-- The calls of vfs.c, for references `N` to nodes and a state `S`: `deref` follows a reference, and
-- `call` runs the callback at an address.
module _ {N S : Type 0} (deref : N → Run VfsNode) where
  unfoldable pub vfs_read :
      (call : ℕ → N → (offset size buf : ℕ) → S → Run (ℕ × S))
      → N
      → (offset size buf : ℕ) → S
      → Run (ℕ × S)
  vfs_read call node offset size buf s =
      deref node >>= λ n. if n.read == 0 then ok (0, s) else call n.read node offset size buf s

  unfoldable pub vfs_write :
      (call : ℕ → N → (offset size buf : ℕ) → S → Run (ℕ × S))
      → N
      → (offset size buf : ℕ) → S
      → Run (ℕ × S)
  vfs_write call node offset size buf s =
      deref node >>= λ n. if n.write == 0 then ok (0, s) else call n.write node offset size buf s

  unfoldable pub vfs_open :
      (call : ℕ → N → (mode : ℕ) → S → Run (ℕ × S)) → N → (mode : ℕ) → S → Run (ℕ × S)
  vfs_open call node mode s =
      deref node >>= λ n. if n.open_call == 0 then ok (0, s) else call n.open_call node mode s

  unfoldable pub vfs_close : (call : ℕ → N → S → Run S) → N → S → Run S
  vfs_close call node s = deref node >>= λ n. if n.close == 0 then ok s else call n.close node s

  unfoldable pub vfs_readdir :
      (call : ℕ → N → (index : ℕ) → S → Run (Option Dirent × S))
      → N
      → (index : ℕ) → S
      → Run (Option Dirent × S)
  vfs_readdir call node index s = deref node >>= λ n.
      if is_dir n && ltb 0 n.readdir then call n.readdir node index s else ok (none, s)

  unfoldable pub vfs_finddir :
      (call : ℕ → N → (name : List ℕ) → S → Run (Option N × S))
      → N
      → (name : List ℕ) → S
      → Run (Option N × S)
  vfs_finddir call node name s = deref node >>= λ n.
      if is_dir n && ltb 0 n.finddir then call n.finddir node name s else ok (none, s)

-- The nodes of the initial ramdisk: the root, `/dev` and the entries of `root_nodes`.
pub data NodeRef : Type 0 where
  initrd_root initrd_dev : NodeRef
  root_node : ℕ → NodeRef

-- The static variables of initrd.c: the two directories, the files and their nodes.
pub record Initrd : Type 0 where
  pub tar_files : List TarFile
  pub root : VfsNode
  pub dev : VfsNode
  pub root_nodes : List VfsNode
  pub nroot_nodes : ℕ

-- What a reference stands for; only nodes of the ramdisk are ever referred to.
unfoldable pub node_at : Initrd → NodeRef → Run VfsNode
node_at d initrd_root = ok d.root
node_at d initrd_dev = ok d.dev
node_at d (root_node i) = elim (get_elem? d.root_nodes i) [ none ↦ fault | some n ↦ ok n ]

-- The bytes of a name up to its end.
abbrev pub name_text : List ℕ → List ℕ
name_text [] = []
name_text (c ∷ cs) = if c == 0 then [] else c ∷ name_text cs

-- The loop over the queue: the first file of that name.
unfoldable pub find_file : List TarFile → (name : List ℕ) → Option TarFile
find_file [] name = none
find_file (tf ∷ tfs) name =
    let rest = find_file tfs name in
    if text_eq (name_text tf.tf_filename) name then some tf else rest

-- The rest of initrd_read, on the file that the loop has found.
unfoldable pub read_file : Option TarFile → (offset size buffer : ℕ) → Mem → ℕ × Mem
read_file none offset size buffer m = (0, m)
read_file (some tf) offset size buffer m =
    let count =
      if ltb tf.tf_datasiz (add32 offset size) then sub32 tf.tf_datasiz offset else size in
    if ltb tf.tf_datasiz offset
    then (0, m)
    else (count, memcpy m buffer (tf.tf_data + offset) count)

-- An empty queue makes the loop, which tests after the first round, follow NULL.
unfoldable pub read_queue :
    List TarFile → (name : List ℕ) → (offset size buffer : ℕ) → Mem → Run (ℕ × Mem)
read_queue [] name offset size buffer m = fault
read_queue (tf ∷ tfs) name offset size buffer m =
    ok (read_file (find_file (tf ∷ tfs) name) offset size buffer m)

unfoldable pub initrd_read : Initrd → VfsNode → (offset size buffer : ℕ) → Mem → Run (ℕ × Mem)
initrd_read d node offset size buffer m = read_queue d.tar_files node.name offset size buffer m

abbrev pub dev_name : List ℕ
dev_name = b'd' ∷ b'e' ∷ b'v' ∷ []

abbrev pub is_root : NodeRef → Bool
is_root initrd_root = true
is_root initrd_dev = false
is_root (root_node i) = false

abbrev pub found_format : List ℕ
found_format =
    b'f' ∷ b'o' ∷ b'u' ∷ b'n' ∷ b'd' ∷ b' ' ∷ b'%' ∷ b's' ∷ b' ' ∷ b'f' ∷ b'o' ∷ b'r' ∷ b' ' ∷ b'i'
    ∷ b'n' ∷ b'd' ∷ b'e' ∷ b'x' ∷ b'=' ∷ b'%' ∷ b'd' ∷ b'\n' ∷ []

-- The static `dirent` after the name, with its end, has been copied to its array of 128 characters and then
-- the number has been stored behind that array: the bytes of the number take the place of the name's
-- characters from 128 on, and a reader of the name goes on in them (a number below 2 ^ 24 has a zero
-- byte, which ends the name). A name of 132 or more is written past the end of the struct: a fault.
unfoldable pub dirent_of : (name : List ℕ) → (inode : ℕ) → Run Dirent
dirent_of name inode =
    if ltb (length name) 128
    then ok (record { name = name; inode = inode })
    else if ltb (length name) 132
    then ok (record {
      name = name_text (
          take 128 name
          ++ (inode % 256 ∷ inode / 256 % 256 ∷ inode / 65536 % 256 ∷ inode / 16777216 ∷ []));
      inode = inode;
    })
    else fault

-- The entry, or NULL, and the screen with the message that the code prints of it.
unfoldable pub initrd_readdir :
    Initrd → NodeRef → (index : ℕ) → Screen → Run (Option Dirent × Screen)
initrd_readdir d node index s =
    if is_root node && (index == 0)
    then ok (some (record { name = dev_name; inode = 0 }), s)
    else if leb d.nroot_nodes (sub32 index 1)
    then ok (none, s)
    else elim (get_elem? d.root_nodes (sub32 index 1)) [
      | none ↦ fault
      | some found ↦ (do
        s' ← say found_format found.name (text_at ∷ index ∷ []) s
        entry ← dirent_of found.name found.inode
        ok (some entry, s'))
    ]

-- `for (i = 0; i < nroot_nodes; i++)`, over the nodes that are left from `i` on; root_nodes has nroot_nodes
-- of them.
unfoldable pub find_node : List VfsNode → (i : ℕ) → (name : List ℕ) → Option NodeRef
find_node [] i name = none
find_node (n ∷ ns) i name =
    let rest = find_node ns (i + 1) name in if text_eq name n.name then some (root_node i) else rest

unfoldable pub initrd_finddir : Initrd → NodeRef → (name : List ℕ) → Option NodeRef
initrd_finddir d node name =
    if is_root node && text_eq name dev_name then some initrd_dev else find_node d.root_nodes 0 name

abbrev pub sizeof_vfs_node : ℕ
sizeof_vfs_node = 312

-- The addresses of the three callbacks.
pub record Callbacks : Type 0 where
  pub read_at : ℕ
  pub readdir_at : ℕ
  pub finddir_at : ℕ

abbrev pub directory : Callbacks → (name : List ℕ) → VfsNode
directory c name = record {
  name = name;
  mask = 0;
  uid = 0;
  gid = 0;
  flags = vfs_directory;
  inode = 0;
  length = 0;
  impl = 0;
  read = 0;
  write = 0;
  open_call = 0;
  close = 0;
  readdir = c.readdir_at;
  finddir = c.finddir_at;
}

abbrev pub file_node : Callbacks → TarFile → (i : ℕ) → VfsNode
file_node c tf i = record {
  name = name_text tf.tf_filename;
  mask = 0;
  uid = 0;
  gid = 0;
  flags = vfs_file;
  inode = i;
  length = tf.tf_datasiz;
  impl = 0;
  read = c.read_at;
  write = 0;
  open_call = 0;
  close = 0;
  readdir = 0;
  finddir = 0;
}

-- The loop over the files, from number `i` on.
unfoldable pub file_nodes : Callbacks → List TarFile → (i : ℕ) → List VfsNode
file_nodes c [] i = []
file_nodes c (tf ∷ tfs) i = file_node c tf i ∷ file_nodes c tfs (i + 1)

-- `fuel` bounds the files of the archive. The blocks for the nodes are not looked at.
unfoldable pub init_initrd : Alloc → Callbacks → (fuel addr : ℕ) → Kernel → Run (Initrd × Kernel)
init_initrd alloc c fuel addr k = do
  (root, phys, k1) ← kmalloc alloc sizeof_vfs_node k
  (dev, phys, k2) ← kmalloc alloc sizeof_vfs_node k1
  (parsed, k3) ← tar_parse_mem alloc fuel addr k2
  elim parsed [
    | none ↦ panic
    | some (x, files) ↦ (do
      (nodes, phys, k4) ← kmalloc alloc (mul32 sizeof_vfs_node x) k3
      ok (
        record {
          tar_files = files;
          root = directory c (b'i' ∷ b'n' ∷ b'i' ∷ b't' ∷ b'r' ∷ b'd' ∷ []);
          dev = directory c dev_name;
          root_nodes = file_nodes c files 0;
          nroot_nodes = x;
        },
        k4,
      ))
  ]
