-- ===== src/Listing.antt =====
-- src/main.c: vfs_print_content, which lists the file system's root on the screen.
--
-- `buf` is the address that the function's buffer has on the stack. A literal format stands above the
-- addresses that a word can hold, so that no write of the code meets it. `fuel` bounds the entries of
-- the root directory.
pub mod Shows
pub mod Contents
pub mod Entries
pub mod Whole
pub mod Archive
mod ArchiveTests
mod Tests
use james_m.Base.{
  ℕ, zero, suc, ◌+◌, List, [], ◌∷◌, ◌++◌, Option, none, some, Run, ok, fault, out_of_fuel, ◌>>=◌,
  ◌==◌, if◌then◌else◌, add32,
}
use james_m.Memory.{Mem}
use james_m.Memory.Text.{with_text}
use james_m.Monitor.{Screen}
use james_m.Printf.{printf, say, text_at}
use james_m.Files.{
  Dirent, NodeRef, initrd_root, Initrd, Callbacks, node_at, is_dir, vfs_read, vfs_readdir,
  vfs_finddir, initrd_read, initrd_readdir, initrd_finddir,
}

-- What the calls of the file system change.
pub record Session : Type 0 where
  pub mem : Mem
  pub screen : Screen

-- The callbacks of the nodes, by their addresses.
abbrev pub read_call :
    Callbacks → Initrd → ℕ → NodeRef → (offset size buf : ℕ) → Session → Run (ℕ × Session)
read_call c d callback node offset size buf s =
    if callback == c.read_at
    then (do
      n ← node_at d node
      (count, m) ← initrd_read d n offset size buf s.mem
      ok (count, record s { mem = m }))
    else fault

abbrev pub readdir_call :
    Callbacks → Initrd → ℕ → NodeRef → (index : ℕ) → Session → Run (Option Dirent × Session)
readdir_call c d callback node index s =
    if callback == c.readdir_at
    then (do
      (entry, screen) ← initrd_readdir d node index s.screen
      ok (entry, record s { screen = screen }))
    else fault

abbrev pub finddir_call :
    Callbacks → Initrd → ℕ → NodeRef → (name : List ℕ) → Session → Run (Option NodeRef × Session)
finddir_call c d callback node name s =
    if callback == c.finddir_at then ok (initrd_finddir d node name, s) else fault

abbrev pub found_file : List ℕ
found_file =
    b'F' ∷ b'o' ∷ b'u' ∷ b'n' ∷ b'd' ∷ b' ' ∷ b'f' ∷ b'i' ∷ b'l' ∷ b'e' ∷ b' ' ∷ b'%' ∷ b's' ∷ []

abbrev pub directory_line : List ℕ
directory_line =
    b'\n' ∷ b'\t' ∷ b'(' ∷ b'd' ∷ b'i' ∷ b'r' ∷ b'e' ∷ b'c' ∷ b't' ∷ b'o' ∷ b'r' ∷ b'y' ∷ b')'
    ∷ b'\n' ∷ []

abbrev pub contents_line : List ℕ
contents_line =
    b'\n' ∷ b'\t' ∷ b' ' ∷ b'c' ∷ b'o' ∷ b'n' ∷ b't' ∷ b'e' ∷ b'n' ∷ b't' ∷ b's' ∷ b':' ∷ b'\n' ∷ []

abbrev pub text_line : List ℕ
text_line = b'%' ∷ b's' ∷ b'\n' ∷ []

-- Where a literal format stands while a text in memory is printed.
abbrev pub literal_at : ℕ
literal_at = 4294967296

abbrev pub print_buffer : (buf : ℕ) → Session → Run Session
print_buffer buf s = do
  (n, screen) ←
      printf 2048 (with_text s.mem literal_at (text_line ++ (0 ∷ []))) literal_at (buf ∷ [])
        s.screen
  ok (record s { screen = screen })

-- The `else` branch: at most 1024 bytes from the start of the file, with a zero byte behind them.
unfoldable pub print_contents : Callbacks → Initrd → (buf : ℕ) → NodeRef → Session → Run Session
print_contents c d buf node s = do
  screen ← say contents_line [] [] s.screen
  (sz, s') ← vfs_read (node_at d) (read_call c d) node 0 1024 buf (record s { screen = screen })
  print_buffer buf (record s' { mem = λ a. if a == buf + sz then 0 else s'.mem a })

-- The rest of the loop's body once the entry has been read; NULL from vfs_finddir is followed.
unfoldable pub print_entry : Callbacks → Initrd → (buf : ℕ) → Dirent → Session → Run Session
print_entry c d buf entry s = do
  screen ← say found_file entry.name (text_at ∷ []) s.screen
  (found, s') ←
      vfs_finddir (node_at d) (finddir_call c d) initrd_root entry.name
        (record s { screen = screen })
  elim found [
    | none ↦ fault
    | some node ↦ (do
      n ← node_at d node
      if is_dir n
          then (do
            screen' ← say directory_line [] [] s'.screen
            ok (record s' { screen = screen' }))
          else print_contents c d buf node s')
  ]

-- `while (node = vfs_readdir(vfs_root, i))`
unfoldable pub print_from : Callbacks → Initrd → (buf fuel i : ℕ) → Session → Run Session
print_from c d buf zero i s = out_of_fuel
print_from c d buf (suc fuel) i s = do
  (entry, s') ← vfs_readdir (node_at d) (readdir_call c d) initrd_root i s
  elim entry [
    | none ↦ ok s'
    | some e ↦ print_entry c d buf e s' >>= print_from c d buf fuel (add32 i 1)
  ]

unfoldable pub vfs_print_content : Callbacks → Initrd → (buf fuel : ℕ) → Session → Run Session
vfs_print_content c d buf fuel s = print_from c d buf fuel 0 s
