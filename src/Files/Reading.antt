-- ===== src/Files/Reading.antt =====
-- What initrd_read gives to its caller.
use james_m.Base.{
  ℕ, ◌+◌, ◌-◌, ◌≤◌, ◌<◌, ◌≡◌, ◌≢◌, ◌⊎◌, ◌++◌, Bool-cases, true, inl, inr, refl, arith, List, [],
  ◌∷◌, some, ok, ltb, if◌then◌else◌, add32, sub32, ap, ◌∙◌, false, leb, none≢some,
}
use james_m.Memory.{Mem, memcpy}
use james_m.Memory.Words.{IsBytes}
use james_m.Memory.Blocks.{in_block, memcpy_lem}
use james_m.Memory.Text.{text_eq}
use james_m.Files.Names.{text_eq_refl, text_eq-true}
use james_m.Tar.{TarFile}
use james_m.Files.{VfsNode, Initrd, name_text, find_file, read_file, read_queue, initrd_read}

read_queue-some :
    (fs : List TarFile) (name : List ℕ) (offset size buffer : ℕ) (m : Mem) (tf : TarFile)
    → find_file fs name ≡ some tf
    → read_queue fs name offset size buffer m ≡ ok (read_file (some tf) offset size buffer m)
unfolding read_queue find_file
read_queue-some [] name offset size buffer m tf found = absurd (none≢some found)
read_queue-some (f ∷ fs) name offset size buffer m tf found =
    ap (λ o. ok (read_file o offset size buffer m)) found

-- No file has the name.
abbrev pub NotNamed : (name : List ℕ) → List TarFile → Type 0
NotNamed name [] = Unit
NotNamed name (f ∷ fs) = (name_text f.tf_filename ≢ name) × NotNamed name fs

find_file-first :
    (name : List ℕ) (before : List TarFile) (tf : TarFile) (after : List TarFile)
    → NotNamed name before
    → name_text tf.tf_filename ≡ name
    → find_file (before ++ (tf ∷ after)) name ≡ some tf
unfolding find_file
find_file-first name [] tf after others named =
    let same : text_eq (name_text tf.tf_filename) name ≡ true = rw named (text_eq_refl name) in
    rw same
find_file-first name (f ∷ before) tf after others named =
    elim (Bool-cases (text_eq (name_text f.tf_filename) name)) [
      | inl equal ↦ absurd (others.0 (text_eq-true (name_text f.tf_filename) name equal))
      | inr other ↦ rw other (find_file-first name before tf after others.1 named)
    ]

-- For the file that the search finds.
pub initrd_read-found :
    (d : Initrd) (node : VfsNode) (offset size buffer : ℕ) (m : Mem) (tf : TarFile)
    → IsBytes m
    → find_file d.tar_files node.name ≡ some tf
    → offset ≤ tf.tf_datasiz
    → tf.tf_datasiz < 4294967296
    → offset + size < 4294967296
    → (buffer + size ≤ tf.tf_data) ⊎ (tf.tf_data + tf.tf_datasiz ≤ buffer)
    → (count : ℕ) × (m' : Mem) × (initrd_read d node offset size buffer m ≡ ok (count, m'))
      × (count ≡ (if leb size (tf.tf_datasiz - offset) then size else tf.tf_datasiz - offset))
      × ((a : ℕ)
          → m' a
            ≡ (if in_block buffer count a then m (tf.tf_data + offset + (a - buffer)) else m a))
unfolding initrd_read read_file
initrd_read-found d node offset size buffer m tf bytes found inside w range apart =
    let starts : ltb tf.tf_datasiz offset ≡ false = ground (arith, inside) in
    let clipped : (if ltb tf.tf_datasiz (add32 offset size)
          then sub32 tf.tf_datasiz offset
          else size)
        ≡ (if leb size (tf.tf_datasiz - offset) then size else tf.tf_datasiz - offset) =
      ground (arith, inside, range, w) in
    let count = if leb size (tf.tf_datasiz - offset) then size else tf.tf_datasiz - offset in
    let small : count ≤ size = ground arith in
    let within : count ≤ tf.tf_datasiz - offset = ground arith in
    (
      count,
      memcpy m buffer (tf.tf_data + offset) count,
      read_queue-some d.tar_files node.name offset size buffer m tf found ∙ rw (starts, clipped),
      refl,
      (λ a.
          memcpy_lem m buffer (tf.tf_data + offset) count a bytes
            (omega (arith, apart, small, within, inside))),
    )

-- For the first file of the archive whose name, up to its end, is the node's name: with an offset in the
-- file and a range that does not pass the end of the address space, initrd_read returns the size, cut to
-- what the file has from the offset on; the buffer, where it is apart from the file, then holds that many
-- bytes of the file from the offset on, and no other byte changes.
pub initrd_read-in_file :
    (d : Initrd) (node : VfsNode) (offset size buffer : ℕ) (m : Mem) (before : List TarFile)
    (tf : TarFile) (after : List TarFile)
    → IsBytes m
    → d.tar_files ≡ before ++ (tf ∷ after)
    → NotNamed node.name before
    → name_text tf.tf_filename ≡ node.name
    → offset ≤ tf.tf_datasiz
    → tf.tf_datasiz < 4294967296
    → offset + size < 4294967296
    → (buffer + size ≤ tf.tf_data) ⊎ (tf.tf_data + tf.tf_datasiz ≤ buffer)
    → (count : ℕ) × (m' : Mem) × (initrd_read d node offset size buffer m ≡ ok (count, m'))
      × (count ≡ (if leb size (tf.tf_datasiz - offset) then size else tf.tf_datasiz - offset))
      × ((a : ℕ)
          → m' a
            ≡ (if in_block buffer count a then m (tf.tf_data + offset + (a - buffer)) else m a))
initrd_read-in_file d node offset size buffer m before tf after bytes splits others named =
    initrd_read-found d node offset size buffer m tf bytes
      (rw splits (find_file-first node.name before tf after others named))

-- `offset + size` is a uint32_t. Where it wraps around to no more than the file's size, the size is not
-- cut: initrd_read copies `size` bytes, more than the file has from the offset on.
pub initrd_read-overrun :
    (d : Initrd) (node : VfsNode) (offset size buffer : ℕ) (m : Mem) (tf : TarFile)
    → find_file d.tar_files node.name ≡ some tf
    → offset ≤ tf.tf_datasiz
    → tf.tf_datasiz < 4294967296
    → size < 4294967296
    → 4294967296 ≤ offset + size
    → (initrd_read d node offset size buffer m
        ≡ ok (size, memcpy m buffer (tf.tf_data + offset) size))
      × (tf.tf_datasiz - offset < size)
unfolding initrd_read read_file
initrd_read-overrun d node offset size buffer m tf found inside w w' wraps =
    let before : ltb tf.tf_datasiz offset ≡ false = ground (arith, inside) in
    let fits : ltb tf.tf_datasiz (add32 offset size) ≡ false =
      ground (arith, inside, wraps, w, w') in
    (
      read_queue-some d.tar_files node.name offset size buffer m tf found ∙ rw (before, fits),
      omega (arith, wraps, inside),
    )
