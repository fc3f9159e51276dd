-- ===== src/Listing/Contents.antt =====
-- One entry of the listing: a file with its contents, and the directory.
use james_m.Base.{
  ℕ, zero, suc, ◌+◌, ◌-◌, ◌≤◌, ◌<◌, ◌≡◌, ◌⊎◌, refl, ap, ◌∙◌, sym, arith, List, [], ◌∷◌, ◌++◌, some,
  ok, true, false, length, ◌==◌, if◌then◌else◌,
}
use james_m.Memory.{Mem}
use james_m.Memory.Words.{IsBytes}
use james_m.Memory.Text.{IsText, Chars, with_text, with_text_below, IsText-ext}
use james_m.Memory.Blocks.{in_block}
use james_m.Monitor.{Screen}
use james_m.Tar.{TarFile}
use james_m.Tar
use james_m.Printf.{printf}
use james_m.Printf.Pieces.{Piece, plain, text_arg, vprintf-AllRendered, put_all}
use james_m.Files.{VfsNode, NodeRef, Callbacks, find_file, node_at, vfs_read}
use james_m.Files.Made.{disk}
use james_m.Files.Reading.{initrd_read-found}
use james_m.Listing.{Session, contents_line, text_line, literal_at, print_buffer, print_contents}
use james_m.Listing.Shows.{Shows, Shows-append, say-contents_line}
use james_m.Printf.Messages.{plains}

-- A copy of `n` characters with a zero byte behind them is their text.
IsText-copied :
    (m m' : Mem) (d b n : ℕ)
    → ((i : ℕ) → i < n → m' (b + i) ≡ m (d + i))
    → m' (b + n) ≡ 0
    → Chars (Tar.bytes m d n)
    → IsText m' b (Tar.bytes m d n)
IsText-copied m m' d b zero same end chars = ap m' (omega arith) ∙ end
IsText-copied m m' d b (suc n) same end chars = (
  ap m' (omega arith) ∙ same 0 (omega arith) ∙ ap m (omega arith),
  chars.0,
  chars.1,
  IsText-copied m m' (d + 1) (b + 1) n
      (λ i h. ap m' (omega arith) ∙ same (suc i) (omega arith) ∙ ap m (omega arith))
      (ap m' (omega arith) ∙ end) chars.2,
)

length-bytes : (m : Mem) (d n : ℕ) → length (Tar.bytes m d n) ≡ n
length-bytes m d zero = refl
length-bytes m d (suc n) = omega (arith, length-bytes m (d + 1) n)

-- A text in memory, printed with a new line.
pub print_buffer-Shows :
    (buf : ℕ) (s : Session) (xs : List ℕ)
    → IsText s.mem buf xs
    → length xs ≤ 1024
    → buf + length xs < literal_at
    → (s' : Screen) × (print_buffer buf s ≡ ok (record s { screen = s' }))
      × Shows (text_arg buf xs ∷ plain b'\n' ∷ []) s.screen s'
unfolding printf
print_buffer-Shows buf s xs text short low =
    let format = text_line ++ (0 ∷ []) in
    let m = with_text s.mem literal_at format in
    let stands =
      IsText-ext s.mem m buf xs (λ a lo hi. with_text_below s.mem literal_at format a (omega arith))
        text in
    let (out, all, e) =
      vprintf-AllRendered 2048 m literal_at (text_arg buf xs ∷ plain b'\n' ∷ []) s.screen
        (stands, ((omega arith, omega arith), tt)) (omega arith)
        (
          refl,
          omega arith,
          omega arith,
          (refl, omega arith, omega arith, (refl, omega arith, omega arith, refl)),
        ) in
    (put_all out s.screen, rw e, record { out = out; all = all; screen = refl })

-- The buffer with `count` bytes of the file, and a zero byte behind them.
module _ (m m1 : Mem) (buf d count : ℕ)
    (copied : (a : ℕ) → m1 a ≡ (if in_block buf count a then m (d + 0 + (a - buf)) else m a)) where
  abbrev pub ended : Mem
  ended a = if a == buf + count then 0 else m1 a

  ended-copied : (i : ℕ) → i < count → ended (buf + i) ≡ m (d + i)
  ended-copied i h =
      let other : (buf + i == buf + count) ≡ false = ground arith in
      let inside : in_block buf count (buf + i) ≡ true = ground arith in
      rw (other, copied (buf + i), inside) (ap m (omega arith))

  ended-zero : ended (buf + count) ≡ 0
  ended-zero = ground arith

  ended-IsBytes : IsBytes m → IsBytes ended
  ended-IsBytes bytes a = ground (arith, copied a, bytes a, bytes (d + 0 + (a - buf)))

  ended_elsewhere : (a : ℕ) → count ≤ 1024 → (a < buf) ⊎ (buf + 1025 ≤ a) → ended a ≡ m a
  ended_elsewhere a short out =
      let other : (a == buf + count) ≡ false = ground (arith, out, short) in
      let outside : in_block buf count a ≡ false = ground (arith, out, short) in
      rw (other, copied a, outside)

-- What a step of the listing leaves: the screen shows the pieces, and no byte outside the buffer has changed.
pub record Printed (buf : ℕ) (ps : List Piece) (s s' : Session) : Type 0 where
  pub shows : Shows ps s.screen s'.screen
  pub still_bytes : IsBytes s'.mem
  pub elsewhere : (a : ℕ) → (a < buf) ⊎ (buf + 1025 ≤ a) → s'.mem a ≡ s.mem a

-- A file of at most 1024 characters, none of them zero, apart from the buffer.
pub record IsTextFile (m : Mem) (buf : ℕ) (tf : TarFile) : Type 0 where
  pub size : tf.tf_datasiz ≤ 1024
  pub apart : (buf + 1025 ≤ tf.tf_data) ⊎ (tf.tf_data + tf.tf_datasiz ≤ buf)
  pub chars : Chars (Tar.bytes m tf.tf_data tf.tf_datasiz)

abbrev pub contents_pieces : Mem → (buf : ℕ) → TarFile → List Piece
contents_pieces m buf tf =
    (plains contents_line ++ [])
    ++ (text_arg buf (Tar.bytes m tf.tf_data tf.tf_datasiz) ∷ plain b'\n' ∷ [])

module _ (c : Callbacks) (files : List TarFile) (buf : ℕ) (node : NodeRef) (n : VfsNode)
    (tf : TarFile) (s : Session) (there : node_at (disk c files) node ≡ ok n)
    (reads : n.read ≡ c.read_at) (pos : 0 < c.read_at) (found : find_file files n.name ≡ some tf)
    (bytes : IsBytes s.mem) (file : IsTextFile s.mem buf tf) (low : buf + 1025 ≤ literal_at) where
  pub print_contents-Printed :
      (s' : Session) × (print_contents c (disk c files) buf node s ≡ ok s')
      × Printed buf (contents_pieces s.mem buf tf) s s'
  unfolding print_contents vfs_read
  print_contents-Printed =
      let (screen, said, shown) = say-contents_line s.screen in
      let (count, m, read, size, copied) =
        initrd_read-found (disk c files) n 0 1024 buf s.mem tf bytes found (omega arith)
          (omega (arith, file.size)) (omega arith) (omega (arith, file.apart)) in
      let all : count ≡ tf.tf_datasiz = ground (arith, size, file.size) in
      let after : Session = record {
        mem = ended s.mem m buf tf.tf_data count copied;
        screen = screen;
      } in
      let text : IsText after.mem buf (Tar.bytes s.mem tf.tf_data tf.tf_datasiz) =
        IsText-copied s.mem after.mem tf.tf_data buf tf.tf_datasiz
          (λ i h. ended-copied s.mem m buf tf.tf_data count copied i (omega (arith, all, h)))
          (ap (λ j. after.mem (buf + j)) (sym all) ∙ ended-zero s.mem m buf tf.tf_data count copied)
          file.chars in
      let long = length-bytes s.mem tf.tf_data tf.tf_datasiz in
      let (screen', printed, shown') =
        print_buffer-Shows buf after (Tar.bytes s.mem tf.tf_data tf.tf_datasiz) text
          (omega (arith, long, file.size)) (omega (arith, long, file.size, low)) in
      let used : (n.read == 0) ≡ false = ground (arith, reads, pos) in
      let right : (n.read == c.read_at) ≡ true = ground (arith, reads) in
      (
        record after { screen = screen' },
        rw (said, there, used, right, read, printed),
        record {
          shows = Shows-append shown shown';
          still_bytes = ended-IsBytes s.mem m buf tf.tf_data count copied bytes;
          elsewhere = λ a out.
              ended_elsewhere s.mem m buf tf.tf_data count copied a (omega (arith, all, file.size))
                out;
        },
      )
