-- ===== src/Files/Names.antt =====
-- Listing the root directory and looking its entries up.
use james_m.Base.{
  ℕ, zero, suc, ◌+◌, ◌≤◌, ◌<◌, ◌≡◌, refl, ap, ◌∙◌, arith, List, [], ◌∷◌, ◌++◌, Option, none, some,
  ok, ◌==◌, leb, ltb, sub32, true, false, Bool-cases, inl, inr, get_elem?, length, none≢some,
}
use james_m.Memory.Text.{text_eq, Chars}
use james_m.Files.{
  VfsNode, NodeRef, initrd_root, root_node, Initrd, dev_name, initrd_readdir, find_node,
  initrd_finddir, found_format, dirent_of,
}
use james_m.Monitor.{Screen}
use james_m.Printf.{text_at, message_memory, say}
use james_m.Printf.Pieces.{Piece, plain, text_arg, int_arg, AllRendered, put_all}
use james_m.Printf.Messages.{
  plains, plains-ArePieces, are_chars-Chars, IsText-text_at, say-AllRendered,
}

pub text_eq_refl : (xs : List ℕ) → text_eq xs xs ≡ true
text_eq_refl [] = refl
text_eq_refl (x ∷ xs) = let same : (x == x) ≡ true = ground arith in rw (same, text_eq_refl xs)

pub text_eq-true : (xs ys : List ℕ) → text_eq xs ys ≡ true → xs ≡ ys
text_eq-true [] [] h = refl
text_eq-true [] (y ∷ ys) h = absurd cc
text_eq-true (x ∷ xs) [] h = absurd cc
text_eq-true (x ∷ xs) (y ∷ ys) h =
    let same : x ≡ y = ground (arith, h) in
    let rest = text_eq-true xs ys (ground (arith, h)) in rw (same, rest)

-- The first entry with this name is found, and no later than entry `j`, which has it.
pub record FoundBy (ns : List VfsNode) (base : ℕ) (name : List ℕ) (j : ℕ) (o : Option NodeRef)
    : Type 0 where
  pub i : ℕ
  pub entry : VfsNode
  pub result : o ≡ some (root_node (base + i))
  pub first : i ≤ j
  pub there : get_elem? ns i ≡ some entry
  pub named : text_eq name entry.name ≡ true

pub find_node-FoundBy :
    (ns : List VfsNode) (base : ℕ) (name : List ℕ) (j : ℕ) (n : VfsNode)
    → get_elem? ns j ≡ some n
    → text_eq name n.name ≡ true
    → FoundBy ns base name j (find_node ns base name)
unfolding find_node
find_node-FoundBy [] base name j n at same = absurd (none≢some at)
find_node-FoundBy (x ∷ ns) base name zero n at same =
    let here : text_eq name x.name ≡ true =
      ap (λ (o : Option VfsNode). elim o [ none ↦ false | some y ↦ text_eq name y.name ]) at
      ∙ same in
    record {
      i = 0;
      entry = x;
      result = rw here (ap (λ (b : ℕ). some (root_node b)) (omega arith));
      first = omega arith;
      there = refl;
      named = here;
    }
find_node-FoundBy (x ∷ ns) base name (suc j) n at same = elim (Bool-cases (text_eq name x.name)) [
  | inl here ↦ record {
    i = 0;
    entry = x;
    result = rw here (ap (λ (b : ℕ). some (root_node b)) (omega arith));
    first = omega arith;
    there = refl;
    named = here;
  }
  | inr later ↦
      let rest = find_node-FoundBy ns (base + 1) name j n at same in
      record {
        i = suc rest.i;
        entry = rest.entry;
        result = rw later (rest.result ∙ ap (λ (b : ℕ). some (root_node b)) (omega arith));
        first = omega (arith, rest.first);
        there = rest.there;
        named = rest.named;
      }
]

-- The message about a found entry, in pieces.
abbrev pub found_pieces : (name : List ℕ) → (index : ℕ) → List Piece
found_pieces name index =
    plains (b'f' ∷ b'o' ∷ b'u' ∷ b'n' ∷ b'd' ∷ b' ' ∷ [])
    ++ (text_arg text_at name
        ∷ (plains (b' ' ∷ b'f' ∷ b'o' ∷ b'r' ∷ b' ' ∷ b'i' ∷ b'n' ∷ b'd' ∷ b'e' ∷ b'x' ∷ b'=' ∷ [])
            ++ (int_arg index ∷ plain b'\n' ∷ [])))

pub say-found :
    (name : List ℕ) (index : ℕ) (s : Screen)
    → Chars name
    → length name < 2000
    → index < 4294967296
    → (out : List ℕ) × AllRendered (found_pieces name index) out
      × (say found_format name (text_at ∷ index ∷ []) s ≡ ok (put_all out s))
say-found name index s chars short word =
    let m = message_memory found_format name in
    let stands = IsText-text_at found_format name chars (omega arith) in
    say-AllRendered found_format name (found_pieces name index) s refl
      (are_chars-Chars found_format refl) (omega arith)
      (plains-ArePieces m (b'f' ∷ b'o' ∷ b'u' ∷ b'n' ∷ b'd' ∷ b' ' ∷ [])
        (text_arg text_at name
          ∷ (plains
                (b' ' ∷ b'f' ∷ b'o' ∷ b'r' ∷ b' ' ∷ b'i' ∷ b'n' ∷ b'd' ∷ b'e' ∷ b'x' ∷ b'=' ∷ [])
              ++ (int_arg index ∷ plain b'\n' ∷ [])))
        refl
        (
          stands,
          plains-ArePieces m
              (b' ' ∷ b'f' ∷ b'o' ∷ b'r' ∷ b' ' ∷ b'i' ∷ b'n' ∷ b'd' ∷ b'e' ∷ b'x' ∷ b'=' ∷ [])
              (int_arg index ∷ plain b'\n' ∷ []) refl (word, ((omega arith, omega arith), tt)),
        ))
      (omega arith)

pub readdir-entry :
    (d : Initrd) (j : ℕ) (n : VfsNode) (s s' : Screen)
    → d.nroot_nodes < 4294967295
    → j < d.nroot_nodes
    → get_elem? d.root_nodes j ≡ some n
    → length n.name < 128
    → say found_format n.name (text_at ∷ (j + 1) ∷ []) s ≡ ok s'
    → initrd_readdir d initrd_root (j + 1) s
      ≡ ok (some (record { name = n.name; inode = n.inode }), s')
unfolding initrd_readdir dirent_of
readdir-entry d j n s s' small below at short said =
    let later : (j + 1 == 0) ≡ false = ground arith in
    let index : sub32 (j + 1) 1 ≡ j = omega (arith, small, below) in
    let more : leb d.nroot_nodes j ≡ false = ground (arith, below) in
    let fits : ltb (length n.name) 128 ≡ true = ground (arith, short) in
    rw (later, index, more, at, said, fits)

-- With as many nodes as are counted, and a name of less than 128 characters, which fits the array of the entry: the root directory lists at
-- index j + 1 the name and the number of node j, and the message with this name and index is all that it
-- puts on the screen; and looking this name up, where it is not `dev`, gives a node of that name, the first
-- one, which is node j or one before it.
pub readdir-finddir :
    (d : Initrd) (j : ℕ) (n : VfsNode) (s : Screen)
    → d.nroot_nodes ≡ length d.root_nodes
    → d.nroot_nodes < 4294967295
    → j < d.nroot_nodes
    → get_elem? d.root_nodes j ≡ some n
    → Chars n.name
    → length n.name < 128
    → text_eq n.name dev_name ≡ false
    → (out : List ℕ) × AllRendered (found_pieces n.name (j + 1)) out
      × (initrd_readdir d initrd_root (j + 1) s
          ≡ ok (some (record { name = n.name; inode = n.inode }), put_all out s))
      × FoundBy d.root_nodes 0 n.name j (initrd_finddir d initrd_root n.name)
unfolding initrd_finddir
readdir-finddir d j n s counted small below at chars short other =
    let (out, all, said) =
      say-found n.name (j + 1) s chars (omega arith) (omega (arith, small, below)) in
    (
      out,
      all,
      readdir-entry d j n s (put_all out s) small below at short said,
      rw other (find_node-FoundBy d.root_nodes 0 n.name j n at (text_eq_refl n.name)),
    )
