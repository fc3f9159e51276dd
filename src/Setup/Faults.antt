-- ===== src/Setup/Faults.antt =====
-- page_fault_handler: what it shows, and that it ends in the panic.
use james_m.Base.{
  ℕ, ◌<◌, ◌≡◌, refl, arith, List, [], ◌∷◌, ◌++◌, ok, panic, true, ◌==◌, if◌then◌else◌, bit_and,
  Bool-cases, inl, inr, length,
}
use james_m.Memory.Text.{IsText-with_text}
use james_m.Printf.{printf}
use james_m.Printf.Pieces.{Piece, plain, hex_arg, AllRendered, vprintf-AllRendered}
use james_m.Printf.Messages.{are_plain, are_chars, are_chars-Chars, plains, plains-ArePieces}
use james_m.Interrupts.{CpuRegs, Machine, print, literal, message}
use james_m.Interrupts.Messages.{showing, print-showing}
use james_m.Setup.{print_if, page_fault_message, page_fault_handler}

abbrev pub text_if : (flag : ℕ) → List ℕ → List ℕ
text_if flag text = if flag == 0 then [] else text

print_if-showing :
    (flag : ℕ) (text : List ℕ) (m : Machine)
    → are_plain text ≡ true
    → are_chars text ≡ true
    → length text < 64
    → print_if flag text m ≡ ok (showing (text_if flag text) m)
print_if-showing flag text m plain_text chars short = elim (Bool-cases (flag == 0)) [
  | inl unset ↦ rw unset
  | inr is_set ↦ rw is_set (print-showing text m plain_text chars short)
]

abbrev pub head_text : List ℕ
head_text = b'P' ∷ b'a' ∷ b'g' ∷ b'e' ∷ b' ' ∷ b'f' ∷ b'a' ∷ b'u' ∷ b'l' ∷ b't' ∷ b' ' ∷ b'(' ∷ []

abbrev pub present_text : List ℕ
present_text = b'p' ∷ b'r' ∷ b'e' ∷ b's' ∷ b'e' ∷ b'n' ∷ b't' ∷ b' ' ∷ []

abbrev pub read_only_text : List ℕ
read_only_text = b'r' ∷ b'e' ∷ b'a' ∷ b'd' ∷ b'-' ∷ b'o' ∷ b'n' ∷ b'l' ∷ b'y' ∷ b' ' ∷ []

abbrev pub user_text : List ℕ
user_text = b'u' ∷ b's' ∷ b'e' ∷ b'r' ∷ b'-' ∷ b'm' ∷ b'o' ∷ b'd' ∷ b'e' ∷ b' ' ∷ []

abbrev pub reserved_text : List ℕ
reserved_text = b'r' ∷ b'e' ∷ b's' ∷ b'e' ∷ b'r' ∷ b'v' ∷ b'e' ∷ b'd' ∷ b' ' ∷ []

abbrev pub address_pieces : (cr2 : ℕ) → List Piece
address_pieces cr2 =
    plains (b')' ∷ b' ' ∷ b'a' ∷ b't' ∷ b' ' ∷ []) ++ (hex_arg cr2 ∷ plain b'\n' ∷ [])

-- The message up to the address.
abbrev pub flags_shown : CpuRegs → Machine → Machine
flags_shown regs m = showing (text_if (bit_and regs.err_code 8) reserved_text) (
    showing (text_if (bit_and regs.err_code 4) user_text) (
      showing (text_if (bit_and regs.err_code 2) read_only_text) (
        showing (text_if (if bit_and regs.err_code 1 == 0 then 1 else 0) present_text)
          (showing head_text m))))

print-address :
    (cr2 : ℕ) (m : Machine)
    → cr2 < 4294967296
    → (out : List ℕ) × AllRendered (address_pieces cr2) out
      × (print (b')' ∷ b' ' ∷ b'a' ∷ b't' ∷ b' ' ∷ b'%' ∷ b'x' ∷ b'\n' ∷ []) (cr2 ∷ []) m
          ≡ ok (showing out m))
unfolding print printf
print-address cr2 m word =
    let format : List ℕ = b')' ∷ b' ' ∷ b'a' ∷ b't' ∷ b' ' ∷ b'%' ∷ b'x' ∷ b'\n' ∷ [] in
    let (out, all, e) =
      vprintf-AllRendered 64 (literal format) message (address_pieces cr2) m.screen
        (plains-ArePieces (literal format) (b')' ∷ b' ' ∷ b'a' ∷ b't' ∷ b' ' ∷ [])
          (hex_arg cr2 ∷ plain b'\n' ∷ []) refl (word, ((omega arith, omega arith), tt)))
        (omega arith)
        (IsText-with_text (λ _. 0) message format (are_chars-Chars format refl) refl) in
    (out, all, rw e)

-- On every fault, of any error code, at an address of 32 bits, the handler shows the words of the bits
-- that are set, `present` where the lowest is clear, and the address in digits that read back as it,
-- and then ends in the panic.
pub page_fault_handler-panics :
    (regs : CpuRegs) (cr2 : ℕ) (m : Machine)
    → cr2 < 4294967296
    → (out : List ℕ) × AllRendered (address_pieces cr2) out
      × (page_fault_message regs cr2 m ≡ ok (showing out (flags_shown regs m)))
      × (page_fault_handler regs cr2 m ≡ panic)
unfolding page_fault_message page_fault_handler
page_fault_handler-panics regs cr2 m word =
    let (out, all, last) = print-address cr2 (flags_shown regs m) word in
    let shown : page_fault_message regs cr2 m ≡ ok (showing out (flags_shown regs m)) = rw (
      print-showing head_text m refl refl (omega arith),
      print_if-showing (if bit_and regs.err_code 1 == 0 then 1 else 0) present_text
          (showing head_text m) refl refl (omega arith),
      print_if-showing (bit_and regs.err_code 2) read_only_text _ refl refl (omega arith),
      print_if-showing (bit_and regs.err_code 4) user_text _ refl refl (omega arith),
      print_if-showing (bit_and regs.err_code 8) reserved_text _ refl refl (omega arith),
      last,
    ) in
    (out, all, shown, rw shown)
