-- ===== src/Descriptors/Controllers.antt =====
-- What the two interrupt controllers (Intel 8259A) make of the bytes that init_idt sends them.
use james_m.Base.{ℕ, ◌≡◌, refl, List, [], ◌∷◌, ◌==◌, if◌then◌else◌}
use james_m.Descriptors.{Event, outb, gdt_flush, idt_flush, remap, send}

-- After the command 0x11 a controller takes from its data port, in order, the number of its first
-- interrupt, its wiring and its mode; `expects` is the number of the next of these words, or 0. Every other
-- byte there is the mask of its lines.
pub record Controller : Type 0 where
  pub expects : ℕ
  pub vector : ℕ
  pub wiring : ℕ
  pub mode : ℕ
  pub mask : ℕ

abbrev command : (value : ℕ) → Controller → Controller
command value p = if value == 0x11 then record p { expects = 2 } else p

abbrev data_byte : (value : ℕ) → Controller → Controller
data_byte value p =
    if p.expects == 2
    then record p { expects = 3; vector = value }
    else if p.expects == 3
    then record p { expects = 4; wiring = value }
    else if p.expects == 4
    then record p { expects = 0; mode = value }
    else record p { mask = value }

pub record Controllers : Type 0 where
  pub master : Controller
  pub slave : Controller

abbrev receive : (port value : ℕ) → Controllers → Controllers
receive port value c =
    if port == 0x20
    then record c { master = command value c.master }
    else if port == 0x21
    then record c { master = data_byte value c.master }
    else if port == 0xA0
    then record c { slave = command value c.slave }
    else if port == 0xA1
    then record c { slave = data_byte value c.slave }
    else c

-- The controllers after the events, the latest of which is the first.
abbrev pub controllers : (start : Controllers) → List Event → Controllers
controllers start [] = start
controllers start (outb port value ∷ es) = receive port value (controllers start es)
controllers start (gdt_flush p ∷ es) = controllers start es
controllers start (idt_flush p ∷ es) = controllers start es

-- The master's interrupts begin at 32, and the slave, on its line 2, has those from 40 on; no line is masked.
abbrev pub remapped : Controllers
remapped = record {
  master = record { expects = 0; vector = 32; wiring = 4; mode = 1; mask = 0 };
  slave = record { expects = 0; vector = 40; wiring = 2; mode = 1; mask = 0 };
}

pub controllers-remap :
    (start : Controllers) (es : List Event) → controllers start (send remap es) ≡ remapped
controllers-remap start es = refl
