-- ===== src/Interrupts.antt =====
-- src/isr.c: the table of interrupt handlers and its dispatch; src/timer.c: the timer.
--
-- A function pointer is an address, and `handle` says what the function at an address does: it is an
-- argument, since handlers come from any part of the kernel. `ports` has the bytes sent, the latest
-- first. A message is printed by printf from a memory that holds its format.
pub mod Dispatch
pub mod Timer
pub mod Messages
mod Tests
use james_m.Base.{
  ℕ, ◌+◌, ◌/◌, List, [], ◌∷◌, Option, none, some, Run, ok, panic, fault, ◌>>=◌, ◌==◌, leb,
  if◌then◌else◌, bit_and, add32, u8, ◌>>>◌, get_elem?, set, length,
}
use james_m.Memory.{Mem}
use james_m.Memory.Text.{with_text}
use james_m.Monitor.{Screen}
use james_m.Printf.{printf}

-- `struct cpu_regs` of src/include/isr.h.
pub record CpuRegs : Type 0 where
  pub ds : ℕ
  pub edi : ℕ
  pub esi : ℕ
  pub ebp : ℕ
  pub esp : ℕ
  pub ebx : ℕ
  pub edx : ℕ
  pub ecx : ℕ
  pub eax : ℕ
  pub int_no : ℕ
  pub err_code : ℕ
  pub eip : ℕ
  pub cs : ℕ
  pub eflags : ℕ
  pub useresp : ℕ
  pub ss : ℕ

-- `tick` is the static variable of timer_callback.
pub record Machine : Type 0 where
  pub interrupt_handlers : List ℕ
  pub tick : ℕ
  pub ports : List (ℕ × ℕ)
  pub screen : Screen

abbrev pub Handle : Type 0
Handle = (handler : ℕ) → CpuRegs → Machine → Run Machine

abbrev pub irq0 : ℕ
irq0 = 32

abbrev pub outb : ℕ → ℕ → Machine → Machine
outb port value m = record m { ports = (port, value) ∷ m.ports }

-- The address of a message in `literal`.
abbrev pub message : ℕ
message = 0

abbrev pub literal : List ℕ → Mem
literal text = with_text (λ _. 0) message text

unfoldable pub print : (text args : List ℕ) → Machine → Run Machine
print text args m = do
  (n, s) ← printf 64 (literal text) message args m.screen
  ok (record m { screen = s })

abbrev pub unhandled : List ℕ
unhandled =
    b'u' ∷ b'n' ∷ b'h' ∷ b'a' ∷ b'n' ∷ b'd' ∷ b'l' ∷ b'e' ∷ b'd' ∷ b' ' ∷ b'i' ∷ b'n' ∷ b't' ∷ b'e'
    ∷ b'r' ∷ b'r' ∷ b'u' ∷ b'p' ∷ b't' ∷ b':' ∷ b' ' ∷ b'%' ∷ b'd' ∷ b'\n' ∷ []

-- The call of the handler that the table has for the interrupt, `none` beyond the table; `unset` is what
-- is done where it has NULL.
abbrev pub dispatch :
    Handle → CpuRegs → (entry : Option ℕ) → (unset : Machine → Run Machine) → Machine → Run Machine
dispatch handle regs none unset m = fault
dispatch handle regs (some handler) unset m =
    if handler == 0 then unset m else handle handler regs m

unfoldable pub isr_handler : Handle → CpuRegs → Machine → Run Machine
isr_handler handle regs m =
    dispatch handle regs (get_elem? m.interrupt_handlers regs.int_no)
      (print unhandled (regs.int_no ∷ [])) m

-- The signals for the end of the interrupt.
unfoldable pub send_eoi : CpuRegs → Machine → Machine
send_eoi regs m = outb 0x20 0x20 (if leb 40 regs.int_no then outb 0xA0 0x20 m else m)

unfoldable pub irq_handler : Handle → CpuRegs → Machine → Run Machine
irq_handler handle regs m =
    dispatch handle regs (get_elem? m.interrupt_handlers regs.int_no) ok (send_eoi regs m)

unfoldable pub register_interrupt_handler : (n handler : ℕ) → Machine → Run Machine
register_interrupt_handler n handler m =
    if leb (length m.interrupt_handlers) n
    then panic
    else ok (record m { interrupt_handlers = set m.interrupt_handlers n handler })

abbrev pub tick_format : List ℕ
tick_format = b'T' ∷ b'i' ∷ b'c' ∷ b'k' ∷ b':' ∷ b' ' ∷ b'%' ∷ b'd' ∷ b'\n' ∷ []

unfoldable pub timer_callback : CpuRegs → Machine → Run Machine
timer_callback regs m = print tick_format (add32 m.tick 1 ∷ []) (record m { tick = add32 m.tick 1 })

-- The divisor for a frequency; a division by zero traps.
unfoldable pub divisor : (freq : ℕ) → Run ℕ
divisor freq = if freq == 0 then fault else ok (1193180 / freq)

-- `callback` is the address of timer_callback.
unfoldable pub init_timer : (callback freq : ℕ) → Machine → Run Machine
init_timer callback freq m = do
  m' ← register_interrupt_handler irq0 callback m
  div ← divisor freq
  let lo = u8 (bit_and div 0xFF)
  let hi = u8 (bit_and (div >>> 8) 0xFF)
  ok (outb 0x40 hi (outb 0x40 lo (outb 0x43 0x36 m')))
