-- ===== src/Interrupts/Dispatch.antt =====
-- What the dispatchers do with a handler that has been registered.
use james_m.Base.{
  ℕ, ◌<◌, ◌≡◌, ◌≢◌, arith, [], ◌∷◌, some, Run, ok, ◌==◌, leb, if◌then◌else◌, get_elem?, set, length,
  get_elem?-set_self, get_elem?-set_ne, false, ap, ap₂, ◌∙◌, Option,
}
use james_m.Interrupts.{
  CpuRegs, Machine, Handle, dispatch, print, unhandled, isr_handler, irq_handler, send_eoi,
  register_interrupt_handler,
}

-- The machine that register_interrupt_handler leaves.
abbrev pub with_handler : (n handler : ℕ) → Machine → Machine
with_handler n handler m = record m { interrupt_handlers = set m.interrupt_handlers n handler }

-- The ports after the end of an interrupt has been signalled: the slave controller hears of the
-- interrupts from 40 on, before the master, which hears of all.
abbrev pub with_eoi : (int_no : ℕ) → Machine → Machine
with_eoi n m = record m {
  ports = if leb 40 n then (0x20, 0x20) ∷ (0xA0, 0x20) ∷ m.ports else (0x20, 0x20) ∷ m.ports;
}

pub register-with_handler :
    (n handler : ℕ) (m : Machine)
    → n < length m.interrupt_handlers
    → register_interrupt_handler n handler m ≡ ok (with_handler n handler m)
unfolding register_interrupt_handler
register-with_handler n handler m small =
    let e : leb (length m.interrupt_handlers) n ≡ false = ground arith in rw e

pub send_eoi_lem : (regs : CpuRegs) (m : Machine) → send_eoi regs m ≡ with_eoi regs.int_no m
unfolding send_eoi
send_eoi_lem regs m = ground arith

pub irq_handler-dispatch :
    (handle : Handle) (regs : CpuRegs) (m : Machine) (entry : Option ℕ)
    → get_elem? m.interrupt_handlers regs.int_no ≡ entry
    → irq_handler handle regs m ≡ dispatch handle regs entry ok (with_eoi regs.int_no m)
unfolding irq_handler
irq_handler-dispatch handle regs m entry e =
    ap₂ (λ o m'. dispatch handle regs o ok m') e (send_eoi_lem regs m)

pub dispatch-some :
    (handle : Handle) (regs : CpuRegs) (h : ℕ) (unset : Machine → Run Machine) (m : Machine)
    → h ≢ 0
    → dispatch handle regs (some h) unset m ≡ handle h regs m
dispatch-some handle regs h unset m used =
    let nonzero : (h == 0) ≡ false = ground (arith, used) in rw nonzero

-- With a handler that is not NULL, registered for an interrupt that the table covers:
-- registration returns; for this interrupt irq_handler then signals its end, to the slave from
-- interrupt 40 on and to the master always, and runs that handler; and isr_handler runs it.
pub register-dispatch :
    (handle : Handle) (regs : CpuRegs) (m : Machine) (handler : ℕ)
    → regs.int_no < length m.interrupt_handlers
    → handler ≢ 0
    → (m' : Machine) × (register_interrupt_handler regs.int_no handler m ≡ ok m')
      × (irq_handler handle regs m' ≡ handle handler regs (with_eoi regs.int_no m'))
      × (isr_handler handle regs m' ≡ handle handler regs m')
register-dispatch handle regs m handler small nonnull =
    let m' = with_handler regs.int_no handler m in
    let here = get_elem?-set_self m.interrupt_handlers regs.int_no handler small in
    (
      m',
      register-with_handler regs.int_no handler m small,
      irq_handler-dispatch handle regs m' (some handler) here
          ∙ dispatch-some handle regs handler ok (with_eoi regs.int_no m') nonnull,
      unfold isr_handler in
          (ap (λ o. dispatch handle regs o (print unhandled (regs.int_no ∷ [])) m') here
            ∙ dispatch-some handle regs handler (print unhandled (regs.int_no ∷ [])) m' nonnull),
    )

-- Registration for interrupt `n` leaves the other interrupts: afterwards irq_handler signals the end
-- and runs the handler that the interrupt had, or nothing if it had none, and faults beyond the table.
pub register-others :
    (handle : Handle) (regs : CpuRegs) (m : Machine) (n handler : ℕ)
    → n < length m.interrupt_handlers
    → n ≢ regs.int_no
    → (m' : Machine) × (register_interrupt_handler n handler m ≡ ok m')
      × (irq_handler handle regs m'
          ≡ dispatch handle regs
              (get_elem? m.interrupt_handlers regs.int_no)
              ok
              (with_eoi regs.int_no m'))
register-others handle regs m n handler small other =
    let m' = with_handler n handler m in
    (
      m',
      register-with_handler n handler m small,
      irq_handler-dispatch handle regs m' _
          (get_elem?-set_ne m.interrupt_handlers n regs.int_no handler other),
    )
