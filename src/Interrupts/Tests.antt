-- ===== src/Interrupts/Tests.antt =====
-- The theorems on interrupts at a table of 48 entries.
use james_m.Base.{ℕ, zero, suc, ◌+◌, ◌%◌, ◌≡◌, refl, arith, List, [], ◌∷◌, ok}
use james_m.Interrupts.{
  CpuRegs, Machine, Handle, isr_handler, irq_handler, register_interrupt_handler, timer_callback,
  init_timer,
}
use james_m.Interrupts.Dispatch.{with_eoi, register-dispatch}
use james_m.Interrupts.Timer.{init_timer-ticks, run_irqs}

abbrev no_handlers : ℕ → List ℕ
no_handlers zero = []
no_handlers (suc n) = 0 ∷ no_handlers n

abbrev idle : Machine
idle = record {
  interrupt_handlers = no_handlers 48;
  tick = 4294967295;
  ports = [];
  screen = record { video = λ _. 0; cursor_x = 0; cursor_y = 0; ports = [] };
}

abbrev interrupt : ℕ → CpuRegs
interrupt n = record {
  ds = 0x10;
  edi = 0;
  esi = 0;
  ebp = 0;
  esp = 0;
  ebx = 0;
  edx = 0;
  ecx = 0;
  eax = 0;
  int_no = n;
  err_code = 0;
  eip = 0;
  cs = 8;
  eflags = 0;
  useresp = 0;
  ss = 0x10;
}

-- Every handler is the timer's.
abbrev only_timer : Handle
only_timer h regs m = timer_callback regs m

register-dispatch_example :
    (m' : Machine) × (register_interrupt_handler 44 0x9000 idle ≡ ok m')
    × (irq_handler only_timer (interrupt 44) m' ≡ only_timer 0x9000 (interrupt 44) (with_eoi 44 m'))
    × (isr_handler only_timer (interrupt 44) m' ≡ only_timer 0x9000 (interrupt 44) m')
register-dispatch_example =
    register-dispatch only_timer (interrupt 44) idle 0x9000 (omega arith) (omega arith)

init_timer-ticks_example :
    (m1 m2 : Machine) × (init_timer 0x9000 50 idle ≡ ok m1)
    × (run_irqs only_timer (interrupt 32) 3 m1 ≡ ok m2)
    × (m2.tick ≡ (idle.tick + 3) % 4294967296)
init_timer-ticks_example =
    init_timer-ticks only_timer (interrupt 32) 0x9000 (omega arith) (λ m. refl) 50 3 idle refl
      (omega arith) (omega arith) (omega arith)
