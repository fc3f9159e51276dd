-- ===== src/Interrupts/Timer.antt =====
-- The timer: what init_timer sends, and the count of the ticks.
use native.Mathlib.Nat.{div-lt_iff_lt-mul}
use james_m.Base.{
  ℕ, zero, suc, ◌+◌, ◌*◌, ◌/◌, ◌%◌, ◌≤◌, ◌<◌, ◌≡◌, ◌≢◌, refl, ap, ◌∙◌, arith, List, [], ◌∷◌, some,
  Run, ok, ◌>>=◌, ◌==◌, get_elem?, get_elem?-set_self, length, u32, u8, add32, false, bit_and,
}
use james_m.Bits.{bit_and_mask}
use james_m.Monitor.{Screen}
use james_m.Printf.{printf}
use james_m.Printf.Pieces.{Piece, ArePieces, put_all, plain, int_arg, vprintf-AllRendered}
use james_m.Interrupts.{
  CpuRegs, Machine, Handle, print, literal, message, tick_format, timer_callback, init_timer,
  divisor, irq_handler,
}
use james_m.Interrupts.Dispatch.{
  with_handler, with_eoi, register-with_handler, irq_handler-dispatch, dispatch-some,
}

divisor-small : (freq : ℕ) → 19 ≤ freq → 1193180 / freq < 65536
divisor-small freq large = (div-lt_iff_lt-mul (omega arith)).1 (omega arith)

-- With a frequency from 19 Hz up and a table that covers the interrupt of the timer, init_timer
-- registers the callback for it and sends the command byte and then the divisor, low byte first: the
-- two bytes make up 1193180 / freq.
pub init_timer-divisor :
    (callback freq : ℕ) (m : Machine)
    → 32 < length m.interrupt_handlers
    → 19 ≤ freq
    → (lo hi : ℕ) × (init_timer callback freq m
        ≡ ok (record (with_handler 32 callback m) {
          ports = (0x40, hi) ∷ (0x40, lo) ∷ (0x43, 0x36) ∷ m.ports;
        }))
      × (lo + 256 * hi ≡ 1193180 / freq)
unfolding init_timer divisor
init_timer-divisor callback freq m covered large =
    let nonzero : (freq == 0) ≡ false = ground (arith, large) in
    let lo : bit_and (1193180 / freq) 0xFF ≡ 1193180 / freq % 256 =
      bit_and_mask 8 (1193180 / freq) in
    let hi : bit_and (1193180 / freq / 256) 0xFF ≡ 1193180 / freq / 256 % 256 =
      bit_and_mask 8 (1193180 / freq / 256) in
    (
      u8 (bit_and (1193180 / freq) 0xFF),
      u8 (bit_and (1193180 / freq / 256) 0xFF),
      rw (register-with_handler 32 callback m covered, nonzero),
      rw (lo, hi) (omega (arith, divisor-small freq large)),
    )

abbrev tick_pieces : ℕ → List Piece
tick_pieces n =
    plain b'T'
    ∷ plain b'i'
    ∷ plain b'c'
    ∷ plain b'k'
    ∷ plain b':'
    ∷ plain b' '
    ∷ int_arg n
    ∷ plain b'\n'
    ∷ []

tick_pieces-ArePieces : (n : ℕ) → n < 4294967296 → ArePieces (literal tick_format) (tick_pieces n)
tick_pieces-ArePieces n small = omega arith

-- A call of timer_callback returns, counts one tick and changes nothing else but the screen.
timer_callback-tick :
    (regs : CpuRegs) (m : Machine)
    → (s : Screen) × (timer_callback regs m ≡ ok (record m { tick = u32 (m.tick + 1); screen = s }))
unfolding timer_callback print printf
timer_callback-tick regs m =
    let n = add32 m.tick 1 in
    let (out, all, e) =
      vprintf-AllRendered 64 (literal tick_format) message (tick_pieces n) m.screen
        (tick_pieces-ArePieces n (omega arith)) (omega arith) (omega arith) in
    (put_all out m.screen, rw e)

init_timer-entry :
    (callback freq : ℕ) (m : Machine)
    → 32 < length m.interrupt_handlers
    → freq ≢ 0
    → (m1 : Machine) × (init_timer callback freq m ≡ ok m1)
      × (m1.tick ≡ m.tick)
      × (get_elem? m1.interrupt_handlers 32 ≡ some callback)
unfolding init_timer divisor
init_timer-entry callback freq m covered some_freq =
    let nonzero : (freq == 0) ≡ false = ground (arith, some_freq) in
    (
      record (with_handler 32 callback m) {
        ports =
            (0x40, u8 (bit_and (1193180 / freq / 256) 0xFF))
            ∷ (0x40, u8 (bit_and (1193180 / freq) 0xFF))
            ∷ (0x43, 0x36)
            ∷ m.ports;
      },
      rw (register-with_handler 32 callback m covered, nonzero),
      refl,
      get_elem?-set_self m.interrupt_handlers 32 callback covered,
    )

-- The machine after `n` timer interrupts.
abbrev pub run_irqs : Handle → CpuRegs → (n : ℕ) → Machine → Run Machine
run_irqs handle regs zero m = ok m
run_irqs handle regs (suc n) m = irq_handler handle regs m >>= run_irqs handle regs n

module _ (handle : Handle) (regs : CpuRegs) (callback : ℕ) (nonnull : callback ≢ 0)
    (calls : (m : Machine) → handle callback regs m ≡ timer_callback regs m) where
  run_irqs-tick :
      (n : ℕ) (m : Machine)
      → m.tick < 4294967296
      → get_elem? m.interrupt_handlers regs.int_no ≡ some callback
      → (m' : Machine) × (run_irqs handle regs n m ≡ ok m') × (m'.tick ≡ u32 (m.tick + n))
  run_irqs-tick zero m small entry = (m, refl, omega arith)
  run_irqs-tick (suc n) m small entry =
      let m1 = with_eoi regs.int_no m in
      let (s, e) = timer_callback-tick regs m1 in
      let once =
        irq_handler-dispatch handle regs m (some callback) entry
        ∙ dispatch-some handle regs callback ok m1 nonnull
        ∙ calls m1
        ∙ e in
      let (m', f, g) =
        run_irqs-tick n (record m1 { tick = u32 (m.tick + 1); screen = s }) (omega arith) entry in
      (m', ap (λ r. r >>= run_irqs handle regs n) once ∙ f, omega (arith, g))

  -- With a table that covers the timer's interrupt, a frequency other than 0, and a handler address that
  -- is not NULL and at which timer_callback stands: after init_timer, `n` timer interrupts all return,
  -- and the count of ticks has grown by `n`, modulo 2 ^ 32.
  pub init_timer-ticks :
      (freq n : ℕ) (m : Machine)
      → regs.int_no ≡ 32
      → 32 < length m.interrupt_handlers
      → freq ≢ 0
      → m.tick < 4294967296
      → (m1 m2 : Machine) × (init_timer callback freq m ≡ ok m1)
        × (run_irqs handle regs n m1 ≡ ok m2)
        × (m2.tick ≡ (m.tick + n) % 4294967296)
  init_timer-ticks freq n m timer covered some_freq small =
      let (m1, e, same, entry) = init_timer-entry callback freq m covered some_freq in
      let (m2, f, g) = run_irqs-tick n m1 (omega (arith, same)) (rw timer entry) in
      (m1, m2, e, f, omega (arith, same, g))
