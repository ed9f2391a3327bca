-- ===== src/Uart/Line.antt =====
-- Bytes over the line of drivers/uart/uart.c.
use osdev_course.Common.{
  ℕ, zero, suc, ◌+◌, ◌<◌, ◌≡◌, refl, true, false, some, arith, bit_and, ◌==◌, leb, Bool-cases, inl,
  inr, ok,
}
use osdev_course.Uart.{Uart, ioport, wait_status, uart_open, uart_putc, uart_close}

module _ {S : Type 0} (inb : ℕ → S → ℕ × S) (outb : ℕ → ℕ → S → S) where
  -- The line's status is read `n` times without the bit, and then with it; `s'` is the state then.
  abbrev pub Polls : (base mask n : ℕ) → S → S → Type 0
  Polls base mask zero s s' =
      ((bit_and (inb (base + 5) s).0 mask == 0) ≡ false) × ((inb (base + 5) s).1 ≡ s')
  Polls base mask (suc n) s s' =
      ((bit_and (inb (base + 5) s).0 mask == 0) ≡ true) × Polls base mask n (inb (base + 5) s).1 s'

  wait_status-ends :
      (fuel base mask n : ℕ) (s s' : S)
      → n < fuel
      → Polls base mask n s s'
      → wait_status inb outb fuel base mask s ≡ ok s'
  unfolding wait_status
  wait_status-ends zero base mask n s s' h p = absurd (omega arith)
  wait_status-ends (suc fuel) base mask zero s s' h p = rw (p.0, p.1) refl
  wait_status-ends (suc fuel) base mask (suc n) s s' h p =
      rw p.0 (wait_status-ends fuel base mask n (inb (base + 5) s).1 s' (omega arith) p.1)

  opened-parts :
      (driver port : ℕ) (device : Uart) (s : S)
      → (uart_open inb outb driver (some device) port s).0 ≡ true
      → ((driver == 0) ≡ false) × (leb 4 port ≡ false)
  unfolding uart_open
  opened-parts driver port device s opened = elim (Bool-cases (driver == 0)) [
    | inl e ↦ absurd (let shut = rw e at opened in cc)
    | inr e ↦ elim (Bool-cases (leb 4 port)) [
      | inl f ↦ absurd (let shut = rw (e, f) at opened in cc)
      | inr f ↦ (e, f)
    ]
  ]

  -- On a device that uart_open has opened, uart_putc waits as long as the line is not ready, with
  -- as much fuel, sends the one byte to the data port and succeeds; after uart_close it fails and
  -- sends nothing.
  pub uart_putc-uart_open :
      (fuel n driver port c : ℕ) (device : Uart) (s s1 s2 : S)
      → (uart_open inb outb driver (some device) port s).0 ≡ true
      → Polls (ioport port) 0x20 n s1 s2
      → n < fuel
      → let opened = (uart_open inb outb driver (some device) port s).1 in
        (port < 4)
        × (uart_putc inb outb fuel opened c s1 ≡ ok (true, outb (ioport port) c s2))
        × (uart_putc inb outb fuel (uart_close opened).1 c s1 ≡ ok (false, s1))
  unfolding uart_open uart_putc uart_close
  uart_putc-uart_open fuel n driver port c device s s1 s2 opened polls h =
      let (set, low) = opened-parts driver port device s opened in
      let wait = wait_status-ends fuel (ioport port) 0x20 n s1 s2 h polls in
      (ground arith, rw (set, low, low, wait) refl, rw (set, low) refl)
