-- ===== src/Uart.antt =====
-- drivers/uart/uart.c: the serial ports. The line is a parameter: its state and the instructions inb
-- and outb from ioport.h. A device is NULL or the two words of a struct UART_DEVICE.
pub mod Line
mod Tests
use osdev_course.Common.{
  ℕ, zero, suc, ◌+◌, ◌-◌, ◌^◌, Bool, true, false, Option, none, some, List, [], ◌∷◌, bit_and, ◌==◌,
  leb, if◌then◌else◌, get_elem?, Run, ok, out_of_fuel, ◌>>=◌,
}

-- `struct UART_DEVICE`
pub record Uart : Type 0 where
  pub driver : ℕ
  pub port : ℕ

-- `__UART_DRIVER_ioports`
abbrev pub ioports : List ℕ
ioports = 0x03F8 ∷ 0x02F8 ∷ 0x03E8 ∷ 0x02E8 ∷ []

-- The base port of a device, for a port number below 4.
abbrev pub ioport : ℕ → ℕ
ioport port = elim (get_elem? ioports port) [ none ↦ 0 | some base ↦ base ]

module _ {S : Type 0} (inb : ℕ → S → ℕ × S) (outb : ℕ → ℕ → S → S) where
  -- `uart_open` sets the line up for 38400 baud and eight bits.
  unfoldable pub uart_open : (driver : ℕ) → Option Uart → (port : ℕ) → S → Bool × Option Uart × S
  uart_open driver none port s = (false, none, s)
  uart_open driver (some device) port s =
      let base = ioport port in
      let s1 = outb (base + 0) 0x03 (outb (base + 3) 0x80 (outb (base + 1) 0x00 s)) in
      let s2 = outb (base + 2) 0xC7 (outb (base + 3) 0x03 (outb (base + 1) 0x00 s1)) in
      let s3 = outb (base + 4) 0x0B s2 in
      if driver == 0
      then (false, some device, s)
      else if leb 4 port
      then (false, some device, s)
      else (true, some (record { driver = driver; port = port }), s3)

  -- The busy loop on the line's status.
  unfoldable pub wait_status : (fuel base mask : ℕ) → S → Run S
  wait_status zero base mask s = out_of_fuel
  wait_status (suc fuel) base mask s =
      let (status, s') = inb (base + 5) s in
      let rest = wait_status fuel base mask s' in if bit_and status mask == 0 then rest else ok s'

  -- `uart_putc`
  unfoldable pub uart_putc : (fuel : ℕ) → Option Uart → (c : ℕ) → S → Run (Bool × S)
  unfolding wait_status
  uart_putc fuel none c s = ok (false, s)
  uart_putc fuel (some device) c s =
      let base = ioport device.port in
      let put = wait_status fuel base 0x20 s >>= λ s. ok (true, outb base c s) in
      if leb 4 device.port then ok (false, s) else put

  -- `uart_getc`
  unfoldable pub uart_getc : (fuel : ℕ) → Option Uart → S → Run (ℕ × S)
  unfolding wait_status
  uart_getc fuel none s = ok (0, s)
  uart_getc fuel (some device) s =
      let base = ioport device.port in
      let get = wait_status fuel base 1 s >>= λ s. ok (inb base s) in
      if leb 4 device.port then ok (0, s) else get

-- `uart_close`; the port becomes -1.
unfoldable pub uart_close : Option Uart → Bool × Option Uart
uart_close none = (false, none)
uart_close (some device) = (true, some (record { driver = 0; port = 2 ^ 32 - 1 }))
