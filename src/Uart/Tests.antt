-- ===== src/Uart/Tests.antt =====
-- drivers/uart/uart.c run on inputs, and its theorem at inputs.
use osdev_course.Common.{ℕ, ◌-◌, ◌<◌, ◌≡◌, refl, true, false, some, arith, ◌==◌, if◌then◌else◌, ok}
use osdev_course.Uart.{Uart, ioport, uart_open, uart_putc, uart_close}
use osdev_course.Uart.Line.{uart_putc-uart_open}

-- A line that counts the polls until it is ready, and takes every byte.
abbrev inb : ℕ → ℕ → ℕ × ℕ
inb port s = (if s == 0 then 0x20 else 0, s - 1)

abbrev outb : ℕ → ℕ → ℕ → ℕ
outb port v s = s

abbrev device : Uart
device = record { driver = 0; port = 0 }

uart_putc-uart_open_example :
    let opened = (uart_open inb outb 1 (some device) 1 2).1 in
    (1 < 4)
    × (uart_putc inb outb 3 opened 65 2 ≡ ok (true, outb (ioport 1) 65 0))
    × (uart_putc inb outb 3 (uart_close opened).1 65 2 ≡ ok (false, 2))
unfolding uart_open
uart_putc-uart_open_example =
    uart_putc-uart_open inb outb 3 2 1 1 65 device 2 2 0 refl (refl, (refl, (refl, refl)))
      (omega arith)
