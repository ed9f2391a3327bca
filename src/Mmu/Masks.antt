-- ===== src/Mmu/Masks.antt =====
-- The masks of kernel/arch/i686/mmu.c as arithmetic: the low twelve bits of an entry are flags, the
-- rest is a frame.
use osdev_course.Common.{
  ℕ, ◌+◌, ◌*◌, ◌/◌, ◌%◌, ◌^◌, ◌<◌, ◌≡◌, ap, bit_and, bit_or, arith, up, down, ones, down-up,
  bit_and-up, bit_and-ones, bit_or-up, or_lowest, bit_or-one, and_odd,
}

pub and-present : (e : ℕ) → bit_and e 1 ≡ e % 2
and-present e = omega (arith, bit_and-ones 1 e)

pub and-prot : (e : ℕ) → bit_and e 6 ≡ e / 2 % 4 * 2
and-prot e = omega (arith, bit_and-up 1 e 3, bit_and-ones 2 (e / 2))

pub and-ondemand : (e : ℕ) → bit_and e 0x100 ≡ e / 256 % 2 * 256
and-ondemand e = omega (arith, bit_and-up 8 e 1, bit_and-ones 1 (down 8 e), down-up 8 e)

pub and-noalloc : (e : ℕ) → bit_and e 0x200 ≡ e / 512 % 2 * 512
and-noalloc e = omega (arith, bit_and-up 9 e 1, bit_and-ones 1 (down 9 e), down-up 9 e)

pub and-either : (e : ℕ) → bit_and e 0x101 ≡ e / 256 % 2 * 256 + e % 2
and-either e = omega (
  arith,
  and_odd e 128,
  bit_and-up 7 (e / 2) 1,
  bit_and-ones 1 (down 7 (e / 2)),
  down-up 7 (e / 2),
)

pub and-frame : (e : ℕ) → e < 2 ^ 32 → bit_and e 0xFFFFF000 ≡ e / 4096 * 4096
and-frame e h = omega (
  arith,
  bit_and-up 12 e (ones 20),
  bit_and-ones 20 (down 12 e),
  down-up 12 e,
  down-up 20 (down 12 e),
)

pub or-frame : (frame flags : ℕ) → flags < 4096 → bit_or (frame * 4096) flags ≡ frame * 4096 + flags
or-frame frame flags h =
    let shifted : up 12 frame ≡ frame * 4096 = omega arith in
    omega (arith, bit_or-up 12 frame flags (omega arith), ap (λ x. bit_or x flags) shifted)

-- The entry that maps a frame, with the protection of `flag`.
pub or-map :
    (frame flag : ℕ)
    → bit_or (bit_or (frame * 4096) (bit_and flag 6)) 1 ≡ frame * 4096 + flag / 2 % 4 * 2 + 1
or-map frame flag =
    let e : bit_or (frame * 4096) (bit_and flag 6) ≡ frame * 4096 + flag / 2 % 4 * 2 =
      omega
        (arith, or-frame frame (bit_and flag 6) (omega (arith, and-prot flag)), and-prot flag) in
    omega (arith, bit_or-one (bit_or (frame * 4096) (bit_and flag 6)), e)

pub or-ondemand : (flag : ℕ) → bit_or 0x100 (bit_and flag 6) ≡ 0x100 + flag / 2 % 4 * 2
or-ondemand flag =
    omega (arith, bit_or-up 8 1 (bit_and flag 6) (omega (arith, and-prot flag)), and-prot flag)

-- A change of protection.
pub or-protect :
    (e flag : ℕ)
    → e < 2 ^ 32
    → bit_or (bit_and e 0xFFFFFFF9) (bit_and flag 6) ≡ e / 8 * 8 + flag / 2 % 4 * 2 + e % 2
or-protect e flag h =
    let rest = bit_and e 0xFFFFFFF9 in
    let a : rest ≡ e / 8 * 8 + e % 2 = omega (
      arith,
      and_odd e (up 2 (ones 29)),
      bit_and-up 2 (e / 2) (ones 29),
      bit_and-ones 29 (down 2 (e / 2)),
      down-up 2 (e / 2),
      down-up 29 (down 2 (e / 2)),
    ) in
    let f = bit_and flag 6 in
    let f_half : f / 2 ≡ flag / 2 % 4 = omega (arith, and-prot flag) in
    let a_half : rest / 2 ≡ up 2 (e / 8) = omega (arith, a) in
    let halves : bit_or (rest / 2) (f / 2) ≡ up 2 (e / 8) + flag / 2 % 4 =
      rw (a_half, f_half) (bit_or-up 2 (e / 8) (flag / 2 % 4) (omega arith)) in
    omega (arith, or_lowest rest f, halves, a, and-prot flag)

-- The address in a base address register of the PCI bus.
pub and-bar : (e : ℕ) → e < 2 ^ 32 → bit_and e 0xFFFFFFF0 ≡ e / 16 * 16
and-bar e h = omega (
  arith,
  bit_and-up 4 e (ones 28),
  bit_and-ones 28 (down 4 e),
  down-up 4 e,
  down-up 28 (down 4 e),
)
