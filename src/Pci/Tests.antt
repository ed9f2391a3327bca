-- ===== src/Pci/Tests.antt =====
-- drivers/pci/pci.c run on inputs, and its theorems at inputs.
use osdev_course.Common.{
  ℕ, ◌+◌, ◌-◌, ◌*◌, ◌%◌, ◌/◌, ◌^◌, ◌<◌, ◌≡◌, fun_ext, true, some, arith, ◌==◌, if◌then◌else◌,
  update,
}
use osdev_course.Pci.{PciAddr, PciInfo, pci_base, pci_get_info, pci_get_bar}
use osdev_course.Pci.Base.{IsAddr}
use osdev_course.Pci.Config.{
  Registers, bus_inl, bus_outl, pci_get_info-fields, pci_get_bar-restores,
}

-- The display adapter at 0:2.0.
abbrev vga : PciAddr
vga = record { bus_id = 0; slot_id = 2; func_id = 0 }

vga-IsAddr : IsAddr vga
vga-IsAddr = record { bus = omega arith; slot = omega arith; func = omega arith }

abbrev at_bar : ℕ
at_bar = 0x80001010

-- Its registers; of the first base address register the high 8 bits can be written.
abbrev regs : Registers
regs a =
    if a == 0x80001000
    then 0x11111234
    else if a == 0x80001008
    then 0x03000002
    else if a == at_bar
    then 0xFD000008
    else 0

abbrev write : ℕ → ℕ → Registers → Registers
write at v r = if at == at_bar then update r at (v / 2 ^ 24 * 2 ^ 24 + 8) else r

abbrev no_info : PciInfo
no_info = record {
  device_id = 0;
  vendor_id = 0;
  class_code = 0;
  subclass_code = 0;
  revision_id = 0;
}

pci_get_info-fields_example :
    (info' : PciInfo) × (at' : ℕ) × (pci_get_info bus_inl (bus_outl write) vga no_info (0, regs)
      ≡ (true, info', (at', regs)))
    × (info'.device_id * 2 ^ 16 + info'.vendor_id ≡ regs (pci_base vga))
    × (info'.vendor_id < 2 ^ 16)
    × (info'.class_code * 2 ^ 8 + info'.subclass_code ≡ regs (pci_base vga + 8) / 2 ^ 16)
    × (info'.subclass_code < 2 ^ 8)
    × (info'.revision_id ≡ regs (pci_base vga + 8) % 2 ^ 8)
unfolding pci_base
pci_get_info-fields_example =
    pci_get_info-fields write vga no_info 0 regs vga-IsAddr (omega arith) (omega arith)

restored : write at_bar (regs at_bar) (write at_bar 0xFFFFFFFF regs) ≡ regs
restored = fun_ext (λ a. ground arith)

pci_get_bar-restores_example :
    pci_get_bar bus_inl (bus_outl write) vga 0 true (0, regs)
    ≡ (true, some 0xFD000008, some (2 ^ 32 - 0xFF000008), (at_bar, regs))
unfolding pci_base
pci_get_bar-restores_example =
    pci_get_bar-restores write vga 0 true 0 regs vga-IsAddr (omega arith) (omega arith)
      (omega arith) (omega arith) restored
