-- ===== src/Pci.antt =====
-- drivers/pci/pci.c: the configuration space of the PCI bus, behind two ports. The ports are
-- parameters: their state and the instructions outl and inl from ioport.h. An output parameter that
-- is NULL is `false`; the results are the values that the caller's variables get.
pub mod Base
pub mod Config
mod Tests
use osdev_course.Common.{
  ℕ, ◌+◌, ◌-◌, ◌*◌, ◌%◌, ◌^◌, Bool, true, false, Option, none, some, bit_and, bit_or, ◌==◌, leb,
  ltb, if◌then◌else◌, add32, sub32, shr,
}

-- `struct PCI_ADDR`
pub record PciAddr : Type 0 where
  pub bus_id : ℕ
  pub slot_id : ℕ
  pub func_id : ℕ

-- `struct PCI_INFO`
pub record PciInfo : Type 0 where
  pub device_id : ℕ
  pub vendor_id : ℕ
  pub class_code : ℕ
  pub subclass_code : ℕ
  pub revision_id : ℕ

abbrev pub pci_config_address : ℕ
pci_config_address = 0xCF8

abbrev pub pci_config_data : ℕ
pci_config_data = 0xCFC

-- The four parts of the address have no bits in common, so `|` adds them.
unfoldable pub pci_base : PciAddr → ℕ
pci_base addr =
    let base = 0x80000000 + addr.bus_id * 2 ^ 16 + addr.slot_id * 2 ^ 11 + addr.func_id * 2 ^ 8 in
    if leb 256 addr.bus_id
    then 0
    else if leb 32 addr.slot_id
    then 0
    else if leb 8 addr.func_id
    then 0
    else base

module _ {S : Type 0} (inl : ℕ → S → ℕ × S) (outl : ℕ → ℕ → S → S) where
  -- The register at an offset: its address is sent to one port, and the other one is read.
  unfoldable pub read_config : ℕ → S → ℕ × S
  read_config at s = inl pci_config_data (outl pci_config_address at s)

  -- `pci_get_info` with addr not NULL: the result, and what `*info` holds then.
  unfoldable pub pci_get_info : PciAddr → PciInfo → S → Bool × PciInfo × S
  unfolding pci_base read_config
  pci_get_info addr info s =
      let base = pci_base addr in
      let (ids, s1) = read_config (add32 base 0) s in
      let info1 = record info { device_id = shr ids 16; vendor_id = ids % 2 ^ 16 } in
      let (class, s2) = read_config (add32 base 8) s1 in
      let info2 = record info1 {
        class_code = shr class 24;
        subclass_code = shr class 16 % 2 ^ 8;
        revision_id = class % 2 ^ 8;
      } in
      if base == 0
      then (false, info, s)
      else if ids == 0xFFFFFFFF
      then (false, info, s1)
      else if class == 0xFFFFFFFF
      then (false, info1, s2)
      else (true, info2, s2)

  -- `pci_get_bar` with addr and bar not NULL, and with or without `size`: the result, what `*bar`
  -- and `*size` are set to, and the ports.
  unfoldable pub pci_get_bar :
      PciAddr → (index : ℕ) → (with_size : Bool) → S → Bool × Option ℕ × Option ℕ × S
  unfolding pci_base read_config
  pci_get_bar addr index with_size s =
      let base = pci_base addr in
      let at = add32 (add32 base 16) (index * 4) in
      let (b, s1) = read_config at s in
      let s2 = outl pci_config_data 0xFFFFFFFF (outl pci_config_address at s1) in
      let (mask, s3) = inl pci_config_data s2 in
      let s4 = outl pci_config_data b (outl pci_config_address at s3) in
      let size = add32 (2 ^ 32 - 1 - mask) 1 in
      if leb 5 index
      then (false, none, none, s)
      else if base == 0
      then (false, none, none, s)
      else if b == 0xFFFFFFFF
      then (false, none, none, s1)
      else if with_size
      then (if mask == 0xFFFFFFFF then (false, some b, none, s3) else (true, some b, some size, s4))
      else (true, some b, none, s1)

  -- `pci_get_irq` with addr and irq not NULL
  unfoldable pub pci_get_irq : PciAddr → S → Bool × Option ℕ × S
  unfolding pci_base read_config
  pci_get_irq addr s =
      let base = pci_base addr in
      let (line, s1) = read_config (add32 base 0x3C) s in
      if base == 0
      then (false, none, s)
      else if line == 0xFFFFFFFF
      then (false, none, s1)
      else (true, some (line % 2 ^ 8), s1)

  -- `pci_command` with addr not NULL
  unfoldable pub pci_command : PciAddr → (cmd : ℕ) → S → Bool × S
  unfolding pci_base
  pci_command addr cmd s =
      let base = pci_base addr in
      if base == 0
      then (false, s)
      else (true, outl pci_config_data cmd (outl pci_config_address (add32 base 6) s))
