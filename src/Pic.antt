-- ===== src/Pic.antt =====
-- student-distrib/i8259.c: the two 8259 interrupt controllers. The state is the two mask bytes; a
-- function returns the new masks with the `outb` calls that it made, in order.
use system_engineering.Base.{
  ℕ, ◌+◌, ◌-◌, ◌^◌, List, [], ◌∷◌, ◌++◌, ltb, if◌then◌else◌, u8, not8, bit_and, bit_or,
}
pub mod Masks
mod Tests

-- One `outb(data, port)`.
pub record Out : Type 0 where
  pub port : ℕ
  pub byte : ℕ

abbrev pub outb : ℕ → ℕ → Out
outb b p = record { port = p; byte = b }

abbrev pub master_8259_port : ℕ
master_8259_port = 0x20

abbrev pub slave_8259_port : ℕ
slave_8259_port = 0xA0

abbrev pub master_8259_data : ℕ
master_8259_data = master_8259_port + 1

abbrev pub slave_8259_data : ℕ
slave_8259_data = slave_8259_port + 1

abbrev pub slave_port : ℕ
slave_port = 2

abbrev pub num_ports : ℕ
num_ports = 8

abbrev pub max_ports : ℕ
max_ports = 16

abbrev pub eoi : ℕ
eoi = 0x60

pub record PicMasks : Type 0 where
  pub master_mask : ℕ
  pub slave_mask : ℕ

-- The masks as they are declared: every line masked.
abbrev pub boot_masks : PicMasks
boot_masks = record { master_mask = 0xFF; slave_mask = 0xFF }

unfoldable pub enable_irq : PicMasks → ℕ → PicMasks × List Out
enable_irq m irq_num =
    if ltb irq_num max_ports then (if ltb irq_num num_ports then master else slave) else (m, [])
  where
    master : PicMasks × List Out
    master =
        let mask = bit_and m.master_mask (not8 (u8 (2 ^ irq_num))) in
        (record m { master_mask = mask }, outb mask master_8259_data ∷ [])

    slave : PicMasks × List Out
    slave =
        let mask = bit_and m.slave_mask (not8 (u8 (2 ^ (irq_num - num_ports)))) in
        (record m { slave_mask = mask }, outb mask slave_8259_data ∷ [])

-- The slave's branch sets the complement of the line's bit, as the source does.
pub disable_irq : PicMasks → ℕ → PicMasks × List Out
disable_irq m irq_num =
    if ltb irq_num max_ports then (if ltb irq_num num_ports then master else slave) else (m, [])
  where
    master : PicMasks × List Out
    master =
        let mask = bit_or m.master_mask (u8 (2 ^ irq_num)) in
        (record m { master_mask = mask }, outb mask master_8259_data ∷ [])

    slave : PicMasks × List Out
    slave =
        let mask = bit_or m.slave_mask (not8 (u8 (2 ^ (irq_num - num_ports)))) in
        (record m { slave_mask = mask }, outb mask slave_8259_data ∷ [])

pub send_eoi : ℕ → List Out
send_eoi irq_num =
    if ltb irq_num max_ports
    then (if ltb irq_num num_ports
        then outb (bit_or eoi irq_num) master_8259_port ∷ []
        else outb (bit_or eoi (irq_num - num_ports)) slave_8259_port
          ∷ outb (bit_or eoi slave_port) master_8259_port
          ∷ [])
    else []

unfoldable pub i8259_init : PicMasks → PicMasks × List Out
i8259_init m =
    let (m', outs) = enable_irq m slave_port in
    (
      m',
      outb 0x11 master_8259_port
          ∷ outb 0x11 slave_8259_port
          ∷ outb 0x20 master_8259_data
          ∷ outb 0x28 slave_8259_data
          ∷ outb 0x04 master_8259_data
          ∷ outb 0x02 slave_8259_data
          ∷ outb 0x01 master_8259_data
          ∷ outb 0x01 slave_8259_data
          ∷ outb m.master_mask master_8259_data
          ∷ outb m.slave_mask slave_8259_data
          ∷ outs,
    )
