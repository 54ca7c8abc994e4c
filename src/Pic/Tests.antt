-- ===== src/Pic/Tests.antt =====
-- The controllers' masks at concrete lines.
use system_engineering.Base.{◌≡◌, arith}
use system_engineering.Pic.{PicMasks, disable_irq}
use system_engineering.Pic.Masks.{AreBytes, line, disable_irq-line}

abbrev some_masks : PicMasks
some_masks = record { master_mask = 0xFB; slave_mask = 0xFE }

some_masks-AreBytes : AreBytes some_masks
some_masks-AreBytes = record { master_byte = omega arith; slave_byte = omega arith }

disable_irq-line_example : line (disable_irq some_masks 8).0 9 ≡ 1
disable_irq-line_example =
    disable_irq-line some_masks 8 9 some_masks-AreBytes (omega arith) (omega arith)
