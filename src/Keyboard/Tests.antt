-- ===== src/Keyboard/Tests.antt =====
-- Keys typed in the sample kernel.
use system_engineering.Base.{◌≡◌, refl, arith, get_or}
use system_engineering.Kernel.{Kernel, emit}
use system_engineering.Kernel.Sample.{sample_kernel}
use system_engineering.Pic.{send_eoi}
use system_engineering.Keyboard.{
  keymap, keymap_shift, keymap_capslock, modifiers, next_held, next_shift, next_caps, type_char,
  key_mapped, append, handled, handle_key, keyboard_handler,
}
use system_engineering.Keyboard.Line.{Fitting, keyboard_handler-Fitting}

-- The key of "a" is pressed.
abbrev key_down : Kernel
key_down = record sample_kernel { inb = λ port. 0x1E }

letter_a : get_or keymap 0x1E 0 ≡ 97
letter_a = refl

space_key : get_or keymap_shift 0x39 0 ≡ 32
space_key = refl

slash_key : get_or keymap_capslock 0x35 0 ≡ 47
slash_key = refl

abbrev typed : Kernel
typed =
    append 97 (record (emit key_down (send_eoi 1)) { keyboard = modifiers 0x1E key_down.keyboard })

types_a : keyboard_handler 10 key_down ≡ handled typed
unfolding keyboard_handler handle_key type_char key_mapped modifiers append next_held next_shift
    next_caps
types_a = refl

keyboard_handler-Fitting_example : Fitting key_down typed
keyboard_handler-Fitting_example =
    keyboard_handler-Fitting 10 key_down typed (λ t. omega arith) types_a
