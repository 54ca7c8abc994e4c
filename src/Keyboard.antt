-- ===== src/Keyboard.antt =====
-- student-distrib/keyboard.c: the handler of the keyboard, its key maps and its initialisation.
use system_engineering.Base.{
  ℕ, zero, suc, ◌+◌, ◌-◌, ◌*◌, ◌%◌, List, [], ◌∷◌, ◌++◌, Option, some, none, Bool, true, false,
  ◌&&◌, ◌||◌, ltb, ◌==◌, if◌then◌else◌, get_or, Arr, Mem, update, u8, bit_xor,
}
use system_engineering.Base.Text.{codes}
use system_engineering.Base.Int.{ℤ, pos}
use system_engineering.Pic.{enable_irq, send_eoi}
use system_engineering.Console.{Console, Terminal, clear, clear_set, delete, enable_cursor, putc}
use system_engineering.Kernel.{Kernel, Keyboard, emit, on_console}
use system_engineering.Process.{Outcome, halt}
use system_engineering.Scheduler.{terminal_switch}
pub mod Line
pub mod Quiet
mod Tests

abbrev pub buffer_size : ℕ
buffer_size = 127

-- The key maps, by the code of the key. All further entries are 0.
abbrev pub keymap : List ℕ
keymap =
    0 ∷ 0 ∷ codes "1234567890-="
    ++ (0 ∷ 0 ∷ codes "qwertyuiop[]"
        ++ (10 ∷ 0 ∷ codes "asdfghjkl;'`"
            ++ (0 ∷ 92 ∷ codes "zxcvbnm,./" ++ (0 ∷ 0 ∷ 0 ∷ 32 ∷ []))))

abbrev pub keymap_shift : List ℕ
keymap_shift =
    0 ∷ 0 ∷ codes "!@3$%^&*()_+"
    ++ (0 ∷ 0 ∷ codes "QWERTYUIOP{}"
        ++ (10 ∷ 0 ∷ codes "ASDFGHJKL:"
            ++ (34 ∷ 126 ∷ 0 ∷ 124 ∷ codes "ZXCVBNM<>?" ++ (0 ∷ 0 ∷ 0 ∷ 32 ∷ []))))

abbrev pub keymap_capslock : List ℕ
keymap_capslock =
    0 ∷ 0 ∷ codes "1234567890-="
    ++ (0 ∷ 0 ∷ codes "QWERTYUIOP[]"
        ++ (10 ∷ 0 ∷ codes "ASDFGHJKL;'`"
            ++ (0 ∷ 92 ∷ codes "ZXCVBNM,./" ++ (0 ∷ 0 ∷ 0 ∷ 32 ∷ []))))

-- `keyboard_init`: `first` and `second` are what `enable_cursor` reads from its port. The array
-- `cursor`, which nothing else uses, is left out.
unfoldable pub keyboard_init : (first second : ℕ) → Kernel → Kernel
keyboard_init first second k =
    let b = k.keyboard in
    let (masks, outs) = enable_irq k.masks 1 in
    emit
      (record k {
        masks = masks;
        keyboard = record b {
          shift = 0;
          capslock = 0;
          caps_checker = 0;
          control = 0;
          left_alt = 0;
          keybuffer_count = update (update (update b.keybuffer_count 0 0) 1 0) 2 0;
          read_flag = update (update (update b.read_flag 0 0) 1 0) 2 0;
        };
      })
      (enable_cursor 0 25 first second ++ outs)

unfoldable pub terminal_init : Kernel → Kernel
terminal_init k =
    let c = k.console in
    let none_at = λ (t : Arr Terminal) (i : ℕ). update t i (record (t i) { pcb = none }) in
    record k { console = record c { terminal = none_at (none_at (none_at c.terminal 0) 1) 2 } }

-- The keys that only change how others are read: shift, caps lock with the state that waits for its
-- release, control and the left alt.
next_shift : (code shift : ℕ) → ℕ
next_shift code shift =
    if code == 0xAA || code == 0xB6 then 0 else if code == 0x2A || code == 0x36 then 1 else shift

next_caps : (code capslock caps_checker : ℕ) → ℕ × ℕ
next_caps code capslock caps_checker =
    if code == 0x3A && caps_checker == 0
    then (1, 1)
    else if code == 0xBA && caps_checker == 1
    then (capslock, 2)
    else if code == 0x3A && caps_checker == 2
    then (0, 3)
    else if code == 0xBA && caps_checker == 3
    then (capslock, 0)
    else (capslock, caps_checker)

next_held : (code pressed released held : ℕ) → ℕ
next_held code pressed released held =
    if code == pressed then 1 else if code == released then 0 else held

pub modifiers : ℕ → Keyboard → Keyboard
modifiers code b =
    let (capslock, caps_checker) = next_caps code b.capslock b.caps_checker in
    record b {
      shift = next_shift code b.shift;
      capslock = capslock;
      caps_checker = caps_checker;
      control = next_held code 0x1D 0x9D b.control;
      left_alt = next_held code 0x38 0xB8 b.left_alt;
    }

-- Backspace deletes a character of the line that is being typed.
pub backspace : Kernel → Kernel
backspace k =
    let t = k.console.current_terminal in
    let count = k.keyboard.keybuffer_count t in
    let k' = on_console k (delete k.console) in
    let b = k'.keyboard in
    if ltb 0 count
    then record k' {
      keyboard = record b { keybuffer_count = update b.keybuffer_count t (count - 1) };
    }
    else k

-- A character goes to the line if it has room, and to the screen then.
pub append : ℕ → Kernel → Kernel
append c k =
    let t = k.console.current_terminal in
    let b = k.keyboard in
    let count = b.keybuffer_count t in
    let typed = record b {
      key_buf = update b.key_buf t (update (b.key_buf t) count c);
      keybuffer_count = update b.keybuffer_count t (u8 (count + 1));
    } in
    if ltb count buffer_size
    then on_console (record k { keyboard = typed }) (putc k.console c)
    else k

-- The loop of the tab key, over the rounds left.
pub tab : ℕ → Kernel → Kernel
tab zero k = k
tab (suc n) k = tab n (append 32 k)

-- Control and L: the source's test of `readFlag` compares the array with 0, so the count stays.
pub clear_screen : Kernel → Kernel
clear_screen k = on_console k (clear_set (clear k.console))

-- The enter key ends the line and lets `terminal_read` go on.
pub enter : Kernel → Kernel
enter k =
    let t = k.console.current_terminal in
    let b = k.keyboard in
    let ended = record b {
      key_buf = update b.key_buf t (update (b.key_buf t) (b.keybuffer_count t) 10);
      read_flag = update b.read_flag t 0;
      keybuffer_count = update b.keybuffer_count t 0;
    } in
    on_console (record k { keyboard = ended }) (putc k.console 10)

-- The character of a key.
pub key_mapped : Keyboard → ℕ → ℕ
key_mapped b code =
    if bit_xor b.shift b.capslock == 1
    then (if b.shift == 1 then get_or keymap_shift code 0 else get_or keymap_capslock code 0)
    else get_or keymap code 0

-- Every other key.
pub type_char : ℕ → Kernel → Kernel
type_char c k = if c == 0 then k else if c == 10 then enter k else append c k

-- How the handler ends: it returns, or control and C halt the current program.
pub data Handled : Type 0 where
  handled : Kernel → Handled
  halted : Outcome → Handled

-- The handler behind the modifiers, with `code` read from the keyboard.
pub handle_key : (fuel code : ℕ) → Kernel → Handled
handle_key fuel code k =
    if code == 0x0E
    then handled (backspace k)
    else if code == 0x0F
    then handled (tab 4 k)
    else if k.keyboard.control == 1 && code == 0x26
    then handled (clear_screen k)
    else if k.keyboard.left_alt == 1 && code == 0x3B
    then handled (terminal_switch k 0)
    else if k.keyboard.left_alt == 1 && code == 0x3C
    then handled (terminal_switch k 1)
    else if k.keyboard.left_alt == 1 && code == 0x3D
    then handled (terminal_switch k 2)
    else if k.keyboard.control == 1 && code == 0x2E
    then halted (halt fuel (on_console k (putc k.console 10)) 2)
    else handled (type_char (key_mapped k.keyboard code) k)

pub keyboard_handler : (fuel : ℕ) → Kernel → Handled
keyboard_handler fuel k' =
    let k = emit k' (send_eoi 1) in
    let code = k.inb 0x60 in
    handle_key fuel code (record k { keyboard = modifiers code k.keyboard })

-- The handlers of a terminal that do nothing.
pub terminal_open : ℤ
terminal_open = pos 0

pub terminal_close : ℤ
terminal_close = pos 0
