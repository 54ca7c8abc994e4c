-- ===== src/Keyboard/Quiet.antt =====
-- What the keys leave of the processes: all of it, but for the key that halts one.
use system_engineering.Base.{ℕ, zero, suc, refl, inl, inr, ltb, ◌==◌, ◌&&◌, Bool-cases}
use system_engineering.Console.{putc, clear}
use system_engineering.Console.Running.{
  putc-SameRunning, clear-SameRunning, clear_set-SameRunning, delete-SameRunning,
  swap_vid_mem-SameRunning,
}
use system_engineering.Kernel.{Kernel, on_console, emit}
use system_engineering.Process.{halt}
use system_engineering.Scheduler.{terminal_switch}
use system_engineering.Pic.{send_eoi}
use system_engineering.System.Quiet.{Quiet, Quiet-refl, Quiet-trans, console-Quiet}
use system_engineering.Keyboard.{
  backspace, append, tab, clear_screen, enter, key_mapped, type_char, Handled, handled, halted,
  handle_key, keyboard_handler, buffer_size, modifiers,
}

pub print-Quiet : (k : Kernel) (c : ℕ) → Quiet k (on_console k (putc k.console c))
print-Quiet k c = console-Quiet refl refl refl (putc-SameRunning k.console c)

backspace-Quiet : (k : Kernel) → Quiet k (backspace k)
unfolding backspace
backspace-Quiet k =
    elim (Bool-cases (ltb 0 (k.keyboard.keybuffer_count k.console.current_terminal))) [
      | inl typed ↦ rw typed (console-Quiet refl refl refl (delete-SameRunning k.console))
      | inr nothing ↦ rw nothing (Quiet-refl k)
    ]

append-Quiet : (c : ℕ) (k : Kernel) → Quiet k (append c k)
unfolding append
append-Quiet c k =
    elim (Bool-cases (ltb (k.keyboard.keybuffer_count k.console.current_terminal) buffer_size)) [
      | inl room ↦ rw room (console-Quiet refl refl refl (putc-SameRunning k.console c))
      | inr no_room ↦ rw no_room (Quiet-refl k)
    ]

tab-Quiet : (n : ℕ) (k : Kernel) → Quiet k (tab n k)
unfolding tab
tab-Quiet zero k = Quiet-refl k
tab-Quiet (suc n) k = Quiet-trans (append-Quiet 32 k) (tab-Quiet n (append 32 k))

clear_screen-Quiet : (k : Kernel) → Quiet k (clear_screen k)
unfolding clear_screen
clear_screen-Quiet k =
    Quiet-trans
      (console-Quiet {k = k} {k' = record k { console = clear k.console }} refl refl refl
        (clear-SameRunning k.console))
      (console-Quiet refl refl refl (clear_set-SameRunning (clear k.console)))

enter-Quiet : (k : Kernel) → Quiet k (enter k)
unfolding enter
enter-Quiet k = console-Quiet refl refl refl (putc-SameRunning k.console 10)

type_char-Quiet : (c : ℕ) (k : Kernel) → Quiet k (type_char c k)
unfolding type_char
type_char-Quiet c k = elim (Bool-cases (c == 0)) [
  | inl none_mapped ↦ rw none_mapped (Quiet-refl k)
  | inr mapped ↦ elim (Bool-cases (c == 10)) [
    | inl line_end ↦ rw (mapped, line_end) (enter-Quiet k)
    | inr other ↦ rw (mapped, other) (append-Quiet c k)
  ]
]

terminal_switch-Quiet : (k : Kernel) (t : ℕ) → Quiet k (terminal_switch k t)
unfolding terminal_switch
terminal_switch-Quiet k t =
    let same = swap_vid_mem-SameRunning k.console t in
    console-Quiet refl refl refl (record { scheduled = same.scheduled; running = same.running })

-- What a key does to the processes: nothing, or it halts the current one behind a line break.
pub data KeyDoes (fuel : ℕ) (k : Kernel) : Handled → Type 0 where
  only_typed : (k' : Kernel) → Quiet k k' → KeyDoes fuel k (handled k')
  halts : (k' : Kernel) → Quiet k k' → KeyDoes fuel k (halted (halt fuel k' 2))

handle_key-Does : (fuel code : ℕ) (k : Kernel) → KeyDoes fuel k (handle_key fuel code k)
unfolding handle_key
handle_key-Does fuel code k = elim (Bool-cases (code == 0x0E)) [
  | inl this ↦ rw this (only_typed _ (backspace-Quiet k))
  | inr n1 ↦ elim (Bool-cases (code == 0x0F)) [
    | inl this ↦ rw (n1, this) (only_typed _ (tab-Quiet 4 k))
    | inr n2 ↦ elim (Bool-cases (k.keyboard.control == 1 && code == 0x26)) [
      | inl this ↦ rw (n1, n2, this) (only_typed _ (clear_screen-Quiet k))
      | inr n3 ↦ elim (Bool-cases (k.keyboard.left_alt == 1 && code == 0x3B)) [
        | inl this ↦ rw (n1, n2, n3, this) (only_typed _ (terminal_switch-Quiet k 0))
        | inr n4 ↦ elim (Bool-cases (k.keyboard.left_alt == 1 && code == 0x3C)) [
          | inl this ↦ rw (n1, n2, n3, n4, this) (only_typed _ (terminal_switch-Quiet k 1))
          | inr n5 ↦ elim (Bool-cases (k.keyboard.left_alt == 1 && code == 0x3D)) [
            | inl this ↦ rw (n1, n2, n3, n4, n5, this) (only_typed _ (terminal_switch-Quiet k 2))
            | inr n6 ↦ elim (Bool-cases (k.keyboard.control == 1 && code == 0x2E)) [
              | inl this ↦ rw (n1, n2, n3, n4, n5, n6, this) (halts _ (print-Quiet k 10))
              | inr n7 ↦
                  rw (n1, n2, n3, n4, n5, n6, n7)
                    (only_typed _ (type_char-Quiet (key_mapped k.keyboard code) k))
            ]
          ]
        ]
      ]
    ]
  ]
]

-- What comes before the key.
KeyDoes-later :
    (fuel : ℕ) {k0 k : Kernel} {h : Handled} → Quiet k0 k → KeyDoes fuel k h → KeyDoes fuel k0 h
KeyDoes-later fuel q (only_typed k' q') = only_typed k' (Quiet-trans q q')
KeyDoes-later fuel q (halts k' q') = halts k' (Quiet-trans q q')

pub keyboard_handler-Does : (fuel : ℕ) (k : Kernel) → KeyDoes fuel k (keyboard_handler fuel k)
unfolding keyboard_handler
keyboard_handler-Does fuel k =
    let got = emit k (send_eoi 1) in
    let read = record got { keyboard = modifiers (k.inb 0x60) got.keyboard } in
    KeyDoes-later fuel {k = read}
      (console-Quiet refl refl refl (record { scheduled = refl; running = λ t. refl }))
      (handle_key-Does fuel (k.inb 0x60) read)
