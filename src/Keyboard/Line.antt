-- ===== src/Keyboard/Line.antt =====
-- The line that is being typed stays inside its buffer.
use system_engineering.Base.{
  ℕ, zero, suc, ◌≤◌, ◌==◌, ◌&&◌, ltb, ◌≡◌, inl, inr, refl, subst, ◌∙◌, arith, Bool-cases,
}
use system_engineering.Kernel.{Kernel, emit}
use system_engineering.Pic.{send_eoi}
use system_engineering.Scheduler.{terminal_switch}
use system_engineering.Keyboard.{
  modifiers, backspace, append, tab, clear_screen, enter, key_mapped, type_char, Handled, handled,
  halted, handle_key, keyboard_handler,
}

-- No line has more than 127 characters, so its end has room.
abbrev pub LinesFit : Kernel → Type 0
LinesFit k = (t : ℕ) → k.keyboard.keybuffer_count t ≤ 127

-- The lines still fit, and nothing behind the 128 bytes of a buffer was written.
pub record Fitting (k k' : Kernel) : Type 0 where
  pub fits : LinesFit k'
  pub inside : (t j : ℕ) → 128 ≤ j → k'.keyboard.key_buf t j ≡ k.keyboard.key_buf t j

Fitting-refl : (k : Kernel) → LinesFit k → Fitting k k
Fitting-refl k h = record { fits = h; inside = λ t j le. refl }

Fitting-trans : {a b c : Kernel} → Fitting a b → Fitting b c → Fitting a c
Fitting-trans x y = record { fits = y.fits; inside = λ t j le. y.inside t j le ∙ x.inside t j le }

append-Fitting : (c : ℕ) (k : Kernel) → LinesFit k → Fitting k (append c k)
unfolding append
append-Fitting c k h =
    let t = k.console.current_terminal in
    elim (Bool-cases (ltb (k.keyboard.keybuffer_count t) 127)) [
      | inl room ↦ rw room (record {
        fits = λ u. elim (Bool-cases (u == t)) [
          | inl here ↦ rw here (ground arith)
          | inr other ↦ rw other (h u)
        ];
        inside = λ u j le. elim (Bool-cases (u == t)) [
          | inl here ↦ ground arith
          | inr other ↦ ground arith
        ];
      })
      | inr full ↦ rw full (Fitting-refl k h)
    ]

tab-Fitting : (n : ℕ) (k : Kernel) → LinesFit k → Fitting k (tab n k)
unfolding tab
tab-Fitting zero k h = Fitting-refl k h
tab-Fitting (suc n) k h =
    let first = append-Fitting 32 k h in
    Fitting-trans first (tab-Fitting n (append 32 k) first.fits)

enter-Fitting : (k : Kernel) → LinesFit k → Fitting k (enter k)
unfolding enter
enter-Fitting k h = record {
  fits = λ u. elim (Bool-cases (u == k.console.current_terminal)) [
    | inl here ↦ rw here (omega arith)
    | inr other ↦ rw other (h u)
  ];
  inside = λ u j le.
      let small = h k.console.current_terminal in
      elim (Bool-cases (u == k.console.current_terminal)) [
        | inl here ↦ ground arith
        | inr other ↦ ground arith
      ];
}

backspace-Fitting : (k : Kernel) → LinesFit k → Fitting k (backspace k)
unfolding backspace
backspace-Fitting k h =
    let t = k.console.current_terminal in
    elim (Bool-cases (ltb 0 (k.keyboard.keybuffer_count t))) [
      | inl some_left ↦ rw some_left (record {
        fits = λ u. elim (Bool-cases (u == t)) [
          | inl here ↦ let small = h t in rw here (omega arith)
          | inr other ↦ rw other (h u)
        ];
        inside = λ u j le. refl;
      })
      | inr empty ↦ rw empty (Fitting-refl k h)
    ]

type_char-Fitting : (c : ℕ) (k : Kernel) → LinesFit k → Fitting k (type_char c k)
unfolding type_char
type_char-Fitting c k h = elim (Bool-cases (c == 0)) [
  | inl nothing ↦ rw nothing (Fitting-refl k h)
  | inr key ↦ rw key (elim (Bool-cases (c == 10)) [
    | inl newline ↦ rw newline (enter-Fitting k h)
    | inr char ↦ rw char (append-Fitting c k h)
  ])
]

switch-Fitting : (t : ℕ) (k : Kernel) → LinesFit k → Fitting k (terminal_switch k t)
unfolding terminal_switch
switch-Fitting t k h = record { fits = h; inside = λ u j le. refl }

clear_screen-Fitting : (k : Kernel) → LinesFit k → Fitting k (clear_screen k)
unfolding clear_screen
clear_screen-Fitting k h = record { fits = h; inside = λ u j le. refl }

-- A statement about the kernel that the handler returns with, if it returns.
abbrev Returns : (Kernel → Type 0) → Handled → Type 0
Returns P (handled k) = P k
Returns P (halted o) = ℕ

handle_key-Fitting :
    (fuel code : ℕ) (k : Kernel) → LinesFit k → Returns (Fitting k) (handle_key fuel code k)
unfolding handle_key
handle_key-Fitting fuel code k h = elim (Bool-cases (code == 0x0E)) [
  | inl this ↦ rw this (backspace-Fitting k h)
  | inr others ↦ rw others (elim (Bool-cases (code == 0x0F)) [
    | inl this ↦ rw this (tab-Fitting 4 k h)
    | inr others ↦ rw others (elim (Bool-cases (k.keyboard.control == 1 && code == 0x26)) [
      | inl this ↦ rw this (clear_screen-Fitting k h)
      | inr others ↦ rw others (elim (Bool-cases (k.keyboard.left_alt == 1 && code == 0x3B)) [
        | inl this ↦ rw this (switch-Fitting 0 k h)
        | inr others ↦ rw others (elim (Bool-cases (k.keyboard.left_alt == 1 && code == 0x3C)) [
          | inl this ↦ rw this (switch-Fitting 1 k h)
          | inr others ↦ rw others (elim (Bool-cases (k.keyboard.left_alt == 1 && code == 0x3D)) [
            | inl this ↦ rw this (switch-Fitting 2 k h)
            | inr others ↦ rw others (elim (Bool-cases (k.keyboard.control == 1 && code == 0x2E)) [
              | inl this ↦ rw this (zero)
              | inr others ↦ rw others (type_char-Fitting (key_mapped k.keyboard code) k h)
            ])
          ])
        ])
      ])
    ])
  ])
]

-- If no line has more than 127 characters and the keyboard's handler returns, whatever key it reads,
-- then no line has more than 127 characters after it, and no byte behind the 128 of a line's buffer
-- was written.
pub keyboard_handler-Fitting :
    (fuel : ℕ) (k k' : Kernel) → LinesFit k → keyboard_handler fuel k ≡ handled k' → Fitting k k'
unfolding keyboard_handler modifiers
keyboard_handler-Fitting fuel k k' h e =
    let code = k.inb 0x60 in
    let start = record (emit k (send_eoi 1)) { keyboard = modifiers code k.keyboard } in
    let f : Fitting start k' =
      subst (Returns (Fitting start)) e (handle_key-Fitting fuel code start h) in
    record { fits = f.fits; inside = f.inside }
