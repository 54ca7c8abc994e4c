-- ===== src/Print.antt =====
-- student-distrib/lib.c: `puts` and `printf`. `none` means that the fuel ran out, in a loop that looks for
-- a NUL.
use system_engineering.Base.{
  ℕ, zero, suc, ◌+◌, ◌-◌, ◌^◌, ◌%◌, List, [], ◌∷◌, Option, none, some, Bool, true, false, ltb, ◌==◌,
  if◌then◌else◌, Arr, Mem, update, u8, u32,
}
use system_engineering.CString.{strlen, itoa}
use system_engineering.Console.{putc}
use system_engineering.Kernel.{Kernel, on_console}
pub mod Text
pub mod Hex
pub mod Frame
mod Tests

-- `putc`, as a step of the kernel.
abbrev pub put : Kernel → ℕ → Kernel
put k c = on_console k (putc k.console c)

pub puts_loop : (fuel : ℕ) → Kernel → Mem → (index : ℕ) → Option (Kernel × ℕ)
puts_loop zero k s index = none
puts_loop (suc fuel) k s index =
    let rest = puts_loop fuel (put k (s index)) s (index + 1) in
    if s index == 0 then some (k, index) else rest

pub puts : (fuel : ℕ) → Kernel → Mem → Option (Kernel × ℕ)
puts fuel k s = puts_loop fuel k s 0

-- A `puts` in `printf`, whose value is not used.
print_string : ℕ → Kernel → Mem → Option Kernel
print_string fuel k s = elim (puts fuel k s) [ none ↦ none | some (k', index) ↦ some k' ]

-- The string from `at` on.
abbrev pub from : Mem → ℕ → Mem
from s at j = s (at + j)

-- A number in `conv_buf`, of which `locals` is what it holds at first.
print_number : ℕ → Kernel → Mem → (value radix : ℕ) → Option Kernel
print_number fuel k locals value radix = elim (itoa fuel value locals radix) [
  | none ↦ none
  | some s ↦ print_string fuel k s
]

-- The loop that fills `conv_buf` with zeros from `i` up to 8, over the rounds left.
pub fill_zeros : ℕ → Mem → ℕ → Mem
fill_zeros zero buf i = buf
fill_zeros (suc r) buf i =
    let rest = fill_zeros r (update buf i 48) (i + 1) in if ltb i 8 then rest else buf

-- `%#x`: the digits start at `conv_buf[8]`, and the zeros end there. The result is what `puts` is
-- given.
pub hex_padded : (fuel : ℕ) → (locals : Mem) → (value : ℕ) → Option Mem
hex_padded fuel locals value = elim (itoa fuel value (from locals 8) 16) [
  | none ↦ none
  | some digits ↦ elim (strlen fuel digits) [
    | none ↦ none
    | some starting_index ↦ some (
        from (fill_zeros 8 (λ j. if ltb j 8 then locals j else digits (j - 8)) starting_index)
          starting_index)
  ]
]

print_hex : ℕ → Kernel → Mem → (value : ℕ) → Option Kernel
print_hex fuel k locals value = elim (hex_padded fuel locals value) [
  | none ↦ none
  | some s ↦ print_string fuel k s
]

-- `%d` of a negative number writes the sign, and the digits behind it.
print_signed : ℕ → Kernel → Mem → (value : ℕ) → Option Kernel
print_signed fuel k locals value =
    let negative =
      elim (itoa fuel (u32 (2 ^ 32 - value)) (from locals 1) 10) as (λ _. Option Kernel) [
        | none ↦ none
        | some digits ↦ print_string fuel k (λ j. if j == 0 then 45 else digits (j - 1))
      ] in
    if ltb value (2 ^ 31) then print_number fuel k locals value 10 else negative

-- `format_char_switch`: whether a `#` came, and where the conversion character stands.
pub flags : ℕ → Mem → (at : ℕ) → (alternate : Bool) → Option (ℕ × Bool)
flags zero format at alternate = none
flags (suc fuel) format at alternate =
    let rest = flags fuel format (at + 1) true in
    if format at == 35 then rest else some (at, alternate)

module _ (fuel : ℕ) (memory : Mem) (args : Arr ℕ) (locals : Mem) where
  -- One conversion, with `esp` as the index of the next argument: the kernel and the index after it.
  -- A `%s` argument is an address in `memory`.
  pub convert : Kernel → (c : ℕ) → (alternate : Bool) → (esp : ℕ) → Option (Kernel × ℕ)
  convert k c alternate esp =
      let then_next = λ (o : Option Kernel). elim o as (λ _. Option (Kernel × ℕ)) [
        | none ↦ none
        | some k' ↦ some (k', esp + 1)
      ] in
      if c == 37
      then some (put k 37, esp)
      else if c == 120
      then then_next (
          if alternate
          then print_hex fuel k locals (args esp)
          else print_number fuel k locals (args esp) 16)
      else if c == 117
      then then_next (print_number fuel k locals (args esp) 10)
      else if c == 100
      then then_next (print_signed fuel k locals (args esp))
      else if c == 99
      then some (put k (u8 (args esp)), esp + 1)
      else if c == 115
      then then_next (print_string fuel k (from memory (args esp)))
      else some (k, esp)

  -- The loop of `printf` at the character `at`.
  pub printf_loop : ℕ → Kernel → (format : Mem) → (at esp : ℕ) → Option (Kernel × ℕ)
  printf_loop zero k format at esp = none
  printf_loop (suc rounds) k format at esp =
      let plain = printf_loop rounds (put k (format at)) format (at + 1) esp in
      let converted = elim (flags fuel format (at + 1) false) as (λ _. Option (Kernel × ℕ)) [
        | none ↦ none
        | some (at', alternate) ↦ elim (convert k (format at') alternate esp) [
          | none ↦ none
          | some (k', esp') ↦ printf_loop rounds k' format (at' + 1) esp'
        ]
      ] in
      if format at == 0 then some (k, at) else if format at == 37 then converted else plain

  -- `printf`, with the arguments behind the format on the stack.
  pub printf : Kernel → (format : Mem) → Option (Kernel × ℕ)
  printf k format = printf_loop fuel k format 0 0
