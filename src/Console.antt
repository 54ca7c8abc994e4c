-- ===== src/Console.antt =====
-- student-distrib/lib.c (`putc`, `puts`, `clear` and the cursor) and the terminals of pcb.h and
-- keyboard.c: three terminals, each with a page of text; the visible one is shown in video memory.
use system_engineering.Base.{
  ℕ, zero, suc, ◌+◌, ◌-◌, ◌*◌, ◌/◌, ◌%◌, ◌^◌, List, [], ◌∷◌, ◌++◌, Option, none, some, ◌==◌, ◌||◌,
  leb, ltb, Bool, true, false, if◌then◌else◌, Arr, Mem, update, u8, u16, u32, bit_and, bit_or,
}
use system_engineering.Pic.{Out, outb}
use system_engineering.Memory.{memcpy}
pub mod Scroll
pub mod Running
pub mod Cursor
pub mod Pages
mod Tests

abbrev pub num_cols : ℕ
num_cols = 80

abbrev pub num_rows : ℕ
num_rows = 25

abbrev pub video_mem : ℕ
video_mem = 0xB8000

-- `vid_page[t]`: term_1_mem, term_2_mem and term_3_mem lie 4096 bytes apart.
abbrev pub vid_page : ℕ → ℕ
vid_page t = 0xB9000 + t * 4096

abbrev pub attrib : ℕ
attrib = 7

abbrev pub space : ℕ
space = 32

abbrev pub newline : ℕ
newline = 10

abbrev pub carriage_return : ℕ
carriage_return = 13

-- `terminal_t`; a `pcb_t*` is the number of its slot, or `none` for NULL.
pub record Terminal : Type 0 where
  pub pcb : Option ℕ
  pub screen_x : ℕ
  pub screen_y : ℕ

pub record Console : Type 0 where
  pub memory : Mem
  pub terminal : Arr Terminal
  pub current_terminal : ℕ
  pub curr_scheduler : ℕ

-- The address of a character cell, in `uint32_t` arithmetic.
abbrev pub cell : (page y x : ℕ) → ℕ
cell page y x = u32 (page + u32 (2 * u32 (num_cols * y + x)))

-- A character and its attribute.
abbrev pub put_cell : Mem → (page y x c : ℕ) → Mem
put_cell m page y x c = update (update m (cell page y x) c) (u32 (cell page y x + 1)) attrib

-- The four `outb` calls that move the hardware cursor.
abbrev pub move_cursor : (screen_y screen_x : ℕ) → List Out
move_cursor y x =
    let at = u16 (u32 (y * num_cols + x)) in
    outb 0x0F 0x3D4
    ∷ outb (u8 (bit_and at 0xFF)) 0x3D5
    ∷ outb 0x0E 0x3D4
    ∷ outb (u8 (bit_and (at / 2 ^ 8) 0xFF)) 0x3D5
    ∷ []

-- The loop of `clear`, over the cells left and the index.
clear_loop : ℕ → ℕ → Mem → Mem
clear_loop zero i m = m
clear_loop (suc k) i m =
    clear_loop k (i + 1)
      (update (update m (video_mem + 2 * i) space) (video_mem + 2 * i + 1) attrib)

pub clear : Console → Console
clear s = record s { memory = clear_loop (num_rows * num_cols) 0 s.memory }

pub clear_set : Console → Console × List Out
clear_set s =
    let t = record (s.terminal s.current_terminal) { screen_x = 0; screen_y = 0 } in
    (record s { terminal = update s.terminal s.current_terminal t }, move_cursor 0 0)

-- `cursor_start` and `cursor_end` into what `inb` read at the two register numbers.
pub enable_cursor : (cursor_start cursor_end first second : ℕ) → List Out
enable_cursor cursor_start cursor_end first second =
    outb 0x0A 0x3D4
    ∷ outb (u8 (bit_or (bit_and first 0xC0) cursor_start)) 0x3D5
    ∷ outb 0x0B 0x3D4
    ∷ outb (u8 (bit_or (bit_and second 0xE0) cursor_end)) 0x3D5
    ∷ []

pub delete : Console → Console × List Out
delete s =
    let t = s.terminal s.current_terminal in
    let x = u32 (t.screen_x + (2 ^ 32 - 1)) in
    (
      record s {
        memory = put_cell s.memory video_mem t.screen_y x 0;
        terminal = update s.terminal s.current_terminal (record t { screen_x = x });
      },
      move_cursor t.screen_y x,
    )

pub change_terminal_cursor : Console → ℕ → List Out
change_terminal_cursor s new_cursor =
    let t = s.terminal new_cursor in move_cursor t.screen_y t.screen_x

-- `while(screen_x > NUM_COLS)`: the column and the row after it. A round takes 80 columns off, so as
-- many rounds as there are columns are more than enough.
wrap_lines : ℕ → (x y : ℕ) → ℕ × ℕ
wrap_lines zero x y = (x, y)
wrap_lines (suc k) x y =
    let rest = wrap_lines k (x - num_cols) (u32 (y + 1)) in if ltb num_cols x then rest else (x, y)

-- The two loops that scroll a page: over the columns left of row `i`, and over the rows left.
scroll_cols : ℕ → (page i j : ℕ) → Mem → Mem
scroll_cols zero page i j m = m
scroll_cols (suc k) page i j m = scroll_cols k page i (j + 1) (
    update (update m (page + 2 * (num_cols * i + j)) (m (page + 2 * (num_cols * (i + 1) + j))))
      (page + 2 * (num_cols * i + j) + 1) attrib)

scroll_rows : ℕ → (page i : ℕ) → Mem → Mem
scroll_rows zero page i m = m
scroll_rows (suc k) page i m = scroll_rows k page (i + 1) (scroll_cols num_cols page i 0 m)

-- The loop that blanks the last row.
blank_cols : ℕ → (page j : ℕ) → Mem → Mem
blank_cols zero page j m = m
blank_cols (suc k) page j m = blank_cols k page (j + 1) (
    update (update m (page + 2 * (num_cols * (num_rows - 1) + j)) space)
      (page + 2 * (num_cols * (num_rows - 1) + j) + 1) attrib)

pub scroll : (page : ℕ) → Mem → Mem
scroll page m = blank_cols num_cols page 0 (scroll_rows (num_rows - 1) page 0 m)

-- What the body of `putc` reads and writes: the memory and one terminal's cursor.
pub record Pen : Type 0 where
  pub ink : Mem
  pub x : ℕ
  pub y : ℕ

-- The first half of the body: a line break, or a character.
print_char : (page c : ℕ) → Pen → Pen
print_char page c p =
    if c == newline || c == carriage_return
    then (let (x, y) = wrap_lines p.x p.x p.y in record p { x = 0; y = u32 (y + 1) })
    else record { ink = put_cell p.ink page p.y p.x c; x = u32 (p.x + 1); y = p.y }

-- The second half: at the end of the page the cursor goes up a row and the page is scrolled.
scroll_at_end : (page : ℕ) → Pen → Pen
scroll_at_end page p =
    if leb (num_cols * num_rows) (u32 (u32 (p.y * num_cols) + p.x))
    then (if ltb 0 p.y
        then record p { y = p.y - 1; ink = scroll page p.ink }
        else record p { x = u32 (p.x + (2 ^ 32 - num_cols)); ink = scroll page p.ink })
    else p

-- The body of `putc` for one page. The source has it twice, for video memory with the visible
-- terminal and for the page of a terminal in the background.
pub put_char : (page c : ℕ) → Pen → Pen
put_char page c p = scroll_at_end page (print_char page c p)

pub putc : Console → ℕ → Console × List Out
putc s c =
    let t = s.terminal s.curr_scheduler in
    let shown = s.curr_scheduler == s.current_terminal in
    let p =
      put_char (if shown then video_mem else vid_page s.curr_scheduler) c
        (record { ink = s.memory; x = t.screen_x; y = t.screen_y }) in
    (
      record s {
        memory = p.ink;
        terminal = update s.terminal s.curr_scheduler (record t { screen_x = p.x; screen_y = p.y });
      },
      if shown then move_cursor p.y p.x else [],
    )

-- `swap_vid_mem` and `swap_kb_cursor`, the part of `terminal_switch` that is the console's.
pub swap_vid_mem : Console → ℕ → Console
swap_vid_mem s new_terminal =
    let saved = record s {
      memory = memcpy (vid_page s.current_terminal) video_mem 4096 s.memory;
    } in
    let blank = clear saved in
    record blank { memory = memcpy video_mem (vid_page new_terminal) 4096 blank.memory }

pub swap_kb_cursor : Console → ℕ → List Out
swap_kb_cursor s new_terminal = change_terminal_cursor s new_terminal
