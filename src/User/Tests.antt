-- ===== src/User/Tests.antt =====
-- cat on a file of two bytes that a read delivers one at a time, and on a file of the sample kernel.
use system_engineering.Base.{
  true, ◌↔◌, ℕ, none, ◌-◌, ◌+◌, ltb, ◌==◌, if◌then◌else◌, ◌<◌, List, [], ◌∷◌, ◌++◌, length, ◌≡◌,
  refl, sym, ap, ◌∙◌, append-nil, append_assoc, some, Mem, update, arith,
}
use system_engineering.Base.Int.{ℤ, pos, pos_part}
use system_engineering.Base.Text.{bytes_of, text}
use system_engineering.FileSys.{inode_length, inode_count, word}
use system_engineering.FileSys.Data.{file_byte, reachable}
use system_engineering.FileSys.Sample.{disk, noughts}
use system_engineering.Kernel.{
  Kernel, Pcb, Fops, OpenHandler, CloseHandler, ReadHandler, WriteHandler, current,
}
use system_engineering.Kernel.Sample.{sample_kernel, sample_pcb, sample_console, file_handlers}
use system_engineering.User.OnKernel.{kernel_calls}
use system_engineering.User.OpenFile.{printed, left}
use system_engineering.User.KernelView.{Readable}
use system_engineering.User.KernelView.Screen.{cat_loop-printed}
use system_engineering.CString.Props.{no_nul, text-IsString}
use system_engineering.User.Search.{holds}
use system_engineering.User.Search.Matches.{Occurs, holds-Occurs}
use system_engineering.User.{Calls}
use system_engineering.User.Programs.{cat, cat_loop}
use system_engineering.User.View.{FileView}
use system_engineering.User.Cat.{cat_lem}

abbrev Files : Type 0
Files = List ℕ × List ℕ

abbrev next_byte : List ℕ → List ℕ → Mem → Files × Mem × ℤ
next_byte [] out buf = (([], out), buf, pos 0)
next_byte (x ∷ xs) out buf = ((xs, out), update buf 0 x, pos 1)

abbrev files : Calls
files = record {
  State = Files;
  getargs = λ s buf n. some (s, text (97 ∷ []), pos 0);
  open_file = λ s name. some (s, pos 2);
  read = λ s fd buf n. some (next_byte s.0 s.1 buf);
  close_file = λ s fd. some (s, pos 0);
  write = λ s fd buf n. some ((s.0, s.1 ++ bytes_of (pos_part n) buf 0), n);
  execute = λ s command. some (s, pos 0);
}

abbrev two_lists : (left out : List ℕ) → Files
two_lists left out = (left, out)

reads_end :
    (left out : List ℕ) (buf : Mem)
    → length left ≡ 0
    → (s' : Files) × (buf' : Mem) × (some (next_byte left out buf) ≡ some (s', buf', pos 0))
      × (s'.1 ≡ out ++ [])
reads_end [] out buf e = (([], out), buf, refl, sym (append-nil out))
reads_end (x ∷ xs) out buf e = absurd (omega arith)

reads_more :
    (left out : List ℕ) (buf : Mem)
    → 0 < length left
    → (s' : Files) × (buf' : Mem) × (n : ℕ) × (0 < n)
      × (some (next_byte left out buf) ≡ some (s', buf', pos n))
      × record {}
      × (s'.1 ≡ out ++ [])
      × (left ≡ bytes_of n buf' 0 ++ s'.0)
reads_more [] out buf lt = absurd (omega arith)
reads_more (x ∷ xs) out buf lt =
    ((xs, out), update buf 0 x, 1, omega arith, refl, record {}, sym (append-nil out), refl)

abbrev files_view : FileView files (pos 2)
files_view = record {
  Valid = λ s. record {};
  remaining = λ s. s.0;
  Shows = λ s s' cs. s'.1 ≡ s.1 ++ cs;
  shows_both = λ {s} {s1} {s2} {cs} {ds} first second.
      second ∙ ap (λ o. o ++ ds) first ∙ append_assoc s.1 cs ds;
  read_end = λ s buf valid e. reads_end s.0 s.1 buf e;
  read_more = λ s buf valid lt. reads_more s.0 s.1 buf lt;
  write_all = λ s buf n valid. ((s.0, s.1 ++ bytes_of n buf 0), n, refl, record {}, refl, refl);
}

abbrev two_bytes : Files
two_bytes = (104 ∷ 105 ∷ [], [])

cat_lem_example :
    (s' : Files) × (cat files 3 two_bytes (λ j. 0) ≡ some (s', pos 0)) × (s'.1 ≡ 104 ∷ 105 ∷ [])
cat_lem_example =
    cat_lem files 3 (pos 2) files_view two_bytes two_bytes two_bytes (λ j. 0) (text (97 ∷ [])) refl
      refl refl (record {}) (omega arith)

-- A process that reads the program "a" of the sample disk through descriptor 2.
abbrev terminal_handlers : Fops
terminal_handlers = record {
  open_op = OpenHandler.terminal;
  close_op = CloseHandler.terminal;
  read_op = ReadHandler.invalid;
  write_op = WriteHandler.terminal;
}

abbrev reading_pcb : Pcb
reading_pcb = record (sample_pcb 0) {
  file_descriptor = λ fd. record {
    pointer = if fd == 1 then terminal_handlers else file_handlers;
    inode = 0;
    file_position = 0;
    flags = if ltb fd 3 then 1 else 0;
  };
}

abbrev reading_kernel : Kernel
reading_kernel = record sample_kernel { pcbs = update sample_pcb 0 reading_pcb }

sample_sizes : (inode_length disk 0 ≡ 40) × (inode_count disk ≡ 1) × (reachable disk ≡ 8192)
unfolding inode_length word
sample_sizes = (refl, refl, refl)

file_a-Readable :
    Readable 0
      (current reading_kernel)
      (reading_pcb.file_descriptor 2)
      (reading_pcb.file_descriptor 1)
      disk
unfolding left
file_a-Readable =
    let (size, count, blocks) = sample_sizes in
    record {
      runs = refl;
      exists = rw count (omega arith);
      in_use = refl;
      reader = refl;
      fits = rw (size, blocks) (omega arith);
      terminal_in_use = refl;
      writer = refl;
    }

cat_loop-printed_example :
    (k' : Kernel) × (padding : ℕ) × (padding < 1024)
    × (cat_loop (kernel_calls (λ k. k) (λ k command. none)) 9 2000 reading_kernel (pos 2) noughts
        ≡ some (k', pos 0))
    × (k'.console
        ≡ printed sample_console
            (bytes_of (inode_length disk 0 - 0 + padding) (file_byte disk 0) 0))
cat_loop-printed_example =
    cat_loop-printed (λ k. k) (λ k command. none) reading_kernel 0 2 9 2000 noughts (omega arith)
      (λ e. absurd (omega arith)) file_a-Readable (omega arith) (omega (arith, sample_sizes.0))

holds-Occurs_example :
    (holds 3 (text (120 ∷ 97 ∷ 98 ∷ 121 ∷ [])) (text (97 ∷ 98 ∷ [])) 2 0 ≡ true)
    ↔ Occurs 3 (text (120 ∷ 97 ∷ 98 ∷ 121 ∷ [])) (text (97 ∷ 98 ∷ [])) 2 0
unfolding no_nul
holds-Occurs_example =
    holds-Occurs (text (120 ∷ 97 ∷ 98 ∷ 121 ∷ [])) (text (97 ∷ 98 ∷ [])) 2
      (text-IsString (97 ∷ 98 ∷ []) refl).runs (omega arith) 3 0
