-- ===== src/Process/Table.antt =====
-- The process table and the descriptors of a new process.
use system_engineering.Base.{
  ℕ, zero, suc, ◌+◌, ◌≤◌, ◌<◌, ◌≢◌, ◌==◌, ◌&&◌, true, false, leb, ltb, if◌then◌else◌, Arr, ◌≡◌, ◌⊎◌,
  inl, inr, refl, ◌∙◌, arith, Bool-cases, ==_iff, Option, some, none,
}
use system_engineering.Base.Int.{ℤ, eqb_ℤ}
use system_engineering.Base.{Mem, update_self, ap, if◌then◌else◌, ltb}
use system_engineering.Kernel.{Kernel, Pcb, FileDescriptor, vacant}
use system_engineering.Process.{init_pcb, find_pid, find_pid_loop, clear_flags}

vacant_iff : (a : ℤ) → eqb_ℤ a vacant ≡ true → a ≡ vacant
vacant_iff a h = ground arith

occupied_iff : (a : ℤ) → eqb_ℤ a vacant ≡ false → a ≢ vacant
occupied_iff a h e = ground arith

-- The first vacant pid from `i` on, of `k`.
abbrev FirstVacant : Arr ℤ → (i k : ℕ) → Option ℕ → Type 0
FirstVacant pid i k none = (j : ℕ) → i ≤ j → j < i + k → pid j ≢ vacant
FirstVacant pid i k (some m) =
    (i ≤ m) × (m < i + k) × (pid m ≡ vacant) × ((j : ℕ) → i ≤ j → j < m → pid j ≢ vacant)

FirstVacant-later :
    (pid : Arr ℤ) (i k : ℕ) (o : Option ℕ)
    → pid i ≢ vacant
    → FirstVacant pid (i + 1) k o
    → FirstVacant pid i (suc k) o
FirstVacant-later pid i k none out h = λ j le lt. elim (Bool-cases (j == i)) [
  | inl here ↦ rw ((==_iff j i).0 here) out
  | inr after ↦ h j (ground arith) (omega arith)
]
FirstVacant-later pid i k (some m) out (le, lt, e, before) = (
  omega arith,
  omega arith,
  e,
  λ j p q. elim (Bool-cases (j == i)) [
    | inl here ↦ rw ((==_iff j i).0 here) out
    | inr after ↦ before j (ground arith) q
  ],
)

find_pid_loop-FirstVacant :
    (k : ℕ) (pid : Arr ℤ) (i : ℕ) → FirstVacant pid i k (find_pid_loop k pid i)
unfolding find_pid_loop
find_pid_loop-FirstVacant zero pid i = λ j p q. absurd (omega arith)
find_pid_loop-FirstVacant (suc k) pid i = elim (Bool-cases (eqb_ℤ (pid i) vacant)) [
  | inl free ↦
      rw free (omega arith, omega arith, vacant_iff (pid i) free, λ j p q. absurd (omega arith))
  | inr taken ↦ rw taken (
      FirstVacant-later pid i k (find_pid_loop k pid (i + 1)) (occupied_iff (pid i) taken)
        (find_pid_loop-FirstVacant k pid (i + 1)))
]

-- `find_pid` returns the least vacant pid of the six, and fails only if none is vacant.
pub find_pid_lem :
    (pid : Arr ℤ)
    → ((find_pid pid ≡ none) × ((j : ℕ) → j < 6 → pid j ≢ vacant))
      ⊎ ((i : ℕ) × (find_pid pid ≡ some i)
          × (i < 6)
          × (pid i ≡ vacant)
          × ((j : ℕ) → j < i → pid j ≢ vacant))
unfolding find_pid
find_pid_lem pid = split (find_pid_loop 6 pid 0) refl (find_pid_loop-FirstVacant 6 pid 0)
  where
    split :
        (o : Option ℕ)
        → find_pid_loop 6 pid 0 ≡ o
        → FirstVacant pid 0 6 o
        → ((find_pid pid ≡ none) × ((j : ℕ) → j < 6 → pid j ≢ vacant))
          ⊎ ((i : ℕ) × (find_pid pid ≡ some i)
              × (i < 6)
              × (pid i ≡ vacant)
              × ((j : ℕ) → j < i → pid j ≢ vacant))
    split none e h = inl (e, λ j lt. h j (omega arith) (omega arith))
    split (some i) e (le, lt, free, before) =
        inr (i, e, omega arith, free, λ j p. before j (omega arith) p)

clear_flags_lem :
    (k i : ℕ) (d : Arr FileDescriptor) (j : ℕ)
    → clear_flags k i d j ≡ (if leb i j && ltb j (i + k) then record (d j) { flags = 0 } else d j)
unfolding clear_flags
clear_flags_lem zero i d j = ground arith
clear_flags_lem (suc k) i d j = clear_flags_lem k (i + 1) _ j ∙ ground arith

-- `init_pcb` leaves descriptors 0 and 1 of the new process in use and 2 to 6 free; descriptor 7 keeps
-- the flags that the slot had before.
init_pcb-flags :
    (k : Kernel) (arg : Mem) (i j : ℕ)
    → (((init_pcb k arg i).pcbs i).file_descriptor j).flags
      ≡ (if ltb j 2 then 1 else if ltb j 7 then 0 else ((k.pcbs i).file_descriptor j).flags)
unfolding init_pcb
init_pcb-flags k arg i j =
    ap (λ (x : Pcb). (x.file_descriptor j).flags) (update_self k.pcbs i _)
    ∙ ap (λ (x : FileDescriptor). x.flags) (clear_flags_lem 5 2 _ j)
    ∙ ground arith

-- What `find_pid` finds is vacant.
pub find_pid-vacant : (pid : Arr ℤ) (i : ℕ) → find_pid pid ≡ some i → (i < 6) × (pid i ≡ vacant)
find_pid-vacant pid i e = elim (find_pid_lem pid) [
  | inl (missing, h) ↦ ground arith
  | inr (j, found, lt, free, first) ↦ ground arith
]
