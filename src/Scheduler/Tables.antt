-- ===== src/Scheduler/Tables.antt =====
-- The page tables that `paging_init` leaves.
use system_engineering.Base.{
  ℕ, zero, suc, ◌+◌, ◌<◌, ◌≡◌, ◌&&◌, ltb, leb, if◌then◌else◌, Arr, update, bit_or, arith, refl,
  none, ◌||◌, ◌==◌, false, true,
}
use system_engineering.Base.Int.{negsuc}
use system_engineering.Kernel.{Kernel}
use system_engineering.Scheduler.{clear_entries, paging_init, vidmap}

clear_entries_lem :
    (k : ℕ) (a : Arr ℕ) (i j : ℕ)
    → clear_entries k a i j ≡ (if leb i j && ltb j (i + k) then 0 else a j)
unfolding clear_entries
clear_entries_lem zero a i j = ground arith
clear_entries_lem (suc k) a i j = ground (arith, clear_entries_lem k (update a i 0) (i + 1) j)

-- After `paging_init` the directory has the table of the video memory, the page of the kernel, and no
-- page of a program.
pub paging_init-no_program :
    (table : ℕ) (k : Kernel) (i : ℕ) → 1 < i → i < 1024 → (paging_init table k).page_directory i ≡ 0
unfolding paging_init
paging_init-no_program table k i low high =
    ground (arith, clear_entries_lem 1024 k.page_directory 0 i)

pub paging_init-kernel :
    (table : ℕ) (k : Kernel) → (paging_init table k).page_directory 1 ≡ bit_or 0x400000 0x83
unfolding paging_init
paging_init-kernel table k = refl

-- `vidmap` with a NULL pointer, or one out of the user's page, only disables interrupts.
pub vidmap-refused :
    (table : ℕ) (k : Kernel) (screen_start : ℕ)
    → screen_start == 0 || (ltb screen_start 0x8000000 || ltb 0x8400000 screen_start) ≡ true
    → vidmap table k screen_start ≡ (record k { interrupts = false }, negsuc 0, none)
unfolding vidmap
vidmap-refused table k screen_start out = rw (vidmap, out) refl
