-- ===== src/Memory.antt =====
-- student-distrib/lib.c: `memset`, `memcpy` and `memmove`, instruction by instruction, over a flat
-- memory. `%ecx` is the argument that falls; an address range does not pass 2 ^ 32.
use system_engineering.Base.{
  ℕ, zero, suc, ◌+◌, ◌-◌, ◌*◌, ◌/◌, ◌%◌, ◌^◌, ◌==◌, leb, if◌then◌else◌, Mem, update, u8,
}
pub mod Copies
pub mod Words
mod Tests

-- Four bytes written at once.
abbrev store4 : Mem → ℕ → (b0 b1 b2 b3 : ℕ) → Mem
store4 m d b0 b1 b2 b3 = update (update (update (update m d b0) (d + 1) b1) (d + 2) b2) (d + 3) b3

-- `rep stosl` with the byte `c` in each byte of `%eax`, and the byte loop `.memset_bottom`.
rep_stosl : ℕ → (edi c : ℕ) → Mem → Mem
rep_stosl zero edi c m = m
rep_stosl (suc ecx) edi c m = rep_stosl ecx (edi + 4) c (store4 m edi c c c c)

memset_bottom : ℕ → (edi c : ℕ) → Mem → Mem
memset_bottom zero edi c m = m
memset_bottom (suc edx) edi c m = memset_bottom edx (edi + 1) c (update m edi c)

memset_aligned : ℕ → (edi c : ℕ) → Mem → Mem
memset_aligned ecx edi c m =
    memset_bottom (ecx % 4) (edi + 4 * (ecx / 4)) c (rep_stosl (ecx / 4) edi c m)

-- `.memset_top`: bytes until the address is a multiple of four.
memset_top : ℕ → (edi c : ℕ) → Mem → Mem
memset_top zero edi c m = m
memset_top (suc ecx) edi c m =
    let byte = memset_top ecx (edi + 1) c (update m edi c) in
    if edi % 4 == 0 then memset_aligned (suc ecx) edi c m else byte

pub memset : (s c n : ℕ) → Mem → Mem
memset s c n m = memset_top n s (u8 c) m

-- `rep stosw` with the bytes `b0` and `b1` of `%ax`, and `rep stosl` with those of `%eax`. `c` is an
-- `int32_t` by its bits, and `n` counts words, not bytes.
pub rep_stosw : ℕ → (edi b0 b1 : ℕ) → Mem → Mem
rep_stosw zero edi b0 b1 m = m
rep_stosw (suc ecx) edi b0 b1 m =
    rep_stosw ecx (edi + 2) b0 b1 (update (update m edi b0) (edi + 1) b1)

pub memset_word : (s c n : ℕ) → Mem → Mem
memset_word s c n m = rep_stosw n s (u8 c) (u8 (c / 2 ^ 8)) m

pub rep_stosd : ℕ → (edi b0 b1 b2 b3 : ℕ) → Mem → Mem
rep_stosd zero edi b0 b1 b2 b3 m = m
rep_stosd (suc ecx) edi b0 b1 b2 b3 m =
    rep_stosd ecx (edi + 4) b0 b1 b2 b3 (store4 m edi b0 b1 b2 b3)

pub memset_dword : (s c n : ℕ) → Mem → Mem
memset_dword s c n m = rep_stosd n s (u8 c) (u8 (c / 2 ^ 8)) (u8 (c / 2 ^ 16)) (u8 (c / 2 ^ 24)) m

-- `rep movsl`, which loads four bytes before it stores them, and the byte loop `.memcpy_bottom`,
-- which is `rep movsb` too.
rep_movsl : ℕ → (edi esi : ℕ) → Mem → Mem
rep_movsl zero edi esi m = m
rep_movsl (suc ecx) edi esi m =
    rep_movsl ecx (edi + 4) (esi + 4)
      (store4 m edi (m esi) (m (esi + 1)) (m (esi + 2)) (m (esi + 3)))

rep_movsb : ℕ → (edi esi : ℕ) → Mem → Mem
rep_movsb zero edi esi m = m
rep_movsb (suc ecx) edi esi m = rep_movsb ecx (edi + 1) (esi + 1) (update m edi (m esi))

memcpy_aligned : ℕ → (edi esi : ℕ) → Mem → Mem
memcpy_aligned ecx edi esi m =
    rep_movsb (ecx % 4) (edi + 4 * (ecx / 4)) (esi + 4 * (ecx / 4)) (rep_movsl (ecx / 4) edi esi m)

memcpy_top : ℕ → (edi esi : ℕ) → Mem → Mem
memcpy_top zero edi esi m = m
memcpy_top (suc ecx) edi esi m =
    let byte = memcpy_top ecx (edi + 1) (esi + 1) (update m edi (m esi)) in
    if edi % 4 == 0 then memcpy_aligned (suc ecx) edi esi m else byte

pub memcpy : (dest src n : ℕ) → Mem → Mem
memcpy dest src n m = memcpy_top n dest src m

-- `rep movsb` downwards, with `%edi` and `%esi` at `edi + ecx - 1` and `esi + ecx - 1`.
rep_movsb_down : ℕ → (edi esi : ℕ) → Mem → Mem
rep_movsb_down zero edi esi m = m
rep_movsb_down (suc ecx) edi esi m =
    rep_movsb_down ecx edi esi (update m (edi + ecx) (m (esi + ecx)))

pub memmove : (dest src n : ℕ) → Mem → Mem
memmove dest src n m = if leb dest src then rep_movsb n dest src m else rep_movsb_down n dest src m
