-- ===== src/Memory/Copies.antt =====
-- What the memory routines leave in memory.
use system_engineering.Base.{
  ℕ, zero, suc, ◌+◌, ◌-◌, ◌*◌, ◌/◌, ◌%◌, ◌≤◌, ◌==◌, leb, ltb, ◌&&◌, if◌then◌else◌, Mem, update, u8,
  ◌≡◌, ◌∙◌, arith, ◌⊎◌, inl, inr, Bool-cases, leb→le, fun_ext, ap,
}
use system_engineering.Memory.{
  store4, memset, memset_top, memset_aligned, memset_bottom, rep_stosl, memcpy, memcpy_top,
  memcpy_aligned, rep_movsl, rep_movsb, memmove, rep_movsb_down,
}

-- The memory with `n` bytes from `d` on set to `c`, and with the `n` bytes from `s` copied there.
abbrev pub filled : Mem → (d c n : ℕ) → Mem
filled m d c n a = if leb d a && ltb a (d + n) then c else m a

abbrev pub copied : Mem → (d s n : ℕ) → Mem
copied m d s n a = if leb d a && ltb a (d + n) then m (s + (a - d)) else m a

memset_bottom_lem : (n d c : ℕ) (m : Mem) (a : ℕ) → memset_bottom n d c m a ≡ filled m d c n a
unfolding memset_bottom
memset_bottom_lem zero d c m a = ground arith
memset_bottom_lem (suc n) d c m a = ground (arith, memset_bottom_lem n (d + 1) c (update m d c) a)

rep_stosl_lem : (n d c : ℕ) (m : Mem) (a : ℕ) → rep_stosl n d c m a ≡ filled m d c (4 * n) a
unfolding rep_stosl
rep_stosl_lem zero d c m a = ground arith
rep_stosl_lem (suc n) d c m a = ground (arith, rep_stosl_lem n (d + 4) c (store4 m d c c c c) a)

memset_aligned_lem : (n d c : ℕ) (m : Mem) (a : ℕ) → memset_aligned n d c m a ≡ filled m d c n a
unfolding memset_aligned
memset_aligned_lem n d c m a = ground (
  arith,
  memset_bottom_lem (n % 4) (d + 4 * (n / 4)) c (rep_stosl (n / 4) d c m) a,
  rep_stosl_lem (n / 4) d c m a,
)

memset_top_lem : (n d c : ℕ) (m : Mem) (a : ℕ) → memset_top n d c m a ≡ filled m d c n a
unfolding memset_top
memset_top_lem zero d c m a = ground arith
memset_top_lem (suc n) d c m a =
    ground (arith, memset_aligned_lem (suc n) d c m a, memset_top_lem n (d + 1) c (update m d c) a)

-- `memset` sets exactly the `n` bytes from `s` on to the low byte of `c`, at every alignment.
pub memset-filled : (s c n : ℕ) (m : Mem) (a : ℕ) → memset s c n m a ≡ filled m s (u8 c) n a
unfolding memset
memset-filled s c n m a = memset_top_lem n s (u8 c) m a

-- An upward copy does not read what it has written.
abbrev pub IsUpward : (d s n : ℕ) → Type 0
IsUpward d s n = (d ≤ s) ⊎ (s + n ≤ d)

IsUpward-later : (d s n : ℕ) → IsUpward d s (suc n) → IsUpward (d + 1) (s + 1) n
IsUpward-later d s n up = elim up [ inl h ↦ inl (omega arith) | inr h ↦ inr (omega arith) ]

copied_byte :
    (n d s : ℕ) (m : Mem) (a : ℕ)
    → IsUpward d s (suc n)
    → copied (update m d (m s)) (d + 1) (s + 1) n a ≡ copied m d s (suc n) a
copied_byte n d s m a up = ground arith

abbrev word_moved : Mem → (d s : ℕ) → Mem
word_moved m d s = store4 m d (m s) (m (s + 1)) (m (s + 2)) (m (s + 3))

copied_word :
    (n d s : ℕ) (m : Mem) (a : ℕ)
    → IsUpward d s (4 * suc n)
    → copied (word_moved m d s) (d + 4) (s + 4) (4 * n) a ≡ copied m d s (4 * suc n) a
copied_word n d s m a up = ground arith

copied_twice :
    (n k d s : ℕ) (m : Mem) (a : ℕ)
    → IsUpward d s (k + n)
    → copied (copied m d s k) (d + k) (s + k) n a ≡ copied m d s (k + n) a
copied_twice n k d s m a up = ground arith

rep_movsb_lem :
    (n d s : ℕ) (m : Mem) (a : ℕ) → IsUpward d s n → rep_movsb n d s m a ≡ copied m d s n a
unfolding rep_movsb
rep_movsb_lem zero d s m a up = ground arith
rep_movsb_lem (suc n) d s m a up =
    rep_movsb_lem n (d + 1) (s + 1) (update m d (m s)) a (IsUpward-later d s n up)
    ∙ copied_byte n d s m a up

rep_movsl_lem :
    (n d s : ℕ) (m : Mem) (a : ℕ)
    → IsUpward d s (4 * n)
    → rep_movsl n d s m a ≡ copied m d s (4 * n) a
unfolding rep_movsl
rep_movsl_lem zero d s m a up = ground arith
rep_movsl_lem (suc n) d s m a up =
    rep_movsl_lem n (d + 4) (s + 4) (word_moved m d s) a
      (elim up [ inl h ↦ inl (omega arith) | inr h ↦ inr (omega arith) ])
    ∙ copied_word n d s m a up

memcpy_aligned_lem :
    (n d s : ℕ) (m : Mem) (a : ℕ) → IsUpward d s n → memcpy_aligned n d s m a ≡ copied m d s n a
unfolding memcpy_aligned
memcpy_aligned_lem n d s m a up =
    rep_movsb_lem (n % 4) (d + 4 * (n / 4)) (s + 4 * (n / 4)) (rep_movsl (n / 4) d s m) a
      (elim up [ inl h ↦ inl (omega arith) | inr h ↦ inr (omega arith) ])
    ∙ ap (λ (w : Mem). copied w (d + 4 * (n / 4)) (s + 4 * (n / 4)) (n % 4) a)
        (fun_ext (λ b.
          rep_movsl_lem (n / 4) d s m b (elim up [ inl h ↦ inl h | inr h ↦ inr (omega arith) ])))
    ∙ copied_twice (n % 4) (4 * (n / 4)) d s m a
        (elim up [ inl h ↦ inl h | inr h ↦ inr (omega arith) ])
    ∙ ap (λ k. copied m d s k a) (omega arith)

memcpy_top_lem :
    (n d s : ℕ) (m : Mem) (a : ℕ) → IsUpward d s n → memcpy_top n d s m a ≡ copied m d s n a
unfolding memcpy_top
memcpy_top_lem zero d s m a up = ground arith
memcpy_top_lem (suc n) d s m a up = elim (Bool-cases (d % 4 == 0)) [
  | inl e ↦ rw e (memcpy_aligned_lem (suc n) d s m a up)
  | inr e ↦ rw e (
      memcpy_top_lem n (d + 1) (s + 1) (update m d (m s)) a (IsUpward-later d s n up)
      ∙ copied_byte n d s m a up)
]

-- `memcpy` copies exactly `n` bytes, at every alignment, to a range that starts at or before the
-- source, or behind its end.
pub memcpy-copied :
    (dest src n : ℕ) (m : Mem) (a : ℕ)
    → IsUpward dest src n
    → memcpy dest src n m a ≡ copied m dest src n a
unfolding memcpy
memcpy-copied dest src n m a up = memcpy_top_lem n dest src m a up

rep_movsb_down_lem :
    (n d s : ℕ) (m : Mem) (a : ℕ) → s ≤ d → rep_movsb_down n d s m a ≡ copied m d s n a
unfolding rep_movsb_down
rep_movsb_down_lem zero d s m a h = ground arith
rep_movsb_down_lem (suc n) d s m a h =
    ground (arith, rep_movsb_down_lem n d s (update m (d + n) (m (s + n))) a)

-- `memmove` copies exactly `n` bytes, as if through a buffer, however the two ranges overlap.
pub memmove-copied :
    (dest src n : ℕ) (m : Mem) (a : ℕ) → memmove dest src n m a ≡ copied m dest src n a
unfolding memmove
memmove-copied dest src n m a = elim (Bool-cases (leb dest src)) [
  | inl le ↦ rw le (rep_movsb_lem n dest src m a (inl (leb→le dest src le)))
  | inr gt ↦ rw gt (rep_movsb_down_lem n dest src m a (ground arith))
]
