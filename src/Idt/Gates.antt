-- ===== src/Idt/Gates.antt =====
-- What each gate of the table holds.
use system_engineering.Base.{
  ℕ, zero, suc, ◌+◌, ◌<◌, ◌&&◌, ◌||◌, Bool, true, false, leb, ltb, ◌==◌, if◌then◌else◌, ◌/◌, ◌^◌,
  bit_and, u32, ap, ◌*◌, ◌%◌, List, [], ◌∷◌, Arr, update, ◌≡◌, ◌↔◌, refl, sym, subst, ◌∙◌, arith,
  Bool-cases, inl, inr, ==_iff,
}
use system_engineering.Base.Bits.{bit_and-low, bit_and-field}
use system_engineering.Idt.{
  Gate, prepared, prepare_gates, set_idt_entry, vectors, set_entries, idt_init,
}

-- Whether a vector is in a list.
unfoldable pub listed_in : List ℕ → ℕ → Bool
listed_in [] i = false
listed_in (v ∷ vs) i = i == v || listed_in vs i

prepare_gates_lem :
    (k : ℕ) (idt : Arr Gate) (i j : ℕ)
    → prepare_gates k idt i j ≡ (if leb i j && ltb j (i + k) then prepared j (idt j) else idt j)
unfolding prepare_gates
prepare_gates_lem zero idt i j = ground arith
prepare_gates_lem (suc k) idt i j = prepare_gates_lem k _ (i + 1) j ∙ ground arith

set_idt_entry_idem : (g : Gate) (h : ℕ) → set_idt_entry (set_idt_entry g h) h ≡ set_idt_entry g h
unfolding set_idt_entry
set_idt_entry_idem g h = refl

set_entries_lem :
    (handler : Arr ℕ) (vs : List ℕ) (idt : Arr Gate) (j : ℕ)
    → set_entries handler vs idt j
      ≡ (if listed_in vs j then set_idt_entry (idt j) (handler j) else idt j)
unfolding set_entries listed_in
set_entries_lem handler [] idt j = refl
set_entries_lem handler (v ∷ vs) idt j =
    set_entries_lem handler vs (update idt v (set_idt_entry (idt v) (handler v))) j ∙ split
  where
    split :
        (if listed_in vs j
          then set_idt_entry (update idt v (set_idt_entry (idt v) (handler v)) j) (handler j)
          else update idt v (set_idt_entry (idt v) (handler v)) j)
        ≡ (if listed_in (v ∷ vs) j then set_idt_entry (idt j) (handler j) else idt j)
    split = elim (Bool-cases (j == v)) [
      | inl here ↦
          let same : j ≡ v = (==_iff j v).0 here in
          ground (arith, same, set_idt_entry_idem (idt v) (handler v))
      | inr other ↦ ground arith
    ]

-- The address that the processor reads in a gate.
abbrev pub offset_in : Gate → ℕ
offset_in g = g.offset_15_00 + 2 ^ 16 * g.offset_31_16

-- What the gate `g` of vector `i` holds, with `old` the gate before and `handler` the address for it.
pub record GateOf (i : ℕ) (listed : Bool) (handler : ℕ) (old g : Gate) : Type 0 where
  pub is_present : g.present ≡ 1
  pub in_kernel : g.seg_selector ≡ 0x10
  pub word_size : g.size ≡ 1
  pub for_programs : (g.dpl ≡ 3) ↔ (i ≡ 0x80)
  pub high_half :
      g.offset_31_16 ≡ (if listed then bit_and handler 0xFFFF0000 / 2 ^ 16 else old.offset_31_16)
  pub low_half : g.offset_15_00 ≡ (if listed then bit_and handler 0xFFFF else old.offset_15_00)
  pub entered : offset_in g ≡ (if listed then u32 handler else offset_in old)

privilege : (i : ℕ) → (◌≡◌ {A = ℕ} (if i == 0x80 then 3 else 0) 3) ↔ (i ≡ 0x80)
privilege i = (λ e. ground arith, λ e. ground arith)

entered_lem : (g : Gate) (handler : ℕ) → offset_in (set_idt_entry g handler) ≡ u32 handler
unfolding set_idt_entry
entered_lem g handler =
    let high : bit_and handler 0xFFFF0000 / 2 ^ 16 ≡ handler / 2 ^ 16 % 2 ^ 16 =
      ap (λ n. n / 2 ^ 16) (bit_and-field 16 16 handler) ∙ omega arith in
    omega (arith, high, bit_and-low 16 handler)

gate_lem :
    (i : ℕ) (listed : Bool) (handler : ℕ) (old : Gate)
    → GateOf i listed handler old
        (if listed then set_idt_entry (prepared i old) handler else prepared i old)
unfolding set_idt_entry prepared
gate_lem i true handler old = record {
  is_present = refl;
  in_kernel = refl;
  word_size = refl;
  for_programs = privilege i;
  high_half = refl;
  low_half = refl;
  entered = entered_lem old handler;
}
gate_lem i false handler old = record {
  is_present = refl;
  in_kernel = refl;
  word_size = refl;
  for_programs = privilege i;
  high_half = refl;
  low_half = refl;
  entered = refl;
}

-- Every gate of the 256 is present and enters the kernel with a 32-bit handler, and exactly the gate of
-- the system calls may be used by a program. The processor reads in the gate
-- of a listed vector its handler's 32-bit address, and in any other the address that it had.
pub idt_init-GateOf :
    (handler : Arr ℕ) (idt : Arr Gate) (i : ℕ)
    → i < 256
    → GateOf i (listed_in vectors i) (handler i) (idt i) (idt_init handler idt i)
unfolding idt_init
idt_init-GateOf handler idt i lt =
    let before : prepare_gates 256 idt 0 i ≡ prepared i (idt i) =
      prepare_gates_lem 256 idt 0 i ∙ ground arith in
    let e = set_entries_lem handler vectors (prepare_gates 256 idt 0) i in
    subst (GateOf i (listed_in vectors i) (handler i) (idt i)) (sym (e ∙ rw before refl))
      (gate_lem i (listed_in vectors i) (handler i) (idt i))
