-- ===== src/Segments/Fields.antt =====
-- What the processor reads in a descriptor.
use system_engineering.Base.{ℕ, ◌+◌, ◌*◌, ◌/◌, ◌%◌, ◌^◌, ◌<◌, ◌≡◌, refl, ◌∙◌, ap, arith, bit_and}
use system_engineering.Base.Bits.{bit_and-low, bit_and-field}
use system_engineering.Kernel.{Kernel}
use system_engineering.Segments.{
  SegDesc, val, set_params, the_ldt_desc, the_tss_desc, Segments, set_up_segments,
}

-- The base, the limit and the access byte in the two words of a descriptor.
abbrev pub base_in : ℕ × ℕ → ℕ
base_in (low, high) = low / 2 ^ 16 + high % 2 ^ 8 * 2 ^ 16 + high / 2 ^ 24 * 2 ^ 24

abbrev pub limit_in : ℕ × ℕ → ℕ
limit_in (low, high) = low % 2 ^ 16 + high / 2 ^ 16 % 2 ^ 4 * 2 ^ 16

abbrev pub access_in : ℕ × ℕ → ℕ
access_in (low, high) = high / 2 ^ 8 % 2 ^ 8

top_byte : (a : ℕ) → a < 2 ^ 32 → bit_and a 0xFF000000 / 2 ^ 24 ≡ a / 2 ^ 24
top_byte a lt = ap (λ n. n / 2 ^ 24) (bit_and-field 24 8 a) ∙ omega arith

third_byte : (a : ℕ) → bit_and a 0x00FF0000 / 2 ^ 16 ≡ a / 2 ^ 16 % 2 ^ 8
third_byte a = ap (λ n. n / 2 ^ 16) (bit_and-field 16 8 a) ∙ omega arith

low_half : (a : ℕ) → bit_and a 0x0000FFFF ≡ a % 2 ^ 16
low_half a = bit_and-low 16 a

fifth_digit : (a : ℕ) → a < 2 ^ 20 → bit_and a 0x000F0000 / 2 ^ 16 ≡ a / 2 ^ 16
fifth_digit a lt = ap (λ n. n / 2 ^ 16) (bit_and-field 16 4 a) ∙ omega arith

-- A descriptor whose flags fit their fields.
record Fits (d : SegDesc) : Type 0 where
  kind : d.type < 16
  system : d.sys < 2
  privilege : d.dpl < 4
  here : d.present < 2
  available : d.avail < 2
  spare : d.reserved < 2
  size : d.opsize < 2
  unit : d.granularity < 2

-- The words of a descriptor that names a segment.
pub record Names (words : ℕ × ℕ) (base limit access : ℕ) : Type 0 where
  pub base_read : base_in words ≡ base
  pub limit_read : limit_in words ≡ limit
  pub access_read : access_in words ≡ access

set_params-Names :
    (d : SegDesc) (addr lim : ℕ)
    → Fits d
    → addr < 2 ^ 32
    → lim < 2 ^ 20
    → Names
        (val (set_params d addr lim))
        addr
        lim
        (d.type + 2 ^ 4 * d.sys + 2 ^ 5 * d.dpl + 2 ^ 7 * d.present)
unfolding val set_params
set_params-Names d addr lim f small short = record {
  base_read =
      rw (top_byte addr small, third_byte addr, low_half addr, fifth_digit lim short, low_half lim)
        (omega
          (arith, f.kind, f.system, f.privilege, f.here, f.available, f.spare, f.size, f.unit));
  limit_read =
      rw (top_byte addr small, third_byte addr, low_half addr, fifth_digit lim short, low_half lim)
        (omega
          (arith, f.kind, f.system, f.privilege, f.here, f.available, f.spare, f.size, f.unit));
  access_read =
      rw (top_byte addr small, third_byte addr, fifth_digit lim short)
        (omega
          (arith, f.kind, f.system, f.privilege, f.here, f.available, f.spare, f.size, f.unit));
}

-- The segments and the kernel stack as the processor finds them.
pub record Described (ldt ldt_size tss tss_size : ℕ) (s : Segments) (k : Kernel) : Type 0 where
  pub local_table : Names (val s.ldt_desc_ptr) ldt ldt_size 0x82
  pub task : Names (val s.tss_desc_ptr) tss tss_size 0x89
  pub selectors : (s.ldtr ≡ 0x38) × (s.tr ≡ 0x30) × (s.ldt_segment_selector ≡ s.ldtr)
  pub stack : (k.ss0 ≡ 0x18) × (k.esp0 ≡ 0x800000)

-- For tables at 32-bit addresses and sizes of less than 1 MB, whatever the local variables hold before,
-- the processor reads in the two words of each descriptor the address and the size of its table, and
-- that it is a present local table or a present free task of privilege 0; both registers select them,
-- and the task's stack is the kernel's.
pub set_up_segments-Described :
    (old : SegDesc) (ldt ldt_size tss tss_size : ℕ) (k : Kernel)
    → ldt < 2 ^ 32
    → ldt_size < 2 ^ 20
    → tss < 2 ^ 32
    → tss_size < 2 ^ 20
    → Described ldt ldt_size tss tss_size
        (set_up_segments old ldt ldt_size tss tss_size k).0
        (set_up_segments old ldt ldt_size tss tss_size k).1
unfolding set_up_segments the_ldt_desc the_tss_desc
set_up_segments-Described old ldt ldt_size tss tss_size k ldt_low ldt_short tss_low tss_short =
    record {
      local_table =
          set_params-Names _ ldt ldt_size
            (record {
              kind = omega arith;
              system = omega arith;
              privilege = omega arith;
              here = omega arith;
              available = omega arith;
              spare = omega arith;
              size = omega arith;
              unit = omega arith;
            })
            ldt_low ldt_short;
      task =
          set_params-Names _ tss tss_size
            (record {
              kind = omega arith;
              system = omega arith;
              privilege = omega arith;
              here = omega arith;
              available = omega arith;
              spare = omega arith;
              size = omega arith;
              unit = omega arith;
            })
            tss_low tss_short;
      selectors = (refl, refl, refl);
      stack = (refl, refl);
    }
