-- ===== src/FileSys/Data.antt =====
-- What `read_data` delivers.
use system_engineering.Base.{
  ℕ, zero, suc, ◌+◌, ◌-◌, ◌*◌, ◌/◌, ◌%◌, ◌<◌, ◌≤◌, ◌≡◌, refl, sym, ◌∙◌, ap, arith, Mem, ◌==◌, inl,
  inr, Bool-cases, ==_iff, ==_of_ne, leb_of_lt, ltb, leb, ◌&&◌, if◌then◌else◌, update, some, none,
  min,
}
use system_engineering.Base.Int.{pos, negsuc}
use native.Mathlib.Nat.{zero-add}
use system_engineering.FileSys.{
  FileSys, kb4, inode_count, inode_length, inode_block, block_byte, data_block_num, read_data_loop,
  read_data,
}

-- Byte `p` of a file: the inode maps its 4096-byte blocks, in order, to data blocks.
unfoldable pub file_byte : FileSys → ℕ → ℕ → ℕ
file_byte fs inode p = block_byte fs (inode_block fs inode (p / 4096)) (p % 4096)

-- The first position that `read_data` surely does not reach: it looks at no more than 1022 blocks of
-- an inode, and at no block index from the number of data blocks on.
abbrev pub reachable : FileSys → ℕ
reachable fs = 4096 * min 1022 (data_block_num fs)

-- The buffer with `k` bytes of the file from position `p` on written at `d`.
abbrev filled : FileSys → (inode p k d : ℕ) → Mem → Mem
filled fs inode p k d buf j =
    if leb d j && ltb j (d + k) then file_byte fs inode (p + (j - d)) else buf j

file_byte_at :
    (fs : FileSys) (inode b o : ℕ)
    → o < 4096
    → file_byte fs inode (b * 4096 + o) ≡ block_byte fs (inode_block fs inode b) o
unfolding file_byte
file_byte_at fs inode b o h =
    let q : (b * 4096 + o) / 4096 ≡ b = omega arith in
    let r : (b * 4096 + o) % 4096 ≡ o = omega arith in rw (q, r) refl

module _ (fs : FileSys) (inode length : ℕ) where
  -- One round inside a block, and one that goes on to the next block.
  round_within :
      (k b o : ℕ) (buf : Mem) (d : ℕ)
      → d < length
      → b < min 1022 (data_block_num fs)
      → o < 4096
      → read_data_loop (suc k) fs inode length b (inode_block fs inode b) o buf d
        ≡ read_data_loop k fs inode length b
            (inode_block fs inode b)
            (o + 1)
            (update buf d (block_byte fs (inode_block fs inode b) o))
            (d + 1)
  unfolding read_data_loop
  round_within k b o buf d hd hb ho = rw (
    ==_of_ne o kb4 (omega arith),
    ==_of_ne d length (omega arith),
    ==_of_ne b 1022 (omega arith),
    leb_of_lt (data_block_num fs) b (omega arith),
  )

  round_next :
      (k b : ℕ) (buf : Mem) (d : ℕ)
      → d < length
      → b < min 1022 (data_block_num fs)
      → read_data_loop (suc k) fs inode length b (inode_block fs inode b) 4096 buf d
        ≡ read_data_loop k fs inode length
            (b + 1)
            (inode_block fs inode (b + 1))
            1
            (update buf d (block_byte fs (inode_block fs inode (b + 1)) 0))
            (d + 1)
  unfolding read_data_loop
  round_next k b buf d hd hb = rw (
    ==_of_ne d length (omega arith),
    ==_of_ne b 1022 (omega arith),
    leb_of_lt (data_block_num fs) b (omega arith),
  )

  -- The bytes after a round that wrote the byte of position `p`.
  filled_next :
      (p k d : ℕ) (buf : Mem) (v j : ℕ)
      → v ≡ file_byte fs inode p
      → filled fs inode (p + 1) k (d + 1) (update buf d v) j ≡ filled fs inode p (suc k) d buf j
  filled_next p k d buf v j e = ground arith

  read_data_loop_none :
      (b c o : ℕ) (buf : Mem) (d : ℕ) → read_data_loop 0 fs inode length b c o buf d ≡ (d, buf)
  unfolding read_data_loop
  read_data_loop_none b c o buf d = refl

  -- What the loop delivers from position `p` in `k` rounds.
  abbrev Delivers : (p k d : ℕ) → Mem → ℕ × Mem → Type 0
  Delivers p k d buf r = (r.0 ≡ d + k) × ((j : ℕ) → r.1 j ≡ filled fs inode p k d buf j)

  deliver_one :
      (p q k d : ℕ) (buf : Mem) (v : ℕ) (r : ℕ × Mem)
      → q ≡ p + 1
      → v ≡ file_byte fs inode p
      → Delivers q k (d + 1) (update buf d v) r
      → Delivers p (suc k) d buf r
  deliver_one p q k d buf v r eq ev (count, bytes) =
      (omega arith, λ j. bytes j ∙ rw eq (filled_next p k d buf v j ev))

  read_data_loop_lem :
      (k b o : ℕ) (buf : Mem) (d : ℕ)
      → d + k ≡ length
      → o ≤ 4096
      → b * 4096 + o + k ≤ reachable fs
      → Delivers
          (b * 4096 + o)
          k
          d
          buf
          (read_data_loop k fs inode length b (inode_block fs inode b) o buf d)
  read_data_loop_lem zero b o buf d e h fits =
      rw (read_data_loop_none b (inode_block fs inode b) o buf d) (omega arith, λ j. ground arith)
  read_data_loop_lem (suc k) b o buf d e h fits = elim (Bool-cases (o == 4096)) [
    | inl full ↦
        rw ((==_iff o 4096).0 full, round_next k b buf d (omega arith) (ground arith))
          (deliver_one (b * 4096 + 4096) ((b + 1) * 4096 + 1) k d buf
            (block_byte fs (inode_block fs inode (b + 1)) 0) _ (omega arith)
            (sym (file_byte_at fs inode (b + 1) 0 (omega arith))
              ∙ ap (file_byte fs inode) (omega arith))
            (read_data_loop_lem k (b + 1) 1 _ (d + 1) (omega arith) (omega arith) (ground arith)))
    | inr ne ↦
        let ho : o < 4096 = ground arith in
        rw (round_within k b o buf d (omega arith) (omega arith) ho) (
          deliver_one (b * 4096 + o) (b * 4096 + (o + 1)) k d buf
            (block_byte fs (inode_block fs inode b) o) _ (omega arith)
            (sym (file_byte_at fs inode b o ho))
            (read_data_loop_lem k b (o + 1) _ (d + 1) (omega arith) (omega arith) (omega arith)))
  ]

filled_front :
    (fs : FileSys) (inode p q k : ℕ) (buf : Mem) (j : ℕ)
    → q ≡ p
    → filled fs inode q k 0 buf j ≡ (if ltb j k then file_byte fs inode (p + j) else buf j)
filled_front fs inode p q k buf j e = rw e (ground arith)

-- `read_data` of an existing inode, from an offset below the file's length and over blocks that the
-- file system has, delivers `length` bytes of the file at the front of the buffer and leaves the rest
-- of the buffer. The file's length bounds only the offset: bytes behind it are delivered too.
pub read_data_lem :
    (fs : FileSys) (inode offset : ℕ) (buf : Mem) (length : ℕ)
    → inode < inode_count fs
    → offset < inode_length fs inode
    → offset + length ≤ reachable fs
    → (out : Mem) × (read_data fs inode offset (some buf) length ≡ (pos length, some out))
      × ((j : ℕ) → out j ≡ (if ltb j length then file_byte fs inode (offset + j) else buf j))
unfolding read_data
read_data_lem fs inode offset buf length hi ho fits =
    let (count, bytes) =
      read_data_loop_lem fs inode length length (offset / 4096) (offset - offset / 4096 * 4096) buf
        0 (omega arith) (omega arith) (omega arith) in
    (
      (read_data_loop length fs inode length (offset / 4096) (inode_block fs inode (offset / 4096))
          (offset - offset / 4096 * 4096) buf 0).1,
      rw (leb_of_lt (inode_count fs) inode hi, leb_of_lt (inode_length fs inode) offset ho, count)
          (rw zero-add),
      λ j. bytes j ∙ filled_front fs inode offset _ length buf j (omega arith),
    )

-- Every other call reads nothing: it returns -1 for a NULL buffer or an inode that does not exist,
-- 0 at or behind the end of the file, and leaves the buffer.
pub read_data-refuses :
    (fs : FileSys) (inode offset : ℕ) (buf : Mem) (length : ℕ)
    → (read_data fs inode offset none length ≡ (negsuc 0, none))
      × (inode_count fs ≤ inode
          → read_data fs inode offset (some buf) length ≡ (negsuc 0, some buf))
      × (inode < inode_count fs
          → inode_length fs inode ≤ offset
          → read_data fs inode offset (some buf) length ≡ (pos 0, some buf))
unfolding read_data
read_data-refuses fs inode offset buf length = (refl, λ h. ground arith, λ h h'. ground arith)
