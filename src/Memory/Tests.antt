-- ===== src/Memory/Tests.antt =====
-- The memory functions on overlapping and unaligned ranges.
use system_engineering.Base.{Mem, ◌≡◌, inl, arith}
use system_engineering.Memory.{memset, memcpy, memmove}
use system_engineering.Memory.Copies.{memset-filled, memcpy-copied, memmove-copied}

-- Every byte of the memory is its own address.
abbrev addresses : Mem
addresses a = a

memset-filled_example : memset 3 0x141 9 addresses 11 ≡ 0x41
memset-filled_example = memset-filled 3 0x141 9 addresses 11

memcpy-copied_example : memcpy 5 7 9 addresses 13 ≡ 15
memcpy-copied_example = memcpy-copied 5 7 9 addresses 13 (inl (omega arith))

memmove-copied_example : memmove 7 5 9 addresses 15 ≡ 13
memmove-copied_example = memmove-copied 7 5 9 addresses 15
