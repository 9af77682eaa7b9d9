-- ===== src/Memory/Tests.antt =====
-- The block routines at a small memory.
use munt3os.Base.{◌≡◌, refl, inr, arith, negsuc}
use munt3os.Memory.{Mem, memcpy, memcpy_fast, memmove, memcmp}
use munt3os.Memory.Copy.{Copied, memmove-Copied}
use munt3os.Memory.Fast.{memcpy_fast_lem}

-- The byte at an address is the address.
abbrev ramp : Mem
ramp x = x

moved_up : memmove ramp 12 10 4 15 ≡ 13
unfolding memmove
moved_up = refl

copied_up : memcpy ramp 12 10 4 15 ≡ 11
unfolding memcpy
copied_up = refl

compared : memcmp ramp 10 20 3 ≡ negsuc 9
unfolding memcmp
compared = refl

memmove-Copied_example : Copied ramp (memmove ramp 12 10 4) 12 10 4
memmove-Copied_example = memmove-Copied ramp 12 10 4

memcpy_fast_lem_example : memcpy_fast ramp 203 101 77 210 ≡ memcpy ramp 203 101 77 210
memcpy_fast_lem_example = memcpy_fast_lem ramp 203 101 77 (inr (omega arith)) 210
