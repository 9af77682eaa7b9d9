-- ===== src/Tarfs/Reading.antt =====
-- What is read of a file.
use munt3os.Base.{
  ℕ, ◌+◌, ◌-◌, ◌^◌, ◌≤◌, ◌<◌, ◌≡◌, sym, ap, ◌∙◌, inl, inr, List, [], arith, ltb, leb, ltb→lt,
  ltb→le, leb→le, Bool-cases, length, take, drop, length-take, drop_all, take_all, drop-drop,
  add_u64, add_u32, u32,
}
use munt3os.Base.{take-take, drop-take}
use munt3os.Tarfs.{file, tarfs_read}

-- The bytes of the file in the archive.
abbrev pub contents : List ℕ → ℕ → ℕ → List ℕ
contents image total data_offset = take total (drop data_offset image)

cut :
    (size total offset data_offset : ℕ) (image : List ℕ)
    → offset ≤ total
    → take size (drop offset (contents image total data_offset))
      ≡ take size (take (total - offset) (drop (data_offset + offset) image))
cut size total offset data_offset image low = ap (take size) (
    drop-take offset total (drop data_offset image) low
    ∙ ap (take (total - offset)) (drop-drop offset data_offset image))

-- tarfs_read of a file in an image that is read byte by byte, where neither the sum of offset and size
-- nor that of offset and the place of the data wraps at 32 bits: the part of the file from the offset on, cut at its end.
pub tarfs_read-contents :
    (image : List ℕ) (read : ℕ → ℕ → List ℕ) (name : List ℕ)
    (inode total data_offset offset size : ℕ)
    → ((o n : ℕ) → read o n ≡ take n (drop o image))
    → offset + size < 2 ^ 32
    → data_offset + offset < 2 ^ 32
    → tarfs_read read (file name inode total data_offset) offset size
      ≡ take size (drop offset (contents image total data_offset))
unfolding tarfs_read
tarfs_read-contents image read name inode total data_offset offset size bytes small place =
    let sum : add_u32 offset size ≡ offset + size = omega (arith, small) in
    let start : u32 (add_u64 data_offset offset) ≡ data_offset + offset = omega (arith, place) in
    elim (Bool-cases (leb total offset)) [
      | inl behind ↦
          let short : length (contents image total data_offset) ≤ offset =
            omega (arith, leb→le _ _ behind, length-take total (drop data_offset image)) in
          rw (tarfs_read, behind)
            (sym (ap (take size) (drop_all offset _ short) ∙ take_all size [] (omega arith)))
      | inr before ↦
          let low : offset ≤ total = ground (arith, before) in
          rw (tarfs_read, before, sum, start)
            (elim (Bool-cases (ltb total (offset + size))) [
              | inl long ↦ rw long (
                  bytes (data_offset + offset) (total - offset)
                  ∙ sym (
                      cut size total offset data_offset image low
                      ∙ take_all size _ (
                          omega (
                            arith,
                            ltb→lt _ _ long,
                            length-take (total - offset) (drop (data_offset + offset) image),
                          ))))
              | inr fits ↦ rw fits (
                  bytes (data_offset + offset) size
                  ∙ sym (
                      cut size total offset data_offset image low
                      ∙ take-take size (total - offset) (drop (data_offset + offset) image)
                          (omega (arith, ltb→le _ _ fits))))
            ])
    ]
