-- ===== src/Sha256/Tests.antt =====
-- The digest of the empty message, and of "abc".
use munt3os.Base.{◌≡◌, refl, [], ◌∷◌, take}
use munt3os.Sha256.{
  sha256, process_blocks, process_block, padding, pad_blocks, digest, word_bytes, length_bytes,
  store_bytes, first_words, block_word, extend_words, rounds, round, small_sigma_0, small_sigma_1,
  big_sigma_0, big_sigma_1, choose, majority, rotr,
}

abc_test : take 4 (sha256 (97 ∷ 98 ∷ 99 ∷ [])) ≡ 0xba ∷ 0x78 ∷ 0x16 ∷ 0xbf ∷ []
unfolding sha256 process_blocks process_block padding pad_blocks digest word_bytes length_bytes
    store_bytes first_words block_word extend_words rounds round small_sigma_0 small_sigma_1
    big_sigma_0 big_sigma_1 choose majority rotr
abc_test = refl
