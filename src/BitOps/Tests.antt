-- ===== src/BitOps/Tests.antt =====
-- Runs of the bit-field functions, and the laws at values.
use c_wrapper.Prelude.{◌/◌, ◌%◌, ◌^◌, ◌≡◌, refl, arith}
use c_wrapper.BitOps.{mask, extract, extract_dynamic}
use c_wrapper.BitOps.Laws.{extract_dynamic_lem}

-- The values of the header's own comments.
extract_nibbles : extract 32 12 4 0xABCD ≡ 0xA
unfolding extract
extract_nibbles = refl

mask_of_four : mask 32 4 ≡ 0xF
unfolding mask
mask_of_four = refl

extract_dynamic_lem_test : extract_dynamic 32 0xABCD 40 4 ≡ 0xABCD / 2 ^ 40 % 2 ^ 4
extract_dynamic_lem_test = extract_dynamic_lem 32 0xABCD 40 4 (omega arith)
