-- ===== src/YFile/Tests.antt =====
-- Shared/yfile.c: the round trip at a file of one block.
use opsys_17b.Base.{◌≡◌, refl, some, none, [], ◌∷◌, arith, pos, negsuc}
use opsys_17b.Serial.Queue.{whole}
use opsys_17b.YFile.{YFile, Block, txt, yfile_unpack, IsYFile}
use opsys_17b.YFile.RoundTrip.{yfile_unpack-yfile_pack, yfile_pack_lem, encode_file, IsShort}
use opsys_17b.Serial.{encode}
use opsys_17b.Serial.Word.{packi32}
use opsys_17b.Serial.Growth.{encode_all}
use opsys_17b.Serial.Records.{encode_records}

abbrev one_block : Block
one_block = record {
  index = pos 0;
  size = 900;
  copy0 = record { blockno = pos 4; node = some (78 ∷ 49 ∷ []) };
  copy1 = record { blockno = negsuc 0; node = none };
}

abbrev one_file : YFile
one_file = record { path = some (47 ∷ 97 ∷ []); size = 900; ftype = txt; blocks = one_block ∷ [] }

one_file-IsYFile : IsYFile one_file
one_file-IsYFile = (
  ((omega arith, (omega arith, tt)), refl),
  omega arith,
  (
    (
      omega arith,
      omega arith,
      omega arith,
      ((omega arith, (omega arith, tt)), refl),
      omega arith,
      tt,
    ),
    tt,
  ),
)

one_file-IsShort : IsShort one_file
unfolding encode_all encode packi32 encode_records
one_file-IsShort = record {
  header = omega arith;
  blocks = (omega arith, tt);
  whole_file = omega arith;
}

yfile_unpack-yfile_pack_example : yfile_unpack (whole (encode_file one_file)) ≡ some one_file
yfile_unpack-yfile_pack_example =
    yfile_unpack-yfile_pack one_file (whole (encode_file one_file)) one_file-IsYFile
      (yfile_pack_lem one_file one_file-IsYFile one_file-IsShort)
