-- ===== src/Partition/Truncate/Tests.antt =====
-- Runs of truncate on journals that are lists of chunks, with ids from 1 on.
use logrange.Prelude.{ℕ, ◌≡◌, refl, List, [], ◌∷◌, some, true, false, drop}
use logrange.Prelude.Int.{pos}
use logrange.Partition.Selector.{RecordsInfo}
use logrange.Partition.Truncate.{Chunk, TruncateParams, Journals, removed, truncate}
use logrange.Partition.Truncate.BySize.{total}

-- A journal without its first chunks; its chunks are always the three below.
abbrev three : List Chunk
three =
    record { id = 1; size = 50; count = 5 }
    ∷ record { id = 2; size = 30; count = 3 }
    ∷ record { id = 3; size = 40; count = 4 }
    ∷ []

abbrev api : Journals ℕ
api = record {
  available = λ name. true;
  chunks = λ j. some (drop j three);
  size = λ j. total (drop j three);
  count = λ j. 12;
  delete_chunks = λ j cid. (some cid, cid);
  local_folder = λ j. [];
}

-- The records of the chunks end at 10, 20 and 30.
abbrev spans : List Chunk → List RecordsInfo
spans [] = []
spans (c ∷ cks) = record { id = c.id; min_ts = pos 0; max_ts = pos 10 } ∷ spans cks

abbrev params : TruncateParams
params = record {
  dry_run = false;
  max_src_size = 100;
  min_src_size = 35;
  oldest_ts = pos 15;
  max_db_size = 1000;
}

-- The first chunk goes for the size, the second one for its age, and the third one is kept since
-- fewer than 35 bytes would be left.
test_truncate : truncate api spans params 0 ≡ (removed 2 80, 2)
unfolding truncate
test_truncate = refl
