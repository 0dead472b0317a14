-- ===== src/Partition/Listing/Tests.antt =====
-- Three partitions with 10, 30 and 20 bytes, where a journal is its size; the journal of 4 is never
-- there.
use logrange.Prelude.{
  ℕ, ◌*◌, ◌≡◌, refl, List, [], ◌∷◌, map, none, some, true, false, ◌==◌, if◌then◌else◌, arith,
}
use logrange.Prelude.Int.{pos, negsuc, ◌-ℤ◌}
use logrange.Prelude.Assoc.{lookup}
use logrange.Tindex.Inmem.{TagsDesc, InmemService}
use logrange.Partition.Ordered.{insert_ordered}
use logrange.Partition.Truncate.{Journals}
use logrange.Partition.Service.{World}
use logrange.Partition.Service.Globally.{IsQuiet}
use logrange.Partition.Listing.{partitions, page, info_of, chunk_infos}

abbrev api : Journals ℕ
api = record {
  available = λ name. if name == 4 then false else true;
  chunks = λ j. none;
  size = λ j. j;
  count = λ j. 1;
  delete_chunks = λ j cid. (none, j);
  local_folder = λ j. [];
}

abbrev line_of : ℕ → ℕ
line_of t = t

abbrev desc : TagsDesc ℕ
desc = record { tags = 4; exclusive = false; readers = 0; src = 4 }

abbrev ims : InmemService ℕ
ims = record { tmap = (4, 4) ∷ []; smap = (4, desc) ∷ []; is_done = false }

abbrev world : World ℕ ℕ
world = record { ims = ims; journal = λ name. name * 10; removed_dirs = [] }

abbrev visited : List (ℕ × ℕ)
visited = (1, 1) ∷ (3, 3) ∷ (2, 2) ∷ []

test_page :
    page 2 (pos 1) (map (info_of api world) visited)
    ≡ some (
        record { tags = 3; size = 30; records = 1 }
        ∷ record { tags = 2; size = 20; records = 1 }
        ∷ [])
unfolding page info_of
test_page = refl

test_negative : partitions api world visited false (pos 0) (negsuc 0) ≡ none
unfolding partitions insert_ordered ◌-ℤ◌
test_negative = refl

-- The difference of 3 and the least integer wraps.
test_wraps : partitions api world visited false (negsuc 9223372036854775807) (pos 0) ≡ none
unfolding partitions insert_ordered ◌-ℤ◌
test_wraps = refl

ims-IsQuiet : IsQuiet ims
unfolding lookup
ims-IsQuiet = record { named = λ src td e. ground arith; is_free = λ src td e. ground arith }

ims_known : lookup ims.smap 4 ≡ some desc
unfolding lookup
ims_known = refl

test_chunks :
    chunk_infos
      (λ cid. if cid == 1 then some 3 else none)
      (record { id = 1; min_ts = pos 1; max_ts = pos 2 }
        ∷ record { id = 2; min_ts = pos 2; max_ts = pos 5 }
        ∷ [])
      (record { id = 1; size = 10; count = 1 } ∷ record { id = 2; size = 20; count = 2 } ∷ [])
      0
      0
    ≡ some (
      record { id = 1; size = 10; records = 1; min_ts = pos 1; max_ts = pos 2; is_indexed = true }
          ∷ record {
            id = 2;
            size = 20;
            records = 2;
            min_ts = pos 2;
            max_ts = pos 5;
            is_indexed = false;
          }
          ∷ [],
      30,
      3,
      2 ∷ [],
    )
unfolding chunk_infos
test_chunks = refl
