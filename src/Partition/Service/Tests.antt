-- ===== src/Partition/Service/Tests.antt =====
-- Two partitions, 7 with 120 bytes and 8 with none, whose journals are those of Truncate/Tests.
use mathlib.Core.Option.{some-injective}
use logrange.Prelude.{
  ℕ, ◌<◌, ◌≤◌, ◌≡◌, refl, ap, subst, List, [], ◌∷◌, none, some, Bool, true, false, ◌==◌,
  if◌then◌else◌, length, arith,
}
use logrange.Prelude.Int.{pos}
use logrange.Prelude.Assoc.{lookup}
use logrange.Tindex.Inmem.{TagsDesc, lock_exclusively}
use logrange.Prelude.Cases.{if_case}
use logrange.Partition.Truncate.{Chunk, TruncateParams, Journals, word64}
use logrange.Partition.Truncate.BySize.{total}
use logrange.Partition.Service.{TruncateInfo, World, delete_journal, truncate_globally}
use logrange.Partition.Service.Globally.{IsQuiet, truncate_globally_keeps}
use logrange.Partition.Service.Visit.{Truncating, Visitor, visit_all}
use logrange.Partition.Service.Visit.DryRun.{Leaves, visit_all-dry}

abbrev line_of : ℕ → ℕ
line_of t = t

abbrev no_tags : ℕ → Bool
no_tags t = t == 0

-- A journal is the list of its chunks, and is never empty but for the name 8.
abbrev api : Journals (List Chunk)
api = record {
  available = λ name. true;
  chunks = λ j. some j;
  size = total;
  count = λ j. length j;
  delete_chunks = λ j cid. (some cid, []);
  local_folder = λ j. if length j == 0 then 100 ∷ 8 ∷ [] else 100 ∷ 7 ∷ [];
}

abbrev desc : ℕ → ℕ → TagsDesc ℕ
desc src readers = record { tags = src; exclusive = false; readers = readers; src = src }

abbrev world : World ℕ (List Chunk)
world = record {
  ims = record {
    tmap = (7, 7) ∷ (8, 8) ∷ [];
    smap = (7, desc 7 0) ∷ (8, desc 8 1) ∷ [];
    is_done = false;
  };
  journal = λ name.
      if name == 8
      then []
      else record { id = 1; size = 50; count = 5 } ∷ record { id = 2; size = 70; count = 7 } ∷ [];
  removed_dirs = [];
}

abbrev params : Bool → TruncateParams
params dry = record {
  dry_run = dry;
  max_src_size = 100;
  min_src_size = 35;
  oldest_ts = pos 0;
  max_db_size = 10;
}

abbrev info : TruncateInfo ℕ
info = record {
  latest_ts = pos 5;
  tags = 7;
  src = 7;
  before_size = 120;
  after_size = 120;
  before_recs = 12;
  after_recs = 12;
  chunks_deleted = 0;
  is_deleted = false;
}

abbrev visitor : Visitor
visitor = record {
  sync_chunks = λ jn cks. [];
  last_chunk_records_info = λ jn. none;
  is_alive = λ jn. true;
  has_otf = true;
}

abbrev start : Truncating ℕ (List Chunk)
start = record { world = world; cremoved = 0; ts = 0; rs = 0; sorted_infos = []; notified = [] }

-- Locked shared by somebody else, 7 would stay even if it were empty; with bytes it always stays.
test_kept : delete_journal some line_of no_tags api world 7 ≡ some (false, world)
unfolding delete_journal lookup lock_exclusively
test_kept = refl

world-IsQuiet : IsQuiet world.ims
unfolding lookup
world-IsQuiet = record { named = λ src td e. ground arith; is_free = λ src td e. ground arith }

truncate_globally_keeps_example :
    truncate_globally some line_of no_tags api (params false) (info ∷ []) world
    ≡ some (record { infos = info ∷ []; chunks = 0; bytes = 0; world = world })
truncate_globally_keeps_example =
    truncate_globally_keeps some line_of no_tags api world world-IsQuiet (params false) refl
      (info ∷ []) (λ h. omega arith, tt)

journals_fit :
    (jn : ℕ) (cks : List Chunk)
    → api.chunks (world.journal jn) ≡ some cks
    → (length (visitor.sync_chunks jn cks) ≤ length cks)
      × (api.size (world.journal jn) ≡ total cks)
      × (total cks < word64)
journals_fit jn cks e =
    let same : world.journal jn ≡ cks = some-injective (world.journal jn) cks e in
    (
      omega arith,
      ap total same,
      subst (λ (l : List Chunk). total l < word64) same
          (if_case (λ (l : List Chunk). total l < word64) (jn == 8) (λ h. omega arith)
            (λ h. omega arith)),
    )

visit_all-dry_example :
    Leaves world
      (visit_all some line_of no_tags api visitor (params true) ((7, 7) ∷ (8, 8) ∷ []) start)
visit_all-dry_example =
    visit_all-dry some line_of no_tags api visitor (params true) refl ((7, 7) ∷ (8, 8) ∷ []) start
      journals_fit
