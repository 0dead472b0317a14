-- ===== src/Tindex/Inmem/Tests.antt =====
-- Runs of the partitions' index, where a set of tags is its own line.
use logrange.Prelude.{
  ℕ, ◌<◌, ◌≡◌, refl, ap, sym, Bool, true, false, ◌==◌, [], ◌∷◌, none, some, arith,
}
use logrange.Prelude.Assoc.{lookup, insert, erase}
use logrange.Tindex.Inmem.{
  InmemService, not_found, get_or_create_journal, get_or_create_by_set, take_partition,
  release_journal, lock_exclusively,
}
use logrange.Tindex.Inmem.Holders.{System, gets, more, after, IsUnlocked, IsCounted}
use logrange.Tindex.Inmem.Steps.{Reachable, at_start, by_step, Reachable-IsCounted, release_holds}

abbrev line_of : ℕ → ℕ
line_of t = t

abbrev no_tags : ℕ → Bool
no_tags t = t == 0

abbrev empty_system : System ℕ
empty_system = record { ims = record { tmap = []; smap = []; is_done = false }; held = λ src. 0 }

-- A partition 7 for the tags 3.
abbrev created : System ℕ
created =
    after empty_system.held
      (get_or_create_journal some line_of no_tags true 7 true empty_system.ims 3)

created-Reachable : Reachable some line_of no_tags created
unfolding lookup
created-Reachable = by_step empty_system created at_start (gets true true 7 3 refl refl)

test_created :
    created.ims.smap ≡ (7, record { tags = 3; exclusive = false; readers = 1; src = 7 }) ∷ []
unfolding get_or_create_journal get_or_create_by_set take_partition lookup insert
test_created = refl

test_not_found :
    (get_or_create_journal some line_of no_tags false 7 true empty_system.ims 3).0 ≡ not_found
unfolding get_or_create_journal get_or_create_by_set lookup
test_not_found = refl

test_not_saved :
    (get_or_create_journal some line_of no_tags true 7 false empty_system.ims 3).1
    ≡ empty_system.ims
unfolding get_or_create_journal get_or_create_by_set lookup insert erase
test_not_saved = refl

test_locked : (lock_exclusively created.ims 7).0 ≡ true
unfolding get_or_create_journal get_or_create_by_set take_partition lookup insert lock_exclusively
test_locked = refl

created-IsUnlocked : IsUnlocked created.ims 7
unfolding get_or_create_journal get_or_create_by_set take_partition lookup insert
created-IsUnlocked td e = ap (λ o. elim o [ none ↦ false | some z ↦ z.exclusive ]) (sym e)

held_once : 0 < created.held 7
unfolding get_or_create_journal get_or_create_by_set take_partition lookup insert more
held_once = omega arith

Reachable-IsCounted_example : IsCounted some line_of no_tags created
Reachable-IsCounted_example = Reachable-IsCounted some line_of no_tags created created-Reachable

release_holds_example : (ims : InmemService ℕ) × (release_journal created.ims 7 ≡ some ims)
release_holds_example =
    release_holds some line_of no_tags created 7 created-Reachable held_once created-IsUnlocked
