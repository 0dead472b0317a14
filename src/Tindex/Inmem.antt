-- ===== src/Tindex/Inmem.antt =====
-- pkg/tindex/inmem.go: the partitions by their tags, with counted shared and exclusive locks.
-- Tag lines and partition names are compared only, so they are numbers. Package tag is a parameter:
-- `parse`, `line_of` (Set.Line) and `is_empty`. Each stretch of code between Lock and Unlock is one
-- step; a loop that sleeps and tries again answers `again`. Whether the state could be saved to the
-- file is an argument. Both maps hold pointers to the same descriptions: `smap` holds the values,
-- and `tmap` the names.
pub mod Calls
pub mod Consistent
pub mod Holders
pub mod Steps
mod Tests
use mathlib.Core.Bool.{not}
use logrange.Prelude.{
  ℕ, ◌+◌, ◌-◌, ◌≤◌, Bool, true, false, ◌&&◌, ◌==◌, ltb, if◌then◌else◌, List, [], ◌∷◌, drop, Option,
  none, some,
}
use logrange.Prelude.Assoc.{lookup, insert, erase}

pub record TagsDesc (T : Type 0) : Type 0 where
  pub tags : T
  pub exclusive : Bool
  pub readers : ℕ
  pub src : ℕ

pub record InmemService (T : Type 0) : Type 0 where
  pub tmap : List (ℕ × ℕ)
  pub smap : List (ℕ × TagsDesc T)
  pub is_done : Bool

pub data Reply (T : Type 0) : Type 0 where
  found : ℕ → T → Reply T
  shut_down : Reply T
  bad_tags : Reply T
  empty_tags : Reply T
  not_found : Reply T
  not_saved : Reply T
  again : Reply T
  dangling : Reply T

-- The answer of Delete.
pub data DeleteReply : Type 0 where
  deleted : DeleteReply
  no_such : DeleteReply
  wrong_state : DeleteReply

-- How many partitions the visitor sees: it is not called any more after it answered `false`.
pub count_visited : (ℕ → Bool) → List ℕ → ℕ
count_visited vf [] = 0
count_visited vf (src ∷ srcs) = let rest = count_visited vf srcs in if vf src then rest + 1 else 1

module _ {T : Type 0} where
  abbrev put_desc : InmemService T → TagsDesc T → InmemService T
  put_desc ims td = record ims { smap = insert ims.smap td.src td }

  -- The end of the loop's body: count one more reader, or try again. A name in `tmap` without a
  -- description does not occur (`dangling`).
  pub take_partition : InmemService T → ℕ → Reply T × InmemService T
  take_partition ims src = elim (lookup ims.smap src) [
    | none ↦ (dangling, ims)
    | some td ↦
        if td.exclusive
        then (again, ims)
        else (found td.src td.tags, put_desc ims (record td { readers = td.readers + 1 }))
  ]

  module _ (parse : ℕ → Option T) (line_of : T → ℕ) (is_empty : T → Bool) where
    -- The partition for a set of tags, by its own line; `new_src` is what `newSrc()` generates.
    pub get_or_create_by_set : Bool → ℕ → Bool → InmemService T → T → Reply T × InmemService T
    unfolding take_partition
    get_or_create_by_set create new_src saved ims tgs = elim (lookup ims.tmap (line_of tgs)) [
      | some src ↦ take_partition ims src
      | none ↦
          let td : TagsDesc T = record {
            tags = tgs;
            exclusive = false;
            readers = 0;
            src = new_src;
          } in
          let added : InmemService T = record ims {
            tmap = insert ims.tmap (line_of tgs) new_src;
            smap = insert ims.smap new_src td;
          } in
          if not create then (not_found, ims) else if saved then take_partition added new_src else (
            not_saved,
            record added { tmap = erase added.tmap (line_of tgs); smap = erase added.smap new_src },
          )
    ]

    pub get_or_create_journal : Bool → ℕ → Bool → InmemService T → ℕ → Reply T × InmemService T
    unfolding take_partition get_or_create_by_set
    get_or_create_journal create new_src saved ims tags =
        let fresh : Reply T × InmemService T = elim (parse tags) [
          | none ↦ (bad_tags, ims)
          | some tgs ↦
              if is_empty tgs
              then (empty_tags, ims)
              else get_or_create_by_set create new_src saved ims tgs
        ] in
        if ims.is_done
        then (shut_down, ims)
        else (elim (lookup ims.tmap tags) [ some src ↦ take_partition ims src | none ↦ fresh ])

    -- `Delete`; that the state could not be saved is not looked at.
    pub delete_journal : InmemService T → ℕ → DeleteReply × InmemService T
    delete_journal ims jn = elim (lookup ims.smap jn) [
      | none ↦ (no_such, ims)
      | some td ↦
          if td.exclusive
          then (
            deleted,
            record ims { tmap = erase ims.tmap (line_of td.tags); smap = erase ims.smap td.src },
          )
          else (wrong_state, ims)
    ]

  pub shutdown : InmemService T → InmemService T
  shutdown ims = record ims { is_done = true }

  pub get_journal_tags : Bool → InmemService T → ℕ → Reply T × InmemService T
  get_journal_tags lock ims src =
      if ims.is_done then (shut_down, ims) else (elim (lookup ims.smap src) [
        | none ↦ (not_found, ims)
        | some td ↦ if td.exclusive then (again, ims) else (
          found src td.tags,
          if lock then put_desc ims (record td { readers = td.readers + 1 }) else ims,
        )
      ])

  -- `none` is a panic.
  pub release_journal : InmemService T → ℕ → Option (InmemService T)
  release_journal ims jn = elim (lookup ims.smap jn) [
    | none ↦ some ims
    | some td ↦
        if td.exclusive
        then none
        else if td.readers == 0
        then none
        else some (put_desc ims (record td { readers = td.readers - 1 }))
  ]

  unfoldable pub lock_exclusively : InmemService T → ℕ → Bool × InmemService T
  lock_exclusively ims jn = elim (lookup ims.smap jn) [
    | none ↦ (false, ims)
    | some td ↦
        if not td.exclusive && td.readers == 1
        then (true, put_desc ims (record td { exclusive = true }))
        else (false, ims)
  ]

  pub unlock_exclusively : InmemService T → ℕ → Option (InmemService T)
  unlock_exclusively ims jn = elim (lookup ims.smap jn) [
    | none ↦ some ims
    | some td ↦
        if td.exclusive && td.readers == 1
        then some (put_desc ims (record td { exclusive = false }))
        else none
  ]

  -- The first locked stretch of visitSkippingIfLocked: each partition of `tmap` that the condition
  -- takes and nobody locked gets one more reader; the answer is their names.
  pub take_matching : (T → Bool) → List (ℕ × ℕ) → InmemService T → List ℕ × InmemService T
  take_matching tef [] ims = ([], ims)
  take_matching tef ((line, src) ∷ lines) ims =
      let taken : Option (InmemService T) = elim (lookup ims.smap src) [
        | none ↦ none
        | some td ↦
            if tef td.tags && not td.exclusive
            then some (put_desc ims (record td { readers = td.readers + 1 }))
            else none
      ] in
      elim taken [
        | none ↦ take_matching tef lines ims
        | some ims' ↦ (let (srcs, after) = take_matching tef lines ims' in (src ∷ srcs, after))
      ]

  -- The last locked stretch of both visits: one reader less for each name. (A description that was
  -- deleted meanwhile is in no map any more.)
  pub give_back : List ℕ → InmemService T → InmemService T
  give_back [] ims = ims
  give_back (src ∷ srcs) ims = elim (lookup ims.smap src) [
    | none ↦ give_back srcs ims
    | some td ↦ give_back srcs (put_desc ims (record td { readers = td.readers - 1 }))
  ]

  -- visitSkippingIfLocked, in which nobody else comes in between; `none` is the error. The visitor
  -- is a function of the partition's name, which determines its tags.
  pub visit_skipping_if_locked :
      (T → Bool) → (ℕ → Bool) → Bool → InmemService T → Option (InmemService T)
  unfolding take_matching count_visited give_back
  visit_skipping_if_locked tef vf do_not_release ims =
      let (vstd, taken) = take_matching tef ims.tmap ims in
      if ims.is_done
      then none
      else some
          (give_back (if do_not_release then drop (count_visited vf vstd) vstd else vstd) taken)

  -- The first locked stretch of visitWaitingIfLocked: the partitions to visit.
  pub matching : (T → Bool) → List (ℕ × ℕ) → InmemService T → List ℕ
  matching tef [] ims = []
  matching tef ((line, src) ∷ lines) ims =
      let rest = matching tef lines ims in
      elim (lookup ims.smap src) [
        | none ↦ rest
        | some td ↦ if tef td.tags && not td.exclusive then src ∷ rest else rest
      ]

  -- Its locked stretch before the visitor's call, where `not_found` stands for a partition that was
  -- removed meanwhile, and `again` for one that somebody locked.
  pub visit_acquire : InmemService T → ℕ → Reply T × InmemService T
  visit_acquire ims src = if ims.is_done then (shut_down, ims) else (elim (lookup ims.smap src) [
    | none ↦ (not_found, ims)
    | some td ↦
        if td.exclusive
        then (again, ims)
        else (found src td.tags, put_desc ims (record td { readers = td.readers + 1 }))
  ])
