-- ===== src/Tindex/Inmem/Calls.antt =====
-- The calls that other packages make on a partition, one after the other: what a lock and its
-- release leave behind.
use mathlib.Core.Bool.{not}
use logrange.Prelude.{
  ℕ, ◌+◌, ◌-◌, ◌≡◌, ap, ◌∙◌, Bool, true, false, ◌&&◌, ◌==◌, if◌then◌else◌, List, Option, none, some,
  arith,
}
use logrange.Prelude.Assoc.{
  lookup, insert, erase, lookup-insert_self, insert-insert, insert_same, erase-insert,
}
use logrange.Tindex.Inmem.{
  TagsDesc, InmemService, deleted, found, shut_down, not_found, delete_journal, get_journal_tags,
  release_journal, lock_exclusively, unlock_exclusively, visit_acquire,
}

-- The index with another description of a partition.
abbrev pub put : {T : Type 0} → InmemService T → ℕ → TagsDesc T → InmemService T
put ims jn td = record ims { smap = insert ims.smap jn td }

-- The description with one more reader, and locked.
abbrev pub one_more : {T : Type 0} → TagsDesc T → TagsDesc T
one_more td = record td { readers = td.readers + 1 }

abbrev pub locked : {T : Type 0} → TagsDesc T → TagsDesc T
locked td = record td { exclusive = true }

module _ {T : Type 0} (ims : InmemService T) (jn : ℕ) (td : TagsDesc T)
    (known : lookup ims.smap jn ≡ some td) where
  -- What is put back is what was there.
  put_back : (td' : TagsDesc T) → put (put ims jn td') jn td ≡ ims
  put_back td' =
      ap (λ (m : List (ℕ × TagsDesc T)). record ims { smap = m })
        (insert-insert ims.smap jn td' td ∙ insert_same ims.smap jn td known)

  pub lock_refused :
      not td.exclusive && td.readers == 1 ≡ false → lock_exclusively ims jn ≡ (false, ims)
  unfolding lock_exclusively
  lock_refused h = ground arith

  module _ (named : td.src ≡ jn) where
    module _ (is_free : td.exclusive ≡ false) where
      pub lock_alone : td.readers ≡ 1 → lock_exclusively ims jn ≡ (true, put ims jn (locked td))
      unfolding lock_exclusively
      lock_alone one = ground arith

      pub unlock_again : td.readers ≡ 1 → unlock_exclusively (put ims jn (locked td)) jn ≡ some ims
      unfolding unlock_exclusively
      unlock_again one =
          let back = put_back (locked td) in
          let l = lookup-insert_self ims.smap jn (locked td) in
          let same : record (locked td) { exclusive = false } ≡ td = ground arith in
          let again =
            ap (λ (z : TagsDesc T). put (put ims jn (locked td)) z.src z) same
            ∙ ap (λ (n : ℕ). put (put ims jn (locked td)) n td) named
            ∙ back in
          let reads : td.readers == 1 ≡ true = ground arith in ground arith

      pub release_again : release_journal (put ims jn (one_more td)) jn ≡ some ims
      unfolding release_journal
      release_again =
          let back = put_back (one_more td) in
          let l = lookup-insert_self ims.smap jn (one_more td) in
          let same : record (one_more td) { readers = td.readers + 1 - 1 } ≡ td = ground arith in
          let again =
            ap (λ (z : TagsDesc T). put (put ims jn (one_more td)) z.src z) same
            ∙ ap (λ (n : ℕ). put (put ims jn (one_more td)) n td) named
            ∙ back in
          let reads : td.readers + 1 == 0 ≡ false = ground arith in ground arith

      pub delete_locked :
          (parse : ℕ → Option T) (line_of : T → ℕ) (is_empty : T → Bool)
          → delete_journal parse line_of is_empty (put ims jn (locked td)) jn ≡ (
            deleted,
            record ims { tmap = erase ims.tmap (line_of td.tags); smap = erase ims.smap jn },
          )
      unfolding delete_journal
      delete_locked parse line_of is_empty =
          let l = lookup-insert_self ims.smap jn (locked td) in
          let e = erase-insert ims.smap jn (locked td) in ground arith

      pub get_tags :
          get_journal_tags true ims jn
          ≡ (if ims.is_done then (shut_down, ims) else (found jn td.tags, put ims jn (one_more td)))
      unfolding get_journal_tags
      get_tags = ground arith

pub unlock_unknown :
    {T : Type 0} (ims : InmemService T) (jn : ℕ)
    → lookup ims.smap jn ≡ none
    → unlock_exclusively ims jn ≡ some ims
unfolding unlock_exclusively
unlock_unknown ims jn h = ground arith

pub get_tags_unknown :
    {T : Type 0} (ims : InmemService T) (jn : ℕ)
    → lookup ims.smap jn ≡ none
    → get_journal_tags true ims jn ≡ (if ims.is_done then shut_down else not_found, ims)
unfolding get_journal_tags
get_tags_unknown ims jn h = ground arith

pub visit_tags :
    {T : Type 0} (ims : InmemService T) (jn : ℕ) (td : TagsDesc T)
    → lookup ims.smap jn ≡ some td
    → td.src ≡ jn
    → td.exclusive ≡ false
    → ims.is_done ≡ false
    → visit_acquire ims jn ≡ (found jn td.tags, put ims jn (one_more td))
unfolding visit_acquire
visit_tags ims jn td known named is_free running = ground arith
