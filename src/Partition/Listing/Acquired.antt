-- ===== src/Partition/Listing/Acquired.antt =====
-- Who holds a partition after GetJournal and GetJournals.
use logrange.Prelude.{
  ℕ, ◌≡◌, ◌⊎◌, refl, ◌∙◌, List, [], ◌∷◌, none, some, true, false, if◌then◌else◌, Bool-cases,
  Option-cases, inl, inr,
}
use logrange.Prelude.Assoc.{lookup}
use logrange.Tindex.Inmem.{TagsDesc, InmemService, get_journal_tags, found, shut_down, not_found}
use logrange.Tindex.Inmem.Calls.{
  put, one_more, get_tags, get_tags_unknown, release_again, visit_tags,
}
use logrange.Partition.Truncate.{Journals}
use logrange.Partition.Service.Globally.{IsQuiet}
use logrange.Partition.Listing.{get_journal, get_journals, get_loop, release_all}

module _ {T J : Type 0} (api : Journals J) (ims : InmemService T) (quiet : IsQuiet ims) where
  module _ (jn : ℕ) (td : TagsDesc T) (known : lookup ims.smap jn ≡ some td) where
    named : td.src ≡ jn
    named = quiet.named jn td known

    is_free : td.exclusive ≡ false
    is_free = quiet.is_free jn td known

    known_done : ims.is_done ≡ true → get_journal api ims jn ≡ some (none, ims)
    unfolding get_journal
    known_done done =
        let got : get_journal_tags true ims jn ≡ (shut_down, ims) =
          get_tags ims jn td known named is_free ∙ rw done in
        rw (got, get_journal)

    known_running :
        ims.is_done ≡ false
        → get_journal api ims jn
          ≡ some
              (if api.available jn then (some td.tags, put ims jn (one_more td)) else (none, ims))
    unfolding get_journal
    known_running running =
        let release = release_again ims jn td known named is_free in
        let got : get_journal_tags true ims jn ≡ (found jn td.tags, put ims jn (one_more td)) =
          get_tags ims jn td known named is_free ∙ rw running in
        rw (got, get_journal)
          (elim (Bool-cases (api.available jn)) [
            | inl can ↦ rw (can, got) refl
            | inr cannot ↦ rw (cannot, got) (rw (release) refl)
          ])

    first_missing :
        (line_of : T → ℕ) (max_limit : ℕ) (srcs : List ℕ)
        → ims.is_done ≡ false
        → api.available jn ≡ false
        → get_loop api line_of max_limit ims (jn ∷ srcs) []
          ≡ some ([], true, put ims jn (one_more td))
    unfolding get_loop
    first_missing line_of max_limit srcs running cannot =
        let got = visit_tags ims jn td known named is_free running in
        rw (got, get_loop) (rw (cannot, get_loop) (rw (got) refl))

    -- GetJournals, whose visit comes first to a partition of which the journal cannot be had, answers
    -- an error, and leaves the partition with one more reader than it had.
    pub get_journals_leaks :
        (line_of : T → ℕ) (max_limit : ℕ) (srcs : List ℕ)
        → ims.is_done ≡ false
        → api.available jn ≡ false
        → get_journals api line_of max_limit ims (jn ∷ srcs) ≡ some (none, put ims jn (one_more td))
    unfolding get_journals release_all
    get_journals_leaks line_of max_limit srcs running cannot =
        rw (first_missing line_of max_limit srcs running cannot, get_journals)

  unknown_journal : (jn : ℕ) → lookup ims.smap jn ≡ none → get_journal api ims jn ≡ some (none, ims)
  unfolding get_journal
  unknown_journal jn unknown =
      let get = get_tags_unknown ims jn unknown in
      elim (Bool-cases ims.is_done) [
        | inl done ↦
            let got : get_journal_tags true ims jn ≡ (shut_down, ims) = get ∙ rw done in
            rw (got, get_journal)
        | inr running ↦
            let got : get_journal_tags true ims jn ≡ (not_found, ims) = get ∙ rw running in
            rw (got, get_journal)
      ]

  -- GetJournal, where nobody has the partition locked exclusively, returns: either an error, and
  -- the index of the partitions is as it was; or the partition's tags, and then the journal can be
  -- had, the index was not shut down, and the partition has one more reader.
  pub get_journal_lem :
      (jn : ℕ)
      → (get_journal api ims jn ≡ some (none, ims))
        ⊎ ((td : TagsDesc T) × (lookup ims.smap jn ≡ some td)
            × (ims.is_done ≡ false)
            × (api.available jn ≡ true)
            × (get_journal api ims jn ≡ some (some td.tags, put ims jn (one_more td))))
  get_journal_lem jn = elim (Option-cases (lookup ims.smap jn)) [
    | inl unknown ↦ inl (unknown_journal jn unknown)
    | inr (td, known) ↦ elim (Bool-cases ims.is_done) [
      | inl done ↦ inl (known_done jn td known done)
      | inr running ↦
          let k = known_running jn td known running in
          elim (Bool-cases (api.available jn)) [
            | inl can ↦ inr (td, known, running, can, k ∙ rw can)
            | inr cannot ↦ inl (k ∙ rw cannot)
          ]
    ]
  ]
