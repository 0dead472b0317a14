-- ===== src/Partition/Service/Visit/DryRun.antt =====
-- A dry run of Truncate reports what it would do, and changes nothing.
use logrange.Prelude.{
  ℕ, ◌≤◌, ◌<◌, ◌≡◌, refl, sym, ap, subst, ◌∙◌, Bool, true, ◌==◌, List, [], ◌∷◌, Option, some, arith,
  length, Bool-cases, inl, inr,
}
use logrange.Prelude.Cases.{if_case, bool_case}
use logrange.Partition.Truncate.{word64, Chunk, TruncateParams, Journals, truncate}
use logrange.Partition.Truncate.BySize.{total}
use logrange.Partition.Truncate.Cut.{truncate_dry}
use logrange.Partition.Service.{World, delete_or_dry}
use logrange.Partition.Service.Visit.{
  Truncating, Visitor, visit_empty, report_truncated, visit_one, visit_all, put_journal,
}

module _ {T J : Type 0} where
  -- The same index, the same journals, and no folder removed.
  pub record IsSame (w w' : World T J) : Type 0 where
    pub ims : w'.ims ≡ w.ims
    pub journal : (name : ℕ) → w'.journal name ≡ w.journal name
    pub removed_dirs : w'.removed_dirs ≡ w.removed_dirs

  -- The call returns, and leaves the world as it was.
  abbrev pub Leaves : World T J → Option (Truncating T J) → Type 0
  Leaves w o = (r : Truncating T J) × (o ≡ some r) × IsSame w r.world

  module _ (parse : ℕ → Option T) (line_of : T → ℕ) (is_empty : T → Bool) (api : Journals J)
      (v : Visitor) (tp : TruncateParams) (dry : tp.dry_run ≡ true) where
    dry_delete :
        (w : World T J) (jn : ℕ)
        → delete_or_dry parse line_of is_empty api tp.dry_run w jn ≡ some (true, w)
    unfolding delete_or_dry
    dry_delete w jn = ground arith

    visit_empty-Leaves :
        (w : World T J) (tags : T) (jn : ℕ) (r : Truncating T J)
        → IsSame w r.world
        → Leaves w (visit_empty parse line_of is_empty api v tp tags jn r)
    unfolding visit_empty
    visit_empty-Leaves w tags jn r s =
        rw (dry_delete r.world jn, visit_empty)
          (if_case (λ (z : Truncating T J). Leaves w (some z)) v.has_otf (λ h. (_, refl, s))
            (λ h. (_, refl, s)))

    report-Leaves :
        (w : World T J) (tags : T) (jn size recs n tr : ℕ) (r : Truncating T J)
        → IsSame w r.world
        → Leaves w (report_truncated parse line_of is_empty api v tp tags jn size recs n tr r)
    unfolding report_truncated
    report-Leaves w tags jn size recs n tr r s = elim (Bool-cases (tr == size)) [
      | inl all ↦
          rw (all, report_truncated) (rw (dry_delete r.world jn, report_truncated) (_, refl, s))
      | inr part ↦ rw (part, report_truncated) (_, refl, s)
    ]

    put-IsSame :
        (w w' : World T J) (jn : ℕ) (j : J)
        → IsSame w w'
        → j ≡ w'.journal jn
        → IsSame w (put_journal parse line_of is_empty api v w' jn j)
    put-IsSame w w' jn j s e = record {
      ims = s.ims;
      journal = λ name. elim (Bool-cases (name == jn)) [
        | inl at ↦
            let eq : jn ≡ name = ground arith in rw (at) (e ∙ ap w'.journal eq ∙ s.journal name)
        | inr off ↦ rw (off) (s.journal name)
      ];
      removed_dirs = s.removed_dirs;
    }

    visit_one-Leaves :
        (w : World T J) (tags : T) (jn : ℕ) (r : Truncating T J)
        → IsSame w r.world
        → ((cks : List Chunk)
            → api.chunks (r.world.journal jn) ≡ some cks
            → (length (v.sync_chunks jn cks) ≤ length cks)
              × (api.size (r.world.journal jn) ≡ total cks)
              × (total cks < word64))
        → Leaves w (visit_one parse line_of is_empty api v tp tags jn r)
    unfolding visit_one
    visit_one-Leaves w tags jn r s fits =
        let j = r.world.journal jn in
        let after = put-IsSame w r.world jn (truncate api (v.sync_chunks jn) tp j).1 s in
        elim (Bool-cases (api.available jn)) [
          | inr cannot ↦ rw (cannot, visit_one) (r, refl, s)
          | inl can ↦ elim (Bool-cases (api.size j == 0)) [
            | inl empty ↦ rw (can, empty, visit_one) (visit_empty-Leaves w tags jn r s)
            | inr bytes ↦ elim (truncate_dry api (v.sync_chunks jn) tp j dry fits) [
              | inl bad ↦
                  rw (can, bytes, visit_one)
                    (rw (bad, visit_one) (_, refl, after (ap (λ z. z.1) bad)))
              | inr (cut, good) ↦
                  rw (can, bytes, visit_one)
                    (rw (good, visit_one)
                      (report-Leaves w tags jn (api.size j) (api.count j) cut.0 cut.1 _
                        (after (ap (λ z. z.1) good))))
            ]
          ]
        ]

    visit_from :
        (w : World T J)
        → ((jn : ℕ) (cks : List Chunk)
            → api.chunks (w.journal jn) ≡ some cks
            → (length (v.sync_chunks jn cks) ≤ length cks)
              × (api.size (w.journal jn) ≡ total cks)
              × (total cks < word64))
        → (parts : List (ℕ × T)) (r : Truncating T J) → IsSame w r.world
        → Leaves w (visit_all parse line_of is_empty api v tp parts r)
    unfolding visit_all
    visit_from w fits [] r s = (r, refl, s)
    visit_from w fits ((jn, tags) ∷ parts) r s =
        let here = λ (cks : List Chunk) (h : api.chunks (r.world.journal jn) ≡ some cks).
          subst
            (λ (j : J).
              (length (v.sync_chunks jn cks) ≤ length cks)
              × (api.size j ≡ total cks)
              × (total cks < word64))
            (sym (s.journal jn)) (fits jn cks (ap api.chunks (sym (s.journal jn)) ∙ h)) in
        let (r', e, s') = visit_one-Leaves w tags jn r s here in
        rw (e, visit_all)
          (bool_case (λ (o : Option (Truncating T J)). Leaves w o) (v.is_alive jn)
            (λ on. visit_from w fits parts r' s') (λ off. (r', refl, s')))

    -- A dry run of the visit, where a journal's size is that of its chunks, below 2^64, and the time
    -- index answers for no more chunks than there are: the visit returns, and neither the index of
    -- the partitions nor any journal is changed, and no folder is removed.
    pub visit_all-dry :
        (parts : List (ℕ × T)) (r : Truncating T J)
        → ((jn : ℕ) (cks : List Chunk)
            → api.chunks (r.world.journal jn) ≡ some cks
            → (length (v.sync_chunks jn cks) ≤ length cks)
              × (api.size (r.world.journal jn) ≡ total cks)
              × (total cks < word64))
        → Leaves r.world (visit_all parse line_of is_empty api v tp parts r)
    visit_all-dry parts r fits =
        visit_from r.world fits parts r
          (record { ims = refl; journal = λ name. refl; removed_dirs = refl })
