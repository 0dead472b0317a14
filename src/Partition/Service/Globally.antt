-- ===== src/Partition/Service/Globally.antt =====
-- The global limit: truncateGlobally asks for the deletion of partitions that have bytes, which
-- deleteJournal refuses.
use mathlib.Core.List.{append-nil, append_assoc}
use logrange.Prelude.{
  ℕ, ◌<◌, ◌≡◌, refl, ap, ◌∙◌, Bool, true, false, ltb, ltb→lt, List, [], ◌∷◌, ◌++◌, Option, some,
  Bool-cases, Option-cases, inl, inr,
}
use logrange.Prelude.Assoc.{lookup, lookup-insert_self}
use logrange.Tindex.Inmem.{TagsDesc, InmemService, get_journal_tags, found, shut_down, not_found}
use logrange.Tindex.Inmem.Calls.{put, one_more, get_tags, get_tags_unknown, release_again}
use logrange.Partition.Truncate.{Journals, TruncateParams}
use logrange.Partition.Service.{
  TruncateInfo, World, GlobalResult, delete_one, delete_or_dry, global_loop, truncate_globally,
  total_size,
}
use logrange.Partition.Service.Delete.{delete_journal_keeps}
use logrange.Partition.Ordered.{All}

-- Descriptions stand under their own names, and nobody has a partition locked exclusively.
pub record IsQuiet {T : Type 0} (ims : InmemService T) : Type 0 where
  pub named : (src : ℕ) (td : TagsDesc T) → lookup ims.smap src ≡ some td → td.src ≡ src
  pub is_free : (src : ℕ) (td : TagsDesc T) → lookup ims.smap src ≡ some td → td.exclusive ≡ false

module _ {T J : Type 0} (parse : ℕ → Option T) (line_of : T → ℕ) (is_empty : T → Bool)
    (api : Journals J) (w : World T J) (quiet : IsQuiet w.ims) where
  module _ (tp : TruncateParams) (wet : tp.dry_run ≡ false) where
    known_keeps :
        (src : ℕ) (td : TagsDesc T)
        → lookup w.ims.smap src ≡ some td
        → 0 < api.size (w.journal src)
        → delete_one parse line_of is_empty api tp w src ≡ some (false, w)
    unfolding delete_one
    known_keeps src td known full =
        let named = quiet.named src td known in
        let ex = quiet.is_free src td known in
        let get = get_tags w.ims src td known named ex in
        let release = release_again w.ims src td known named ex in
        let w1 : World T J = record w { ims = put w.ims src (one_more td) } in
        let keeps =
          delete_journal_keeps parse line_of is_empty api w1 src (one_more td)
            (lookup-insert_self w.ims.smap src (one_more td)) named full in
        let tries : delete_or_dry parse line_of is_empty api tp.dry_run w1 src ≡ some (false, w1) =
          ap (λ (d : Bool). delete_or_dry parse line_of is_empty api d w1 src) wet
          ∙ unfold delete_or_dry in keeps in
        elim (Bool-cases w.ims.is_done) [
          | inl done ↦
              let got : get_journal_tags true w.ims src ≡ (shut_down, w.ims) = get ∙ rw done in
              rw (got, delete_one)
          | inr running ↦
              let got : get_journal_tags true w.ims src
                  ≡ (found src td.tags, put w.ims src (one_more td)) =
                get ∙ rw running in
              rw (got, delete_one)
                (elim (Bool-cases (api.available src)) [
                  | inl can ↦ rw (can, got) (rw (tries) (rw (release) refl))
                  | inr fails ↦ rw (fails, got) (rw (release) refl)
                ])
        ]

    delete_one_keeps :
        (src : ℕ)
        → 0 < api.size (w.journal src)
        → delete_one parse line_of is_empty api tp w src ≡ some (false, w)
    unfolding delete_one
    delete_one_keeps src full = elim (Option-cases (lookup w.ims.smap src)) [
      | inl unknown ↦
          let get = get_tags_unknown w.ims src unknown in
          elim (Bool-cases w.ims.is_done) [
            | inl done ↦
                let got : get_journal_tags true w.ims src ≡ (shut_down, w.ims) = get ∙ rw done in
                rw (got, delete_one)
            | inr running ↦
                let got : get_journal_tags true w.ims src ≡ (not_found, w.ims) = get ∙ rw running in
                rw (got, delete_one)
          ]
      | inr (td, known) ↦ known_keeps src td known full
    ]

    -- What the loop has passed is copied, and nothing is counted.
    abbrev passed : List (TruncateInfo T) → GlobalResult T J
    passed infos = record { infos = infos; chunks = 0; bytes = 0; world = w }

    loop_keeps :
        (ts : ℕ) (infos before : List (TruncateInfo T))
        → All (λ (ti : TruncateInfo T). 0 < ti.after_size → 0 < api.size (w.journal ti.src)) infos
        → global_loop parse line_of is_empty api tp ts infos (passed before)
          ≡ some (passed (before ++ infos))
    unfolding global_loop
    loop_keeps ts [] before h = rw (append-nil before)
    loop_keeps ts (ti ∷ infos) before h =
        let goes_on : global_loop parse line_of is_empty api tp ts infos
              (passed (before ++ ti ∷ []))
            ≡ some (passed (before ++ ti ∷ infos)) =
          loop_keeps ts infos (before ++ ti ∷ []) h.1
          ∙ ap (λ l. some (passed l)) (append_assoc before (ti ∷ []) infos) in
        elim (Bool-cases (ltb tp.max_db_size ts)) [
          | inr fits ↦ rw (fits, global_loop)
          | inl over ↦ elim (Bool-cases (ltb 0 ti.after_size)) [
            | inr empty ↦ rw (over, empty, global_loop) goes_on
            | inl bytes ↦
                let kept = delete_one_keeps ti.src (h.0 (ltb→lt _ _ bytes)) in
                rw (over, bytes, global_loop) (rw (kept, global_loop) goes_on)
          ]
        ]

    -- Without the dry run, where nobody holds a partition exclusively and every partition that is
    -- reported with bytes has bytes, truncateGlobally removes nothing, whatever the limit is: the
    -- infos, the index and the journals are as before, no folder is removed, and no chunk and no byte is counted.
    pub truncate_globally_keeps :
        (infos : List (TruncateInfo T))
        → All (λ (ti : TruncateInfo T). 0 < ti.after_size → 0 < api.size (w.journal ti.src)) infos
        → truncate_globally parse line_of is_empty api tp infos w
          ≡ some (record { infos = infos; chunks = 0; bytes = 0; world = w })
    unfolding truncate_globally
    truncate_globally_keeps infos h = loop_keeps (total_size infos 0) infos [] h
