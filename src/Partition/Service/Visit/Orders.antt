-- ===== src/Partition/Service/Visit/Orders.antt =====
-- The order in which the global limit takes the partitions.
use logrange.Prelude.{
  ℕ, ◌≡◌, sym, subst, Bool, false, ◌==◌, if◌then◌else◌, List, [], ◌∷◌, Option, none, some, arith,
}
use logrange.Prelude.Int.{◌≤ℤ◌}
use logrange.Prelude.Cases.{if_case, bool_case, option_case}
use logrange.Partition.Ordered.{IsOrdered, IsTestFor, insert_ordered-IsOrdered}
use logrange.Partition.Truncate.{
  TruncateParams, Journals, TruncateReply, removed, failed, panicked, truncate,
}
use logrange.Partition.Service.{TruncateInfo, World, delete_or_dry}
use logrange.Partition.Service.Visit.{
  Truncating, Visitor, visit_empty, report_truncated, visit_one, visit_all, not_later,
}

-- No later timestamp behind.
abbrev pub LatestFirst : {T : Type 0} → TruncateInfo T → TruncateInfo T → Type 0
LatestFirst a b = b.latest_ts ≤ℤ a.latest_ts

reply_case :
    {B : Type 0} (P : B → Type 0) {f : ℕ → ℕ → B} {x y : B} (reply : TruncateReply)
    → ((n tr : ℕ) → P (f n tr))
    → P x
    → P y
    → P (elim reply [ removed n tr ↦ f n tr | failed ↦ x | panicked ↦ y ])
reply_case P (removed n tr) on_removed on_failed on_panicked = on_removed n tr
reply_case P failed on_removed on_failed on_panicked = on_failed
reply_case P panicked on_removed on_failed on_panicked = on_panicked

module _ {T J : Type 0} (parse : ℕ → Option T) (line_of : T → ℕ) (is_empty : T → Bool)
    (api : Journals J) (v : Visitor) where
  not_later-IsTestFor :
      (ti : TruncateInfo T) → IsTestFor LatestFirst (not_later parse line_of is_empty api v ti) ti
  not_later-IsTestFor ti = record {
    trans = λ a b c h k. omega arith;
    stays = λ a b h e. ground arith;
    behind = λ a e. ground arith;
    before = λ a e. ground arith;
  }

  -- Whatever is returned has its infos in order.
  abbrev Ordered : Option (Truncating T J) → Type 0
  Ordered none = Unit {0}
  Ordered (some r) = IsOrdered LatestFirst r.sorted_infos

  visit_empty-Ordered :
      (tp : TruncateParams) (tags : T) (jn : ℕ) (r : Truncating T J)
      → IsOrdered LatestFirst r.sorted_infos
      → Ordered (visit_empty parse line_of is_empty api v tp tags jn r)
  unfolding visit_empty
  visit_empty-Ordered tp tags jn r o =
      option_case Ordered (delete_or_dry parse line_of is_empty api tp.dry_run r.world jn) (λ e. tt)
        λ gone e.
          if_case (λ (z : Truncating T J). Ordered (some z)) gone.0
            (λ h. if_case (λ (z : Truncating T J). Ordered (some z)) v.has_otf (λ h. o) (λ h. o))
            (λ h. o)

  report-Ordered :
      (tp : TruncateParams) (tags : T) (jn size recs n tr : ℕ) (r : Truncating T J)
      → IsOrdered LatestFirst r.sorted_infos
      → Ordered (report_truncated parse line_of is_empty api v tp tags jn size recs n tr r)
  unfolding report_truncated
  report-Ordered tp tags jn size recs n tr r o =
      let tried : Option (Bool × World T J) =
        if tr == size
        then delete_or_dry parse line_of is_empty api tp.dry_run r.world jn
        else some (false, r.world) in
      option_case Ordered tried (λ e. tt)
        (λ gone e.
          insert_ordered-IsOrdered LatestFirst _ _ (not_later-IsTestFor _) r.sorted_infos o)

  visit_one-Ordered :
      (tp : TruncateParams) (tags : T) (jn : ℕ) (r : Truncating T J)
      → IsOrdered LatestFirst r.sorted_infos
      → Ordered (visit_one parse line_of is_empty api v tp tags jn r)
  unfolding visit_one
  visit_one-Ordered tp tags jn r o =
      if_case Ordered (api.available jn)
        (λ can.
          if_case Ordered (api.size (r.world.journal jn) == 0)
            (λ empty. visit_empty-Ordered tp tags jn r o)
            (λ bytes.
              reply_case Ordered (truncate api (v.sync_chunks jn) tp (r.world.journal jn)).0
                (λ n tr. report-Ordered tp tags jn _ _ n tr _ o) o tt))
        (λ cannot. o)

  visit_all-Ordered :
      (tp : TruncateParams) (parts : List (ℕ × T)) (r : Truncating T J)
      → IsOrdered LatestFirst r.sorted_infos
      → Ordered (visit_all parse line_of is_empty api v tp parts r)
  unfolding visit_all
  visit_all-Ordered tp [] r o = o
  visit_all-Ordered tp ((jn, tags) ∷ parts) r o =
      option_case Ordered (visit_one parse line_of is_empty api v tp tags jn r) (λ e. tt)
        λ r' e.
          let o' = subst Ordered e (visit_one-Ordered tp tags jn r o) in
          bool_case Ordered (v.is_alive jn) (λ on. visit_all-Ordered tp parts r' o') (λ off. o')

  -- The infos that the visit hands to truncateGlobally are ordered by their latest timestamps, the
  -- largest one first.
  pub visit_all-LatestFirst :
      (tp : TruncateParams) (parts : List (ℕ × T)) (r r' : Truncating T J)
      → r.sorted_infos ≡ []
      → visit_all parse line_of is_empty api v tp parts r ≡ some r'
      → IsOrdered LatestFirst r'.sorted_infos
  visit_all-LatestFirst tp parts r r' none_yet e =
      subst Ordered e
        (visit_all-Ordered tp parts r (subst (IsOrdered LatestFirst) (sym none_yet) tt))
