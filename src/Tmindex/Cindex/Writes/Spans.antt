-- ===== src/Tmindex/Cindex/Writes/Spans.antt =====
-- The spans of times that the chunks are known by, over the calls of onWrite.
use logrange.Prelude.{
  ℕ, zero, suc, ◌*◌, ◌≡◌, refl, sym, ap, subst, ◌∙◌, Bool, true, false, ◌&&◌, ltb, ◌==◌, List, [],
  ◌∷◌, ◌++◌, Option, none, some, arith, ℕ_discrete, get_elem?, ◌↔◌,
}
use mathlib.Core.Option.{some-injective}
use logrange.Prelude.Int.{◌≤ℤ◌}
use logrange.Prelude.Assoc.{lookup, insert, lookup-insert}
use logrange.Prelude.Cases.{if_case}
use logrange.Partition.Selector.{RecordsInfo}
use logrange.Tmindex.Block.{Interval}
use logrange.Tmindex.Cindex.{
  no_item, ChkInfo, Err, index_corrupted, passed_on, Ctrlr, Cindex, update, make_corrupted,
  sparse_space,
}
use logrange.Tmindex.Cindex.Writes.{Noted, note, sub_uint32, Outcome, index_write, on_write}

-- The same chunk with at least the same span.
pub record IsWider (c c' : ChkInfo) : Type 0 where
  pub same_id : c'.id ≡ c.id
  pub starts : c'.min_ts ≤ℤ c.min_ts
  pub ends : c.max_ts ≤ℤ c'.max_ts

-- The chunks stay at their places and their spans do not shrink.
abbrev pub Widens : List ChkInfo → List ChkInfo → Type 0
Widens sc sc' =
    (i : ℕ) (c : ChkInfo)
    → get_elem? sc i ≡ some c
    → (c' : ChkInfo) × (get_elem? sc' i ≡ some c') × IsWider c c'

-- The chunk that a notification is about, whose span has the notification's span.
pub record IsNoted (ri : RecordsInfo) (c : ChkInfo) : Type 0 where
  pub same_id : c.id ≡ ri.id
  pub starts : c.min_ts ≤ℤ ri.min_ts
  pub ends : ri.max_ts ≤ℤ c.max_ts

abbrev IsWider_refl : (c : ChkInfo) → IsWider c c
IsWider_refl c = record { same_id = refl; starts = omega arith; ends = omega arith }

Widens-refl : (sc : List ChkInfo) → Widens sc sc
Widens-refl sc i c e = (c, e, IsWider_refl c)

update-IsWider : (c : ChkInfo) (ri : RecordsInfo) → IsWider c (update c ri)
unfolding update
update-IsWider c ri = record { same_id = refl; starts = ground arith; ends = ground arith }

update-IsNoted : (c : ChkInfo) (ri : RecordsInfo) → c.id ≡ ri.id → IsNoted ri (update c ri)
unfolding update
update-IsNoted c ri e = record { same_id = e; starts = ground arith; ends = ground arith }

-- A chunk that differs from the noted one in its index only.
abbrev SameSpan : ChkInfo → ChkInfo → Type 0
SameSpan c c' = (c'.id ≡ c.id) × (c'.min_ts ≡ c.min_ts) × (c'.max_ts ≡ c.max_ts)

Widens-nil : (sc : List ChkInfo) → Widens [] sc
Widens-nil sc i c e = absurd (ground arith)

Widens-cons :
    (c c' : ChkInfo) (sc sc' : List ChkInfo)
    → IsWider c c'
    → Widens sc sc'
    → Widens (c ∷ sc) (c' ∷ sc')
Widens-cons c c' sc sc' w ws zero d e =
    (c', refl, subst (λ z. IsWider z c') (some-injective c d e) w)
Widens-cons c c' sc sc' w ws (suc i) d e = ws i d e

SameSpan-IsWider : (c d d' : ChkInfo) → IsWider c d → SameSpan d d' → IsWider c d'
SameSpan-IsWider c d d' w (same_id, starts, ends) = record {
  same_id = same_id ∙ w.same_id;
  starts = (let a = w.starts in subst (λ z. z ≤ℤ c.min_ts) (sym starts) a);
  ends = (let a = w.ends in subst (λ z. c.max_ts ≤ℤ z) (sym ends) a);
}

note-Widens :
    (sc : List ChkInfo) (ri : RecordsInfo) (c' : ChkInfo)
    → SameSpan (note sc ri).last c'
    → Widens sc ((note sc ri).before ++ c' ∷ [])
unfolding note
note-Widens [] ri c' same = Widens-nil (c' ∷ [])
note-Widens (d ∷ []) ri c' same =
    if_case (λ (n : Noted). SameSpan n.last c' → Widens (d ∷ []) (n.before ++ c' ∷ []))
      (d.id == ri.id)
      (λ h same.
        Widens-cons d c' [] [] (SameSpan-IsWider d (update d ri) c' (update-IsWider d ri) same)
          (Widens-nil []))
      (λ h same. Widens-cons d d [] (c' ∷ []) (IsWider_refl d) (Widens-nil (c' ∷ []))) same
note-Widens (d ∷ d' ∷ sc) ri c' same =
    Widens-cons d d (d' ∷ sc) _ (IsWider_refl d) (note-Widens (d' ∷ sc) ri c' same)

note-IsNoted : (sc : List ChkInfo) (ri : RecordsInfo) → IsNoted ri (note sc ri).last
unfolding note
note-IsNoted [] ri = record { same_id = refl; starts = omega arith; ends = omega arith }
note-IsNoted (d ∷ []) ri =
    if_case (λ (n : Noted). IsNoted ri n.last) (d.id == ri.id)
      (λ h. update-IsNoted d ri (ground arith))
      (λ h. record { same_id = refl; starts = omega arith; ends = omega arith })
note-IsNoted (d ∷ d' ∷ sc) ri = note-IsNoted (d' ∷ sc) ri

-- A chunk with a corrupted index has no root of an index.
abbrev pub IsSane : ChkInfo → Type 0
IsSane c = c.idx_corrupted ≡ true → c.idx_root ≡ no_item

-- What a write leaves of the chunk, whichever way it goes.
pub record IsWritten {C : Type 0} (last : ChkInfo) (out : Outcome C) : Type 0 where
  pub span : SameSpan last out.chk
  pub reports : (out.error ≡ none) ↔ (out.chk.idx_corrupted ≡ false)
  pub sane : IsSane last → IsSane out.chk

fails-IsWritten :
    {C : Type 0} (last c : ChkInfo) (e : Err) (st : C)
    → SameSpan last c
    → c.idx_corrupted ≡ true
    → (IsSane last → IsSane c)
    → IsWritten last (record { error = some e; chk = c; ctrlr = st })
fails-IsWritten last c e st same corrupt sane = record {
  span = same;
  reports = (λ h. absurd (ground arith), λ h. absurd (ground arith));
  sane = sane;
}

saves-IsWritten :
    {C : Type 0} (last c : ChkInfo) (st : C)
    → SameSpan last c
    → c.idx_corrupted ≡ false
    → IsWritten last (record { error = none; chk = c; ctrlr = st })
saves-IsWritten last c st same fine = record {
  span = same;
  reports = (λ h. fine, λ h. refl);
  sane = λ s x. absurd (ground arith);
}

module _ {C : Type 0} (cc : Ctrlr C) where
  -- Whichever way a write to the index goes, the chunk keeps its id and its span; an error is
  -- reported exactly if the index is corrupted afterwards; and a chunk with a corrupted index has no
  -- root of an index, if it was so before.
  pub index_write-IsWritten :
      (st : C) (last : ChkInfo) (is_new : Bool) (first_rec last_rec : ℕ) (ri : RecordsInfo)
      → IsWritten last (index_write cc st last is_new first_rec last_rec ri)
  unfolding index_write make_corrupted
  index_write-IsWritten st last is_new first_rec last_rec ri =
      let P = λ (out : Outcome C). IsWritten last out in
      let same : SameSpan last last = (refl, refl, refl) in
      let gap = sub_uint32 last_rec last.last_rec in
      let it : Interval = record {
        p0 = record { ts = ri.min_ts; idx = first_rec };
        p1 = record { ts = ri.max_ts; idx = last_rec };
      } in
      let w = cc.arrange_root st it in
      let w' = cc.on_write st last.idx_root it in
      let broken = record last { idx_corrupted = true; idx_root = no_item } in
      if_case P last.idx_corrupted
        (λ x. fails-IsWritten last last index_corrupted st same x (λ s. s))
        λ fine.
          if_case P (is_new && ltb 0 first_rec)
            (λ x. fails-IsWritten last broken index_corrupted st same refl (λ s x. refl))
            λ x.
              if_case P (ltb 0 last.last_rec && ltb gap sparse_space)
                (λ x. saves-IsWritten last last st same fine)
                λ x.
                  if_case P (last.idx_root.index_id == 0)
                    (λ x.
                      if_case P (ltb (sparse_space * 20) gap)
                        (λ x.
                          fails-IsWritten last broken index_corrupted st same refl (λ s x. refl))
                        λ x.
                          if_case P w.saved
                            (λ x.
                              saves-IsWritten last
                                (record last { last_rec = last_rec; idx_root = w.root }) w.ctrlr
                                same fine)
                            (λ x.
                              fails-IsWritten last broken index_corrupted w.ctrlr same refl
                                (λ s x. refl)))
                    λ x.
                      if_case P w'.saved
                        (λ x.
                          saves-IsWritten last
                            (record last { last_rec = last_rec; idx_root = w'.root }) w'.ctrlr same
                            fine)
                        (λ x.
                          fails-IsWritten last (record broken { last_rec = last_rec }) passed_on
                            w'.ctrlr same refl (λ s x. refl))

  abbrev Sources : Type 0
  Sources = List (ℕ × List ChkInfo)

  abbrev chunks_of : Sources → ℕ → List ChkInfo
  chunks_of m src = elim (lookup m src) [ none ↦ [] | some sc ↦ sc ]

  -- The chunks of every source stay at their places, with spans that do not shrink.
  abbrev pub KeepsSources : Sources → Sources → Type 0
  KeepsSources m m' =
      (s : ℕ) (sc : List ChkInfo)
      → lookup m s ≡ some sc
      → (sc' : List ChkInfo) × (lookup m' s ≡ some sc') × Widens sc sc'

  -- The last chunk of a source is the one that the notification is about.
  abbrev pub EndsNoted : Sources → ℕ → RecordsInfo → Type 0
  EndsNoted m src ri =
      (before : List ChkInfo) × (c : ChkInfo) × (lookup m src ≡ some (before ++ c ∷ []))
      × IsNoted ri c

  abbrev put_back : Sources → ℕ → RecordsInfo → ChkInfo → Sources
  put_back m src ri c = insert m src ((note (chunks_of m src) ri).before ++ c ∷ [])

  -- The noted chunk written back, with any change of its index.
  put-KeepsSources :
      (m : Sources) (src : ℕ) (ri : RecordsInfo) (c : ChkInfo)
      → SameSpan (note (chunks_of m src) ri).last c
      → KeepsSources m (put_back m src ri c)
  put-KeepsSources m src ri c same s sc e =
      let sc' = (note (chunks_of m src) ri).before ++ c ∷ [] in
      let l = lookup-insert m src s sc' in
      elim (ℕ_discrete src s) [
        | yes h ↦
            (let known : chunks_of m src ≡ sc =
                ap (λ o. elim o [ none ↦ [] | some z ↦ z ]) (ap (lookup m) h ∙ e) in
              (
                sc',
                l ∙ (ground arith),
                subst (λ z. Widens z sc') known (note-Widens (chunks_of m src) ri c same),
              ))
        | no ne ↦ (sc, l ∙ (ground arith), Widens-refl sc)
      ]

  put-EndsNoted :
      (m : Sources) (src : ℕ) (ri : RecordsInfo) (c : ChkInfo)
      → SameSpan (note (chunks_of m src) ri).last c
      → EndsNoted (put_back m src ri c) src ri
  put-EndsNoted m src ri c (same_id, starts, ends) =
      let n = note-IsNoted (chunks_of m src) ri in
      let before = (note (chunks_of m src) ri).before in
      let l = lookup-insert m src src (before ++ c ∷ []) in
      (
        before,
        c,
        l ∙ (ground arith),
        record {
          same_id = same_id ∙ n.same_id;
          starts = (let a = n.starts in subst (λ z. z ≤ℤ ri.min_ts) (sym starts) a);
          ends = (let a = n.ends in subst (λ z. ri.max_ts ≤ℤ z) (sym ends) a);
        },
      )

  -- After onWrite, whichever way it goes, the chunks of every source are at their places with spans
  -- that did not shrink, and the last chunk of the source is the one that was written to, with the
  -- span of the notification in its own.
  pub on_write-Widens :
      (locked : Bool) (ci : Cindex C) (src first_rec last_rec : ℕ) (ri : RecordsInfo)
      → KeepsSources ci.journals (on_write cc locked ci src first_rec last_rec ri).1.journals
        × EndsNoted (on_write cc locked ci src first_rec last_rec ri).1.journals src ri
  unfolding on_write
  on_write-Widens locked ci src first_rec last_rec ri =
      let n = note (chunks_of ci.journals src) ri in
      let out = index_write cc ci.cc n.last n.is_new first_rec last_rec ri in
      let w = index_write-IsWritten ci.cc n.last n.is_new first_rec last_rec ri in
      if_case
        (λ (r : Option Err × Cindex C).
          KeepsSources ci.journals r.1.journals × EndsNoted r.1.journals src ri)
        locked
        (λ h. (
          put-KeepsSources ci.journals src ri n.last (refl, refl, refl),
          put-EndsNoted ci.journals src ri n.last (refl, refl, refl),
        ))
        (λ h. (
          put-KeepsSources ci.journals src ri out.chk w.span,
          put-EndsNoted ci.journals src ri out.chk w.span,
        ))
