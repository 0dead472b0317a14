-- ===== src/Tmindex/Cindex/Sync/Filled.antt =====
-- lightFill finds every chunk that it is to fill.
use logrange.Prelude.{
  ℕ, suc, ◌<◌, ◌==◌, List, [], ◌∷◌, Option, none, some, refl, ◌≡◌, sym, subst, map, arith,
}
use logrange.Prelude.Int.{pos, ltb_ℤ}
use logrange.Prelude.Cases.{option_case, if_case, bool_case}
use logrange.Tmindex.Cindex.{ChkInfo, ChunkData}
use logrange.Tmindex.Cindex.Chunks.{IsAscending, next}
use logrange.Tmindex.Cindex.Sync.{skip_to, fill, light_fill, timestamp_at}

abbrev pub ids : List ChkInfo → List ℕ
ids sc = map (λ c. c.id) sc

pub IsAscending_of_ids :
    (b : ℕ) (sc sc' : List ChkInfo) → ids sc' ≡ ids sc → IsAscending b sc → IsAscending b sc'
IsAscending_of_ids b [] [] e a = a
IsAscending_of_ids b [] (c' ∷ sc') e a = absurd (ground arith)
IsAscending_of_ids b (c ∷ sc) [] e a = absurd (ground arith)
IsAscending_of_ids b (c ∷ sc) (c' ∷ sc') e (next _ _ _ le a) =
    let same : c'.id ≡ c.id = ground arith in
    next b c' sc' (omega (arith, same)) (
      subst (λ z. IsAscending (suc z) sc') (sym same)
        (IsAscending_of_ids (suc c.id) sc sc' (ground arith) a))

-- Every chunk of the first list has its id in the second, in the same order.
pub data Within : List ChkInfo → List ChunkData → Type 0 where
  nothing : (cks : List ChunkData) → Within [] cks
  here :
      (c : ChkInfo) (sc : List ChkInfo) (ck : ChunkData) (cks : List ChunkData)
      → ck.id ≡ c.id
      → Within sc (ck ∷ cks)
      → Within (c ∷ sc) (ck ∷ cks)
  there :
      (c : ChkInfo) (sc : List ChkInfo) (ck : ChunkData) (cks : List ChunkData)
      → ck.id < c.id
      → Within (c ∷ sc) cks
      → Within (c ∷ sc) (ck ∷ cks)

Within-before :
    (b : ℕ) (sc : List ChkInfo) (ck : ChunkData) (cks : List ChunkData)
    → IsAscending b sc
    → ck.id < b
    → Within sc cks
    → Within sc (ck ∷ cks)
Within-before b [] ck cks a lt w = nothing (ck ∷ cks)
Within-before b (c ∷ sc) ck cks (next _ _ _ le a) lt w = there c sc ck cks (omega arith) w

Within-tail :
    (b : ℕ) (c : ChkInfo) (sc : List ChkInfo) (cks : List ChunkData)
    → IsAscending b (c ∷ sc)
    → Within (c ∷ sc) cks
    → Within sc cks
Within-tail b c sc [] a w = elim w [ ]
Within-tail b c sc (ck ∷ cks) a (here _ _ _ _ e w) = w
Within-tail b c sc (ck ∷ cks) (next _ _ _ le a) (there _ _ _ _ lt w) =
    Within-before (suc c.id) sc ck cks a (omega arith) (Within-tail b c sc cks (next b c sc le a) w)

pub Within-of_ids :
    (b : ℕ) (sc : List ChkInfo) (cks : List ChunkData)
    → IsAscending b sc
    → ids sc ≡ map (λ ck. ck.id) cks
    → Within sc cks
Within-of_ids b [] cks a e = nothing cks
Within-of_ids b (c ∷ sc) [] a e = absurd (ground arith)
Within-of_ids b (c ∷ sc) (ck ∷ cks) (next _ _ _ le a) e = here c sc ck cks (ground arith) (
    Within-before (suc c.id) sc ck cks a (ground arith)
      (Within-of_ids (suc c.id) sc cks a (ground arith)))

abbrev Finds : ChkInfo → List ChkInfo → List ChunkData → Type 0
Finds c sc cks =
    (chk : ChunkData) × (cks' : List ChunkData) × (skip_to c.id cks ≡ chk ∷ cks')
    × (chk.id ≡ c.id)
    × Within sc (chk ∷ cks')

skip_to-Finds :
    (c : ChkInfo) (sc : List ChkInfo) (cks : List ChunkData) → Within (c ∷ sc) cks → Finds c sc cks
unfolding skip_to
skip_to-Finds c sc [] w = elim w [ ]
skip_to-Finds c sc (ck ∷ cks) (here _ _ _ _ e w) = (ck, cks, ground arith, e, w)
skip_to-Finds c sc (ck ∷ cks) (there _ _ _ _ lt w) =
    let (chk, cks', e, same, w') = skip_to-Finds c sc cks w in (chk, cks', ground arith, same, w')

fill-id : (c : ChkInfo) (chk : ChunkData) → (fill c chk).id ≡ c.id
unfolding fill
fill-id c chk =
    let P = λ (d : ChkInfo). d.id ≡ c.id in
    if_case P (chk.count == 0) (λ h. refl)
      λ h.
        option_case P chk.iterator (λ e. refl)
          λ recs e.
            option_case P (timestamp_at recs 0) (λ e. refl)
              λ ts1 e.
                option_case P (timestamp_at recs _) (λ e. refl)
                  λ ts2 e. if_case P (ltb_ℤ ts2 ts1) (λ h. refl) (λ h. refl)

abbrev pub IsFilled : List ChkInfo → Option (List ChkInfo) → Type 0
IsFilled sc o = (sc' : List ChkInfo) × (o ≡ some sc') × (ids sc' ≡ ids sc)

cons-IsFilled :
    (c d : ChkInfo) (sc : List ChkInfo) (o : Option (List ChkInfo))
    → d.id ≡ c.id
    → IsFilled sc o
    → IsFilled (c ∷ sc) (elim o [ none ↦ none | some sc' ↦ some (d ∷ sc') ])
cons-IsFilled c d sc none same (sc', e, i) = absurd (ground arith)
cons-IsFilled c d sc (some rest) same (sc', e, i) = (d ∷ rest, refl, ground arith)

-- No panic, and the chunks keep their ids.
pub light_fill_lem :
    (b : ℕ) (cks : List ChunkData) (sc : List ChkInfo)
    → IsAscending b sc
    → Within sc cks
    → IsFilled sc (light_fill cks sc)
unfolding light_fill
light_fill_lem b cks [] a w = ([], refl, refl)
light_fill_lem b cks (c ∷ sc) (next _ _ _ le a) w =
    let P = IsFilled (c ∷ sc) in
    let tail = Within-tail b c sc cks (next b c sc le a) w in
    bool_case P (ltb_ℤ (pos 0) c.max_ts)
      (λ filled.
        cons-IsFilled c c sc (light_fill cks sc) refl (light_fill_lem (suc c.id) cks sc a tail))
      (λ unknown.
        let (chk, cks', e, same, w') = skip_to-Finds c sc cks w in
        rw e (
          bool_case P (chk.id == c.id)
            (λ h.
              cons-IsFilled c (fill c chk) sc (light_fill (chk ∷ cks') sc) (fill-id c chk)
                (light_fill_lem (suc c.id) (chk ∷ cks') sc a w'))
            (λ h. absurd (ground arith))))
