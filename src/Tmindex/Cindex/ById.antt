-- ===== src/Tmindex/Cindex/ById.antt =====
-- Slices of chunks ordered by their ids, compared by what each id finds.
use logrange.Prelude.{
  ℕ, zero, suc, ◌==◌, List, [], ◌∷◌, Option, some, refl, ◌≡◌, ap, subst, ◌∙◌, map, arith, get_elem?,
}
use mathlib.Core.Option.{some-injective}
use logrange.Prelude.Cases.{if_case}
use logrange.Partition.Selector.{Chunk}
use logrange.Tmindex.Cindex.{ChkInfo}
use logrange.Tmindex.Cindex.Chunks.{IsAscending, next, IsAscending_bound}
use logrange.Tmindex.Cindex.Merge.{by_id, by_id_of_lt}
use logrange.Tmindex.Cindex.Sync.Filled.{ids}

pub by_id_of_member :
    (b : ℕ) (sc : List ChkInfo) (k : ℕ) (c : ChkInfo)
    → IsAscending b sc
    → get_elem? sc k ≡ some c
    → by_id sc c.id ≡ some c
by_id_of_member b [] k c a e = absurd (ground arith)
by_id_of_member b (d ∷ sc) zero c a e = let same = some-injective d c e in ground arith
by_id_of_member b (d ∷ sc) (suc k) c (next _ _ _ le a) e =
    let above = IsAscending_bound (suc d.id) sc k c a e in
    let ih = by_id_of_member (suc d.id) sc k c a e in ground arith

pub by_id-id : (sc : List ChkInfo) (k : ℕ) (c : ChkInfo) → by_id sc k ≡ some c → c.id ≡ k
by_id-id [] k c = λ e. absurd (ground arith)
by_id-id (d ∷ sc) k c =
    if_case (λ (o : Option ChkInfo). o ≡ some c → c.id ≡ k) (d.id == k)
      (λ h e. subst (λ z. z.id ≡ k) (some-injective d c e) (ground arith)) (λ h. by_id-id sc k c)

-- Slices with the same ids, where the second has the chunks of the first, are the same.
pub same_chunks :
    (b : ℕ) (sc sc' : List ChkInfo)
    → IsAscending b sc
    → ids sc' ≡ ids sc
    → ((k : ℕ) (c c' : ChkInfo) → by_id sc k ≡ some c → by_id sc' k ≡ some c' → c' ≡ c)
    → sc' ≡ sc
same_chunks b [] [] a e keeps = refl
same_chunks b [] (c' ∷ sc') a e keeps = absurd (ground arith)
same_chunks b (c ∷ sc) [] a e keeps = absurd (ground arith)
same_chunks b (c ∷ sc) (c' ∷ sc') (next _ _ _ le a) e keeps =
    let same : c'.id ≡ c.id = ground arith in
    let heads : c' ≡ c = keeps c.id c c' (ground arith) (ground arith) in
    let tails : sc' ≡ sc = same_chunks (suc c.id) sc sc' a (ground arith) λ k d d' ed ed'.
      let absent = by_id_of_lt (suc c.id) sc c.id a (omega arith) in
      keeps k d d' (ground arith) (ground arith) in
    ap (λ z. z ∷ sc') heads ∙ ap (λ z. c ∷ z) tails

pub same_ids_at :
    (sc : List ChkInfo) (cks : List Chunk) (i : ℕ) (ch : Chunk)
    → ids sc ≡ map (λ ch. ch.id) cks
    → get_elem? cks i ≡ some ch
    → (c : ChkInfo) × (get_elem? sc i ≡ some c) × (c.id ≡ ch.id)
same_ids_at sc [] i ch e at = absurd (ground arith)
same_ids_at [] (d ∷ cks) i ch e at = absurd (ground arith)
same_ids_at (c ∷ sc) (d ∷ cks) zero ch e at =
    (c, refl, subst (λ z. c.id ≡ z.id) (some-injective d ch at) (ground arith))
same_ids_at (c ∷ sc) (d ∷ cks) (suc i) ch e at = same_ids_at sc cks i ch (ground arith) at
