-- ===== src/Partition/Selector/Chunks.antt =====
-- What `getChunkByIdOrGreater` and `getChunkByIdOrLess` find in a journal.
use logrange.Prelude.{
  ℕ, ◌≤◌, ◌<◌, ◌≡◌, ◌↔◌, List, some, arith, ltb, dec_lt, length, get_elem?, get_elem?_of_lt,
  get_elem?_of_le, ◌∙◌, sym, ap, dec_lt,
}
use mathlib.Core.Option.{some-injective}
use logrange.Prelude.Bisect.{bisect-Cut, bisect_splits}
use logrange.Partition.Selector.{
  Chunk, id_at, get_chunk_by_id_or_greater, get_chunk_by_id_or_less_1,
}

-- The chunks of a journal have ascending ids.
pub record IsAscending (cks : List Chunk) : Type 0 where
  pub ascending :
      (i j : ℕ) (ci cj : Chunk)
      → i < j
      → get_elem? cks i ≡ some ci
      → get_elem? cks j ≡ some cj
      → ci.id < cj.id

pub get_elem?-lt :
    (cks : List Chunk) (i : ℕ) (c : Chunk) → get_elem? cks i ≡ some c → i < length cks
get_elem?-lt cks i c e = ground (arith, get_elem?_of_le cks i)

pub id_at_lem :
    (cks : List Chunk) (i : ℕ) (c : Chunk) → get_elem? cks i ≡ some c → id_at cks i ≡ c.id
unfolding id_at
id_at_lem cks i c e = rw (e, id_at)

module _ (cks : List Chunk) (cid : ℕ) (asc : IsAscending cks) where
  id_at_mono : (i j : ℕ) → i ≤ j → j < length cks → id_at cks i ≤ id_at cks j
  id_at_mono i j ij jn =
      let (ci, ei) = get_elem?_of_lt cks i (omega arith) in
      let (cj, ej) = get_elem?_of_lt cks j jn in
      ground (arith, id_at_lem cks i ci ei, id_at_lem cks j cj ej, asc.ascending i j ci cj)

  -- In a journal with ascending ids `getChunkByIdOrGreater` answers the number of chunks with a
  -- smaller id.
  pub get_chunk_by_id_or_greater_lem :
      (get_chunk_by_id_or_greater cks cid ≤ length cks)
      × ((i : ℕ) (c : Chunk)
          → get_elem? cks i ≡ some c
          → (c.id < cid) ↔ (i < get_chunk_by_id_or_greater cks cid))
  unfolding get_chunk_by_id_or_greater
  get_chunk_by_id_or_greater_lem = (
    (bisect-Cut (λ h. ltb (id_at cks h) cid) (length cks)).inside,
    λ i c e.
        let lt = get_elem?-lt cks i c e in
        let s =
          bisect_splits (λ h. ltb (id_at cks h) cid) (length cks)
            (λ a b ab bn h. ground (arith, id_at_mono a b ab bn)) i lt in
        let d = id_at_lem cks i c e in
        ((λ h. s.0 (ground arith)), λ h. let t = s.1 h in ground arith),
  )

  -- In a journal with ascending ids `getChunkByIdOrLess` answers one less than the number of chunks
  -- with an id up to the given one.
  pub get_chunk_by_id_or_less_lem :
      (get_chunk_by_id_or_less_1 cks cid ≤ length cks)
      × ((i : ℕ) (c : Chunk)
          → get_elem? cks i ≡ some c
          → (c.id ≤ cid) ↔ (i < get_chunk_by_id_or_less_1 cks cid))
  unfolding get_chunk_by_id_or_less_1
  get_chunk_by_id_or_less_lem =
      let (bound, splits) = get_chunk_by_id_or_greater_lem in
      let g = get_chunk_by_id_or_greater cks cid in
      elim (dec_lt g (length cks)) [
        | no ge ↦ (
          ground arith,
          λ i c e.
              let lt = get_elem?-lt cks i c e in
              let t = splits i c e in (λ h. ground arith, λ h. ground arith),
        )
        | yes lt ↦
            let (cg, eg) = get_elem?_of_lt cks g lt in
            let d = id_at_lem cks g cg eg in
            let tg = splits g cg eg in
            (
              ground arith,
              λ i c e.
                  let li = get_elem?-lt cks i c e in
                  let t = splits i c e in
                  let below : i < g → c.id < cg.id = λ h. asc.ascending i g c cg h e eg in
                  let above : g < i → cg.id < c.id = λ h. asc.ascending g i cg c h eg e in
                  let same : i ≡ g → c.id ≡ cg.id =
                    λ h. ap (λ x. x.id) (some-injective c cg (sym e ∙ (rw h eg))) in
                  (λ h. ground arith, λ h. ground arith),
            )
      ]
