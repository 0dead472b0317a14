-- ===== src/Tmindex/Cindex/Chunks.antt =====
-- pkg/tmindex/cindex.go: the slices of chunks ordered by their ids, searched and merged.
use logrange.Prelude.{
  ℕ, zero, suc, ◌+◌, ◌/◌, ◌<◌, ◌≤◌, ◌≡◌, ◌↔◌, sym, ap, subst, ◌∙◌, ltb, ◌==◌, List, [], ◌∷◌, Option,
  some, arith, tests, length, get_elem?, get_elem?_of_lt,
}
use mathlib.Core.Option.{some-injective}
use logrange.Prelude.Cases.{option_case, bool_case}
use logrange.Tmindex.Cindex.{ChkInfo, find_loop, find_chunk_idx}

-- The ids increase, from a bound on.
pub data IsAscending : ℕ → List ChkInfo → Type 0 where
  empty : (b : ℕ) → IsAscending b []
  next :
      (b : ℕ) (c : ChkInfo) (sc : List ChkInfo)
      → b ≤ c.id
      → IsAscending (suc c.id) sc
      → IsAscending b (c ∷ sc)

pub IsAscending_bound :
    (b : ℕ) (sc : List ChkInfo) (k : ℕ) (c : ChkInfo)
    → IsAscending b sc
    → get_elem? sc k ≡ some c
    → b ≤ c.id
IsAscending_bound b [] k c a e = absurd (ground arith)
IsAscending_bound b (d ∷ sc) zero c (next _ _ _ le a) e =
    subst (λ z. b ≤ z.id) (some-injective d c e) le
IsAscending_bound b (d ∷ sc) (suc k) c (next _ _ _ le a) e =
    let ih = IsAscending_bound (suc d.id) sc k c a e in omega arith

IsAscending_lt :
    (b : ℕ) (sc : List ChkInfo) (k l : ℕ) (c d : ChkInfo)
    → IsAscending b sc
    → k < l
    → get_elem? sc k ≡ some c
    → get_elem? sc l ≡ some d
    → c.id < d.id
IsAscending_lt b [] k l c d a lt ek el = absurd (ground arith)
IsAscending_lt b (x ∷ sc) k zero c d a lt ek el = absurd (omega arith)
IsAscending_lt b (x ∷ sc) zero (suc l) c d (next _ _ _ le a) lt ek el =
    let ih = IsAscending_bound (suc x.id) sc l d a el in
    subst (λ z. z.id < d.id) (some-injective x c ek) (omega arith)
IsAscending_lt b (x ∷ sc) (suc k) (suc l) c d (next _ _ _ le a) lt ek el =
    IsAscending_lt (suc x.id) sc k l c d a (omega arith) ek el

IsAscending_order :
    (b : ℕ) (sc : List ChkInfo) (k l : ℕ) (c d : ChkInfo)
    → IsAscending b sc
    → get_elem? sc k ≡ some c
    → get_elem? sc l ≡ some d
    → (k < l → c.id < d.id) × (k ≡ l → c.id ≡ d.id) × (l < k → d.id < c.id)
IsAscending_order b sc k l c d a ek el = (
  λ lt. IsAscending_lt b sc k l c d a lt ek el,
  λ eq. ap (λ z. z.id) (some-injective c d (sym ek ∙ ap (get_elem? sc) eq ∙ el)),
  λ lt. IsAscending_lt b sc l k d c a lt el ek,
)

inside : (sc : List ChkInfo) (k : ℕ) (c : ChkInfo) → get_elem? sc k ≡ some c → k < length sc
inside [] k c e = absurd (ground arith)
inside (d ∷ sc) zero c e = omega arith
inside (d ∷ sc) (suc k) c e = let ih = inside sc k c e in omega arith

-- The chunk at an index has the id.
abbrev pub HasId : List ChkInfo → ℕ → ℕ → Type 0
HasId sc cid k = (c : ChkInfo) × (get_elem? sc k ≡ some c) × (c.id ≡ cid)

find_loop-HasId :
    (sc : List ChkInfo) (cid n i j k : ℕ) → find_loop sc cid n i j ≡ some k → HasId sc cid k
unfolding find_loop
find_loop-HasId sc cid zero i j k = λ e. absurd (ground arith)
find_loop-HasId sc cid (suc n) i j k =
    let h = (i + j) / 2 in
    let P = λ (o : Option ℕ). o ≡ some k → HasId sc cid k in
    bool_case P (ltb i j)
      (λ lt.
        option_case P (get_elem? sc h) (λ e r. absurd (ground arith))
          λ c e.
            bool_case P (c.id == cid)
              (λ same r.
                (c, subst (λ z. get_elem? sc z ≡ some c) (some-injective h k r) e, ground arith))
              λ other.
                bool_case P (ltb c.id cid) (λ up. find_loop-HasId sc cid n (h + 1) j k)
                  (λ down. find_loop-HasId sc cid n i h k))
      (λ ge r. absurd (ground arith))

find_loop_finds :
    (sc : List ChkInfo) (cid n i j k b : ℕ) (c : ChkInfo)
    → IsAscending b sc
    → get_elem? sc k ≡ some c
    → c.id ≡ cid
    → i ≤ k
    → k < j
    → j ≤ length sc
    → j ≤ i + n
    → find_loop sc cid n i j ≡ some k
unfolding find_loop
find_loop_finds sc cid zero i j k b c a e same lo hi top fuel = absurd (omega arith)
find_loop_finds sc cid (suc n) i j k b c a e same lo hi top fuel =
    let h = (i + j) / 2 in
    let P = λ (o : Option ℕ). o ≡ some k in
    bool_case P (ltb i j)
      (λ lt.
        option_case P (get_elem? sc h)
          (λ e'.
            let (d, ed) = get_elem?_of_lt sc h (omega (tests, lt, top)) in absurd (ground arith))
          λ d ed.
            bool_case P (d.id == cid)
              (λ eq.
                ap some (let (l, m, g) = IsAscending_order b sc h k d c a ed e in ground arith))
              λ other.
                let (l, m, g) = IsAscending_order b sc h k d c a ed e in
                bool_case P (ltb d.id cid)
                  (λ up.
                    find_loop_finds sc cid n (h + 1) j k b c a e same (ground arith) hi top
                      (omega arith))
                  (λ down.
                    find_loop_finds sc cid n i h k b c a e same lo (ground arith) (omega arith)
                      (omega arith)))
      (λ ge. absurd (ground arith))

-- In a slice ordered by ids, findChunkIdx answers an index exactly if the chunk there has the id.
pub find_chunk_idx_lem :
    (sc : List ChkInfo) (cid k b : ℕ)
    → IsAscending b sc
    → (find_chunk_idx sc cid ≡ some k) ↔ HasId sc cid k
unfolding find_chunk_idx
find_chunk_idx_lem sc cid k b a = (
  find_loop-HasId sc cid (length sc) 0 (length sc) k,
  λ (c, e, same).
      find_loop_finds sc cid (length sc) 0 (length sc) k b c a e same (omega arith)
        (inside sc k c e) (omega arith) (omega arith),
)
