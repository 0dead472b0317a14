-- ===== src/Partition/Listing/Limits.antt =====
-- The offset and the limit of Partitions: which part of the list they cut out, and what negative ones
-- come to on 64 bits.
use logrange.Prelude.{
  ℕ, zero, suc, ◌+◌, ◌-◌, ◌≤◌, ◌<◌, ◌≡◌, ◌⊎◌, refl, sym, ap, ◌∙◌, List, [], ◌∷◌, some, ltb,
  if◌then◌else◌, length, get_elem?, get_elem?_of_lt, take, drop, arith, Bool-cases, inl, inr,
}
use logrange.Prelude.Int.{ℤ, pos, negsuc, ltb_ℤ, ◌-ℤ◌}
use logrange.Partition.Truncate.{word64, word63}
use logrange.Partition.Listing.{PartitionInfo, wrap_int64, page}

drop_next :
    {A : Type 0} (i : ℕ) (xs : List A) (a : A)
    → get_elem? xs i ≡ some a
    → drop i xs ≡ a ∷ drop (i + 1) xs
drop_next i [] a e = absurd (ground arith)
drop_next zero (x ∷ xs) a e = ground arith
drop_next (suc i) (x ∷ xs) a e =
    let s : suc i + 1 ≡ suc (i + 1) = omega arith in rw s (drop_next i xs a e)

pub page_lem :
    {T : Type 0} (n i : ℕ) (parts : List (PartitionInfo T))
    → i + n ≤ length parts
    → page n (pos i) parts ≡ some (take n (drop i parts))
unfolding page
page_lem zero i parts h = refl
page_lem (suc n) i parts h =
    let (p, e) = get_elem?_of_lt parts i (omega arith) in
    let ih = page_lem n (i + 1) parts (omega arith) in
    rw (e, page) (rw (ih, page) (rw (drop_next i parts p e) refl))

pub drop_of_le : {A : Type 0} (n : ℕ) (xs : List A) → length xs ≤ n → drop n xs ≡ []
drop_of_le zero [] h = refl
drop_of_le zero (x ∷ xs) h = absurd (omega arith)
drop_of_le (suc n) [] h = refl
drop_of_le (suc n) (x ∷ xs) h = drop_of_le n xs (omega arith)

pub take_of_le : {A : Type 0} (n : ℕ) (xs : List A) → length xs ≤ n → take n xs ≡ xs
take_of_le zero [] h = refl
take_of_le zero (x ∷ xs) h = absurd (omega arith)
take_of_le (suc n) [] h = refl
take_of_le (suc n) (x ∷ xs) h = ap (λ l. x ∷ l) (take_of_le n xs (omega arith))

pub take_cut :
    {A : Type 0} (n sz : ℕ) (xs : List A)
    → sz ≡ length xs
    → take (if ltb sz n then sz else n) xs ≡ take n xs
take_cut n sz xs e = elim (Bool-cases (ltb sz n)) [
  | inl short ↦ rw short (take_of_le sz xs (omega arith) ∙ sym (take_of_le n xs (ground arith)))
  | inr enough ↦ rw enough
]

-- At most 1000 partitions are answered.
abbrev pub at_most : ℕ → ℕ
at_most limit = if ltb 1000 limit then 1000 else limit

-- The limit and the number of partitions from the offset on, as integers.
abbrev smaller : ℤ → ℤ → ℤ
smaller sz limit =
    let wanted = if ltb_ℤ (pos 1000) limit then pos 1000 else limit in
    if ltb_ℤ sz wanted then sz else wanted

pub smaller_pos :
    (sz limit : ℕ)
    → smaller (pos sz) (pos limit) ≡ pos (if ltb sz (at_most limit) then sz else at_most limit)
smaller_pos sz limit = ground arith

pub smaller_negative : (sz : ℤ) (k : ℕ) → (j : ℕ) × (smaller sz (negsuc k) ≡ negsuc j)
smaller_negative (pos sz) k = (k, ground arith)
smaller_negative (negsuc sz) k = elim (Bool-cases (ltb_ℤ (negsuc sz) (negsuc k))) [
  | inl less ↦ (sz, ground arith)
  | inr more ↦ (k, ground arith)
]

pub sub_inside :
    (n offset : ℕ) → offset < n → n < word63 → wrap_int64 (pos n -ℤ pos offset) ≡ pos (n - offset)
unfolding ◌-ℤ◌
sub_inside n offset lt short = ground arith

-- With a negative offset the difference is positive, or is too large and wraps to a negative one.
pub sub_before :
    (n k limit : ℕ)
    → n < word63
    → k < word63
    → ((j : ℕ) × (smaller (wrap_int64 (pos n -ℤ negsuc k)) (pos (suc limit)) ≡ pos (suc j)))
      ⊎ ((j : ℕ) × (smaller (wrap_int64 (pos n -ℤ negsuc k)) (pos (suc limit)) ≡ negsuc j))
unfolding ◌-ℤ◌
sub_before n k limit short small = elim (Bool-cases (ltb (n + suc k) word63)) [
  | inl fits ↦ elim (Bool-cases (ltb (n + suc k) (at_most (suc limit)))) [
    | inl few ↦ inl (n + k, ground arith)
    | inr enough ↦ inl (at_most (suc limit) - 1, ground arith)
  ]
  | inr wraps ↦ inr (word64 - 1 - (n + suc k), ground arith)
]
