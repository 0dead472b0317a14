-- ===== src/Container/RingBuffer/Refine.antt =====
-- The ring buffer is a queue of at most `Capacity()` elements that forgets its oldest ones.
use logrange.Prelude.{
  ℕ, suc, ◌+◌, ◌-◌, ◌≤◌, ◌<◌, ◌≡◌, refl, none, some, true, false, eq_nil, arith, length, get_elem?,
  set, List, ◌++◌, ◌∷◌, ◌⊎◌, inl, inr, [], drop, length-set, length-drop, length-append,
  get_elem?-set_self, get_elem?-set_ne, get_elem?-append_left, get_elem?-append_right,
  get_elem?-drop, get_elem?_of_le, ◌==◌, if◌then◌else◌, dec_lt, ℕ_discrete,
}
use logrange.Prelude.Int.{ℤ, pos, negsuc}
use logrange.Container.RingBuffer.{
  RingBuffer, get_idx, check_idx, cell, head, tail, at, set_at, advance_head, push,
}
use logrange.Container.RingBuffer.Window.{IsValid, push_full, push_free, push-IsValid, cell_ne}

-- The buffer holds the elements of `q`, the oldest first.
pub record Shows {A : Type 0} (rb : RingBuffer A) (q : List A) : Type 0 where
  pub count : rb.n ≡ length q
  pub items : (i : ℕ) → i < rb.n → get_elem? rb.v (cell rb (pos i)) ≡ get_elem? q i

module _ {A : Type 0} where
  -- A push onto a queue of bounded length.
  unfoldable pub push_queue : ℕ → List A → A → List A
  push_queue cap q x = if length q == cap then drop 1 q ++ x ∷ [] else q ++ x ∷ []

  module _ (rb : RingBuffer A) (q : List A) (ok : IsValid rb) (shows : Shows rb q) where
    push_full-Shows :
        (x : A)
        → rb.n ≡ length rb.v
        → Shows
            (record rb { v = set rb.v rb.h x; h = get_idx rb (pos (rb.h + 1)) })
            (drop 1 q ++ x ∷ [])
    unfolding cell
    push_full-Shows x full = record {
      count = omega (arith, shows.count, length-append (drop 1 q) (x ∷ []), length-drop 1 q);
      items = λ i lt. elim (ℕ_discrete (suc i) rb.n) [
        | yes e ↦ ground (
          arith,
          shows.count,
          length-drop 1 q,
          get_elem?-append_right (drop 1 q) (x ∷ []) i 0,
          length-set rb.v rb.h x,
          get_elem?-set_self rb.v rb.h x,
        )
        | no ne ↦ ground (
          arith,
          shows.count,
          length-drop 1 q,
          get_elem?-append_left (drop 1 q) (x ∷ []) i,
          get_elem?-drop 1 q i (suc i),
          shows.items (suc i),
          length-set rb.v rb.h x,
          get_elem?-set_ne rb.v {i = rb.h} {j = cell rb (pos (suc i))} x,
          cell_ne rb 0 (suc i) ok,
        )
      ];
    }

    push_free-Shows :
        (x : A)
        → rb.n < length rb.v
        → Shows (record rb { v = set rb.v (cell rb (pos rb.n)) x; n = rb.n + 1 }) (q ++ x ∷ [])
    unfolding cell get_idx
    push_free-Shows x free = record {
      count = omega (arith, shows.count, length-append q (x ∷ []));
      items = λ i lt.
          let c = cell rb (pos rb.n) in
          elim (ℕ_discrete i rb.n) [
            | yes e ↦ ground (
              arith,
              shows.count,
              get_elem?-append_right q (x ∷ []) i 0,
              length-set rb.v c x,
              get_elem?-set_self rb.v c x,
            )
            | no ne ↦ ground (
              arith,
              shows.count,
              get_elem?-append_left q (x ∷ []) i,
              shows.items i,
              length-set rb.v c x,
              get_elem?-set_ne rb.v {i = c} {j = cell rb (pos i)} x,
              cell_ne rb rb.n i ok,
            )
          ];
    }

    -- `Push` on a valid buffer is the push of the bounded queue: it appends the element, and a full
    -- buffer loses its oldest one. The invariant is kept.
    pub push_refines :
        (x : A) → Shows (push rb x).0 (push_queue (length rb.v) q x) × IsValid (push rb x).0
    unfolding push_queue
    push_refines x = elim (ℕ_discrete rb.n (length rb.v)) [
      | yes full ↦ (
        rw (push_full rb x ok full) (
            let e : (length q == length rb.v) ≡ true = ground (arith, shows.count) in
            rw e (push_full-Shows x full)),
        push-IsValid rb x ok,
      )
      | no ne ↦ (
        rw (push_free rb x ok (omega (arith, ok.len_in))) (
            let e : (length q == length rb.v) ≡ false = ground (arith, shows.count) in
            rw e (push_free-Shows x (omega (arith, ok.len_in)))),
        push-IsValid rb x ok,
      )
    ]

    head_cell : cell rb (pos 0) ≡ rb.h
    unfolding cell get_idx
    head_cell = ground (arith, ok.head_in)

    -- On a valid buffer `At` reads the queue at every index, and faults exactly outside it.
    pub at_refines : (i : ℤ) → at rb i ≡ elim i [ pos k ↦ get_elem? q k | negsuc k ↦ none ]
    unfolding at check_idx
    at_refines (negsuc k) = refl
    at_refines (pos k) = ground (arith, shows.count, shows.items k, get_elem?_of_le q k)

    -- On a valid buffer `Head` and `Tail` read the two ends of the queue, and fault on an empty one.
    pub head-tail_refines : (head rb ≡ get_elem? q 0) × (tail rb ≡ get_elem? q (length q - 1))
    unfolding head tail cell get_idx
    head-tail_refines = (
      ground (arith, shows.count, shows.items 0, get_elem?_of_le q 0),
      ground
          (arith, ok.head_in, ok.len_in, shows.count, shows.items (rb.n - 1), get_elem?_of_le q 0),
    )

    abbrev advanced : RingBuffer A
    advanced = record rb { h = get_idx rb (pos (rb.h + 1)); n = rb.n - 1 }

    advanced-Shows : 0 < rb.n → Shows advanced (drop 1 q)
    unfolding cell get_idx
    advanced-Shows some_left = record {
      count = omega (arith, shows.count, length-drop 1 q);
      items = λ i lt. ground (
        arith,
        ok.head_in,
        ok.len_in,
        shows.count,
        shows.items (suc i),
        get_elem?-drop 1 q i (suc i),
      );
    }

    advanced-IsValid : 0 < rb.n → IsValid advanced
    unfolding get_idx
    advanced-IsValid some_left = ground (arith, ok.head_in, ok.len_in)

    -- `AdvanceHead` returns the oldest element and takes it off the queue, and faults exactly on an
    -- empty buffer.
    pub advance_head_refines :
        (q ≡ []) × (advance_head rb ≡ none)
        ⊎ ((rb' : RingBuffer A) × (advance_head rb ≡ some (rb', get_elem? q 0))
            × Shows rb' (drop 1 q)
            × IsValid rb')
    unfolding advance_head
    advance_head_refines = elim (dec_lt 0 rb.n) [
      | yes left ↦ inr (
        advanced,
        ground (arith, ok.head_in, ok.len_in, shows.items 0, head_cell),
        advanced-Shows left,
        advanced-IsValid left,
      )
      | no empty ↦ inl (eq_nil q (omega (arith, shows.count)), ground arith)
    ]

    set-Shows :
        (i : ℕ) (x : A)
        → i < rb.n
        → Shows (record rb { v = set rb.v (cell rb (pos i)) x }) (set q i x)
    unfolding cell get_idx
    set-Shows i x inside = record {
      count = omega (arith, shows.count, length-set q i x);
      items = λ j lt.
          let c = cell rb (pos i) in
          elim (ℕ_discrete j i) [
            | yes e ↦ ground (
              arith,
              ok.head_in,
              ok.len_in,
              shows.count,
              length-set rb.v c x,
              get_elem?-set_self rb.v c x,
              get_elem?-set_self q i x,
            )
            | no ne ↦ ground (
              arith,
              ok.head_in,
              ok.len_in,
              shows.count,
              shows.items j,
              length-set rb.v c x,
              get_elem?-set_ne rb.v {i = c} {j = cell rb (pos j)} x,
              get_elem?-set_ne q {i = i} {j = j} x,
              cell_ne rb i j ok,
            )
          ];
    }

    -- `Set` overwrites one element of the queue, and faults exactly outside it.
    pub set_refines :
        (i : ℕ) (x : A)
        → (length q ≤ i) × (set_at rb (pos i) x ≡ none)
          ⊎ ((rb' : RingBuffer A) × (set_at rb (pos i) x ≡ some rb')
              × Shows rb' (set q i x)
              × IsValid rb')
    unfolding set_at
    set_refines i x = elim (dec_lt i rb.n) [
      | yes inside ↦ inr (
        record rb { v = set rb.v (cell rb (pos i)) x },
        ground arith,
        set-Shows i x inside,
        ground (arith, ok.head_in, ok.len_in, length-set rb.v (cell rb (pos i)) x),
      )
      | no outside ↦ inl (omega (arith, shows.count), ground arith)
    ]
