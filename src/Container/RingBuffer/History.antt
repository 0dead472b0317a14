-- ===== src/Container/RingBuffer/History.antt =====
-- A history of pushes onto a ring buffer.
use mathlib.Core.List.{append_assoc, append-nil}
use logrange.Prelude.{
  ℕ, suc, ◌-◌, ◌≤◌, ◌<◌, ◌≡◌, true, false, arith, length, List, ◌++◌, ◌∷◌, [], drop, length-append,
  ap, sym, ◌==◌, ℕ_discrete,
}
use logrange.Container.RingBuffer.{RingBuffer, push}
use logrange.Container.RingBuffer.Window.{IsValid, length-push}
use logrange.Container.RingBuffer.Refine.{Shows, push_queue, push_refines}

module _ {A : Type 0} where
  -- a series of pushes
  unfoldable pub push_all : RingBuffer A → List A → RingBuffer A
  push_all rb [] = rb
  push_all rb (x ∷ xs) = push_all (push rb x).0 xs

  -- the last `k` elements
  abbrev pub last_of : ℕ → List A → List A
  last_of k l = drop (length l - k) l

  last_of-cons : (k : ℕ) (y : A) (w : List A) → k ≤ length w → last_of k (y ∷ w) ≡ last_of k w
  last_of-cons k y w h = let e : suc (length w) - k ≡ suc (length w - k) = omega arith in rw e

  last_of-push_queue :
      (k : ℕ) (q : List A) (x : A) (xs : List A)
      → 0 < k
      → length q ≤ k
      → last_of k (push_queue k q x ++ xs) ≡ last_of k (q ++ x ∷ xs)
  unfolding push_queue
  last_of-push_queue k [] x xs h fits =
      let e : (0 == k) ≡ false = ground arith in rw (e, push_queue)
  last_of-push_queue k (y ∷ q) x xs h fits = elim (ℕ_discrete (suc (length q)) k) [
    | yes e ↦
        let t : (suc (length q) == k) ≡ true = ground arith in
        rw (t, push_queue, append_assoc)
          (sym (last_of-cons k y (q ++ x ∷ xs) (omega (arith, length-append q (x ∷ xs)))))
    | no ne ↦
        let f : (suc (length q) == k) ≡ false = ground arith in
        rw (f, push_queue) (ap (λ l. last_of k (y ∷ l)) (append_assoc q (x ∷ []) xs))
  ]

  -- After a series of pushes a valid buffer shows the last `Capacity()` elements of what it held
  -- followed by what was pushed.
  pub push_all-Shows :
      (rb : RingBuffer A) (q xs : List A)
      → IsValid rb
      → Shows rb q
      → Shows (push_all rb xs) (last_of (length rb.v) (q ++ xs))
  unfolding push_all
  push_all-Shows rb q [] ok shows =
      let e : length q - length rb.v ≡ 0 = omega (arith, shows.count, ok.len_in) in
      rw (append-nil, e) shows
  push_all-Shows rb q (x ∷ xs) ok shows =
      let (shows', ok') = push_refines rb q ok shows x in
      rw
        (
          ← length-push rb x,
          ← last_of-push_queue (length (push rb x).0.v) q x xs
              (omega (arith, length-push rb x, ok.head_in))
              (omega (arith, length-push rb x, shows.count, ok.len_in)),
        )
        (push_all-Shows (push rb x).0 (push_queue (length (push rb x).0.v) q x) xs ok'
          (rw length-push shows'))
