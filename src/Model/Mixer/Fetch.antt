-- ===== src/Model/Mixer/Fetch.antt =====
-- What `selectState` gets from one source.
use logrange.Prelude.{
  ◌≡◌, refl, ◌⊎◌, inl, inr, Bool, true, false, List, [], ◌∷◌, if◌then◌else◌, arith,
}
use logrange.Model.Iterator.{
  Event, Got, event, eof, failed, first_of, first_event, first_eof, first_failed, Iterator,
  IsIterator,
}
use logrange.Model.Mixer.{SrcDesc, fetch}

-- What `fetch` leaves of a source with the events `l` to come.
pub data Fetched {S : Type 0} (valid : S → Type 0) (rest : S → List Event) (may_fail : Type 0)
    (l : List Event) : Bool × SrcDesc S → Type 0 where
  has_event :
      (s : S) (e : Event) (es : List Event)
      → valid s
      → rest s ≡ l
      → l ≡ e ∷ es
      → Fetched valid rest may_fail l (true, record { it = s; at_eof = false; ev = e })
  has_none :
      (s : S) (e : Event)
      → valid s
      → rest s ≡ l
      → l ≡ []
      → Fetched valid rest may_fail l (true, record { it = s; at_eof = true; ev = e })
  has_failed :
      (s : S) (e : Event)
      → valid s
      → rest s ≡ l
      → may_fail
      → Fetched valid rest may_fail l (false, record { it = s; at_eof = false; ev = e })

module _ {S : Type 0} (i : Iterator S) (valid : S → Type 0) (rest : S → List Event)
    (may_fail : Type 0) (ok : IsIterator i valid rest may_fail) where
  pub fetch-Fetched :
      (src : SrcDesc S)
      → valid src.it
      → (src.at_eof ≡ true → rest src.it ≡ [])
      → Fetched valid rest may_fail (rest src.it) (fetch i src)
  unfolding fetch
  fetch-Fetched src v at_end =
      go src.at_eof at_end (i.get src.it) (ok.get_valid src.it v) (ok.get_rest src.it v)
        (ok.get_first src.it v)
    where
      go :
          (b : Bool)
          → (b ≡ true → rest src.it ≡ [])
          → (r : Got × S) → valid r.1
          → rest r.1 ≡ rest src.it
          → (r.0 ≡ first_of (rest src.it)) ⊎ (r.0 ≡ failed) × may_fail
          → Fetched valid rest may_fail (rest src.it) (
              if b then (true, record { it = src.it; at_eof = b; ev = src.ev }) else (elim r.0 [
                | event e ↦ (true, record { it = r.1; at_eof = b; ev = e })
                | eof ↦ (true, record { it = r.1; at_eof = true; ev = src.ev })
                | failed ↦ (false, record { it = r.1; at_eof = b; ev = src.ev })
              ]))
      go true end r v' same first = has_none src.it src.ev v refl (end refl)
      go false end (event e, s') v' same first = elim first [
        | inl h ↦ (let (es, f) = first_event (rest src.it) e h in has_event s' e es v' same f)
        | inr (h, m) ↦ absurd (ground arith)
      ]
      go false end (eof, s') v' same first = elim first [
        | inl h ↦ has_none s' src.ev v' same (first_eof (rest src.it) h)
        | inr (h, m) ↦ absurd (ground arith)
      ]
      go false end (failed, s') v' same first = elim first [
        | inl h ↦ absurd (first_failed (rest src.it) h)
        | inr (h, m) ↦ has_failed s' src.ev v' same m
      ]
