-- ===== src/Utils/Kvstring/Join.antt =====
-- The pieces that `SplitString` answers, put together with the separators, are the string.
use mathlib.Core.Bool.{not}
use mathlib.Core.List.{append_assoc, append-nil}
use mathlib.Core.Option.{some-injective}
use logrange.Prelude.{
  ℕ, ◌≡◌, refl, sym, ap, ◌∙◌, subst, Bool, true, false, ◌&&◌, ◌||◌, ◌==◌, if◌then◌else◌, List, [],
  ◌∷◌, ◌++◌, Option, none, some, arith,
}
use logrange.Utils.Kvstring.{SplitState, split_byte, split_from, split_string}

module _ (kv_sep fld_sep : ℕ) where
  abbrev sep : Bool → ℕ
  sep b = if b then kv_sep else fld_sep

  -- The pieces with the two separators in turn between them, first the one of keys and values if
  -- the flag says so.
  pub join : Bool → List (List ℕ) → List ℕ
  join b [] = []
  join b (p ∷ []) = p
  join b (p ∷ q ∷ ps) = p ++ (if b then kv_sep else fld_sep) ∷ join (not b) (q ∷ ps)

  -- The pieces, each with the separator behind it.
  ended : Bool → List (List ℕ) → List ℕ
  ended b [] = []
  ended b (p ∷ ps) = p ++ sep b ∷ ended (not b) ps

  flips : Bool → List (List ℕ) → Bool
  flips b [] = b
  flips b (p ∷ ps) = flips (not b) ps

  join-snoc : (b : Bool) (ps : List (List ℕ)) (p : List ℕ) → join b (ps ++ p ∷ []) ≡ ended b ps ++ p
  unfolding join ended
  join-snoc b [] p = refl
  join-snoc b (q ∷ []) p = sym (append_assoc q (sep b ∷ []) p)
  join-snoc b (q ∷ r ∷ ps) p =
      ap (λ z. q ++ sep b ∷ z) (join-snoc (not b) (r ∷ ps) p)
      ∙ sym (append_assoc q (sep b ∷ ended (not b) (r ∷ ps)) p)

  ended-snoc :
      (b : Bool) (ps : List (List ℕ)) (p : List ℕ)
      → ended b (ps ++ p ∷ []) ≡ ended b ps ++ (p ++ sep (flips b ps) ∷ [])
  unfolding ended flips
  ended-snoc b [] p = refl
  ended-snoc b (q ∷ ps) p =
      ap (λ z. q ++ sep b ∷ z) (ended-snoc (not b) ps p)
      ∙ sym (append_assoc q (sep b ∷ ended (not b) ps) (p ++ sep (flips (not b) ps) ∷ []))

  flips-snoc :
      (b : Bool) (ps : List (List ℕ)) (p : List ℕ) → flips b (ps ++ p ∷ []) ≡ not (flips b ps)
  unfolding flips
  flips-snoc b [] p = refl
  flips-snoc b (q ∷ ps) p = flips-snoc (not b) ps p

  -- What the loop has read so far.
  abbrev so_far : SplitState → List ℕ
  so_far s = ended true s.buf ++ s.cur

  abbrev IsInTurn : SplitState → Type 0
  IsInTurn s = s.exp_kv ≡ flips true s.buf

  keep_lem : (s : SplitState) (c : ℕ) → ended true s.buf ++ (s.cur ++ c ∷ []) ≡ so_far s ++ c ∷ []
  keep_lem s c = sym (append_assoc (ended true s.buf) s.cur (c ∷ []))

  byte_lem :
      (s s' : SplitState) (c : ℕ)
      → IsInTurn s
      → split_byte kv_sep fld_sep s c ≡ some s'
      → IsInTurn s' × (so_far s' ≡ so_far s ++ c ∷ [])
  unfolding split_byte
  byte_lem s s' c t e =
      go s.skip (c == 34) (c == 92 && s.in_str) ((c == kv_sep || c == fld_sep) && not s.in_str)
        (c == sep s.exp_kv) (λ h. ground arith) e
    where
      after : SplitState → Type 0
      after r = IsInTurn r × (so_far r ≡ so_far s ++ c ∷ [])

      kept : SplitState
      kept = record s { cur = s.cur ++ c ∷ [] }

      go :
          (b1 b2 b3 b4 b5 : Bool)
          → (b5 ≡ true → c ≡ sep s.exp_kv)
          → (if b1
              then some (record kept { skip = false })
              else if b2
              then some (record kept { in_str = not s.in_str })
              else if b3
              then some (record kept { skip = true })
              else if b4
              then (if b5
                  then some
                      (record s { exp_kv = not s.exp_kv; cur = []; buf = s.buf ++ s.cur ∷ [] })
                  else none)
              else some kept)
            ≡ some s'
          → after s'
      go true b2 b3 b4 b5 h e = subst after (some-injective _ s' e) (t, keep_lem s c)
      go false true b3 b4 b5 h e = subst after (some-injective _ s' e) (t, keep_lem s c)
      go false false true b4 b5 h e = subst after (some-injective _ s' e) (t, keep_lem s c)
      go false false false false b5 h e = subst after (some-injective _ s' e) (t, keep_lem s c)
      go false false false true false h e = absurd (ground arith)
      go false false false true true h e = subst after (some-injective _ s' e) (
        ap not t ∙ sym (flips-snoc true s.buf s.cur),
        append-nil _ ∙ ended-snoc true s.buf s.cur ∙ (rw (← t, ← h refl) (keep_lem s c)),
      )

  from_lem :
      (s : SplitState) (cs : List ℕ) (ps : List (List ℕ))
      → IsInTurn s
      → split_from kv_sep fld_sep s cs ≡ some ps
      → join true ps ≡ so_far s ++ cs
  unfolding split_from
  from_lem s [] ps t e = go s.in_str e
    where
      go :
          (b : Bool)
          → (if b then none else some (s.buf ++ s.cur ∷ [])) ≡ some ps
          → join true ps ≡ so_far s ++ []
      go true e = absurd (ground arith)
      go false e =
          subst (λ z. join true z ≡ so_far s ++ []) (some-injective _ ps e)
            (join-snoc true s.buf s.cur ∙ sym (append-nil (so_far s)))
  from_lem s (c ∷ cs) ps t e =
      go (split_byte kv_sep fld_sep s c) (λ s' h. byte_lem s s' c t h)
        (λ s' t' e'. from_lem s' cs ps t' e') e
    where
      go :
          (r : Option SplitState)
          → ((s' : SplitState) → r ≡ some s' → IsInTurn s' × (so_far s' ≡ so_far s ++ c ∷ []))
          → ((s' : SplitState)
              → IsInTurn s'
              → split_from kv_sep fld_sep s' cs ≡ some ps
              → join true ps ≡ so_far s' ++ cs)
          → (elim r [ none ↦ none | some s' ↦ split_from kv_sep fld_sep s' cs ]) ≡ some ps
          → join true ps ≡ so_far s ++ c ∷ cs
      go none h next e = absurd (ground arith)
      go (some s') h next e =
          let (t', l) = h s' refl in
          next s' t' e ∙ ap (λ z. z ++ cs) l ∙ append_assoc (so_far s) (c ∷ []) cs

-- Put together with the two separators in turn, beginning with that of keys and values, the pieces
-- that `SplitString` answers are the string.
pub split_string-join :
    (str : List ℕ) (kv_sep fld_sep : ℕ) (ps : List (List ℕ))
    → split_string str kv_sep fld_sep ≡ some ps
    → join kv_sep fld_sep true ps ≡ str
unfolding split_string flips ended
split_string-join str kv_sep fld_sep ps e =
    from_lem kv_sep fld_sep
      (record { in_str = false; skip = false; exp_kv = true; cur = []; buf = [] }) str ps refl e
