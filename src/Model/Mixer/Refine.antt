-- ===== src/Model/Mixer/Refine.antt =====
-- The mixer of two iterators is an iterator over the merge of their events.
use logrange.Prelude.{
  ℕ, ◌≡◌, ◌≢◌, ◌≤◌, refl, sym, ap, ◌∙◌, ◌⊎◌, inl, inr, Bool, true, false, ◌&&◌, ◌||◌, ◌==◌, List,
  [], ◌∷◌, drop, if◌then◌else◌, arith, Bool-cases, ℕ_discrete,
}
use logrange.Model.Iterator.{
  LogEvent, Event, Got, event, eof, failed, first_of, Iterator, IsIterator,
}
use logrange.Model.Mixer.{
  SrcDesc, Mixer, fetch, advance, test_func, select_state, next, get, release, mixer, init,
}
use logrange.Model.Mixer.Fetch.{Fetched, has_event, has_none, has_failed, fetch-Fetched}
use logrange.Model.Mixer.Merge.{merge, merge-nil, nil-merge, merge-left, merge-right}

module _ {S1 S2 : Type 0} (it1 : Iterator S1) (it2 : Iterator S2) (sf : LogEvent → LogEvent → Bool)
    (valid1 : S1 → Type 0) (rest1 : S1 → List Event) (may_fail1 : Type 0)
    (ok1 : IsIterator it1 valid1 rest1 may_fail1) (valid2 : S2 → Type 0) (rest2 : S2 → List Event)
    (may_fail2 : Type 0) (ok2 : IsIterator it2 valid2 rest2 may_fail2) where
  -- The events that the mixer has still to answer.
  unfoldable pub mixed : Mixer S1 S2 → List Event
  mixed m = merge (test_func it1 it2 sf m.bkwd) (rest1 m.src1.it) (rest2 m.src2.it)

  -- The state of the mixer tells the truth: a source of which it says so is at its end, and
  -- the current event is the first of its source and of the merge.
  pub record IsValid (m : Mixer S1 S2) : Type 0 where
    pub valid_1 : valid1 m.src1.it
    pub valid_2 : valid2 m.src2.it
    pub eof_1 : m.src1.at_eof ≡ true → rest1 m.src1.it ≡ []
    pub eof_2 : m.src2.at_eof ≡ true → rest2 m.src2.it ≡ []
    pub states : m.st ≤ 3
    pub current_1 :
        m.st ≡ 1
        → (es : List Event) × (rest1 m.src1.it ≡ m.src1.ev ∷ es)
          × (mixed m ≡ m.src1.ev ∷ merge (test_func it1 it2 sf m.bkwd) es (rest2 m.src2.it))
    pub current_2 :
        m.st ≡ 2
        → (es : List Event) × (rest2 m.src2.it ≡ m.src2.ev ∷ es)
          × (mixed m ≡ m.src2.ev ∷ merge (test_func it1 it2 sf m.bkwd) (rest1 m.src1.it) es)
    pub end_3 : m.st ≡ 3 → mixed m ≡ []

  -- What `selectState` answers: a selected state with the same events to come, or a failure.
  pub record Selected (m : Mixer S1 S2) (r : Bool × Mixer S1 S2) : Type 0 where
    pub is_valid : IsValid r.1
    pub same : mixed r.1 ≡ mixed m
    pub selected :
        (r.0 ≡ true) × (r.1.st ≢ 0) ⊎ (r.0 ≡ false) × (r.1.st ≡ 0) × (may_fail1 ⊎ may_fail2)

  abbrev choose : Mixer S1 S2 → Event → Event → Bool
  choose m = test_func it1 it2 sf m.bkwd

  -- The state that `selectState` selects from the two sources.
  abbrev pick_st : Mixer S1 S2 → SrcDesc S1 → SrcDesc S2 → ℕ
  pick_st m src1 src2 =
      if src1.at_eof && src2.at_eof
      then 3
      else if src1.at_eof
      then 2
      else if src2.at_eof || choose m src1.ev src2.ev
      then 1
      else 2

  pick : Mixer S1 S2 → Bool × SrcDesc S1 → Bool × SrcDesc S2 → Bool × Mixer S1 S2
  pick m (true, src1) (true, src2) =
      (true, record m { src1 = src1; src2 = src2; st = pick_st m src1 src2 })
  pick m (true, src1) (false, src2) = (false, record m { src1 = src1; src2 = src2 })
  pick m (false, src1) r2 = (false, record m { src1 = src1 })

  select_fresh :
      (m : Mixer S1 S2)
      → m.st ≡ 0
      → select_state it1 it2 sf m ≡ pick m (fetch it1 m.src1) (fetch it2 m.src2)
  unfolding select_state pick
  select_fresh m z = go (fetch it1 m.src1) (fetch it2 m.src2)
    where
      go :
          (r1 : Bool × SrcDesc S1) (r2 : Bool × SrcDesc S2)
          → (if m.st == 0
              then (if r1.0
                  then (if r2.0
                      then (true, record m { src1 = r1.1; src2 = r2.1; st = pick_st m r1.1 r2.1 })
                      else (false, record m { src1 = r1.1; src2 = r2.1 }))
                  else (false, record m { src1 = r1.1 }))
              else (true, m))
            ≡ pick m r1 r2
      go (true, a) (true, b) = ground arith
      go (true, a) (false, b) = ground arith
      go (false, a) (true, b) = ground arith
      go (false, a) (false, b) = ground arith

  module _ (m : Mixer S1 S2) (v : IsValid m) (fresh : m.st ≡ 0) where
    pick-Selected :
        (r1 : Bool × SrcDesc S1) (r2 : Bool × SrcDesc S2)
        → Fetched valid1 rest1 may_fail1 (rest1 m.src1.it) r1
        → Fetched valid2 rest2 may_fail2 (rest2 m.src2.it) r2
        → Selected m (pick m r1 r2)
    unfolding pick mixed
    pick-Selected r1 r2 (has_failed s e w same may) f = record {
      is_valid = record {
        valid_1 = w;
        valid_2 = v.valid_2;
        eof_1 = λ h. absurd (ground arith);
        eof_2 = v.eof_2;
        states = v.states;
        current_1 = λ h. absurd (omega arith);
        current_2 = λ h. absurd (omega arith);
        end_3 = λ h. absurd (omega arith);
      };
      same = rw (same) refl;
      selected = inr (refl, fresh, inl may);
    }
    pick-Selected r1 r2 (has_none s e w same l) (has_none s' e' w' same' l') = record {
      is_valid = record {
        valid_1 = w;
        valid_2 = w';
        eof_1 = λ h. same ∙ l;
        eof_2 = λ h. same' ∙ l';
        states = omega arith;
        current_1 = λ h. absurd (omega arith);
        current_2 = λ h. absurd (omega arith);
        end_3 = λ h. rw (same, same', l, l') (nil-merge (choose m) []);
      };
      same = rw (same, same') refl;
      selected = inl (refl, λ h. omega arith);
    }
    pick-Selected r1 r2 (has_none s e w same l) (has_event s' e' es' w' same' l') = record {
      is_valid = record {
        valid_1 = w;
        valid_2 = w';
        eof_1 = λ h. same ∙ l;
        eof_2 = λ h. absurd (ground arith);
        states = omega arith;
        current_1 = λ h. absurd (omega arith);
        current_2 = λ h. (
          es',
          same' ∙ l',
          rw (same, same', l, l')
              (nil-merge (choose m) (e' ∷ es') ∙ ap (λ z. e' ∷ z) (sym (nil-merge (choose m) es'))),
        );
        end_3 = λ h. absurd (omega arith);
      };
      same = rw (same, same') refl;
      selected = inl (refl, λ h. omega arith);
    }
    pick-Selected r1 r2 (has_none s e w same l) (has_failed s' e' w' same' may') = record {
      is_valid = record {
        valid_1 = w;
        valid_2 = w';
        eof_1 = λ h. same ∙ l;
        eof_2 = λ h. absurd (ground arith);
        states = v.states;
        current_1 = λ h. absurd (omega arith);
        current_2 = λ h. absurd (omega arith);
        end_3 = λ h. absurd (omega arith);
      };
      same = rw (same, same') refl;
      selected = inr (refl, fresh, inr may');
    }
    pick-Selected r1 r2 (has_event s e es w same l) (has_none s' e' w' same' l') = record {
      is_valid = record {
        valid_1 = w;
        valid_2 = w';
        eof_1 = λ h. absurd (ground arith);
        eof_2 = λ h. same' ∙ l';
        states = omega arith;
        current_1 = λ h. (
          es,
          same ∙ l,
          rw (same, same', l, l')
              (merge-nil (choose m) (e ∷ es) ∙ ap (λ z. e ∷ z) (sym (merge-nil (choose m) es))),
        );
        current_2 = λ h. absurd (omega arith);
        end_3 = λ h. absurd (omega arith);
      };
      same = rw (same, same') refl;
      selected = inl (refl, λ h. omega arith);
    }
    pick-Selected r1 r2 (has_event s e es w same l) (has_event s' e' es' w' same' l') =
        elim (Bool-cases (choose m e e')) [
          | inl t ↦ rw t (record {
            is_valid = record {
              valid_1 = w;
              valid_2 = w';
              eof_1 = λ h. absurd (ground arith);
              eof_2 = λ h. absurd (ground arith);
              states = omega arith;
              current_1 = λ h.
                  (es, same ∙ l, rw (same, same', l, l', merge-left (choose m) e e' es es' t) refl);
              current_2 = λ h. absurd (omega arith);
              end_3 = λ h. absurd (omega arith);
            };
            same = rw (same, same') refl;
            selected = inl (refl, λ h. omega arith);
          })
          | inr t ↦ rw t (record {
            is_valid = record {
              valid_1 = w;
              valid_2 = w';
              eof_1 = λ h. absurd (ground arith);
              eof_2 = λ h. absurd (ground arith);
              states = omega arith;
              current_1 = λ h. absurd (omega arith);
              current_2 = λ h. (
                es',
                same' ∙ l',
                rw (same, same', l, l', merge-right (choose m) e e' es es' t) refl,
              );
              end_3 = λ h. absurd (omega arith);
            };
            same = rw (same, same') refl;
            selected = inl (refl, λ h. omega arith);
          })
        ]
    pick-Selected r1 r2 (has_event s e es w same l) (has_failed s' e' w' same' may') = record {
      is_valid = record {
        valid_1 = w;
        valid_2 = w';
        eof_1 = λ h. absurd (ground arith);
        eof_2 = λ h. absurd (ground arith);
        states = v.states;
        current_1 = λ h. absurd (omega arith);
        current_2 = λ h. absurd (omega arith);
        end_3 = λ h. absurd (omega arith);
      };
      same = rw (same, same') refl;
      selected = inr (refl, fresh, inr may');
    }

  select_selected : (m : Mixer S1 S2) → m.st ≢ 0 → select_state it1 it2 sf m ≡ (true, m)
  unfolding select_state
  select_selected m ne = let t : (m.st == 0) ≡ false = ground arith in rw (select_state, t) refl

  select_state-Selected : (m : Mixer S1 S2) → IsValid m → Selected m (select_state it1 it2 sf m)
  select_state-Selected m v = elim (ℕ_discrete m.st 0) [
    | yes fresh ↦ rw (select_fresh m fresh) (
        pick-Selected m v fresh _ _
          (fetch-Fetched it1 valid1 rest1 may_fail1 ok1 m.src1 v.valid_1 v.eof_1)
          (fetch-Fetched it2 valid2 rest2 may_fail2 ok2 m.src2 v.valid_2 v.eof_2))
    | no ne ↦
        rw (select_selected m ne) (record { is_valid = v; same = refl; selected = inl (refl, ne) })
  ]

  -- The answer that `Get` reads off a selected state.
  abbrev answer : Bool × Mixer S1 S2 → Got
  answer (ok, m) =
      if ok
      then (if m.st == 1 then event m.src1.ev else if m.st == 2 then event m.src2.ev else eof)
      else failed

  answer_first :
      (m : Mixer S1 S2) (r : Bool × Mixer S1 S2)
      → Selected m r
      → (answer r ≡ first_of (mixed m)) ⊎ (answer r ≡ failed) × (may_fail1 ⊎ may_fail2)
  answer_first m (ok, m') d = elim d.selected [
    | inr (e, z, may) ↦ inr (ground arith, may)
    | inl (e, ne) ↦ inl (elim (ℕ_discrete m'.st 1) [
      | yes h ↦
          (let (es, l, head) = d.is_valid.current_1 h in
            let a : answer (ok, m') ≡ event m'.src1.ev = ground arith in
            a ∙ ap first_of (sym head ∙ d.same))
      | no n1 ↦ elim (ℕ_discrete m'.st 2) [
        | yes h ↦
            (let (es, l, head) = d.is_valid.current_2 h in
              let a : answer (ok, m') ≡ event m'.src2.ev = ground arith in
              a ∙ ap first_of (sym head ∙ d.same))
        | no n2 ↦
            (let n3 = d.is_valid.states in
              let a : answer (ok, m') ≡ eof = ground arith in
              a ∙ ap first_of (sym (d.is_valid.end_3 (omega arith)) ∙ d.same))
      ]
    ])
  ]

  get_lem :
      (m : Mixer S1 S2)
      → IsValid m
      → ((get it1 it2 sf m).0 ≡ first_of (mixed m))
        ⊎ ((get it1 it2 sf m).0 ≡ failed) × (may_fail1 ⊎ may_fail2)
  unfolding get
  get_lem m v = answer_first m (select_state it1 it2 sf m) (select_state-Selected m v)

  -- The mixer after `Next`.
  abbrev moved : Mixer S1 S2 → Mixer S1 S2
  moved m =
      if m.st == 1
      then record m { src1 = advance it1 m.src1; st = 0 }
      else if m.st == 2
      then record m { src2 = advance it2 m.src2; st = 0 }
      else record m { st = 0 }

  abbrev IsMoved : List Event → Mixer S1 S2 → Type 0
  IsMoved l n = IsValid n × ((mixed n ≡ drop 1 l) ⊎ (mixed n ≡ l) × (may_fail1 ⊎ may_fail2))

  moved_1 : (m : Mixer S1 S2) → IsValid m → m.st ≡ 1 → IsMoved (mixed m) (moved m)
  unfolding mixed
  moved_1 m v h =
      let (es, l, head) = v.current_1 h in
      let t : (m.st == 1) ≡ true = ground arith in
      rw t (
        record {
          valid_1 = ok1.next_valid m.src1.it v.valid_1;
          valid_2 = v.valid_2;
          eof_1 = λ e. absurd (let f = sym l ∙ v.eof_1 e in ground arith);
          eof_2 = v.eof_2;
          states = omega arith;
          current_1 = λ e. absurd (omega arith);
          current_2 = λ e. absurd (omega arith);
          end_3 = λ e. absurd (omega arith);
        },
        elim (ok1.next_rest m.src1.it v.valid_1) [
          | inl n ↦ inl (rw (n, l) (ap (drop 1) (sym (rw l at head))))
          | inr (n, may) ↦ inr (rw n refl, inl may)
        ],
      )

  moved_2 : (m : Mixer S1 S2) → IsValid m → m.st ≡ 2 → IsMoved (mixed m) (moved m)
  unfolding mixed
  moved_2 m v h =
      let (es, l, head) = v.current_2 h in
      let t1 : (m.st == 1) ≡ false = ground arith in
      let t : (m.st == 2) ≡ true = ground arith in
      rw (t1, t)
        (
          record {
            valid_1 = v.valid_1;
            valid_2 = ok2.next_valid m.src2.it v.valid_2;
            eof_1 = v.eof_1;
            eof_2 = λ e. absurd (let f = sym l ∙ v.eof_2 e in ground arith);
            states = omega arith;
            current_1 = λ e. absurd (omega arith);
            current_2 = λ e. absurd (omega arith);
            end_3 = λ e. absurd (omega arith);
          },
          elim (ok2.next_rest m.src2.it v.valid_2) [
            | inl n ↦ inl (rw (n, l) (ap (drop 1) (sym (rw l at head))))
            | inr (n, may) ↦ inr (rw n refl, inr may)
          ],
        )

  moved_none :
      (m : Mixer S1 S2)
      → IsValid m
      → m.st ≢ 1
      → m.st ≢ 2
      → IsValid (moved m) × (mixed (moved m) ≡ mixed m)
  unfolding mixed
  moved_none m v n1 n2 =
      let t1 : (m.st == 1) ≡ false = ground arith in
      let t2 : (m.st == 2) ≡ false = ground arith in
      rw (t1, t2)
        (
          record {
            valid_1 = v.valid_1;
            valid_2 = v.valid_2;
            eof_1 = v.eof_1;
            eof_2 = v.eof_2;
            states = omega arith;
            current_1 = λ e. absurd (omega arith);
            current_2 = λ e. absurd (omega arith);
            end_3 = λ e. absurd (omega arith);
          },
          refl,
        )

  next_lem : (m : Mixer S1 S2) → IsValid m → IsMoved (mixed m) (next it1 it2 sf m)
  unfolding next
  next_lem m v =
      let d = select_state-Selected m v in
      let m' = (select_state it1 it2 sf m).1 in
      rw (← d.same) (elim (ℕ_discrete m'.st 1) [
        | yes h ↦ moved_1 m' d.is_valid h
        | no n1 ↦ elim (ℕ_discrete m'.st 2) [
          | yes h ↦ moved_2 m' d.is_valid h
          | no n2 ↦
              (let (w, same) = moved_none m' d.is_valid n1 n2 in
                (
                  w,
                  elim d.selected [
                    | inr (e, z, may) ↦ inr (same, may)
                    | inl (e, ne) ↦ inl (
                        let n3 = d.is_valid.states in
                        let l = d.is_valid.end_3 (omega arith) in same ∙ l ∙ ap (drop 1) (sym l))
                  ],
                ))
        ]
      ])

  release_lem :
      (m : Mixer S1 S2)
      → IsValid m
      → IsValid (release it1 it2 sf m) × (mixed (release it1 it2 sf m) ≡ mixed m)
  unfolding release mixed
  release_lem m v =
      let r1 = ok1.release_rest m.src1.it v.valid_1 in
      let r2 = ok2.release_rest m.src2.it v.valid_2 in
      (
        record {
          valid_1 = ok1.release_valid m.src1.it v.valid_1;
          valid_2 = ok2.release_valid m.src2.it v.valid_2;
          eof_1 = λ e. absurd (ground arith);
          eof_2 = λ e. absurd (ground arith);
          states = ground (arith, v.states);
          current_1 = λ e. rw (r1, r2) (v.current_1 (ground arith));
          current_2 = λ e. rw (r1, r2) (v.current_2 (ground arith));
          end_3 = λ e. absurd (ground arith);
        },
        rw (r1, r2) refl,
      )

  pub mixer-IsIterator : IsIterator (mixer it1 it2 sf) IsValid mixed (may_fail1 ⊎ may_fail2)
  unfolding get
  mixer-IsIterator = record {
    get_valid = λ m v. (select_state-Selected m v).is_valid;
    get_rest = λ m v. (select_state-Selected m v).same;
    get_first = get_lem;
    next_valid = λ m v. (next_lem m v).0;
    next_rest = λ m v. (next_lem m v).1;
    release_valid = λ m v. (release_lem m v).0;
    release_rest = λ m v. (release_lem m v).1;
  }

  -- A new mixer over sources in valid states is in a valid state, and has the merge of their events
  -- to come.
  pub init-IsValid :
      (s1 : S1) (s2 : S2)
      → valid1 s1
      → valid2 s2
      → IsValid (init it1 it2 sf s1 s2)
        × (mixed (init it1 it2 sf s1 s2) ≡ merge (test_func it1 it2 sf false) (rest1 s1) (rest2 s2))
  unfolding init mixed
  init-IsValid s1 s2 v1 v2 = (
    record {
      valid_1 = v1;
      valid_2 = v2;
      eof_1 = λ e. absurd (ground arith);
      eof_2 = λ e. absurd (ground arith);
      states = omega arith;
      current_1 = λ e. absurd (omega arith);
      current_2 = λ e. absurd (omega arith);
      end_3 = λ e. absurd (omega arith);
    },
    refl,
  )
