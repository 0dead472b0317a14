-- ===== src/Tindex/Inmem/Steps.antt =====
-- What holds however the calls of the clients interleave.
use mathlib.Core.Bool.{not}
use mathlib.Core.Option.{some-injective}
use logrange.Prelude.{
  ℕ, ◌<◌, ◌≡◌, refl, subst, ap, ◌∙◌, Bool, true, false, ◌&&◌, ◌==◌, [], ◌∷◌, Option, none, some,
  arith,
}
use logrange.Prelude.Assoc.{lookup, lookup-insert}
use logrange.Prelude.Cases.{option_case, if_case}
use logrange.Tindex.Inmem.{
  InmemService, Reply, DeleteReply, get_or_create_by_set, get_or_create_journal, delete_journal,
  get_journal_tags, release_journal, lock_exclusively, unlock_exclusively, shutdown, give_back,
  visit_acquire,
}
use logrange.Tindex.Inmem.Holders.{
  System, less, after, IsUnlocked, Step, gets, gets_tags, looks_at_tags, visits, releases,
  gives_back, locks, unlocks, deletes, shuts_down, IsCounted, acquire_by_name-IsCounted,
  take-IsCounted, add-IsCounted, erase-IsCounted, exclusive-IsCounted, drop-IsCounted,
  gone-IsCounted,
}

module _ {T : Type 0} where
  module _ (parse : ℕ → Option T) (line_of : T → ℕ) (is_empty : T → Bool) where
    gets-IsCounted :
        (s : System T) (create saved : Bool) (new_src line : ℕ)
        → IsCounted parse line_of is_empty s
        → lookup s.ims.smap new_src ≡ none
        → s.held new_src ≡ 0
        → IsCounted parse line_of is_empty (
            after s.held
              (get_or_create_journal parse line_of is_empty create new_src saved s.ims line))
    unfolding get_or_create_journal get_or_create_by_set
    gets-IsCounted s create saved new_src line c no_name none_held =
        let P =
          λ (r : Reply T × InmemService T). IsCounted parse line_of is_empty (after s.held r) in
        if_case P s.ims.is_done (λ h. c)
          λ running.
            option_case P (lookup s.ims.tmap line)
              (λ no_line.
                option_case P (parse line) (λ e. c)
                  λ tgs e.
                    if_case P (is_empty tgs) (λ h. c)
                      λ h.
                        option_case P (lookup s.ims.tmap (line_of tgs))
                          (λ no_tags.
                            let added =
                              add-IsCounted parse line_of is_empty s tgs new_src c no_tags no_name
                                none_held in
                            if_case P (not create) (λ h. c)
                              λ h.
                                if_case P saved
                                  (λ h. take-IsCounted parse line_of is_empty _ new_src added)
                                  (λ h.
                                    erase-IsCounted parse line_of is_empty _
                                      (record {
                                        tags = tgs;
                                        exclusive = false;
                                        readers = 0;
                                        src = new_src;
                                      })
                                      added
                                      (lookup-insert s.ims.smap new_src new_src _
                                        ∙ (ground arith))))
                          (λ src known. take-IsCounted parse line_of is_empty s src c))
              (λ src known. take-IsCounted parse line_of is_empty s src c)

    gets_tags-IsCounted :
        (s : System T) (src : ℕ)
        → IsCounted parse line_of is_empty s
        → IsCounted parse line_of is_empty (after s.held (get_journal_tags true s.ims src))
    unfolding get_journal_tags
    gets_tags-IsCounted s src c =
        let P =
          λ (r : Reply T × InmemService T). IsCounted parse line_of is_empty (after s.held r) in
        if_case P s.ims.is_done (λ h. c)
          λ h.
            option_case P (lookup s.ims.smap src) (λ e. c)
              λ td e.
                if_case P td.exclusive (λ x. c)
                  (λ x. acquire_by_name-IsCounted parse line_of is_empty s src td c e x)

    visits-IsCounted :
        (s : System T) (src : ℕ)
        → IsCounted parse line_of is_empty s
        → IsCounted parse line_of is_empty (after s.held (visit_acquire s.ims src))
    unfolding visit_acquire
    visits-IsCounted s src c =
        let P =
          λ (r : Reply T × InmemService T). IsCounted parse line_of is_empty (after s.held r) in
        if_case P s.ims.is_done (λ h. c)
          λ h.
            option_case P (lookup s.ims.smap src) (λ e. c)
              λ td e.
                if_case P td.exclusive (λ x. c)
                  (λ x. acquire_by_name-IsCounted parse line_of is_empty s src td c e x)

    looks-IsCounted :
        (s : System T) (src : ℕ)
        → IsCounted parse line_of is_empty s
        → IsCounted parse line_of is_empty (record s { ims = (get_journal_tags false s.ims src).1 })
    unfolding get_journal_tags
    looks-IsCounted s src c =
        let P = λ (r : Reply T × InmemService T).
          IsCounted parse line_of is_empty (record s { ims = r.1 }) in
        if_case P s.ims.is_done (λ h. c)
          λ h.
            option_case P (lookup s.ims.smap src) (λ e. c)
              λ td e. if_case P td.exclusive (λ x. c) (λ x. c)

    releases-IsCounted :
        (s : System T) (src : ℕ) (ims : InmemService T)
        → IsCounted parse line_of is_empty s
        → release_journal s.ims src ≡ some ims
        → IsCounted parse line_of is_empty (record { ims = ims; held = less s.held src })
    unfolding release_journal
    releases-IsCounted s src ims c =
        let P = λ (r : Option (InmemService T)).
          r ≡ some ims
          → IsCounted parse line_of is_empty (record { ims = ims; held = less s.held src }) in
        let Q = λ (i : InmemService T).
          IsCounted parse line_of is_empty (record { ims = i; held = less s.held src }) in
        option_case P (lookup s.ims.smap src)
          (λ e h.
            subst Q (some-injective s.ims ims h) (gone-IsCounted parse line_of is_empty s src c e))
          λ td e.
            if_case P td.exclusive (λ x h. absurd (ground arith))
              λ x.
                if_case P (td.readers == 0) (λ n h. absurd (ground arith))
                  (λ n h.
                    subst Q (some-injective _ ims h)
                      (drop-IsCounted parse line_of is_empty s src td c e x))

    gives_back-IsCounted :
        (s : System T) (src : ℕ)
        → IsCounted parse line_of is_empty s
        → IsUnlocked s.ims src
        → IsCounted parse line_of is_empty
            (record { ims = give_back (src ∷ []) s.ims; held = less s.held src })
    unfolding give_back
    gives_back-IsCounted s src c free =
        option_case
          (λ i. IsCounted parse line_of is_empty (record { ims = i; held = less s.held src }))
          (lookup s.ims.smap src) (λ e. gone-IsCounted parse line_of is_empty s src c e)
          (λ td e. drop-IsCounted parse line_of is_empty s src td c e (free td e))

    locks-IsCounted :
        (s : System T) (src : ℕ)
        → IsCounted parse line_of is_empty s
        → IsCounted parse line_of is_empty (record s { ims = (lock_exclusively s.ims src).1 })
    unfolding lock_exclusively
    locks-IsCounted s src c =
        let P = λ (r : Bool × InmemService T).
          IsCounted parse line_of is_empty (record s { ims = r.1 }) in
        option_case P (lookup s.ims.smap src) (λ e. c)
          λ td e.
            if_case P (not td.exclusive && td.readers == 1)
              (λ h.
                exclusive-IsCounted parse line_of is_empty s src td true c e (λ x. ground arith))
              (λ h. c)

    unlocks-IsCounted :
        (s : System T) (src : ℕ) (ims : InmemService T)
        → IsCounted parse line_of is_empty s
        → unlock_exclusively s.ims src ≡ some ims
        → IsCounted parse line_of is_empty (record s { ims = ims })
    unfolding unlock_exclusively
    unlocks-IsCounted s src ims c =
        let P = λ (r : Option (InmemService T)).
          r ≡ some ims → IsCounted parse line_of is_empty (record s { ims = ims }) in
        let Q = λ (i : InmemService T). IsCounted parse line_of is_empty (record s { ims = i }) in
        option_case P (lookup s.ims.smap src) (λ e h. subst Q (some-injective s.ims ims h) c)
          λ td e.
            if_case P (td.exclusive && td.readers == 1)
              (λ n h. subst Q (some-injective _ ims h) (
                exclusive-IsCounted parse line_of is_empty s src td false c e
                  (λ x. absurd (ground arith))))
              (λ n h. absurd (ground arith))

    deletes-IsCounted :
        (s : System T) (src : ℕ)
        → IsCounted parse line_of is_empty s
        → IsCounted parse line_of is_empty
            (record s { ims = (delete_journal parse line_of is_empty s.ims src).1 })
    unfolding delete_journal
    deletes-IsCounted s src c =
        let P = λ (r : DeleteReply × InmemService T).
          IsCounted parse line_of is_empty (record s { ims = r.1 }) in
        option_case P (lookup s.ims.smap src) (λ e. c)
          λ td e.
            if_case P td.exclusive
              (λ x.
                erase-IsCounted parse line_of is_empty s td c
                  (ap (lookup s.ims.smap) (c.consistent.named src td e).0 ∙ e))
              (λ x. c)

    Step-IsCounted :
        (s s' : System T)
        → Step parse line_of is_empty s s'
        → IsCounted parse line_of is_empty s
        → IsCounted parse line_of is_empty s'
    unfolding shutdown
    Step-IsCounted s _ (gets create saved new_src line no_name none_held) c =
        gets-IsCounted s create saved new_src line c no_name none_held
    Step-IsCounted s _ (gets_tags src) c = gets_tags-IsCounted s src c
    Step-IsCounted s _ (looks_at_tags src) c = looks-IsCounted s src c
    Step-IsCounted s _ (visits src) c = visits-IsCounted s src c
    Step-IsCounted s _ (releases src ims held e) c = releases-IsCounted s src ims c e
    Step-IsCounted s _ (gives_back src held free) c = gives_back-IsCounted s src c free
    Step-IsCounted s _ (locks src held) c = locks-IsCounted s src c
    Step-IsCounted s _ (unlocks src ims e) c = unlocks-IsCounted s src ims c e
    Step-IsCounted s _ (deletes src) c = deletes-IsCounted s src c
    Step-IsCounted s _ shuts_down c = record {
      consistent = record { named = c.consistent.named; known = c.consistent.known };
      counted = c.counted;
      alone = c.alone;
    }

    pub data Reachable : System T → Type 0 where
      at_start :
          Reachable
            (record { ims = record { tmap = []; smap = []; is_done = false }; held = λ src. 0 })
      by_step : (s s' : System T) → Reachable s → Step parse line_of is_empty s s' → Reachable s'

    -- However the calls interleave, each partition counts as many readers as it has holders, an
    -- exclusive lock leaves one holder, and the two maps agree.
    pub Reachable-IsCounted : (s : System T) → Reachable s → IsCounted parse line_of is_empty s
    unfolding lookup
    Reachable-IsCounted _ at_start = record {
      consistent = record {
        named = λ src td l. absurd (ground arith);
        known = λ line src l. absurd (ground arith);
      };
      counted = λ src td l. absurd (ground arith);
      alone = λ src td l x. absurd (ground arith);
    }
    Reachable-IsCounted _ (by_step s s' r t) = Step-IsCounted s s' t (Reachable-IsCounted s r)

    -- In every state that can be reached, a client that holds a partition can release it without a
    -- panic, unless it is locked exclusively.
    pub release_holds :
        (s : System T) (src : ℕ)
        → Reachable s
        → 0 < s.held src
        → IsUnlocked s.ims src
        → (ims : InmemService T) × (release_journal s.ims src ≡ some ims)
    unfolding release_journal
    release_holds s src r h free =
        let c = Reachable-IsCounted s r in
        let P = λ (res : Option (InmemService T)). (ims : InmemService T) × (res ≡ some ims) in
        option_case P (lookup s.ims.smap src) (λ e. (s.ims, refl))
          λ td e.
            if_case P td.exclusive (λ x. absurd (let f = free td e in ground arith))
              λ x.
                if_case P (td.readers == 0)
                  (λ n. absurd (let f = c.counted src td e in ground arith)) (λ n. (_, refl))
