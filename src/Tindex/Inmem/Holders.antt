-- ===== src/Tindex/Inmem/Holders.antt =====
-- The shared locks and the exclusive one: what holds however the calls of the clients interleave.
use mathlib.Core.Option.{some-injective}
use logrange.Prelude.{
  ℕ, ◌+◌, ◌-◌, ◌<◌, ◌≡◌, ◌≢◌, refl, sym, subst, ap, ◌∙◌, Bool, true, false, ◌==◌, if◌then◌else◌, [],
  ◌∷◌, Option, none, some, arith, ℕ_discrete,
}
use logrange.Prelude.Assoc.{lookup, insert, erase, lookup-insert, lookup_of-erase}
use logrange.Prelude.Cases.{option_case, if_case}
use logrange.Tindex.Inmem.{
  TagsDesc, InmemService, Reply, found, shut_down, bad_tags, empty_tags, not_found, not_saved,
  again, dangling, take_partition, get_or_create_journal, delete_journal, get_journal_tags,
  release_journal, lock_exclusively, unlock_exclusively, shutdown, give_back, visit_acquire,
}
use logrange.Tindex.Inmem.Consistent.{
  IsConsistent, put-IsConsistent, add-IsConsistent, remove-IsConsistent,
}

-- The service, and how often each partition is held by its clients.
pub record System (T : Type 0) : Type 0 where
  pub ims : InmemService T
  pub held : ℕ → ℕ

unfoldable pub more : (ℕ → ℕ) → ℕ → ℕ → ℕ
more held src s = if src == s then held s + 1 else held s

pub less : (ℕ → ℕ) → ℕ → ℕ → ℕ
less held src s = if src == s then held s - 1 else held s

module _ {T : Type 0} where
  -- A call that finds a partition holds it from then on.
  abbrev pub after : (ℕ → ℕ) → Reply T × InmemService T → System T
  after held (found src ts, ims) = record { ims = ims; held = more held src }
  after held (shut_down, ims) = record { ims = ims; held = held }
  after held (bad_tags, ims) = record { ims = ims; held = held }
  after held (empty_tags, ims) = record { ims = ims; held = held }
  after held (not_found, ims) = record { ims = ims; held = held }
  after held (not_saved, ims) = record { ims = ims; held = held }
  after held (again, ims) = record { ims = ims; held = held }
  after held (dangling, ims) = record { ims = ims; held = held }

  abbrev pub IsUnlocked : InmemService T → ℕ → Type 0
  IsUnlocked ims src = (td : TagsDesc T) → lookup ims.smap src ≡ some td → td.exclusive ≡ false

  module _ (parse : ℕ → Option T) (line_of : T → ℕ) (is_empty : T → Bool) where
    -- The calls of the clients: they release and lock what they hold, and `newSrc` makes new names.
    pub data Step (s : System T) : System T → Type 0 where
      gets :
          (create saved : Bool) (new_src line : ℕ)
          → lookup s.ims.smap new_src ≡ none
          → s.held new_src ≡ 0
          → Step s (
              after s.held
                (get_or_create_journal parse line_of is_empty create new_src saved s.ims line))
      gets_tags : (src : ℕ) → Step s (after s.held (get_journal_tags true s.ims src))
      looks_at_tags : (src : ℕ) → Step s (record s { ims = (get_journal_tags false s.ims src).1 })
      visits : (src : ℕ) → Step s (after s.held (visit_acquire s.ims src))
      releases :
          (src : ℕ) (ims : InmemService T)
          → 0 < s.held src
          → release_journal s.ims src ≡ some ims
          → Step s (record { ims = ims; held = less s.held src })
      gives_back :
          (src : ℕ)
          → 0 < s.held src
          → IsUnlocked s.ims src
          → Step s (record { ims = give_back (src ∷ []) s.ims; held = less s.held src })
      locks :
          (src : ℕ) → 0 < s.held src → Step s (record s { ims = (lock_exclusively s.ims src).1 })
      unlocks :
          (src : ℕ) (ims : InmemService T)
          → unlock_exclusively s.ims src ≡ some ims
          → Step s (record s { ims = ims })
      deletes :
          (src : ℕ)
          → Step s (record s { ims = (delete_journal parse line_of is_empty s.ims src).1 })
      shuts_down : Step s (record s { ims = shutdown s.ims })

    pub record IsCounted (s : System T) : Type 0 where
      pub consistent : IsConsistent line_of s.ims
      pub counted :
          (src : ℕ) (td : TagsDesc T) → lookup s.ims.smap src ≡ some td → td.readers ≡ s.held src
      pub alone :
          (src : ℕ) (td : TagsDesc T)
          → lookup s.ims.smap src ≡ some td
          → td.exclusive ≡ true
          → s.held src ≡ 1

    -- A description replaced by one with as many readers as there are holders then.
    pub put-IsCounted :
        (s : System T) (td td' : TagsDesc T) (held : ℕ → ℕ)
        → IsCounted s
        → lookup s.ims.smap td.src ≡ some td
        → td'.src ≡ td.src
        → td'.tags ≡ td.tags
        → td'.readers ≡ held td.src
        → (td'.exclusive ≡ true → held td.src ≡ 1)
        → ((src : ℕ) → td.src ≢ src → held src ≡ s.held src)
        → IsCounted
            (record { ims = record s.ims { smap = insert s.ims.smap td'.src td' }; held = held })
    put-IsCounted s td td' held c e same_src same_tags readers alone others = record {
      consistent = put-IsConsistent line_of s.ims td td' c.consistent e same_src same_tags;
      counted = λ src d l. elim (ℕ_discrete td'.src src) [
        | yes h ↦
            (let m : some td' ≡ some d =
                sym (lookup-insert s.ims.smap td'.src src td' ∙ (ground arith)) ∙ l in
              subst (λ z. z.readers ≡ held src) (some-injective td' d m)
                (readers ∙ ap held (sym same_src ∙ h)))
        | no ne ↦
            c.counted src d (sym (lookup-insert s.ims.smap td'.src src td' ∙ (ground arith)) ∙ l)
            ∙ sym (others src (ground arith))
      ];
      alone = λ src d l x. elim (ℕ_discrete td'.src src) [
        | yes h ↦
            (let m : some td' ≡ some d =
                sym (lookup-insert s.ims.smap td'.src src td' ∙ (ground arith)) ∙ l in
              let eq = some-injective td' d m in
              ap held (sym h ∙ same_src) ∙ alone (ap (λ z. z.exclusive) eq ∙ x))
        | no ne ↦
            others src (ground arith)
            ∙ c.alone src d (sym (lookup-insert s.ims.smap td'.src src td' ∙ (ground arith)) ∙ l) x
      ];
    }

    -- One reader more, for a partition that nobody locked.
    pub acquire-IsCounted :
        (s : System T) (src : ℕ) (td : TagsDesc T)
        → IsCounted s
        → lookup s.ims.smap src ≡ some td
        → td.exclusive ≡ false
        → IsCounted (record {
          ims = record s.ims {
            smap = insert s.ims.smap td.src (record td { readers = td.readers + 1 });
          };
          held = more s.held td.src;
        })
    unfolding more
    acquire-IsCounted s src td c e free =
        let name = (c.consistent.named src td e).0 in
        let e' : lookup s.ims.smap td.src ≡ some td = ap (lookup s.ims.smap) name ∙ e in
        let n = c.counted td.src td e' in
        put-IsCounted s td (record td { readers = td.readers + 1 }) (more s.held td.src) c e' refl
          refl (ground arith) (λ x. absurd (ground arith)) (λ k ne. ground arith)

    pub acquire_by_name-IsCounted :
        (s : System T) (src : ℕ) (td : TagsDesc T)
        → IsCounted s
        → lookup s.ims.smap src ≡ some td
        → td.exclusive ≡ false
        → IsCounted (record {
          ims = record s.ims {
            smap = insert s.ims.smap td.src (record td { readers = td.readers + 1 });
          };
          held = more s.held src;
        })
    acquire_by_name-IsCounted s src td c e free =
        subst
          (λ k. IsCounted (record {
            ims = record s.ims {
              smap = insert s.ims.smap td.src (record td { readers = td.readers + 1 });
            };
            held = more s.held k;
          }))
          (c.consistent.named src td e).0 (acquire-IsCounted s src td c e free)

    pub take-IsCounted :
        (s : System T) (src : ℕ) → IsCounted s → IsCounted (after s.held (take_partition s.ims src))
    unfolding take_partition
    take-IsCounted s src c =
        option_case (λ r. IsCounted (after s.held r)) (lookup s.ims.smap src) (λ e. c)
          λ td e.
            if_case (λ r. IsCounted (after s.held r)) td.exclusive (λ h. c)
              (λ h. acquire-IsCounted s src td c e h)

    pub add-IsCounted :
        (s : System T) (tgs : T) (new_src : ℕ)
        → IsCounted s
        → lookup s.ims.tmap (line_of tgs) ≡ none
        → lookup s.ims.smap new_src ≡ none
        → s.held new_src ≡ 0
        → IsCounted (record s {
          ims = record s.ims {
            tmap = insert s.ims.tmap (line_of tgs) new_src;
            smap =
                insert s.ims.smap new_src
                  (record { tags = tgs; exclusive = false; readers = 0; src = new_src });
          };
        })
    add-IsCounted s tgs new_src c no_line no_name none_held =
        let td : TagsDesc T = record {
          tags = tgs;
          exclusive = false;
          readers = 0;
          src = new_src;
        } in
        record {
          consistent = add-IsConsistent line_of s.ims tgs td c.consistent no_line no_name refl;
          counted = λ src d l. elim (ℕ_discrete new_src src) [
            | yes h ↦
                (let m : some td ≡ some d =
                    sym (lookup-insert s.ims.smap new_src src td ∙ (ground arith)) ∙ l in
                  sym (ap (λ z. z.readers) (some-injective td d m)) ∙ sym none_held ∙ ap s.held h)
            | no ne ↦
                c.counted src d (sym (lookup-insert s.ims.smap new_src src td ∙ (ground arith)) ∙ l)
          ];
          alone = λ src d l x. elim (ℕ_discrete new_src src) [
            | yes h ↦
                (let m : some td ≡ some d =
                    sym (lookup-insert s.ims.smap new_src src td ∙ (ground arith)) ∙ l in
                  absurd (
                    let f : false ≡ true = ap (λ z. z.exclusive) (some-injective td d m) ∙ x in
                    ground arith))
            | no ne ↦
                c.alone src d (sym (lookup-insert s.ims.smap new_src src td ∙ (ground arith)) ∙ l) x
          ];
        }

    pub erase-IsCounted :
        (s : System T) (td : TagsDesc T)
        → IsCounted s
        → lookup s.ims.smap td.src ≡ some td
        → IsCounted (record s {
          ims = record s.ims {
            tmap = erase s.ims.tmap (line_of td.tags);
            smap = erase s.ims.smap td.src;
          };
        })
    erase-IsCounted s td c e = record {
      consistent = remove-IsConsistent line_of s.ims td c.consistent e;
      counted = λ src d l. c.counted src d (lookup_of-erase s.ims.smap td.src src d l).1;
      alone = λ src d l x. c.alone src d (lookup_of-erase s.ims.smap td.src src d l).1 x;
    }

    -- A call that changes only what a partition's holder may change.
    pub exclusive-IsCounted :
        (s : System T) (src : ℕ) (td : TagsDesc T) (b : Bool)
        → IsCounted s
        → lookup s.ims.smap src ≡ some td
        → (b ≡ true → td.readers ≡ 1)
        → IsCounted (record s {
          ims = record s.ims { smap = insert s.ims.smap td.src (record td { exclusive = b }) };
        })
    exclusive-IsCounted s src td b c e one =
        let name = (c.consistent.named src td e).0 in
        let e' : lookup s.ims.smap td.src ≡ some td = ap (lookup s.ims.smap) name ∙ e in
        let n = c.counted td.src td e' in
        put-IsCounted s td (record td { exclusive = b }) s.held c e' refl refl n
          (λ x. sym n ∙ one x) (λ k ne. refl)

    -- One reader less, for a partition that nobody locked.
    pub drop-IsCounted :
        (s : System T) (src : ℕ) (td : TagsDesc T)
        → IsCounted s
        → lookup s.ims.smap src ≡ some td
        → td.exclusive ≡ false
        → IsCounted (record {
          ims = record s.ims {
            smap = insert s.ims.smap td.src (record td { readers = td.readers - 1 });
          };
          held = less s.held src;
        })
    unfolding less
    drop-IsCounted s src td c e free =
        let name = (c.consistent.named src td e).0 in
        let e' : lookup s.ims.smap td.src ≡ some td = ap (lookup s.ims.smap) name ∙ e in
        let n = c.counted td.src td e' in
        put-IsCounted s td (record td { readers = td.readers - 1 }) (less s.held src) c e' refl refl
          (ground arith) (λ x. absurd (ground arith)) (λ k ne. ground arith)

    -- A name that was deleted is still held, and given back without an effect.
    pub gone-IsCounted :
        (s : System T) (src : ℕ)
        → IsCounted s
        → lookup s.ims.smap src ≡ none
        → IsCounted (record s { held = less s.held src })
    unfolding less
    gone-IsCounted s src c e =
        let same : (k : ℕ) (td : TagsDesc T)
            → lookup s.ims.smap k ≡ some td
            → less s.held src k ≡ s.held k =
          λ k td l. elim (ℕ_discrete src k) [
            | yes h ↦
                absurd
                  (let f : none ≡ some td = sym e ∙ ap (lookup s.ims.smap) h ∙ l in ground arith)
            | no ne ↦ ground arith
          ] in
        record {
          consistent = c.consistent;
          counted = λ k td l. c.counted k td l ∙ sym (same k td l);
          alone = λ k td l x. same k td l ∙ c.alone k td l x;
        }
