-- ===== src/Tindex/Inmem/Consistent.antt =====
-- The two maps of the service agree.
use mathlib.Core.Option.{some-injective}
use logrange.Prelude.{ℕ, ◌≡◌, ◌≢◌, sym, subst, ap, ◌∙◌, none, some, arith, ℕ_discrete}
use logrange.Prelude.Assoc.{lookup, insert, erase, lookup-insert, lookup-erase}
use logrange.Tindex.Inmem.{TagsDesc, InmemService}

module _ {T : Type 0} (line_of : T → ℕ) where
  -- Each description is stored under its name and known by its tags' line, and each line that is
  -- known leads to a description with that line.
  pub record IsConsistent (ims : InmemService T) : Type 0 where
    pub named :
        (src : ℕ) (td : TagsDesc T)
        → lookup ims.smap src ≡ some td
        → (td.src ≡ src) × (lookup ims.tmap (line_of td.tags) ≡ some src)
    pub known :
        (line src : ℕ)
        → lookup ims.tmap line ≡ some src
        → (td : TagsDesc T) × (lookup ims.smap src ≡ some td) × (line_of td.tags ≡ line)

  -- A description replaced by one with the same name and tags.
  pub put-IsConsistent :
      (ims : InmemService T) (td td' : TagsDesc T)
      → IsConsistent ims
      → lookup ims.smap td.src ≡ some td
      → td'.src ≡ td.src
      → td'.tags ≡ td.tags
      → IsConsistent (record ims { smap = insert ims.smap td'.src td' })
  put-IsConsistent ims td td' c e same_src same_tags = record {
    named = λ src d l. elim (ℕ_discrete td'.src src) [
      | yes h ↦
          (let m : some td' ≡ some d =
              sym (lookup-insert ims.smap td'.src src td' ∙ (ground arith)) ∙ l in
            let eq = some-injective td' d m in
            subst (λ z. (z.src ≡ src) × (lookup ims.tmap (line_of z.tags) ≡ some src)) eq
              (h, rw (same_tags) (let n = (c.named td.src td e).1 in rw n (ground arith))))
      | no ne ↦ c.named src d (sym (lookup-insert ims.smap td'.src src td' ∙ (ground arith)) ∙ l)
    ];
    known = λ line src l.
        let (d, m, n) = c.known line src l in
        elim (ℕ_discrete td'.src src) [
          | yes h ↦
              let same : some td ≡ some d = sym e ∙ (rw (← same_src, h) m) in
              (
                td',
                lookup-insert ims.smap td'.src src td' ∙ (ground arith),
                ap line_of (same_tags ∙ ap (λ z. z.tags) (some-injective td d same)) ∙ n,
              )
          | no ne ↦ (d, lookup-insert ims.smap td'.src src td' ∙ (ground arith), n)
        ];
  }

  pub add-IsConsistent :
      (ims : InmemService T) (tgs : T) (td : TagsDesc T)
      → IsConsistent ims
      → lookup ims.tmap (line_of tgs) ≡ none
      → lookup ims.smap td.src ≡ none
      → td.tags ≡ tgs
      → IsConsistent (record ims {
        tmap = insert ims.tmap (line_of tgs) td.src;
        smap = insert ims.smap td.src td;
      })
  add-IsConsistent ims tgs td c no_line no_name same = record {
    named = λ src d l. elim (ℕ_discrete td.src src) [
      | yes h ↦
          (let m : some td ≡ some d =
              sym (lookup-insert ims.smap td.src src td ∙ (ground arith)) ∙ l in
            subst
              (λ z.
                (z.src ≡ src)
                × (lookup (insert ims.tmap (line_of tgs) td.src) (line_of z.tags) ≡ some src))
              (some-injective td d m)
              (
                h,
                rw same
                    (lookup-insert ims.tmap (line_of tgs) (line_of tgs) td.src ∙ (ground arith)),
              ))
      | no ne ↦
          (let (n, k) =
              c.named src d (sym (lookup-insert ims.smap td.src src td ∙ (ground arith)) ∙ l) in
            let other : line_of tgs ≢ line_of d.tags = λ h. ground arith in
            (n, lookup-insert ims.tmap (line_of tgs) (line_of d.tags) td.src ∙ (ground arith)))
    ];
    known = λ line src l. elim (ℕ_discrete (line_of tgs) line) [
      | yes h ↦
          (let m : some td.src ≡ some src =
              sym (lookup-insert ims.tmap (line_of tgs) line td.src ∙ (ground arith)) ∙ l in
            let eq = some-injective td.src src m in
            (td, lookup-insert ims.smap td.src src td ∙ (ground arith), ap line_of same ∙ h))
      | no ne ↦
          (let (d, m, n) =
              c.known line src
                (sym (lookup-insert ims.tmap (line_of tgs) line td.src ∙ (ground arith)) ∙ l) in
            let other : td.src ≢ src = λ h. ground (arith, m) in
            (d, lookup-insert ims.smap td.src src td ∙ (ground arith), n))
    ];
  }

  pub remove-IsConsistent :
      (ims : InmemService T) (td : TagsDesc T)
      → IsConsistent ims
      → lookup ims.smap td.src ≡ some td
      → IsConsistent
          (record ims { tmap = erase ims.tmap (line_of td.tags); smap = erase ims.smap td.src })
  remove-IsConsistent ims td c e = record {
    named = λ src d l.
        let ne : td.src ≢ src = λ h. ground (arith, lookup-erase ims.smap td.src src) in
        let (n, k) = c.named src d (sym (lookup-erase ims.smap td.src src ∙ (ground arith)) ∙ l) in
        let k0 = (c.named td.src td e).1 in
        let other : line_of td.tags ≢ line_of d.tags =
          λ h. ne (some-injective td.src src (sym k0 ∙ ap (lookup ims.tmap) h ∙ k)) in
        (n, lookup-erase ims.tmap (line_of td.tags) (line_of d.tags) ∙ (ground arith));
    known = λ line src l.
        let ne : line_of td.tags ≢ line =
          λ h. ground (arith, lookup-erase ims.tmap (line_of td.tags) line) in
        let (d, m, n) =
          c.known line src
            (sym (lookup-erase ims.tmap (line_of td.tags) line ∙ (ground arith)) ∙ l) in
        let other : td.src ≢ src = λ h. ne (
          ap (λ z. line_of z.tags) (some-injective td d (sym e ∙ ap (lookup ims.smap) h ∙ m))
          ∙ n) in
        (d, lookup-erase ims.smap td.src src ∙ (ground arith), n);
  }
