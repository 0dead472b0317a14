-- ===== src/Partition/Service/Delete.antt =====
-- When deleteJournal deletes a partition, and what a call that does not delete leaves.
use mathlib.Core.Bool.{not}
use logrange.Prelude.{
  ℕ, ◌<◌, ◌≡◌, Bool, true, false, ◌&&◌, ltb, ◌==◌, Option, some, arith, Bool-cases, inl, inr,
}
use logrange.Prelude.Assoc.{lookup, erase}
use logrange.Tindex.Inmem.{TagsDesc}
use logrange.Tindex.Inmem.Calls.{lock_refused, lock_alone, unlock_again}
use logrange.Partition.Truncate.{Journals}
use logrange.Partition.Service.{World, with_dir, delete_journal}

-- Nobody but the caller holds the partition.
abbrev pub IsAlone : {T : Type 0} → TagsDesc T → Type 0
IsAlone td = (td.exclusive ≡ false) × (td.readers ≡ 1)

module _ {T J : Type 0} (parse : ℕ → Option T) (line_of : T → ℕ) (is_empty : T → Bool)
    (api : Journals J) (w : World T J) (jn : ℕ) (td : TagsDesc T)
    (known : lookup w.ims.smap jn ≡ some td) (named : td.src ≡ jn) where
  refused :
      not td.exclusive && td.readers == 1 ≡ false
      → delete_journal parse line_of is_empty api w jn ≡ some (false, w)
  unfolding delete_journal
  refused h = rw (lock_refused w.ims jn td known h)

  full :
      IsAlone td
      → 0 < api.size (w.journal jn)
      → delete_journal parse line_of is_empty api w jn ≡ some (false, w)
  unfolding delete_journal
  full alone h =
      let has : ltb 0 (api.size (w.journal jn)) ≡ true = ground arith in
      rw (
        lock_alone w.ims jn td known named alone.0 alone.1,
        has,
        unlock_again w.ims jn td known named alone.0 alone.1,
      )

  -- A partition with bytes is never deleted, and the call changes nothing.
  pub delete_journal_keeps :
      0 < api.size (w.journal jn) → delete_journal parse line_of is_empty api w jn ≡ some (false, w)
  delete_journal_keeps h = elim (Bool-cases (not td.exclusive && td.readers == 1)) [
    | inl alone ↦ full (ground arith, ground arith) h
    | inr no_lock ↦ refused no_lock
  ]

  -- The index without the partition, and its folder given to os.RemoveAll.
  abbrev removed : World T J
  removed = record w {
    ims = record w.ims { tmap = erase w.ims.tmap (line_of td.tags); smap = erase w.ims.smap jn };
    removed_dirs = with_dir (api.local_folder (w.journal jn)) w.removed_dirs;
  }
