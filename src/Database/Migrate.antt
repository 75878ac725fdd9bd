-- ===== src/Database/Migrate.antt =====
-- Migrate of internal/database/database.go on a database file, with migrateInner, verify and
-- copyFile. What SQLite does to the file with the schema, and finds in it, are parameters.
use mathlib.Core.Path.{subst}
use dero_ghost_drop.Base.{
  ℕ, sym, ◌≡◌, ◌⊎◌, inl, inr, refl, Bool, true, false, Option, none, some, Bytes, take,
  if◌then◌else◌,
}

pub data Migrated : Type 0 where
  migrated backup_failed schema_failed verify_failed : Migrated

-- The file and the backup beside it.
pub record Files : Type 0 where
  pub main : Option Bytes
  pub backup : Option Bytes

-- How copyFile ends: it copies, or fails before the target is opened, or when so many bytes are
-- written to the target, which os.WriteFile has truncated.
pub data Copying : Type 0 where
  copies : Copying
  not_started : Copying
  stops_at : ℕ → Copying

-- The copy to the backup, and the copy back.
pub record Faults : Type 0 where
  pub save : Copying
  pub restore : Copying

-- copyFile of `raw` onto a target: whether it succeeds, and the target behind it.
unfoldable pub copy_file : Copying → Bytes → Option Bytes → Bool × Option Bytes
copy_file copies raw target = (true, some raw)
copy_file not_started raw target = (false, target)
copy_file (stops_at n) raw target = (false, some (take n raw))

module _ (apply : Option Bytes → Bool × Bytes) (verify : Bytes → Bool) where
  unfoldable pub verified : Bytes → Migrated
  verified raw = if verify raw then migrated else verify_failed

  -- migrateInner and what follows it; `old` is what was saved.
  unfoldable pub migrate_from : Copying → Option Bytes → Bool × Bytes → Files → Migrated × Files
  migrate_from restore old (true, raw) s = (verified raw, record s { main = some raw })
  migrate_from restore none (false, raw) s = (schema_failed, record s { main = some raw })
  migrate_from restore (some old) (false, raw) s =
      (schema_failed, record s { main = (copy_file restore old (some raw)).1 })

  unfoldable pub migrate_saved : Faults → Option Bytes → Files → Migrated × Files
  unfolding copy_file
  migrate_saved f none s = migrate_from f.restore none (apply none) s
  migrate_saved f (some old) s =
      let (saved, bak) = copy_file f.save old s.backup in
      let s' = record s { backup = bak } in
      if saved then migrate_from f.restore (some old) (apply (some old)) s' else (backup_failed, s')

  -- Migrate
  unfoldable pub migrate : Faults → Files → Migrated × Files
  migrate f s = migrate_saved f s.main s

  from_keeps :
      (restore : Copying) (old : Bytes) (a : Bool × Bytes) (s : Files)
      → s.backup ≡ some old
      → (migrate_from restore (some old) a s).1.backup ≡ some old
  unfolding migrate_from
  from_keeps restore old (true, raw) s h = h
  from_keeps restore old (false, raw) s h = h

  saved_keeps :
      (f : Faults) (s : Files) (old : Bytes) (c : Copying)
      → f.save ≡ c
      → s.main ≡ some old
      → let t = (migrate_saved f (some old) s).1 in (t.main ≡ some old) ⊎ (t.backup ≡ some old)
  unfolding migrate_saved
  saved_keeps f s old copies i h =
      inr (rw i (from_keeps f.restore old (apply (some old)) (record s { backup = some old }) refl))
  saved_keeps f s old not_started i h = inl (rw i h)
  saved_keeps f s old (stops_at n) i h = inl (rw i h)

  -- No migration loses the database: for a file that exists, however the schema, the verification and
  -- the two copies go, a copy that stops after it has truncated its target included, the bytes that
  -- the file held are afterwards in the file or in the backup beside it.
  pub migrate_keeps :
      (f : Faults) (s : Files) (old : Bytes)
      → s.main ≡ some old
      → ((migrate f s).1.main ≡ some old) ⊎ ((migrate f s).1.backup ≡ some old)
  unfolding migrate
  migrate_keeps f s old h =
      subst
        (λ m.
          ((migrate_saved f m s).1.main ≡ some old) ⊎ ((migrate_saved f m s).1.backup ≡ some old))
        (sym h) (saved_keeps f s old f.save refl h)
