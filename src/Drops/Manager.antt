-- ===== src/Drops/Manager.antt =====
-- internal/drops/manager.go: the state of a Manager, setStatus, remember and GetManifest. The mutex
-- is held by these only. What the caller ignores, as a database that fails, is ignored here.
use dero_ghost_drop.Base.{
  ℕ, Bool, Option, none, some, Bytes, Map, lookup, insert, remove, if◌then◌else◌,
}
use dero_ghost_drop.Storage.Store.{Store}
use dero_ghost_drop.Manifest.Types.{Manifest}
use dero_ghost_drop.Manifest.Validate.{validate}
use dero_ghost_drop.Database as Database
use dero_ghost_drop.Drops.Types.{Status, status_name, Result, ok, err, not_found}

-- What goes wrong in a call: its context is done; the temporary file cannot be made, stat'ed, opened
-- or read; the destination cannot be opened, written or hashed; the manifest cannot be saved, or is
-- written in part; the database refuses the n-th statement; and the faults of the provider in its
-- first call and in the deletion of a Retrieve.
pub record Faults (S : Store) : Type 0 where
  pub cancelled : Bool
  pub temp : Bool
  pub temp_stat : Bool
  pub temp_open : Bool
  pub temp_read : Bool
  pub dst_open : Bool
  pub dst_write : Bool
  pub dst_read : Bool
  pub save : Bool
  pub save_write : Bool
  pub db : ℕ → Bool
  pub store : S.Faults
  pub store_delete : S.Faults

module _ (S : Store) where
  -- Manager: `none` for a nil database, and for an empty manifestDir. A file of manifestDir is the
  -- manifest whose JSON it holds; one that holds no JSON, as after a failed write, is left out.
  pub record Manager : Type 0 where
    pub store : S.State
    pub db : Option Database.Db
    pub ghost : Bool
    pub files : Option (Map Manifest)
    pub manifests : Map Manifest
    pub statuses : Map Status

  unfoldable pub written :
      (Database.Db → Database.Result (Unit {0}) × Database.Db)
      → Option Database.Db
      → Option Database.Db
  written statement none = none
  written statement (some d) = some (statement d).1

  -- A statement under m.db != nil && !m.ghost, whose error is ignored
  unfoldable pub write :
      (Database.Db → Database.Result (Unit {0}) × Database.Db) → Manager → Manager
  write statement m = if m.ghost then m else record m { db = written statement m.db }

  -- setStatus; `fails` is for its statement
  unfoldable pub set_status : Bool → Bytes → Status → Manager → Manager
  set_status fails id st m =
      write (Database.update_status fails id (status_name st))
        (record m { statuses = insert id st m.statuses })

  -- MkdirAll and Save
  unfoldable pub saved : Faults S → Bytes → Manifest → Option (Map Manifest) → Option (Map Manifest)
  saved f id man none = none
  saved f id man (some fs) =
      some (if f.save then fs else if f.save_write then remove id fs else insert id man fs)

  -- remember
  unfoldable pub remember : Faults S → Bytes → Manifest → Status → Manager → Manager
  remember f id man st m = record m {
    manifests = insert id man m.manifests;
    statuses = insert id st m.statuses;
    files = saved f id man m.files;
  }

  -- manifest.Load of the file for an id
  unfoldable pub load : Bytes → Option (Map Manifest) → Option Manifest
  load id none = none
  load id (some fs) = elim (lookup id fs) [
    | none ↦ none
    | some man ↦ elim (validate man) [ none ↦ some man | some e ↦ none ]
  ]

  -- GetManifest
  unfoldable pub get_manifest : Bytes → Manager → Result Manifest × Manager
  get_manifest id m = elim (lookup id m.manifests) [
    | some man ↦ (ok man, m)
    | none ↦ elim (load id m.files) [
      | none ↦ (err not_found, m)
      | some man ↦ (ok man, record m { manifests = insert id man m.manifests })
    ]
  ]
