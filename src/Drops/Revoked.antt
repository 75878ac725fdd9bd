-- ===== src/Drops/Revoked.antt =====
-- internal/drops/manager.go: a Retrieve behind a Revoke.
use mathlib.Core.Path.{subst}
use dero_ghost_drop.Base.{
  ℕ, ◌≡◌, ◌∙◌, refl, sym, ap, Bool, false, Option, none, some, arith, Bytes, lookup,
  lookup-insert_self,
}
use dero_ghost_drop.Base.Int.{pos}
use dero_ghost_drop.Storage.Types as Storage
use dero_ghost_drop.Storage.Types.{is_past, Blob}
use dero_ghost_drop.Storage.Store.{Store, IsLawful}
use dero_ghost_drop.Manifest.Types.{Manifest}
use dero_ghost_drop.Manifest.Validate.{is_after}
use dero_ghost_drop.Database as Database
use dero_ghost_drop.Drops.Types.{
  storage, Status, revoked, delivered, Error, ok, err, Library, RetrieveOpts,
}
use dero_ghost_drop.Drops.Locks.{resolve_key}
use dero_ghost_drop.Drops.Manager.{Manager, Faults, set_status, write, get_manifest}
use dero_ghost_drop.Drops.Retrieve.{
  retrieve_fetched, retrieve_delivered, retrieve_keyed, retrieve_known, retrieve,
}
use dero_ghost_drop.Drops.Query.{revoke, revoke_deleted}
use dero_ghost_drop.Drops.Available.{
  write-manifests, set_status-manifests, set_status-store, write-store,
}

module _ (lib : Library) (S : Store) where
  abbrev pub status_in : Bytes → Manager S → Option Status
  status_in id m = lookup id m.statuses

  write-statuses :
      (st : Database.Db → Database.Result (Unit {0}) × Database.Db) (m : Manager S)
      → (write S st m).statuses ≡ m.statuses
  unfolding write
  write-statuses st m = ground arith

  set_status-statuses :
      (fails : Bool) (id : Bytes) (st : Status) (m : Manager S)
      → lookup id (set_status S fails id st m).statuses ≡ some st
  unfolding set_status
  set_status-statuses fails id st m =
      grind (arith, write-statuses, lookup-insert_self id st m.statuses)

  -- What a Revoke without an error leaves.
  revoke_ok :
      (id : Bytes) (now : ℕ) (f : Faults S) (m : Manager S)
      → (revoke S id now f m).0 ≡ ok tt
      → ((S.delete f.store id m.store).0 ≡ Storage.ok tt)
        × ((revoke S id now f m).1.store ≡ (S.delete f.store id m.store).1)
        × (status_in id (revoke S id now f m).1 ≡ some revoked)
        × ((revoke S id now f m).1.manifests ≡ m.manifests)
  unfolding revoke revoke_deleted
  revoke_ok id now f m h = go (S.delete f.store id m.store) refl
    where
      go :
          (x : Storage.Result (Unit {0}) × S.State)
          → S.delete f.store id m.store ≡ x
          → ((S.delete f.store id m.store).0 ≡ Storage.ok tt)
            × ((revoke S id now f m).1.store ≡ (S.delete f.store id m.store).1)
            × (status_in id (revoke S id now f m).1 ≡ some revoked)
            × ((revoke S id now f m).1.manifests ≡ m.manifests)
      go (Storage.err e, s) i = absurd (ground arith)
      go (Storage.ok tt, s) i =
          let t = set_status S (f.db 0) id revoked (record m { store = s }) in
          (
            ground arith,
            grind (arith, write-store lib S, set_status-store lib S),
            grind (
              arith,
              write-statuses,
              set_status-statuses (f.db 0) id revoked (record m { store = s }),
            ),
            grind (arith, write-manifests lib S, set_status-manifests lib S),
          )

  module _ (lawful : IsLawful S) where
    -- Where the provider has nothing, Retrieve fails behind its status DELIVERED.
    delivered_nothing :
        (f : Faults S) (id : Bytes) (man : Manifest) (key : Bytes) (now : ℕ) (dst : Option Bytes)
        (m : Manager S)
        → S.IsSound m.store
        → S.view m.store id ≡ none
        → f.temp ≡ false
        → (e : Error) × ((retrieve_delivered lib S f id man key now dst m).0 ≡ err e)
          × ((retrieve_delivered lib S f id man key now dst m).1 ≡ dst)
          × (status_in id (retrieve_delivered lib S f id man key now dst m).2 ≡ status_in id m)
    unfolding retrieve_delivered retrieve_fetched
    delivered_nothing f id man key now dst m sound gone ft =
        go (S.get f.store id (pos 0) now m.store) refl
      where
        go :
            (x : Storage.Result Bytes × S.State)
            → S.get f.store id (pos 0) now m.store ≡ x
            → (e : Error) × ((retrieve_delivered lib S f id man key now dst m).0 ≡ err e)
              × ((retrieve_delivered lib S f id man key now dst m).1 ≡ dst)
              × (status_in id (retrieve_delivered lib S f id man key now dst m).2 ≡ status_in id m)
        go (Storage.err e, s) i = (storage e, ground arith, ground arith, ground arith)
        go (Storage.ok enc, s) i =
            let (b, v, x, e, same) =
              lawful.get_delivers f.store id 0 now m.store sound (ap (λ z. z.0) i) in
            absurd (ground arith)

    -- A drop that was revoked is not delivered any more: a Retrieve with its key, before its expiry,
    -- ends in an error and leaves dstPath alone. But the status, which Revoke has set to REVOKED, is
    -- DELIVERED behind it.
    pub retrieve-revoke :
        (id : Bytes) (now later : ℕ) (f g : Faults S) (m : Manager S) (man : Manifest)
        (o : RetrieveOpts) (key : Bytes) (dst : Option Bytes)
        → S.IsSound m.store
        → (revoke S id now f m).0 ≡ ok tt
        → lookup id m.manifests ≡ some man
        → resolve_key lib man o ≡ ok key
        → is_after (some later) man.expires_at ≡ false
        → g.cancelled ≡ false
        → g.temp ≡ false
        → (status_in id (revoke S id now f m).1 ≡ some revoked)
          × ((e : Error) × ((retrieve lib S id o later g dst (revoke S id now f m).1).0 ≡ err e)
              × ((retrieve lib S id o later g dst (revoke S id now f m).1).1 ≡ dst)
              × (status_in id (retrieve lib S id o later g dst (revoke S id now f m).1).2
                  ≡ some delivered))
    unfolding retrieve retrieve_known retrieve_keyed get_manifest
    retrieve-revoke id now later f g m man o key dst sound h known k x gc gt =
        let r = (revoke S id now f m).1 in
        let (d, st, status, mans) = revoke_ok id now f m h in
        let t = set_status S (g.db 1) id delivered r in
        let stored : t.store ≡ (S.delete f.store id m.store).1 =
          set_status-store lib S (g.db 1) id delivered r ∙ st in
        let (e, a, b, c) =
          delivered_nothing g id man key later dst t
            (subst S.IsSound (sym stored) (lawful.delete-Keeps f.store id m.store sound).0)
            (ap (λ s. S.view s id) stored ∙ lawful.delete_removes f.store id m.store sound d) gt in
        let found : lookup id r.manifests ≡ some man = ap (lookup id) mans ∙ known in
        let whole : retrieve lib S id o later g dst r
            ≡ retrieve_delivered lib S g id man key later dst t =
          ground arith in
        (
          status,
          (
            e,
            ap (λ z. z.0) whole ∙ a,
            ap (λ z. z.1) whole ∙ b,
            ap (λ z. status_in id z.2) whole ∙ c ∙ set_status-statuses (g.db 1) id delivered r,
          ),
        )
