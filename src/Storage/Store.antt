-- ===== src/Storage/Store.antt =====
-- The interface Provider of internal/storage/provider.go, over an unknown state, and what its
-- clients rely on. `view` is what the state keeps for an id; `Faults` says what goes wrong in a call.
use dero_ghost_drop.Base.{
  ℕ, ◌≤◌, ◌≡◌, ◌≢◌, false, true, Option, none, some, Bytes, length, take, drop,
}
use dero_ghost_drop.Base.Int.{ℤ, pos}
use dero_ghost_drop.Storage.Types.{Result, ok, Reader, is_past, Blob}
use dero_ghost_drop.Storage.Ids.{validate_id}

pub record Store : Type 1 where
  pub State : Type 0
  pub Faults : Type 0
  pub healthy : Faults
  pub IsSound : State → Type 0
  pub view : State → Bytes → Option Blob
  pub put : Faults → Bytes → Reader → ℤ → Option ℕ → State → Result (Unit {0}) × State
  pub get : Faults → Bytes → ℤ → ℕ → State → Result Bytes × State
  pub delete : Faults → Bytes → State → Result (Unit {0}) × State
  pub stat : Faults → Bytes → ℕ → State → Result (ℕ × Option ℕ) × State
  pub health : Faults → ℕ → State → Result (Unit {0}) × State
  pub backend : Bytes

-- A call for one id keeps the state sound and every other id's blob.
abbrev pub Keeps : (S : Store) → Bytes → Store.State S → Store.State S → Type 0
Keeps S id s t = S.IsSound t × ((j : Bytes) → id ≢ j → S.view t j ≡ S.view s j)

pub record IsLawful (S : Store) : Type 0 where
  pub put-Keeps :
      (f : S.Faults) (id : Bytes) (r : Reader) (size : ℤ) (expiry : Option ℕ) (s : S.State)
      → S.IsSound s
      → Keeps S id s (S.put f id r size expiry s).1
  -- A Put that reports no error has stored the announced number of bytes, the reader's first.
  pub put_stores :
      (f : S.Faults) (id : Bytes) (r : Reader) (size : ℕ) (expiry : Option ℕ) (s : S.State)
      → S.IsSound s
      → (S.put f id r (pos size) expiry s).0 ≡ ok tt
      → (size ≤ length r.bytes)
        × (S.view (S.put f id r (pos size) expiry s).1 id
            ≡ some (record { bytes = take size r.bytes; expiry = expiry }))
  pub get-Keeps :
      (f : S.Faults) (id : Bytes) (offset : ℤ) (now : ℕ) (s : S.State)
      → S.IsSound s
      → Keeps S id s (S.get f id offset now s).1
  -- A Get delivers what is stored for the id, from the offset on, and never past the expiry.
  pub get_delivers :
      (f : S.Faults) (id : Bytes) (off now : ℕ) (s : S.State) {out : Bytes}
      → S.IsSound s
      → (S.get f id (pos off) now s).0 ≡ ok out
      → (b : Blob) × (S.view s id ≡ some b)
        × (is_past b.expiry now ≡ false)
        × (out ≡ drop off b.bytes)
        × ((S.get f id (pos off) now s).1 ≡ s)
  -- Without a fault it does deliver it.
  pub get_succeeds :
      (id : Bytes) (off now : ℕ) (s : S.State) {b : Blob}
      → S.IsSound s
      → validate_id id ≡ true
      → S.view s id ≡ some b
      → is_past b.expiry now ≡ false
      → off ≤ length b.bytes
      → S.get S.healthy id (pos off) now s ≡ (ok (drop off b.bytes), s)
  pub delete-Keeps :
      (f : S.Faults) (id : Bytes) (s : S.State) → S.IsSound s → Keeps S id s (S.delete f id s).1
  pub delete_removes :
      (f : S.Faults) (id : Bytes) (s : S.State)
      → S.IsSound s
      → (S.delete f id s).0 ≡ ok tt
      → S.view (S.delete f id s).1 id ≡ none
  pub delete_succeeds :
      (id : Bytes) (s : S.State) → validate_id id ≡ true → (S.delete S.healthy id s).0 ≡ ok tt
