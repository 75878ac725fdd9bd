-- ===== src/Relay/Isolation.antt =====
-- A request for one drop leaves every other drop alone.
use dero_ghost_drop.Base.{
  if◌then◌else◌, ℕ, ◌≡◌, ◌≢◌, refl, ◌∙◌, false, Option, none, some, [], arith, Bytes, insert,
  remove, lookup, lookup-insert, lookup-remove, bytes_eq, bytes_eq_iff,
}
use dero_ghost_drop.Base.Int.{pos_part}
use dero_ghost_drop.Relay.Types.{Env, Config, CreateRequest, Meta, Server, Request, Faults}
use dero_ghost_drop.Relay.Disk.{delete_locked, save_meta}
use dero_ghost_drop.Relay.Cases.{put_copy_cases, handle_put_cases}
use dero_ghost_drop.Relay.Handlers.{
  parsed, handle_create, create_locked, create_sized, new_meta, put_copy, handle_put, get_open,
  Serving, get_close, handle_meta, handle_delete,
}

-- The record, the payload and the token of drop `j` are the same in both states.
pub record SameDrop (j : Bytes) (s t : Server) : Type 0 where
  pub same_meta : lookup j t.metas ≡ lookup j s.metas
  pub same_file : lookup j t.bins ≡ lookup j s.bins
  pub same_hash : lookup j t.tokens ≡ lookup j s.tokens

bytes_ne : (a b : Bytes) → a ≢ b → bytes_eq a b ≡ false
bytes_ne a b h = ground (arith, bytes_eq_iff a b)

pub SameDrop-refl : (j : Bytes) (s : Server) → SameDrop j s s
SameDrop-refl j s = record { same_meta = refl; same_file = refl; same_hash = refl }

delete_locked-SameDrop :
    (j : Bytes) (m : Meta) (s : Server) → m.id ≢ j → SameDrop j s (delete_locked m s)
unfolding delete_locked
delete_locked-SameDrop j m s h = record {
  same_meta = ground (arith, lookup-remove m.id j s.metas, bytes_ne m.id j h);
  same_file = ground (arith, lookup-remove m.id j s.bins, bytes_ne m.id j h);
  same_hash = rw (lookup-remove m.id j s.tokens, bytes_ne m.id j h);
}

SameDrop-trans : {j : Bytes} {s t u : Server} → SameDrop j s t → SameDrop j t u → SameDrop j s u
SameDrop-trans a b = record {
  same_meta = b.same_meta ∙ a.same_meta;
  same_file = b.same_file ∙ a.same_file;
  same_hash = b.same_hash ∙ a.same_hash;
}

write-SameDrop :
    (j id file : Bytes) (s : Server)
    → id ≢ j
    → SameDrop j s (record s { bins = insert id file s.bins })
write-SameDrop j id file s h = record {
  same_meta = refl;
  same_file = rw (lookup-insert id j file s.bins, bytes_ne id j h);
  same_hash = refl;
}

save_meta-SameDrop :
    (j : Bytes) (m : Meta) (up : ℕ) (s : Server)
    → m.id ≢ j
    → SameDrop j s (record (save_meta m s) { bytes_up = up })
unfolding save_meta
save_meta-SameDrop j m up s h = record {
  same_meta = rw (lookup-insert m.id j m s.metas, bytes_ne m.id j h);
  same_file = refl;
  same_hash = refl;
}

added-SameDrop :
    (j : Bytes) (m : Meta) (s : Server)
    → m.id ≢ j
    → SameDrop j s (record s {
      metas = insert m.id m s.metas;
      bins = insert m.id [] s.bins;
      tokens = insert m.id m.token_hash s.tokens;
    })
added-SameDrop j m s h = record {
  same_meta = rw (lookup-insert m.id j m s.metas, bytes_ne m.id j h);
  same_file = rw (lookup-insert m.id j [] s.bins, bytes_ne m.id j h);
  same_hash = rw (lookup-insert m.id j m.token_hash s.tokens, bytes_ne m.id j h);
}

undone-SameDrop :
    (j : Bytes) (m : Meta) (s : Server)
    → m.id ≢ j
    → SameDrop j s (record s {
      metas = if s.meta_stays then insert m.id m s.metas else remove m.id (insert m.id m s.metas);
    })
undone-SameDrop j m s h = record {
  same_meta = ground (
    arith,
    lookup-remove m.id j (insert m.id m s.metas),
    lookup-insert m.id j m s.metas,
    bytes_ne m.id j h,
  );
  same_file = refl;
  same_hash = refl;
}

module _ (env : Env) (j : Bytes) (s : Server)
    (named : (id : Bytes) (m : Meta) → lookup id s.metas ≡ some m → m.id ≡ id) where
  found_ne : (id : Bytes) (m : Meta) → id ≢ j → lookup id s.metas ≡ some m → m.id ≢ j
  found_ne id m ne e = ground (arith, named id m e)

  deletes-SameDrop :
      (id : Bytes) (m : Meta)
      → id ≢ j
      → lookup id s.metas ≡ some m
      → SameDrop j s (delete_locked m s)
  deletes-SameDrop id m ne e = delete_locked-SameDrop j m s (found_ne id m ne e)

  put_copy-SameDrop :
      (id : Bytes) (io : Faults) (m : Meta) (off : ℕ) (file body : Bytes)
      → id ≢ j
      → lookup id s.metas ≡ some m
      → SameDrop j s (put_copy id io m off file body s).1
  put_copy-SameDrop id io m off file body ne e =
      put_copy_cases (λ _. SameDrop j s) id io m off file body s
        (λ _ _ le. write-SameDrop j id _ s ne) (λ _ _. write-SameDrop j id _ s ne)
        λ le.
          SameDrop-trans (write-SameDrop j id _ s ne)
            (save_meta-SameDrop j _ _ _ (found_ne id m ne e))

  create_locked-SameDrop :
      (now : ℕ) (token : Option Bytes) (io : Faults) (req : CreateRequest) (size : ℕ)
      → req.id ≢ j
      → SameDrop j s (create_locked env now token io req size s).1
  unfolding create_locked save_meta
  create_locked-SameDrop now none io req size ne = grind (arith, SameDrop-refl)
  create_locked-SameDrop now (some tok) io req size ne = grind (
    arith,
    SameDrop-refl j s,
    added-SameDrop j (new_meta env req size tok now) s ne,
    undone-SameDrop j (new_meta env req size tok now) s ne,
  )

  -- Where every record stands under the id that is in it, a request for another drop changes neither
  -- the record of drop `j`, nor its payload, nor its token, whatever the handler and whatever fails,
  -- removals and truncations included.
  pub other_drops_untouched :
      (cfg : Config) (now : ℕ) (token : Option Bytes) (io : Faults) (new : CreateRequest)
      (req : Request) (body : Bytes) (g : Serving)
      → new.id ≢ j
      → req.id ≢ j
      → g.id ≢ j
      → SameDrop j s (handle_create env cfg now token io (parsed new) s).1
        × SameDrop j s (handle_put env now io req body s).1
        × SameDrop j s (get_open env now io req s).1
        × SameDrop j s (get_close g s)
        × SameDrop j s (handle_meta env now req s).1
        × SameDrop j s (handle_delete env req s).1
  unfolding handle_create create_sized get_open get_close handle_meta handle_delete
  other_drops_untouched cfg now token io new req body g ncreate nreq nget = (
    ground (
      arith,
      create_locked-SameDrop now token io new (pos_part new.size_bytes) ncreate,
      SameDrop-refl j s,
    ),
    handle_put_cases (λ _. SameDrop j s) env now io req body s (λ _ _. SameDrop-refl j s)
        (λ m e _. deletes-SameDrop req.id m nreq e)
        (λ m off file e o f lt. put_copy-SameDrop req.id io m off file body nreq e),
    grind (arith, deletes-SameDrop req.id, SameDrop-refl),
    grind (arith, deletes-SameDrop g.id, SameDrop-refl),
    grind (arith, deletes-SameDrop req.id, SameDrop-refl),
    grind (arith, deletes-SameDrop req.id, SameDrop-refl),
  )
