-- ===== src/Storage/Client/Ends.antt =====
-- internal/storage/relay.go: the loop of Put comes to its end.
use dero_ghost_drop.Base.{
  ℕ, zero, suc, ◌+◌, ◌-◌, ◌≤◌, ◌<◌, ◌≡◌, ◌≢◌, ◌∙◌, refl, ap, Bool, Option, none, some, arith, Bytes,
  length, take, drop,
}
use dero_ghost_drop.Storage.Types.{Error, Result, ok, err, unfinished, io_error}
use dero_ghost_drop.Storage.Wire.{Response, Net, put_range, status_err, answered, is_stored}
use dero_ghost_drop.Storage.Client.{want, sent, send_chunk, put_loop}

status_err_ends : (status : ℕ) → status_err status ≢ unfinished
unfolding status_err
status_err_ends status h = ground arith

pub want-le : (off size : ℕ) → off < size → (want off size ≤ size - off) × (0 < want off size)
want-le off size l = (ground arith, ground arith)

module _ (net : Net) (token id : Bytes) where
  answered_ends : (a : Option Response) → answered is_stored a ≢ err unfinished
  unfolding answered
  answered_ends none h = ground arith
  answered_ends (some r) h = ground (arith, status_err_ends r.status)

  send_chunk_ends :
      (tries : ℕ) (last : Error) (chunk : Bytes) (off size : ℕ) (w : net.World)
      → last ≢ unfinished
      → (send_chunk net token tries last id chunk off size w).0 ≢ err unfinished
  unfolding send_chunk
  send_chunk_ends zero last chunk off size w l h = ground arith
  send_chunk_ends (suc tries) last chunk off size w l h =
      go (answered is_stored a.0) refl (λ e k. send_chunk_ends tries e chunk off size a.1 k)
    where
      a : Option Response × net.World
      a = net.send token (put_range id chunk off (off + length chunk - 1) size) w

      go :
          (b : Result Response)
          → answered is_stored a.0 ≡ b
          → ((e : Error)
              → e ≢ unfinished
              → (send_chunk net token tries e id chunk off size a.1).0 ≢ err unfinished)
          → ⊥
      go (ok r) i ih = ground arith
      go (err e) i ih = ih e (λ k. answered_ends a.0 (i ∙ ap err k)) (ground arith)

  -- The loop is given one round more than there are bytes to send, and every round sends one at least:
  -- whatever the relay answers, it never runs out of rounds.
  pub put_loop_ends :
      (fuel : ℕ) (done : ℕ → Bool) (i : ℕ) (src : Bytes) (off size : ℕ) (w : net.World)
      → off ≤ size
      → size < off + fuel
      → (put_loop net token fuel done i id src off size w).0 ≢ err unfinished
  unfolding put_loop
  put_loop_ends zero done i src off size w k l h = omega arith
  put_loop_ends (suc fuel) done i src off size w k l h =
      go (sent net token id src off size w).0 refl (λ small positive.
        put_loop_ends fuel done (suc i) (drop (want off size) src) (off + want off size) size
          (sent net token id src off size w).1 small positive)
    where
      go :
          (a : Result (Unit {0}))
          → (sent net token id src off size w).0 ≡ a
          → (off + want off size ≤ size
              → size < off + want off size + fuel
              → (put_loop net token fuel done
                  (suc i)
                  id
                  (drop (want off size) src)
                  (off + want off size)
                  size
                  (sent net token id src off size w).1).0
                ≢ err unfinished)
          → ⊥
      go (err e) j ih =
          ground (arith, send_chunk_ends 3 io_error (take (want off size) src) off size w)
      go (ok tt) j ih =
          let more : off < size = ground arith in
          let (small, positive) = want-le off size more in
          ih (omega arith) (omega arith) (ground arith)
