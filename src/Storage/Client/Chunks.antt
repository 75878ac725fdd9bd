-- ===== src/Storage/Client/Chunks.antt =====
-- internal/storage/relay.go: the chunks of Put against a relay that keeps its side of the contract.
use mathlib.Core.List.{append_assoc}
use dero_ghost_drop.Base.{
  ℕ, zero, suc, ◌+◌, ◌-◌, ◌≤◌, ◌<◌, ◌≡◌, ◌≢◌, ◌⊎◌, inl, inr, ◌∙◌, refl, sym, ap, Bool, true, false,
  Option, none, some, ◌++◌, arith, Bytes, length, take, drop, length-append, length-take,
  take-append-drop, take-append_length, take_of_length-le,
}
use dero_ghost_drop.Storage.Types.{Error, Result, ok, err, io_error}
use dero_ghost_drop.Storage.Wire.{Response, Net, put_range, answered, is_stored}
use dero_ghost_drop.Storage.Client.{want, sent, send_chunk, put_loop}
use dero_ghost_drop.Storage.Client.Ends.{want-le}

-- What the relay promises for one drop: a range that it accepts, starting within the bytes it has
-- acknowledged, replaces what stood behind the start; a range that is refused, or whose answer is
-- lost, leaves what stands before its start, or finds that the drop has expired and deletes it; and
-- a drop that is gone accepts no range.
pub record IsRelay (net : Net) (token id : Bytes) : Type 0 where
  pub held : net.World → Bytes
  pub accepts :
      (chunk : Bytes) (off last size : ℕ) (w : net.World) (r : Response)
      → off ≤ length (held w)
      → (net.send token (put_range id chunk off last size) w).0 ≡ some r
      → is_stored r.status ≡ true
      → held (net.send token (put_range id chunk off last size) w).1 ≡ take off (held w) ++ chunk
  pub gone : net.World → Bool
  pub leaves :
      (chunk : Bytes) (off last size : ℕ) (w : net.World)
      → off ≤ length (held w)
      → ((off ≤ length (held (net.send token (put_range id chunk off last size) w).1))
          × (take off (held (net.send token (put_range id chunk off last size) w).1)
              ≡ take off (held w)))
        ⊎ (gone (net.send token (put_range id chunk off last size) w).1 ≡ true)
  pub stays_gone :
      (chunk : Bytes) (off last size : ℕ) (w : net.World)
      → gone w ≡ true
      → gone (net.send token (put_range id chunk off last size) w).1 ≡ true
  pub gone_refuses :
      (chunk : Bytes) (off last size : ℕ) (w : net.World) (r : Response)
      → gone w ≡ true
      → (net.send token (put_range id chunk off last size) w).0 ≡ some r
      → is_stored r.status ≡ false

answered_ok :
    (good : ℕ → Bool) (a : Option Response) (r : Response)
    → answered good a ≡ ok r
    → (a ≡ some r) × (good r.status ≡ true)
unfolding answered
answered_ok good none r h = absurd (ground arith)
answered_ok good (some x) r h = (ground arith, ground arith)

module _ (net : Net) (token id : Bytes) (relay : IsRelay net token id) where
  -- No chunk is taken by a relay whose drop is gone.
  send_chunk_gone :
      (tries : ℕ) (last : Error) (chunk : Bytes) (off size : ℕ) (w : net.World)
      → relay.gone w ≡ true
      → (send_chunk net token tries last id chunk off size w).0 ≢ ok tt
  unfolding send_chunk
  send_chunk_gone zero last chunk off size w g h = ground arith
  send_chunk_gone (suc tries) last chunk off size w g h = go (answered is_stored a.0) refl (λ e.
      send_chunk_gone tries e chunk off size a.1
        (relay.stays_gone chunk off (off + length chunk - 1) size w g))
    where
      a : Option Response × net.World
      a = net.send token (put_range id chunk off (off + length chunk - 1) size) w

      go :
          (b : Result Response)
          → answered is_stored a.0 ≡ b
          → ((e : Error) → (send_chunk net token tries e id chunk off size a.1).0 ≢ ok tt)
          → ⊥
      go (ok r) i ih =
          let (e, stored) = answered_ok is_stored a.0 r i in
          let refused = relay.gone_refuses chunk off (off + length chunk - 1) size w r g e in cc
      go (err e) i ih = ih e (ground arith)

  -- A chunk that was sent stands behind what was there before its start, however often it was tried.
  send_chunk_ok :
      (tries : ℕ) (last : Error) (chunk : Bytes) (off size : ℕ) (w : net.World)
      → off ≤ length (relay.held w)
      → (send_chunk net token tries last id chunk off size w).0 ≡ ok tt
      → relay.held (send_chunk net token tries last id chunk off size w).1
        ≡ take off (relay.held w) ++ chunk
  unfolding send_chunk
  send_chunk_ok zero last chunk off size w le h = absurd (ground arith)
  send_chunk_ok (suc tries) last chunk off size w le h =
      go (answered is_stored a.0) refl (λ e le' g.
        send_chunk_ok tries e chunk off size
          (net.send token (put_range id chunk off (off + length chunk - 1) size) w).1 le' g)
    where
      a : Option Response × net.World
      a = net.send token (put_range id chunk off (off + length chunk - 1) size) w

      go :
          (b : Result Response)
          → answered is_stored a.0 ≡ b
          → ((e : Error)
              → off ≤ length (relay.held a.1)
              → (send_chunk net token tries e id chunk off size a.1).0 ≡ ok tt
              → relay.held (send_chunk net token tries e id chunk off size a.1).1
                ≡ take off (relay.held a.1) ++ chunk)
          → relay.held (send_chunk net token (suc tries) last id chunk off size w).1
            ≡ take off (relay.held w) ++ chunk
      go (ok r) i ih =
          let (e, g) = answered_ok is_stored a.0 r i in
          let whole : send_chunk net token (suc tries) last id chunk off size w ≡ (ok tt, a.1) =
            ground arith in
          ap (λ x. relay.held x.1) whole
          ∙ relay.accepts chunk off (off + length chunk - 1) size w r le e g
      go (err e) i ih =
          let whole : send_chunk net token (suc tries) last id chunk off size w
              ≡ send_chunk net token tries e id chunk off size a.1 =
            ground arith in
          let done = ap (λ x. x.0) (sym whole) ∙ h in
          elim (relay.leaves chunk off (off + length chunk - 1) size w le) [
            | inl (le', same) ↦
                ap (λ x. relay.held x.1) whole ∙ ih e le' done ∙ ap (λ x. x ++ chunk) same
            | inr gone ↦ absurd (send_chunk_gone tries e chunk off size a.1 gone done)
          ]

  loop_empty :
      (done : ℕ → Bool) (i : ℕ) (src : Bytes) (off size : ℕ) (w : net.World)
      → (put_loop net token zero done i id src off size w).0 ≢ ok tt
  unfolding put_loop
  loop_empty done i src off size w h = ground arith

  loop_stops :
      (fuel : ℕ) (done : ℕ → Bool) (i : ℕ) (src : Bytes) (off size : ℕ) (w : net.World)
      → size ≤ off
      → put_loop net token (suc fuel) done i id src off size w ≡ (ok tt, w)
  unfolding put_loop
  loop_stops fuel done i src off size w l = ground arith

  loop_round :
      (fuel : ℕ) (done : ℕ → Bool) (i : ℕ) (src : Bytes) (off size : ℕ) (w : net.World)
      → off < size
      → (put_loop net token (suc fuel) done i id src off size w).0 ≡ ok tt
      → ((sent net token id src off size w).0 ≡ ok tt)
        × (want off size ≤ length src)
        × (put_loop net token (suc fuel) done i id src off size w
            ≡ put_loop net token fuel done
                (suc i)
                id
                (drop (want off size) src)
                (off + want off size)
                size
                (sent net token id src off size w).1)
  unfolding put_loop
  loop_round fuel done i src off size w l h = go (sent net token id src off size w).0 refl
    where
      go :
          (a : Result (Unit {0}))
          → (sent net token id src off size w).0 ≡ a
          → ((sent net token id src off size w).0 ≡ ok tt)
            × (want off size ≤ length src)
            × (put_loop net token (suc fuel) done i id src off size w
                ≡ put_loop net token fuel done
                    (suc i)
                    id
                    (drop (want off size) src)
                    (off + want off size)
                    size
                    (sent net token id src off size w).1)
      go (err e) j = absurd (ground arith)
      go (ok tt) j = (j, ground arith, ground arith)

  pub put_loop_ok :
      (fuel : ℕ) (done : ℕ → Bool) (i : ℕ) (pre src : Bytes) (off size : ℕ) (w : net.World)
      → length pre ≡ off
      → off ≤ size
      → off ≤ length (relay.held w)
      → take off (relay.held w) ≡ pre
      → (put_loop net token fuel done i id src off size w).0 ≡ ok tt
      → (size ≤ length (pre ++ src))
        × (take size (relay.held (put_loop net token fuel done i id src off size w).1)
            ≡ take size (pre ++ src))
  put_loop_ok zero done i pre src off size w e l k t h = absurd (loop_empty done i src off size w h)
  put_loop_ok (suc fuel) done i pre src off size w e l k t h = elim (order off size) [
    | inl at_end ↦
        let whole = loop_stops fuel done i src off size w at_end in
        let all : size ≡ off = omega arith in
        (
          omega (arith, length-append pre src),
          ap (λ x. take size (relay.held x.1)) whole
              ∙ ap (λ n. take n (relay.held w)) all
              ∙ t
              ∙ sym (take-append_length size pre src (omega arith)),
        )
    | inr more ↦
        let n = want off size in
        let chunk = take n src in
        let (small, positive) = want-le off size more in
        let (s, enough, whole) = loop_round fuel done i src off size w more h in
        let stored : relay.held (sent net token id src off size w).1 ≡ pre ++ chunk =
          send_chunk_ok 3 io_error chunk off size w k s ∙ ap (λ x. x ++ chunk) t in
        let len : length (pre ++ chunk) ≡ off + n =
          omega (arith, length-append pre chunk, length-take n src) in
        let (a, b) =
          put_loop_ok fuel done (suc i) (pre ++ chunk) (drop n src) (off + n) size
            (sent net token id src off size w).1 len (omega arith) (omega (arith, ap length stored))
            (ap (take (off + n)) stored ∙ take_of_length-le (off + n) (pre ++ chunk) (omega arith))
            (ap (λ x. x.0) (sym whole) ∙ h) in
        let whole_src : (pre ++ chunk) ++ drop n src ≡ pre ++ src =
          append_assoc pre chunk (drop n src) ∙ ap (λ x. pre ++ x) (take-append-drop n src) in
        (
          omega (arith, ap length whole_src),
          ap (λ x. take size (relay.held x.1)) whole ∙ b ∙ ap (take size) whole_src,
        )
  ]
    where
      order : (m n : ℕ) → (n ≤ m) ⊎ (m < n)
      order m n = omega arith
