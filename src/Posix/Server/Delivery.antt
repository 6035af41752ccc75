-- ===== src/Posix/Server/Delivery.antt =====
-- server/posix/Server.cpp: what is sent through the server reaches the system in the next round in which
-- the connection is ready.
use c11http.Common.{
  ℕ, zero, suc, ◌+◌, ◌≤◌, ◌<◌, ◌≡◌, ◌≢◌, refl, sym, subst, ap, ◌∙◌, length, true, false, Option,
  none, some, List, [], ◌∷◌, ◌++◌, arith, Outcome, ok, and_then, ◌>>=◌, ◌>>◌, dec_lt,
}
use c11http.Common.Assoc.{find}
use c11http.Callback.{Bytes, Bytes-discrete, send_complete}
use c11http.Posix.Connection.Queue.{Took, Took-is_count}
use c11http.Posix.{Os, Env, FdSet, fd_zero, fd_add}
use c11http.Posix.Connection.{ServerConnection, add_queued_message}
use c11http.Posix.Connections.{max_fd, get_max}
use c11http.Posix.Connections.Represents.Lists.{max_from, Represents, Represents-env}
use c11http.Posix.Connections.Represents.Reshape.{replace-Represents}
use c11http.Posix.Server.{Server, Point, testing, send}
use c11http.Posix.Server.Loop.{fdmax, handle_write, handle_fd, handle_from, pump}
use c11http.Posix.Server.Writing.{emptied, handle_write-Represents}
use c11http.Posix.Server.Sending.{fronted, woken, in_state, queued, send_known}

-- The greatest descriptor is above each that it was taken of.
max_from-above :
    (a : ℕ) (cs : List ServerConnection) → (m : ℕ) × (max_from (some a) cs ≡ some m) × (a ≤ m)
max_from-above a [] = (a, refl, omega arith)
max_from-above a (c ∷ cs) =
    let (m, e, h) = max_from-above (max_fd (some a) c.socket) cs in (m, e, ground arith)

max_from-bound :
    (acc : Option ℕ) (before : List ServerConnection) (c : ServerConnection)
    (after : List ServerConnection)
    → (m : ℕ) × (max_from acc (before ++ c ∷ after) ≡ some m) × (c.socket ≤ m)
max_from-bound none [] c after = max_from-above c.socket after
max_from-bound (some a) [] c after =
    let (m, e, h) = max_from-above (max_fd (some a) c.socket) after in (m, e, ground arith)
max_from-bound acc (b ∷ before) c after = max_from-bound (some (max_fd acc b.socket)) before c after

fdmax-bound :
    {W : Type 0} (s : Server W) (before : List ServerConnection) (c : ServerConnection)
    (after : List ServerConnection)
    → Represents s.store (before ++ c ∷ after)
    → c.socket < fdmax s + 1
unfolding get_max
fdmax-bound s before c after r =
    let (m, e, h) = max_from-bound none before c after in ground (arith, r.maximum, e)

module _ {W : Type 0} (os : Os W) (k : ℕ) where
  abbrev only : FdSet
  only = fd_add k fd_zero

  handle_fd-other : (i : ℕ) (s : Server W) → k ≢ i → handle_fd os i fd_zero only s ≡ (ok tt, s)
  unfolding handle_fd
  handle_fd-other i s other = ground arith

  handle_fd-this :
      (s t : Server W)
      → handle_write os k s ≡ (ok tt, t)
      → handle_fd os k fd_zero only s ≡ (ok tt, t)
  unfolding handle_fd
  handle_fd-this s t done = ground arith

  handle_from-past :
      (n i : ℕ) (s : Server W) → k < i → handle_from os n i fd_zero only s ≡ (ok tt, s)
  unfolding handle_from
  handle_from-past zero i s past = refl
  handle_from-past (suc n) i s past =
      rw (handle_fd-other i s (omega arith)) (handle_from-past n (i + 1) s (omega arith))

  -- A round in which one descriptor alone is ready, and for writing.
  handle_from-this :
      (n i : ℕ) (s t : Server W)
      → i ≤ k
      → k < i + n
      → handle_write os k s ≡ (ok tt, t)
      → handle_from os n i fd_zero only s ≡ (ok tt, t)
  unfolding handle_from
  handle_from-this zero i s t low high done = absurd (omega arith)
  handle_from-this (suc n) i s t low high done = elim (dec_lt i k) [
    | yes below ↦
        rw (handle_fd-other i s (omega arith))
          (handle_from-this n (i + 1) s t (omega arith) (omega arith) done)
    | no here ↦
        let same : k ≡ i = omega arith in
        rw (← same, handle_fd-this s t done) (handle_from-past n (k + 1) t (omega arith))
  ]

module _ {W : Type 0} (os : Os W) where
  -- Asked about a descriptor, among others, `select` answers that it alone is ready, and for writing.
  abbrev pub Favours : ℕ → Type 0
  Favours k =
      (n : ℕ) (r v : FdSet) (w : W)
      → k < n
      → v k ≡ true
      → (os.select n r v w).0 ≡ some (fd_zero, only os k)

  -- The state of the system after the next `select`.
  abbrev pub selected : Server W → W
  selected s = (os.select (fdmax s + 1) s.read s.master_write s.env.world).1

  -- What the next round leaves, of a server on which a connection has been marked that waits with
  -- these bytes.
  abbrev pub WritesOut :
      Server W
      → List ServerConnection
      → ServerConnection
      → Bytes
      → Outcome Point × Server W
      → Type 0
  WritesOut s cs c bytes r =
      let asked = os.send c.socket bytes (selected s) in
      (t : Server W) × (r ≡ (ok testing, t))
      × ((left : List ServerConnection) × (right : List ServerConnection) × (cs ≡ left ++ c ∷ right)
          × Represents t.store (left ++ emptied c ∷ right))
      × (t.env.world ≡ asked.1)
      × (t.env.has_callback ≡ true)
      × Took (length bytes) asked.0 s.env.log t.env.log (send_complete c.identifier (length bytes))
      × (t.master_write c.socket ≡ false)

  pump-WritesOut :
      (s : Server W) (before : List ServerConnection) (c : ServerConnection)
      (after : List ServerConnection) (b : ℕ) (bytes : Bytes)
      → c.outgoing_bytes ≡ b ∷ bytes
      → Represents s.store (before ++ c ∷ after)
      → s.env.has_callback ≡ true
      → s.has_been_shutdown ≡ false
      → s.master_write c.socket ≡ true
      → Favours c.socket
      → WritesOut s (before ++ c ∷ after) c c.outgoing_bytes ((pump os testing >>= pump os) s)
  unfolding pump
  pump-WritesOut s before c after b bytes waits r cb up marked favours =
      let s' = in_state os (selected s) s in
      let n = length c.outgoing_bytes in
      let asked = os.send c.socket c.outgoing_bytes (selected s) in
      let (t, done, shape, env, set) =
        handle_write-Represents os s' (before ++ c ∷ after) before c after b bytes waits refl
          (Represents-env s.store (before ++ c ∷ after) _ r) cb in
      let top = fdmax-bound s before c after r in
      let round =
        handle_from-this os c.socket (fdmax s + 1) 0 s' t (omega arith) (omega arith) done in
      let answer = favours (fdmax s + 1) s.read s.master_write s.env.world top marked in
      (
        t,
        ground (arith, up, answer, round),
        shape,
        ap (λ (v : Env W). v.world) env,
        ap (λ (v : Env W). v.has_callback) env ∙ cb,
        subst (λ log. Took n asked.0 s.env.log log (send_complete c.identifier n))
            (sym (ap (λ (v : Env W). v.log) env))
            (Took-is_count n asked.0 s.env.log (send_complete c.identifier n)),
        ground (arith, set),
      )

  -- `send` of at least one byte to a mapped identifier, on a running server with a callback, whose `select` then answers that
  -- the connection alone is ready for writing: the loop wakes, sends in that round all that waits at the
  -- connection in one go, with the new bytes in front, and comes back to its test. The queue is empty
  -- then, the descriptor is out of the write set, and the callback is told of the bytes exactly when
  -- the system took all.
  pub send-WritesOut :
      (b : ℕ) (rest i : Bytes) (s : Server W) (cs : List ServerConnection) (p : ℕ)
      (c : ServerConnection)
      → Represents s.store cs
      → s.has_connections ≡ true
      → s.env.has_callback ≡ true
      → s.has_been_shutdown ≡ false
      → find Bytes-discrete i s.store.mapping ≡ some p
      → s.cells p ≡ some c
      → Favours c.socket
      → (before : List ServerConnection) × (after : List ServerConnection) × (cs
          ≡ before ++ c ∷ after)
        × WritesOut
            (in_state os (woken os s) (queued os (b ∷ rest) (p ∷ []) (c ∷ []) s))
            (before ++ fronted (b ∷ rest) c ∷ after)
            (fronted (b ∷ rest) c)
            (b ∷ rest ++ c.outgoing_bytes)
            ((send os (b ∷ rest) i >> (pump os testing >>= pump os)) s)
  unfolding add_queued_message
  send-WritesOut b rest i s cs p c r made cb up mapped live favours =
      let bytes = b ∷ rest in
      let d = add_queued_message bytes c in
      let (_, _, _, at) = r.mapped i p mapped in
      let (before, after, g, shape) = replace-Represents s.store cs p c d r at live refl refl in
      let next = in_state os (woken os s) (queued os bytes (p ∷ []) (c ∷ []) s) in
      (
        before,
        after,
        g,
        subst (WritesOut next (before ++ d ∷ after) d (b ∷ rest ++ c.outgoing_bytes))
            (sym (
              ap (and_then (λ _. pump os testing >>= pump os))
                (send_known os bytes i s p c made mapped live)))
            (pump-WritesOut next before d after b (rest ++ c.outgoing_bytes) refl
              (Represents-env _ (before ++ d ∷ after) _ shape) cb up (ground arith) favours),
      )
