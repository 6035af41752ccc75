-- ===== src/Posix/Client/Conservation.antt =====
-- client/posix/Client.cpp: no byte that is sent is lost or made up on its way to the system.
use c11http.Common.{
  ℕ, ◌+◌, ◌≤◌, ◌≡◌, refl, Bool, true, false, Option, none, some, List, [], ◌∷◌, ◌++◌, ◌==◌, arith,
  Outcome, ok, throw, fault, M, pure, and_then, ◌>>=◌, beside, or_raise, select_failed, get, ◌>>◌,
  List-cases, Bool-cases, inl, inr, when, subst, if◌then◌else◌,
}
use c11http.Callback.{Bytes}
use c11http.Posix.{Os, FdSet}
use c11http.Posix.Client.{
  Client, Point, testing, selecting, finished, send_data_to_server, disconnect, handle_ready,
  handle_read, handle_write, master_read, pump,
}
use c11http.Posix.Client.Final.{Act, pumps, sends, disconnects, act, run}

-- The system, with the bytes that have been passed to `send` on one descriptor, oldest first.
abbrev pub traced : {W : Type 0} → ℕ → Os W → Os (W × Bytes)
traced fd os = record {
  socket = λ w. let (r, v) = os.socket w.0 in (r, (v, w.1));
  reuse_address = λ k x w. let (r, v) = os.reuse_address k x w.0 in (r, (v, w.1));
  bind = λ k a w. let (r, v) = os.bind k a w.0 in (r, (v, w.1));
  listen = λ k n w. let (r, v) = os.listen k n w.0 in (r, (v, w.1));
  pipe = λ w. let (r, v) = os.pipe w.0 in (r, (v, w.1));
  accept = λ k w. let (r, v) = os.accept k w.0 in (r, (v, w.1));
  inet_pton = λ name w. let (r, v) = os.inet_pton name w.0 in (r, (v, w.1));
  connect = λ k a w. let (r, v) = os.connect k a w.0 in (r, (v, w.1));
  get_flags = λ k w. let (r, v) = os.get_flags k w.0 in (r, (v, w.1));
  set_flags = λ k x w. (os.set_flags k x w.0, w.1);
  send = λ k bytes w.
      let (r, v) = os.send k bytes w.0 in (r, (v, if k == fd then w.1 ++ bytes else w.1));
  recv = λ k n w. let (r, v) = os.recv k n w.0 in (r, (v, w.1));
  poll_in = λ k w. let (r, v) = os.poll_in k w.0 in (r, (v, w.1));
  poll_out = λ k w. let (r, v) = os.poll_out k w.0 in (r, (v, w.1));
  write = λ k bytes w. (os.write k bytes w.0, w.1);
  select = λ n r v w. let (a, u) = os.select n r v w.0 in (a, (u, w.1));
  shut_down = λ k w. (os.shut_down k w.0, w.1);
  no_linger = λ k w. (os.no_linger k w.0, w.1);
  close = λ k w. (os.close k w.0, w.1);
  htons = os.htons;
  o_nonblock = os.o_nonblock;
  inet = os.inet;
  any_host = os.any_host;
  fd_setsize = os.fd_setsize;
}

-- How often a byte occurs.
abbrev pub count : ℕ → Bytes → ℕ
count b [] = 0
count b (x ∷ xs) = (if b == x then 1 else 0) + count b xs

count-append : (b : ℕ) (xs ys : Bytes) → count b (xs ++ ys) ≡ count b xs + count b ys
count-append b [] ys = omega arith
count-append b (x ∷ xs) ys = omega (arith, count-append b xs ys)

-- The bytes that the acts of a schedule send.
abbrev pub sent_by : Act → Bytes
sent_by pumps = []
sent_by (sends bytes) = bytes
sent_by disconnects = []

abbrev pub sent_in : List Act → Bytes
sent_in [] = []
sent_in (a ∷ acts) = sent_by a ++ sent_in acts

module _ {W : Type 0} (os : Os W) (fd : ℕ) (b : ℕ) where
  -- How often a byte waits in the queue or has been passed to the system.
  abbrev pub total : Client (W × Bytes) → ℕ
  total s = count b s.env.world.1 + count b s.outgoing_bytes

  -- The client still has its descriptor, and the byte that many times, also after an exception.
  abbrev pub Conserves {ℓ} : {A : Type ℓ} → ℕ → Outcome A × Client (W × Bytes) → Type 0
  Conserves n (ok _, s) = (s.socket ≡ fd) × (total s ≡ n)
  Conserves n (throw e, s) = (s.socket ≡ fd) × (total s ≡ n)
  Conserves n (fault, s) = Unit {0}

  send-Conserves :
      (bytes : Bytes) (s : Client (W × Bytes))
      → s.socket ≡ fd
      → Conserves (total s + count b bytes) (send_data_to_server (traced fd os) bytes s)
  unfolding send_data_to_server
  send-Conserves [] s h = (h, omega arith)
  send-Conserves (x ∷ bytes) s h = ground (arith, count-append b (x ∷ bytes) s.outgoing_bytes)

  disconnect-Conserves :
      (s : Client (W × Bytes)) → s.socket ≡ fd → Conserves (total s) (disconnect (traced fd os) s)
  unfolding disconnect
  disconnect-Conserves s h = ground (arith, count-append b s.env.world.1 [])

  handle_read-Conserves :
      (s : Client (W × Bytes)) → s.socket ≡ fd → Conserves (total s) (handle_read (traced fd os) s)
  unfolding handle_read
  handle_read-Conserves s h = ground arith

  handle_write-Conserves :
      (s : Client (W × Bytes)) → s.socket ≡ fd → Conserves (total s) (handle_write (traced fd os) s)
  unfolding handle_write
  handle_write-Conserves s h = elim (List-cases s.outgoing_bytes) [
    | inl none_waits ↦ rw none_waits tt
    | inr (x, xs, waits) ↦ ground (arith, waits, count-append b s.env.world.1 s.outgoing_bytes)
  ]

  and_then-Conserves {ℓ κ} :
      {A : Type ℓ} {B : Type κ} (n : ℕ) (f : A → M (Client (W × Bytes)) B)
      (r : Outcome A × Client (W × Bytes))
      → Conserves n r
      → ((a : A) (s : Client (W × Bytes)) → s.socket ≡ fd → total s ≡ n → Conserves n (f a s))
      → Conserves n (and_then f r)
  and_then-Conserves n f (ok a, s) h k = k a s h.0 h.1
  and_then-Conserves n f (throw e, s) h k = h
  and_then-Conserves n f (fault, s) h k = h

  when-Conserves :
      (n : ℕ) (c : Bool) (m : M (Client (W × Bytes)) (Unit {0})) (s : Client (W × Bytes))
      → s.socket ≡ fd
      → total s ≡ n
      → ((s : Client (W × Bytes)) → s.socket ≡ fd → Conserves (total s) (m s))
      → Conserves n (when c m s)
  when-Conserves n true m s h e k = subst (λ x. Conserves x (m s)) e (k s h)
  when-Conserves n false m s h e k = (h, e)

  handle_ready-Conserves :
      (r v : FdSet) (s : Client (W × Bytes))
      → s.socket ≡ fd
      → Conserves (total s) (handle_ready (traced fd os) r v s)
  unfolding handle_ready
  handle_ready-Conserves r v s h =
      let n = total s in
      and_then-Conserves n _ _ (when-Conserves n (r s.socket) _ s h refl handle_read-Conserves)
        λ _ t k e.
          and_then-Conserves n _ _ (when-Conserves n (r s.wakeup_read) _ t k e (λ u l. (l, refl)))
            λ _ t k e. when-Conserves n (v s.socket) _ t k e handle_write-Conserves

  -- Behind the return of `select`.
  after_select-Conserves :
      (sets : Option (FdSet × FdSet)) (s : Client (W × Bytes))
      → s.socket ≡ fd
      → Conserves (total s) (
          (or_raise sets select_failed >>= λ (x : FdSet × FdSet). get >>= λ s.
          if s.is_connected
          then handle_ready (traced fd os) x.0 x.1 >> pure testing
          else pure finished)
            s)
  after_select-Conserves none s h = (h, refl)
  after_select-Conserves (some (r, v)) s h = elim (Bool-cases s.is_connected) [
    | inl up ↦ ground (
      arith,
      and_then-Conserves {B = Point} (total s) (λ _. pure testing) _
          (handle_ready-Conserves r v s h) (λ _ t k e. (k, e)),
    )
    | inr down ↦ ground arith
  ]

  pump-Conserves :
      (p : Point) (s : Client (W × Bytes))
      → s.socket ≡ fd
      → Conserves (total s) (pump (traced fd os) p s)
  unfolding pump
  pump-Conserves testing s h = (h, refl)
  pump-Conserves (selecting set) s h =
      let asked = os.select (s.fd_max + 1) (master_read s) set s.env.world.0 in
      after_select-Conserves asked.0
        (record s { env = record s.env { world = (asked.1, s.env.world.1) } }) h
  pump-Conserves finished s h = (h, refl)

  beside-Conserves :
      (n : ℕ) (p : Point) (r : Outcome (Unit {0}) × Client (W × Bytes))
      → Conserves n r
      → Conserves n (beside p r)
  beside-Conserves n p (ok _, s) h = h
  beside-Conserves n p (throw e, s) h = h
  beside-Conserves n p (fault, s) h = h

  act-Conserves :
      (a : Act) (p : Point) (s : Client (W × Bytes))
      → s.socket ≡ fd
      → Conserves (total s + count b (sent_by a)) (act (traced fd os) a p s)
  act-Conserves pumps p s h =
      subst (λ n. Conserves n (pump (traced fd os) p s)) (omega arith) (pump-Conserves p s h)
  act-Conserves (sends bytes) p s h = beside-Conserves _ p _ (send-Conserves bytes s h)
  act-Conserves disconnects p s h =
      subst (λ n. Conserves n (beside p (disconnect (traced fd os) s))) (omega arith)
        (beside-Conserves _ p _ (disconnect-Conserves s h))

  -- What a run has made of a byte that it started with or was to send so many times: all are there
  -- at its end; an exception of the loop ends it early, and what was to be sent later is not.
  abbrev pub RunConserves : ℕ → Outcome Point × Client (W × Bytes) → Type 0
  RunConserves n (ok p, s) = total s ≡ n
  RunConserves n (throw e, s) = total s ≤ n
  RunConserves n (fault, s) = Unit {0}

  and_then-RunConserves :
      (n m : ℕ) (f : Point → M (Client (W × Bytes)) Point) (r : Outcome Point × Client (W × Bytes))
      → n ≤ m
      → Conserves n r
      → ((p : Point) (s : Client (W × Bytes))
          → s.socket ≡ fd
          → total s ≡ n
          → RunConserves m (f p s))
      → RunConserves m (and_then f r)
  and_then-RunConserves n m f (ok p, s) low h k = k p s h.0 h.1
  and_then-RunConserves n m f (throw e, s) low h k = omega (arith, h.1)
  and_then-RunConserves n m f (fault, s) low h k = h

  -- Whatever the loop does, and whenever other threads send bytes or disconnect: each byte is as often
  -- in the queue or among those passed to `send` on the client's socket, taken by the system or not, as
  -- it was there at the start or sent since. A run that ends by an exception of the loop has passed on
  -- and kept nothing that was not there or to be sent; of one that comes to undefined behaviour nothing
  -- is said.
  pub run-RunConserves :
      (acts : List Act) (p : Point) (s : Client (W × Bytes))
      → s.socket ≡ fd
      → RunConserves (total s + count b (sent_in acts)) (run (traced fd os) acts p s)
  run-RunConserves [] p s h = omega arith
  run-RunConserves (a ∷ acts) p s h =
      and_then-RunConserves _ _ (run (traced fd os) acts) _
        (omega (arith, count-append b (sent_by a) (sent_in acts))) (act-Conserves a p s h)
        λ q t k e.
          subst (λ n. RunConserves n (run (traced fd os) acts q t))
            (omega (arith, e, count-append b (sent_by a) (sent_in acts)))
            (run-RunConserves acts q t k)
