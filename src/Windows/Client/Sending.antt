-- ===== src/Windows/Client/Sending.antt =====
-- client/windows/Client.cpp: the queue of the buffers that are being sent.
use mathlib.Core.List.{append_assoc, append-nil}
use c11http.Common.{
  ℕ, zero, suc, ◌≡◌, refl, ap, ◌∙◌, true, some, List, [], ◌∷◌, ◌++◌, length, map, arith, ok, M,
  pure, and_then, ◌>>◌,
}
use c11http.Callback.{Bytes, send_complete}
use c11http.Windows.{Winsock, pending}
use c11http.Windows.Client.{Client, send_data_to_server}
use c11http.Windows.Client.Loop.{handle_sent}

module _ {W : Type 0} (ws : Winsock W) where
  abbrev pub send_all : List Bytes → M (Client W) (Unit {0})
  send_all [] = pure tt
  send_all (m ∷ ms) = send_data_to_server ws m >> send_all ms

  -- The event of the sends is handled some times.
  abbrev pub finish_all : ℕ → ℕ → M (Client W) (Unit {0})
  finish_all zero event = pure tt
  finish_all (suc n) event = handle_sent ws event >> finish_all n event

  -- The system after the messages have been sent on a socket, and that each send was pending at first.
  abbrev pub after_sends : List Bytes → ℕ → ℕ → W → W
  after_sends [] fd event w = w
  after_sends (m ∷ ms) fd event w = after_sends ms fd event (ws.send fd m event w).1

  abbrev pub Pends : List Bytes → ℕ → ℕ → W → Type 0
  Pends [] fd event w = Unit {0}
  Pends (m ∷ ms) fd event w =
      ((ws.send fd m event w).0 ≡ pending) × Pends ms fd event (ws.send fd m event w).1

  -- The system gives these counts, one after another, for the sends of a socket.
  abbrev pub Counts : List ℕ → ℕ → ℕ → W → Type 0
  Counts [] fd event w = Unit {0}
  Counts (n ∷ ns) fd event w =
      let result = ws.sent_result fd event w in
      (result.0 ≡ some n) × Counts ns fd event (ws.reset_event event result.1)

  -- Messages that are sent one after another are queued in that order behind those that wait, and the
  -- callback is not called.
  send_all-queues :
      (ms : List Bytes) (event : ℕ) (s : Client W)
      → Pends ms s.socket event s.env.world
      → s.send_event ≡ some event
      → send_all ms s ≡ (
        ok tt,
        record s {
          env = record s.env { world = after_sends ms s.socket event s.env.world };
          send_buffers = s.send_buffers ++ ms;
        },
      )
  unfolding send_data_to_server
  send_all-queues [] event s pends e = ground (arith, append-nil s.send_buffers)
  send_all-queues (m ∷ ms) event s (first, pends) e =
      let next = record s {
        env = record s.env { world = (ws.send s.socket m event s.env.world).1 };
        send_buffers = s.send_buffers ++ m ∷ [];
      } in
      let run = send_all-queues ms event next pends e in
      ground (arith, e, first, run, append_assoc s.send_buffers (m ∷ []) ms)

  -- Each handling takes the oldest buffer and tells the count of the system.
  finish_all-drains :
      (ms : List Bytes) (counts : List ℕ) (event : ℕ) (s : Client W)
      → length counts ≡ length ms
      → Counts counts s.socket event s.env.world
      → s.send_buffers ≡ ms
      → s.env.has_callback ≡ true
      → (w : W) × (finish_all (length ms) event s ≡ (
        ok tt,
        record s {
          env = record s.env {
            world = w;
            log = s.env.log ++ map (send_complete s.identifier) counts;
          };
          send_buffers = [];
        },
      ))
  unfolding handle_sent
  finish_all-drains [] [] event s l gives e cb = (s.env.world, ground (arith, append-nil s.env.log))
  finish_all-drains [] (n ∷ ns) event s l gives e cb = absurd (omega arith)
  finish_all-drains (m ∷ ms) [] event s l gives e cb = absurd (omega arith)
  finish_all-drains (m ∷ ms) (n ∷ ns) event s l (first, gives) e cb =
      let told = send_complete s.identifier n in
      let next = record s {
        env = record s.env {
          world = ws.reset_event event (ws.sent_result s.socket event s.env.world).1;
          log = s.env.log ++ told ∷ [];
        };
        send_buffers = ms;
      } in
      let (w, run) = finish_all-drains ms ns event next (omega arith) gives refl cb in
      (
        w,
        ground (
          arith,
          e,
          first,
          run,
          append_assoc s.env.log (told ∷ []) (map (send_complete s.identifier) ns),
        ),
      )

  -- Messages are sent on a client with a callback and no buffer on its way, and each of these sends is
  -- pending at first. Then the event of the sends is handled as many times as there are messages, and
  -- each time the system gives a count. This frees all the buffers and tells the callback of these
  -- counts, in their order, and of nothing else.
  pub send_all-finish_all :
      (ms : List Bytes) (counts : List ℕ) (event : ℕ) (s : Client W)
      → length counts ≡ length ms
      → Pends ms s.socket event s.env.world
      → Counts counts s.socket event (after_sends ms s.socket event s.env.world)
      → s.send_event ≡ some event
      → s.send_buffers ≡ []
      → s.env.has_callback ≡ true
      → (t : Client W) × ((send_all ms >> finish_all (length ms) event) s ≡ (ok tt, t))
        × (t.send_buffers ≡ [])
        × (t.env.log ≡ s.env.log ++ map (send_complete s.identifier) counts)
  send_all-finish_all ms counts event s l pends gives e none_yet cb =
      let queued = record s {
        env = record s.env { world = after_sends ms s.socket event s.env.world };
        send_buffers = s.send_buffers ++ ms;
      } in
      let (w, run) =
        finish_all-drains ms counts event queued l gives (ap (λ xs. xs ++ ms) none_yet) cb in
      (
        _,
        ap (and_then (λ _. finish_all (length ms) event)) (send_all-queues ms event s pends e)
            ∙ run,
        refl,
        refl,
      )
