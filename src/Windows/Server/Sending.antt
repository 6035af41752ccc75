-- ===== src/Windows/Server/Sending.antt =====
-- server/windows/Server.cpp: the queue of targets, which says to whom a completed send went.
use c11http.Common.{
  ℕ, ◌≡◌, refl, ◌∙◌, ap, true, false, some, List, [], ◌∷◌, ◌++◌, ok, and_then, ◌>>◌, arith,
}
use c11http.Common.Assoc.{find}
use c11http.Callback.{Bytes, Bytes-discrete, send_complete}
use c11http.Windows.{Winsock, pending}
use c11http.Windows.Connections.{ServerConnection, get_by_identifier}
use c11http.Windows.Server.{Server, send_to, send, data_sent}

module _ {W : Type 0} (ws : Winsock W) where
  -- After a send that is pending.
  abbrev sent : Bytes → ServerConnection → Server W → Server W
  sent bytes c s = record s {
    store = record s.store {
      env = record s.store.env { world = (ws.send c.socket bytes c.event s.store.env.world).1 };
    };
    targets = (s.targets ++ c.identifier ∷ []) ++ c.identifier ∷ [];
  }

  send_lem :
      (bytes : Bytes) (p : ℕ) (c : ServerConnection) (s : Server W)
      → find Bytes-discrete c.identifier s.store.mapping ≡ some p
      → s.store.cells p ≡ some c
      → (ws.send c.socket bytes c.event s.store.env.world).0 ≡ pending
      → send ws bytes c.identifier s ≡ (ok tt, sent bytes c s)
  unfolding send send_to get_by_identifier
  send_lem bytes p c s mapped live wait = rw (mapped, live, wait)

  -- After the completion of a send whose target is taken from the front of the queue.
  abbrev told : ℕ → ServerConnection → Bytes → List Bytes → Server W → Server W
  told count c target rest s = record s {
    store = record s.store {
      env = record s.store.env {
        world = ws.reset_event c.event s.store.env.world;
        log = s.store.env.log ++ send_complete target count ∷ [];
      };
    };
    targets = rest;
  }

  data_sent_lem :
      (count : ℕ) (p : ℕ) (c : ServerConnection) (target : Bytes) (rest : List Bytes) (s : Server W)
      → s.targets ≡ target ∷ rest
      → s.store.cells p ≡ some c
      → s.has_been_shutdown ≡ false
      → s.store.env.has_callback ≡ true
      → data_sent ws p count s ≡ (ok tt, told count c target rest s)
  unfolding data_sent
  data_sent_lem count p c target rest s queue live running cb = ground arith

  -- On a running server with a callback and no send on its way: bytes are sent to one connection and
  -- completed, then to another and completed, each send being pending at first. Both completions are
  -- reported under the identifier of the first connection, since each send queues its target twice.
  pub send_misreports :
      (s : Server W) (first second : Bytes) (m n : ℕ) (p q : ℕ) (c d : ServerConnection)
      → ((k : ℕ) (bytes : Bytes) (event : ℕ) (w : W) → (ws.send k bytes event w).0 ≡ pending)
      → find Bytes-discrete c.identifier s.store.mapping ≡ some p
      → s.store.cells p ≡ some c
      → find Bytes-discrete d.identifier s.store.mapping ≡ some q
      → s.store.cells q ≡ some d
      → s.targets ≡ []
      → s.has_been_shutdown ≡ false
      → s.store.env.has_callback ≡ true
      → (t : Server W) × ((send ws first c.identifier
              >> (data_sent ws p m >> (send ws second d.identifier >> data_sent ws q n)))
            s
          ≡ (ok tt, t))
        × (t.store.env.log
            ≡ (s.store.env.log ++ send_complete c.identifier m ∷ [])
              ++ send_complete c.identifier n ∷ [])
        × (t.targets ≡ d.identifier ∷ d.identifier ∷ [])
  send_misreports s first second m n p q c d pends at live at' live' none_yet running cb =
      let s1 = sent first c s in
      let q1 : s1.targets ≡ c.identifier ∷ c.identifier ∷ [] =
        ap (λ x. (x ++ c.identifier ∷ []) ++ c.identifier ∷ []) none_yet in
      let s2 = told m c c.identifier (c.identifier ∷ []) s1 in
      let s3 = sent second d s2 in
      let s4 = told n d c.identifier (d.identifier ∷ d.identifier ∷ []) s3 in
      let last =
        data_sent_lem n q d c.identifier (d.identifier ∷ d.identifier ∷ []) s3 refl live' running
          cb in
      let third =
        ap (and_then (λ _. data_sent ws q n)) (send_lem second q d s2 at' live' (pends _ _ _ _))
        ∙ last in
      let middle =
        ap (and_then (λ _. send ws second d.identifier >> data_sent ws q n))
          (data_sent_lem m p c c.identifier (c.identifier ∷ []) s1 q1 live running cb)
        ∙ third in
      (
        s4,
        ap (and_then (λ _. data_sent ws p m >> (send ws second d.identifier >> data_sent ws q n)))
              (send_lem first p c s at live (pends _ _ _ _))
            ∙ middle,
        refl,
        refl,
      )
