-- ===== src/Windows/Server/Invariant/Receiving.antt =====
-- server/windows/Server.cpp: the handle of a connection, or of none, keeps what holds of the server.
use c11http.Common.{
  ℕ, ◌≡◌, refl, sym, subst, ap, Bool, Bool-cases, true, false, not, Option, none, some, List, [],
  ◌∷◌, ◌++◌, ok, inl, inr, arith, ◌⊎◌, ◌==◌, All, when, client_not_found, throw, get, and_then,
  ◌>>◌, ◌>>=◌, M, ◌&&◌,
}
use c11http.Common.Pointers.{Fresh}
use c11http.Callback.{Bytes, disconnected, receive_complete}
use c11http.Posix.{FdSet}
use c11http.Posix.Connections.{find_if}
use c11http.Windows.{Winsock}
use c11http.Windows.Connections.{ServerConnection, Store, finder, get_by_handle, remove_by_handle}
use c11http.Windows.Connections.Represents.{events, Represents, Represents-env}
use c11http.Windows.Connections.Removal.{finder-Fresh}
use c11http.Windows.Server.{
  Server, fails, queue_receive, is_data, report_received, handle_result, handle_connection,
}
use c11http.Windows.Server.Handling.{get_by_handle-found, with_env}
use c11http.Windows.Server.Events.{Mild, Mild-trans, Events}
use c11http.Windows.Server.Invariant.{Sound, Kept, with_env-Sound}
use c11http.Windows.Server.Invariant.Removing.{remove_known}

-- A handle is that of no connection, or of one of them.
find_event :
    (handle : ℕ) (cs : List ServerConnection)
    → Fresh handle (events cs)
      ⊎ ((before : List ServerConnection) × (c : ServerConnection) × (after : List ServerConnection)
          × (cs ≡ before ++ c ∷ after)
          × (c.event ≡ handle))
find_event h [] = inl tt
find_event h (c ∷ cs) = elim (Bool-cases (c.event == h)) [
  | inl here ↦ inr ([], c, cs, refl, ground arith)
  | inr other ↦ elim (find_event h cs) [
    | inl fresh ↦ inl ((λ e. ground arith), fresh)
    | inr (before, d, after, e, at) ↦ inr (c ∷ before, d, after, ap (◌∷◌ c) e, at)
  ]
]

find_if-none :
    (pred : ℕ → Option Bool) (ps : List ℕ)
    → All (λ p. pred p ≡ some false) ps
    → find_if pred ps ≡ some none
unfolding find_if
find_if-none pred [] a = refl
find_if-none pred (p ∷ ps) a = ground (arith, a.0, find_if-none pred ps a.1)

get_by_handle-absent :
    {W : Type 0} (s : Store W) (cs : List ServerConnection) (handle : ℕ)
    → Represents s cs
    → Fresh handle (events cs)
    → get_by_handle handle s ≡ (throw client_not_found, s)
unfolding get_by_handle
get_by_handle-absent s cs handle r f =
    rw (find_if-none (finder s handle) s.container (finder-Fresh s handle s.container cs r.owns f))
      refl

module _ {W : Type 0} (ws : Winsock W) (opened : W → FdSet) (on_way : W → ℕ)
    (laws : Events ws opened on_way) where
  -- The connection at a live pointer.
  pub queue_receive-Kept :
      (p : ℕ) (c : ServerConnection) (s : Server W)
      → Sound ws opened on_way true s
      → s.store.cells p ≡ some c
      → Kept ws opened on_way ⊥ true (queue_receive ws p s)
  unfolding queue_receive
  queue_receive-Kept p c s h live =
      let reset = ws.reset_event c.event s.store.env.world in
      let queued = ws.recv c.socket c.event reset in
      let mild =
        Mild-trans opened on_way s.store.env.world reset queued.1
          (laws.reset_event_mild c.event s.store.env.world)
          (laws.recv_mild c.socket c.event reset) in
      let sound =
        with_env-Sound ws opened on_way true s (record s.store.env { world = queued.1 }) h mild in
      elim (Bool-cases (fails queued.0)) [
        | inl bad ↦ rw (live, bad) sound
        | inr good ↦ rw (live, good) sound
      ]

  told-Mild : (w : W) → Mild opened on_way w w
  told-Mild w = ((λ k o. o), omega arith)

  -- What is left to do after the callback has been told.
  abbrev and_queue : ℕ → Bytes → M (Server W) (Unit {0})
  and_queue p bytes =
      get >>= λ s. when (not s.has_been_shutdown && is_data ws bytes) (queue_receive ws p)

  -- The end of a stream, and then data.
  loss_told :
      (s : Server W) (c : ServerConnection) (t : Store W)
      → s.store.env.has_callback ≡ true
      → remove_by_handle ws c.event
          (with_env ws
            (record s.store.env { log = s.store.env.log ++ disconnected c.identifier ∷ [] })
            s).store
        ≡ (ok tt, t)
      → report_received ws c c.event [] s ≡ (ok tt, record s { store = t })
  loss_told s c t cb gone = ground (arith, gone)

  data_told :
      (s : Server W) (c : ServerConnection) (b : ℕ) (bytes : Bytes)
      → s.store.env.has_callback ≡ true
      → report_received ws c c.event (b ∷ bytes) s ≡ (
        ok tt,
        with_env ws
            (record s.store.env {
              log = s.store.env.log ++ receive_complete c.identifier (b ∷ bytes) ∷ [];
            })
            s,
      )
  data_told s c b bytes cb = ground arith

  nothing_queued :
      (down : Bool) (p : ℕ) (s : Server W)
      → Sound ws opened on_way true s
      → Kept ws opened on_way ⊥ true (when (not down && false) (queue_receive ws p) s)
  nothing_queued true p s h = h
  nothing_queued false p s h = h

  loss-Kept :
      (told : Bool) (p : ℕ) (s : Server W) (before : List ServerConnection) (c : ServerConnection)
      (after : List ServerConnection)
      → Sound ws opened on_way true s
      → Represents s.store (before ++ c ∷ after)
      → s.store.env.has_callback ≡ told
      → Kept ws opened on_way ⊥ true
          ((when told (report_received ws c c.event []) >> and_queue p []) s)
  loss-Kept true p s before c after h r cb =
      let env = record s.store.env { log = s.store.env.log ++ disconnected c.identifier ∷ [] } in
      let (t, gone, sound) =
        remove_known ws opened on_way laws true (with_env ws env s) before c after
          (with_env-Sound ws opened on_way true s env h (told-Mild s.store.env.world))
          (Represents-env s.store _ env r) in
      subst (λ x. Kept ws opened on_way ⊥ true (and_then (λ _. and_queue p []) x))
        (sym (loss_told s c t cb gone)) (nothing_queued s.has_been_shutdown p _ sound)
  loss-Kept false p s before c after h r cb = nothing_queued s.has_been_shutdown p s h

  data_queue-Kept :
      (b : Bool) (p : ℕ) (c : ServerConnection) (s : Server W)
      → Sound ws opened on_way true s
      → s.store.cells p ≡ some c
      → Kept ws opened on_way ⊥ true (when b (queue_receive ws p) s)
  data_queue-Kept true p c s h live = queue_receive-Kept p c s h live
  data_queue-Kept false p c s h live = h

  data-Kept :
      (told : Bool) (p : ℕ) (s : Server W) (c : ServerConnection) (b : ℕ) (bytes : Bytes)
      → Sound ws opened on_way true s
      → s.store.cells p ≡ some c
      → s.store.env.has_callback ≡ told
      → Kept ws opened on_way ⊥ true
          ((when told (report_received ws c c.event (b ∷ bytes)) >> and_queue p (b ∷ bytes)) s)
  data-Kept true p s c b bytes h live cb =
      subst (λ x. Kept ws opened on_way ⊥ true (and_then (λ _. and_queue p (b ∷ bytes)) x))
        (sym (data_told s c b bytes cb))
        (data_queue-Kept _ p c _
          (with_env-Sound ws opened on_way true s _ h (told-Mild s.store.env.world)) live)
  data-Kept false p s c b bytes h live cb = data_queue-Kept _ p c s h live

  handle_result-Kept :
      (o : Option Bytes) (p : ℕ) (s : Server W) (before : List ServerConnection)
      (c : ServerConnection) (after : List ServerConnection)
      → Sound ws opened on_way true s
      → Represents s.store (before ++ c ∷ after)
      → s.store.cells p ≡ some c
      → Kept ws opened on_way ⊥ true (handle_result ws p c c.event o s)
  handle_result-Kept none p s before c after h r live = h
  handle_result-Kept (some []) p s before c after h r live =
      loss-Kept s.store.env.has_callback p s before c after h r refl
  handle_result-Kept (some (b ∷ bytes)) p s before c after h r live =
      data-Kept s.store.env.has_callback p s c b bytes h live refl

  pub handle_connection-Kept :
      (handle : ℕ) (s : Server W)
      → Sound ws opened on_way true s
      → Kept ws opened on_way ⊥ true (handle_connection ws handle s)
  handle_connection-Kept handle s h = elim (find_event handle h.connections) [
    | inl fresh ↦ rw (get_by_handle-absent s.store h.connections handle h.represents fresh) h
    | inr (before, c, after, e, at) ↦
        let r = subst (Represents s.store) e h.represents in
        let (p, found, live) = get_by_handle-found s.store before c after r in
        let asked = ws.overlapped_result c.socket c.event s.store.env.world in
        let env = record s.store.env { world = asked.1 } in
        subst (λ k. Kept ws opened on_way ⊥ true (handle_connection ws k s)) at
          (rw (found, live)
            (handle_result-Kept asked.0 p (with_env ws env s) before c after
              (with_env-Sound ws opened on_way true s env h
                (laws.result_mild c.socket c.event s.store.env.world))
              (Represents-env s.store _ env r) live))
  ]
