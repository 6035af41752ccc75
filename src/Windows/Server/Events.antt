-- ===== src/Windows/Server/Events.antt =====
-- What the server of server/windows relies on of Winsock: which events are open, and how many sends are
-- on their way, their completion routines not yet called.
use c11http.Common.{ℕ, suc, ◌<◌, ◌≤◌, ◌≡◌, ◌≢◌, true, false, some, List, length, arith}
use c11http.Callback.{Bytes}
use c11http.Posix.{FdSet}
use c11http.Posix.Descriptors.{Keeps}
use c11http.Windows.{Winsock, signalled}

-- What a call does that closes no event and puts no send on its way.
abbrev pub Mild : {W : Type 0} → (W → FdSet) → (W → ℕ) → W → W → Type 0
Mild opened on_way before after =
    Keeps (opened before) (opened after) × (on_way after ≤ on_way before)

pub Mild-trans :
    {W : Type 0} (opened : W → FdSet) (on_way : W → ℕ) (a b c : W)
    → Mild opened on_way a b
    → Mild opened on_way b c
    → Mild opened on_way a c
Mild-trans opened on_way a b c g h = ((λ k o. h.0 k (g.0 k o)), omega (arith, g.1, h.1))

-- A new event was not open before and is open then, a closed event is none of the others, a wait
-- answers with the place of one of its handles, and a send is at most one more on its way.
pub record Events {W : Type 0} (ws : Winsock W) (opened : W → FdSet) (on_way : W → ℕ) : Type 0 where
  pub create_event_new :
      (e : ℕ) (w : W)
      → (ws.create_event w).0 ≡ some e
      → (opened w e ≡ false) × (opened (ws.create_event w).1 e ≡ true)
  pub create_event_mild : (w : W) → Mild opened on_way w (ws.create_event w).1
  pub close_event_other :
      (e k : ℕ) (w : W) → e ≢ k → opened w k ≡ true → opened (ws.close_event e w) k ≡ true
  pub close_event_sends : (e : ℕ) (w : W) → on_way (ws.close_event e w) ≤ on_way w
  pub wait_in_range :
      (handles : List ℕ) (i : ℕ) (w : W) → (ws.wait handles w).0 ≡ signalled i → i < length handles
  pub wait_mild : (handles : List ℕ) (w : W) → Mild opened on_way w (ws.wait handles w).1
  pub send_keeps :
      (fd : ℕ) (bytes : Bytes) (e : ℕ) (w : W) → Keeps (opened w) (opened (ws.send fd bytes e w).1)
  pub send_counts :
      (fd : ℕ) (bytes : Bytes) (e : ℕ) (w : W) → on_way (ws.send fd bytes e w).1 ≤ suc (on_way w)
  pub startup_mild : (w : W) → Mild opened on_way w (ws.startup w).1
  pub get_addr_info_mild : (port : ℕ) (w : W) → Mild opened on_way w (ws.get_addr_info port w).1
  pub free_addr_info_mild : (w : W) → Mild opened on_way w (ws.free_addr_info w)
  pub bind_mild : (fd a : ℕ) (w : W) → Mild opened on_way w (ws.bind fd a w).1
  pub listen_mild : (fd n : ℕ) (w : W) → Mild opened on_way w (ws.listen fd n w).1
  pub heap_alloc_mild : (w : W) → Mild opened on_way w (ws.heap_alloc w).1
  pub heap_free_mild : (w : W) → Mild opened on_way w (ws.heap_free w)
  pub set_event_mild : (e : ℕ) (w : W) → Mild opened on_way w (ws.set_event e w)
  pub reset_event_mild : (e : ℕ) (w : W) → Mild opened on_way w (ws.reset_event e w)
  pub socket_mild : (w : W) → Mild opened on_way w (ws.socket w).1
  pub no_send_buffer_mild : (fd : ℕ) (w : W) → Mild opened on_way w (ws.no_send_buffer fd w)
  pub close_socket_mild : (fd : ℕ) (w : W) → Mild opened on_way w (ws.close_socket fd w)
  pub recv_disconnect_mild : (fd : ℕ) (w : W) → Mild opened on_way w (ws.recv_disconnect fd w)
  pub send_disconnect_mild : (fd : ℕ) (w : W) → Mild opened on_way w (ws.send_disconnect fd w)
  pub update_mild : (fd : ℕ) (w : W) → Mild opened on_way w (ws.update_accept_context fd w)
  pub pointer_mild : (fd : ℕ) (w : W) → Mild opened on_way w (ws.accept_ex_pointer fd w).1
  pub accept_ex_mild : (a b e : ℕ) (w : W) → Mild opened on_way w (ws.accept_ex a b e w).1
  pub recv_mild : (fd e : ℕ) (w : W) → Mild opened on_way w (ws.recv fd e w).1
  pub result_mild : (fd e : ℕ) (w : W) → Mild opened on_way w (ws.overlapped_result fd e w).1
