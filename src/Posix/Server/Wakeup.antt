-- ===== src/Posix/Server/Wakeup.antt =====
-- server/posix/Server.cpp: how the loop over the descriptors reads the wakeup pipe.
use c11http.Common.Pointers.{Fresh}
use c11http.Common.{ℕ, zero, suc, ◌+◌, ◌≡◌, ◌≢◌, refl, List, arith, ok}
use c11http.Posix.{Os, fd_zero, fd_add, max_buffer_size}
use c11http.Posix.Connection.{ServerConnection}
use c11http.Posix.Connections.Represents.Lists.{sockets, Represents, Represents-env}
use c11http.Posix.Server.{Server}
use c11http.Posix.Server.Loop.{handle_fd, handle_from, read_wakeup}
use c11http.Posix.Server.Receiving.{handle_server_connection-absent}

module _ {W : Type 0} (os : Os W) where
  -- The system after some receives on a descriptor.
  abbrev pub receives : ℕ → ℕ → W → W
  receives zero fd w = w
  receives (suc n) fd w = receives n fd (os.recv fd max_buffer_size w).1

  abbrev pub in_state : W → Server W → Server W
  in_state w s = record s { store = record s.store { env = record s.env { world = w } } }

  pub read_lem :
      (s : Server W)
      → read_wakeup os s ≡ (ok tt, in_state (os.recv s.wakeup_read max_buffer_size s.env.world).1 s)
  unfolding read_wakeup
  read_lem s = refl

  handle_fd_wakeup :
      (s : Server W) (cs : List ServerConnection) (i : ℕ)
      → Represents s.store cs
      → Fresh s.wakeup_read (sockets cs)
      → s.wakeup_read ≢ s.connect_socket
      → handle_fd os i (fd_add s.wakeup_read fd_zero) fd_zero s
        ≡ (ok tt, in_state (os.recv s.wakeup_read max_buffer_size s.env.world).1 s)
  unfolding handle_fd
  handle_fd_wakeup s cs i r f apart =
      ground (arith, handle_server_connection-absent os s cs s.wakeup_read r f, read_lem s)

  -- A round in which nothing is ready but the wakeup pipe does not read it once: it calls `recv` on
  -- it for each descriptor that the loop goes through, and does nothing else.
  pub handle_from_wakeup :
      (n i : ℕ) (s : Server W) (cs : List ServerConnection)
      → Represents s.store cs
      → Fresh s.wakeup_read (sockets cs)
      → s.wakeup_read ≢ s.connect_socket
      → handle_from os n i (fd_add s.wakeup_read fd_zero) fd_zero s
        ≡ (ok tt, in_state (receives n s.wakeup_read s.env.world) s)
  unfolding handle_from
  handle_from_wakeup zero i s cs r f apart = refl
  handle_from_wakeup (suc n) i s cs r f apart =
      let w = (os.recv s.wakeup_read max_buffer_size s.env.world).1 in
      rw (handle_fd_wakeup s cs i r f apart)
        (handle_from_wakeup n (i + 1) (in_state w s) cs (Represents-env s.store cs _ r) f apart)
