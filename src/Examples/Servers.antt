-- ===== src/Examples/Servers.antt =====
-- The theorems on the posix server, applied.
use c11http.Common.Pointers.{Fresh}
use c11http.Common.{
  ℕ, ◌≡◌, refl, inr, true, false, some, ◌>>◌, ◌>>=◌, List, [], ◌∷◌, ◌++◌, map, arith, All, ok,
  fault,
}
use c11http.Common.Assoc.{find}
use c11http.Callback.{Bytes, Bytes-discrete, connected, disconnected}
use c11http.Posix.{Os, fd_zero, fd_add}
use c11http.Posix.Socket.{close_socket}
use c11http.Posix.Connection.{ServerConnection, accept_connection}
use c11http.Posix.Connections.Represents.Lists.{Represents}
use c11http.Posix.Server.{Server, selecting, testing, broadcast, send}
use c11http.Posix.Server.Loop.{pump, handle_server_connection, handle_new_connection}
use c11http.Posix.Server.Sending.{fronted, queued, broadcast-Represents, SendsTo, send-SendsTo}
use c11http.Posix.Server.Receiving.{handle_server_connection-loss, handle_server_connection-fault}
use c11http.Posix.Server.Accepting.{handle_new_connection-Represents}
use c11http.Posix.Server.Delivery.{WritesOut, send-WritesOut}
use c11http.Posix.Server.Wakeup.{in_state}
use c11http.Posix.Server.Shutdown.{
  Act, pumps, sends, broadcasts, shuts_down, run, shutdown_is_final,
}
use c11http.Examples.{willing, hung_up, alice, bob, env, two, two-Represents, server}

abbrev hi : Bytes
hi = b'h' ∷ b'i' ∷ []

broadcast-Represents_example :
    (t : Server ℕ) × (broadcast willing hi server ≡ (ok tt, t))
    × Represents t.store (map (fronted hi) (alice ∷ bob ∷ []))
    × All (λ c. t.master_write c.socket ≡ true) (alice ∷ bob ∷ [])
    × ((fd : ℕ) → Fresh fd (6 ∷ 7 ∷ []) → t.master_write fd ≡ false)
    × (t.env ≡ env)
broadcast-Represents_example =
    broadcast-Represents willing hi server (alice ∷ bob ∷ []) refl two-Represents

send-SendsTo_example :
    SendsTo willing hi (b'b' ∷ []) server (alice ∷ bob ∷ []) (send willing hi (b'b' ∷ []) server)
send-SendsTo_example =
    send-SendsTo willing hi (b'b' ∷ []) server (alice ∷ bob ∷ []) refl two-Represents

handle_server_connection-loss_example :
    (t : Server ℕ) × (handle_server_connection hung_up 7 server ≡ (ok tt, t))
    × Represents t.store (alice ∷ [])
    × (t.env ≡ record env { world = close_socket hung_up 7 2; log = disconnected (b'b' ∷ []) ∷ [] })
handle_server_connection-loss_example =
    handle_server_connection-loss hung_up server (alice ∷ []) bob two-Represents (inr refl)

handle_server_connection-fault_example : (handle_server_connection hung_up 6 server).0 ≡ fault
handle_server_connection-fault_example =
    handle_server_connection-fault hung_up server [] alice bob [] two-Represents (inr refl)

-- The system accepts descriptor 8 from the client "i".
abbrev dave : ServerConnection
dave = record { outgoing_bytes = []; socket = 8; identifier = b'i' ∷ [] }

accepts_dave : (accept_connection willing 3 2).0 ≡ ok dave
unfolding accept_connection
accepts_dave = refl

handle_new_connection-Represents_example :
    (t : Server ℕ) × (handle_new_connection willing server ≡ (ok tt, t))
    × Represents t.store (alice ∷ bob ∷ dave ∷ [])
    × (t.env ≡ record env {
      world = (accept_connection willing 3 2).1;
      log = connected (b'i' ∷ []) ∷ [];
    })
handle_new_connection-Represents_example =
    handle_new_connection-Represents willing server (alice ∷ bob ∷ []) dave two-Represents
      accepts_dave refl (omega arith) (omega arith)

abbrev acts : List Act
acts = pumps ∷ broadcasts hi ∷ pumps ∷ sends hi (b'b' ∷ []) ∷ pumps ∷ []

shutdown_is_final_example :
    let t = (run willing (shuts_down ∷ acts) (selecting 7 two.read fd_zero) server).1 in
    (t.has_been_shutdown ≡ true) × (t.env.log ≡ [])
shutdown_is_final_example = shutdown_is_final willing acts (selecting 7 two.read fd_zero) server

-- `select` answers that the second connection is ready for writing.
abbrev focused : Os ℕ
focused = record willing { select = λ n r v w. (some (fd_zero, fd_add 7 fd_zero), w) }

bob_mapped : find Bytes-discrete (b'b' ∷ []) two.mapping ≡ some 2
unfolding find
bob_mapped = ground arith

send-WritesOut_example :
    (before : List ServerConnection) × (after : List ServerConnection) × (alice ∷ bob ∷ []
      ≡ before ++ bob ∷ after)
    × WritesOut focused
        (in_state focused 2 (queued focused hi (2 ∷ []) (bob ∷ []) server))
        (before ++ fronted hi bob ∷ after)
        (fronted hi bob)
        (b'h' ∷ b'i' ∷ b'!' ∷ [])
        ((send focused hi (b'b' ∷ []) >> (pump focused testing >>= pump focused)) server)
send-WritesOut_example =
    send-WritesOut focused (b'h') (b'i' ∷ []) (b'b' ∷ []) server (alice ∷ bob ∷ []) 2 bob
      two-Represents refl refl refl bob_mapped refl (λ n r v w low marked. refl)
