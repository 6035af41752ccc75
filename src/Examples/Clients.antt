-- ===== src/Examples/Clients.antt =====
-- The theorems on the posix client, applied.
use c11http.Common.{arith, ℕ, ◌≡◌, refl, true, false, List, [], ◌∷◌, ◌++◌, ok}
use c11http.Callback.{Bytes}
use c11http.Posix.{Address, fd_zero}
use c11http.Posix.Client.{Client, testing, new_client}
use c11http.Posix.Client.Construct.{
  Connects, to_host_zero, new_client_ignores_hostname, new_client-Connects,
}
use c11http.Posix.Client.Queue.{send_all, send_all-reverse}
use c11http.Posix.Client.Conservation.{traced, RunConserves, run-RunConserves}
use c11http.Posix.Client.Final.{Act, pumps, sends, disconnects, run, disconnect_is_final}
use c11http.Examples.{willing, env}

abbrev local : Bytes
local = b'1' ∷ b'2' ∷ b'7' ∷ b'.' ∷ b'0' ∷ b'.' ∷ b'0' ∷ b'.' ∷ b'1' ∷ []

abbrev far : Bytes
far = b'8' ∷ b'.' ∷ b'8' ∷ b'.' ∷ b'8' ∷ b'.' ∷ b'8' ∷ []

abbrev name : Bytes
name = b'm' ∷ b'e' ∷ []

abbrev nowhere : Address
nowhere = record { family = 0; port = 0; host = 0 }

new_client_ignores_hostname_example :
    (new_client willing true local 80 name fd_zero nowhere 0
      ≡ new_client willing true far 80 name fd_zero nowhere 0)
    × (new_client willing true local 80 name fd_zero nowhere 0
        ≡ new_client (to_host_zero willing) true local 80 name fd_zero nowhere 0)
new_client_ignores_hostname_example =
    new_client_ignores_hostname willing true 80 name fd_zero nowhere 0 local far 9 7 0 refl refl

new_client-Connects_example :
    Connects willing true 80 name fd_zero nowhere 0 local
      (new_client willing true local 80 name fd_zero nowhere 0).0
new_client-Connects_example = new_client-Connects willing true 80 name fd_zero nowhere 0 local

abbrev pub client : Client ℕ
client = record {
  env = env;
  wakeup_read = 4;
  wakeup_write = 5;
  fd_max = 4;
  is_connected = true;
  identifier = name;
  master_write = fd_zero;
  socket = 3;
  outgoing_bytes = b'!' ∷ [];
}

abbrev acts : List Act
acts = pumps ∷ sends name ∷ pumps ∷ disconnects ∷ pumps ∷ []

disconnect_is_final_example :
    let t = (run willing (disconnects ∷ acts) testing client).1 in
    (t.is_connected ≡ false) × (t.env.log ≡ [])
disconnect_is_final_example = disconnect_is_final willing acts testing client

send_all-reverse_example :
    let r = send_all willing (local ∷ far ∷ []) client in
    (r.0 ≡ ok tt)
    × (r.1.outgoing_bytes ≡ far ++ local ++ b'!' ∷ [])
    × (r.1.env.log ≡ [])
    × (r.1.is_connected ≡ true)
send_all-reverse_example = send_all-reverse willing (local ∷ far ∷ []) client (omega arith)

-- The same client on the same system, whose sends on its socket are traced.
abbrev traced_client : Client (ℕ × Bytes)
traced_client = record {
  env = record { world = (2, []); has_callback = true; log = [] };
  wakeup_read = 4;
  wakeup_write = 5;
  fd_max = 4;
  is_connected = true;
  identifier = name;
  master_write = fd_zero;
  socket = 3;
  outgoing_bytes = b'!' ∷ [];
}

-- The loop passes "me!" on.
run-RunConserves_example :
    RunConserves willing 3 b'm' 1
      (run (traced 3 willing) (sends name ∷ pumps ∷ pumps ∷ []) testing traced_client)
run-RunConserves_example =
    run-RunConserves willing 3 b'm' (sends name ∷ pumps ∷ pumps ∷ []) testing traced_client refl
