-- ===== src/Examples/Facades.antt =====
-- The theorems on the classes over the servers and the posix client, applied.
use c11http.Common.{ℕ, ◌≡◌, refl, false, true, [], ◌∷◌, ok, arith}
use c11http.Callback.{receive_complete}
use c11http.Posix.{fd_zero}
use c11http.Posix.Connections.Represents.Lists.{Represents, Represents-env}
use c11http.Posix.Server.{Server, Point}
use c11http.Posix.Server.Loop.{pump, handle_server_connection}
use c11http.Posix.Server.Invariant.{AllOpen}
use c11http.Posix.Client.{Client, selecting as client_selecting, pump as client_pump, disconnect}
use c11http.Facade.{Facade, heard, goes_on}
use c11http.Facade.Server.{destroy}
use c11http.Facade.Server.OnPosix.{posix_server, handle_server_connection-Hears, destroy_leaks}
use c11http.Facade.Client.{Ends, destroy as destroy_client}
use c11http.Facade.Client.OnPosix.{posix_client, destroy-posix_client-Ends}
use c11http.Windows.Server.{Server as WindowsServer, Point as WindowsPoint, pump as windows_pump}
use c11http.Windows.Connections.Represents.{Represents as WindowsRepresents}
use c11http.Examples.Windows.{
  alice as windows_alice, bob as windows_bob, server as windows_two,
  two-Represents as windows_two_represents,
}
use c11http.Examples.{willing, alice, bob, env, server, two-Represents}
use c11http.Examples.Clients.{client}
use c11http.Examples.Invariant.{opened, willing-Descriptors}

abbrev over_posix : Facade (Server ℕ)
over_posix = record {
  platform = record server {
    store = record server.store {
      env = record env { log = receive_complete (b'a' ∷ []) (b'x' ∷ []) ∷ [] };
    };
  };
  has_platform = true;
  has_callback = true;
}

handle_server_connection-Hears_example :
    (t : Server ℕ) × (handle_server_connection willing 7 server ≡ (ok tt, t))
    × (heard t.env.log ≡ (b'b' ∷ [], b'i' ∷ []) ∷ [])
handle_server_connection-Hears_example =
    handle_server_connection-Hears willing server (alice ∷ []) bob two-Represents refl

destroy_leaks_example :
    (g : Facade (Server ℕ)) × (destroy (posix_server willing) over_posix ≡ (ok tt, g))
    × (g.has_callback ≡ false)
    × ((n : ℕ) (p : Point)
        → heard (goes_on (pump willing) n p g.platform).1.env.log ≡ (b'a' ∷ [], b'x' ∷ []) ∷ [])
    × Represents g.platform.store (alice ∷ bob ∷ [])
    × AllOpen (opened g.platform.env.world) (6 ∷ 7 ∷ [])
destroy_leaks_example =
    destroy_leaks willing opened willing-Descriptors over_posix (alice ∷ bob ∷ []) refl
      (Represents-env _ (alice ∷ bob ∷ []) _ two-Represents) (refl, (refl, tt)) (omega arith)

abbrev client_over_posix : Facade (Client ℕ)
client_over_posix = record { platform = client; has_platform = true; has_callback = true }

destroy-posix_client-Ends_example :
    Ends
      (posix_client willing)
      (disconnect willing client).0
      (destroy_client (posix_client willing) client_over_posix)
    × (heard
          (goes_on
            (client_pump willing)
            3
            (client_selecting fd_zero)
            (destroy_client (posix_client willing) client_over_posix).1.platform).1.env.log
        ≡ [])
destroy-posix_client-Ends_example =
    destroy-posix_client-Ends willing 3 (client_selecting fd_zero) client_over_posix refl refl

abbrev over_windows : Facade (WindowsServer ℕ)
over_windows = record { platform = windows_two; has_platform = true; has_callback = true }
