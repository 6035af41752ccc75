-- ===== src/Windows/Client/Connecting.antt =====
-- client/windows/Client.cpp: `connect` over the addresses of a host, and the destructor.
use c11http.Common.{
  ℕ, ◌≡◌, ◌≢◌, refl, Bool, Bool-cases, true, false, Option, none, some, List, [], ◌∷◌, ◌++◌, arith,
  Outcome, Error, get_addr_info_failed, no_addresses, ok, throw, fault, and_then, or_raise,
  Option-cases, ◌>>=◌, ◌>>◌, socket_creation, connect_failed, inl, inr,
}
use c11http.Callback.{Bytes}
use c11http.Windows.{Winsock}
use c11http.Windows.Socket.{new_socket, create_overlap}
use c11http.Windows.Client.{
  Client, try_addresses, addresses_of, is_no_socket, finish_connection, open_connection, destroy,
}

module _ {W : Type 0} (ws : Winsock W) where
  abbrev pub in_state : W → Client W → Client W
  in_state w s = record s { env = record s.env { world = w } }

  -- For each address in turn a socket is made, which does not connect.
  pub data Refused : List ℕ → W → W → Type 0 where
    none_left : (w : W) → Refused [] w w
    refused :
        (a : ℕ) (addresses : List ℕ) (fd : ℕ) (w made tried end : W)
        → new_socket ws w ≡ (ok fd, made)
        → ws.connect fd a made ≡ (false, tried)
        → Refused addresses tried end
        → Refused (a ∷ addresses) w end

  -- The loop over the addresses takes the first one that connects, with the socket made for it, and
  -- tries none behind it.
  pub try_addresses_first :
      (before : List ℕ) (a : ℕ) (after : List ℕ) (fd : ℕ) (s : Client W) (end made linked : W)
      → Refused before s.env.world end
      → new_socket ws end ≡ (ok fd, made)
      → ws.connect fd a made ≡ (true, linked)
      → try_addresses ws (before ++ a ∷ after) s
        ≡ (ok tt, record (in_state linked s) { socket = fd })
  unfolding try_addresses
  try_addresses_first [] a after fd s end made linked (none_left w) new link = rw (new, link)
  try_addresses_first (b ∷ before) a after fd s end made linked
        (refused _ _ k w made' tried' end' new' link' rest) new link =
      rw (new', link')
        (try_addresses_first before a after fd (in_state tried' s) end made linked rest new link)

  -- Where no address connects the loop leaves the socket as it is, or by the exception of a socket
  -- that cannot be made.
  abbrev LeavesSocket : ℕ → Outcome (Unit {0}) × Client W → Type 0
  LeavesSocket fd (ok _, s) = s.socket ≡ fd
  LeavesSocket fd (throw e, s) = e ≡ socket_creation
  LeavesSocket fd (fault, s) = ⊥

  try_addresses-LeavesSocket :
      ((fd a : ℕ) (w : W) → (ws.connect fd a w).0 ≡ false)
      → (addresses : List ℕ) (s : Client W) → LeavesSocket s.socket (try_addresses ws addresses s)
  unfolding try_addresses new_socket
  try_addresses-LeavesSocket no_link [] s = refl
  try_addresses-LeavesSocket no_link (a ∷ addresses) s = elim (Option-cases (ws.socket w).0) [
    | inl none_made ↦ rw (none_made, or_raise) refl
    | inr (fd, made) ↦
        let opened = ws.no_send_buffer fd (ws.socket w).1 in
        rw (made, no_link fd a opened)
          (try_addresses-LeavesSocket no_link addresses (in_state (ws.connect fd a opened).1 s))
  ]
    where
      w : W
      w = s.env.world

  -- What a call may not do that found no address, by whether the socket is none.
  abbrev pub Judges : Bool → Outcome (Unit {0}) → Type 0
  Judges true r = r ≢ ok tt
  Judges false r = r ≢ throw connect_failed

  Judges-throw : (b : Bool) (e : Error) → e ≢ connect_failed → Judges b (throw e)
  Judges-throw true e h = λ same. cc
  Judges-throw false e h = λ same. h (ground arith)

  finish-Judges :
      (fd : ℕ) (r : Outcome (Unit {0}) × Client W)
      → LeavesSocket fd r
      → Judges (is_no_socket ws fd) (and_then (λ _. finish_connection ws) r).0
  unfolding finish_connection create_overlap
  finish-Judges fd (ok _, s) e = elim (Bool-cases (is_no_socket ws fd)) [
    | inl bad ↦ rw (e, bad) (λ h. cc)
    | inr good ↦ rw (e, good) (λ h. ground arith)
  ]
  finish-Judges fd (throw e, s) h = Judges-throw (is_no_socket ws fd) e (λ same. ground arith)
  finish-Judges fd (fault, s) h = absurd h

  -- Where no address connects, `connect` does not go by that but by the socket that it found when it
  -- was called, which no constructor has set: if this is 0 or INVALID_SOCKET it does not return, and
  -- otherwise it never raises the exception of a connection that failed.
  pub open_connection-Judges :
      (hostname : Bytes) (port : ℕ) (s : Client W)
      → ((fd a : ℕ) (w : W) → (ws.connect fd a w).0 ≡ false)
      → Judges (is_no_socket ws s.socket) (open_connection ws hostname port s).0
  unfolding open_connection
  open_connection-Judges hostname port s no_link =
      elim (Option-cases (ws.get_addresses hostname port s.env.world).0) [
        | inl nothing ↦ rw nothing (Judges-throw _ get_addr_info_failed (λ h. cc))
        | inr (addresses, found) ↦ rw found (of_list addresses)
      ]
    where
      found_state : Client W
      found_state = in_state (ws.get_addresses hostname port s.env.world).1 s

      of_list :
          (addresses : List ℕ)
          → Judges
              (is_no_socket ws s.socket)
              ((addresses_of ws (some addresses) >>= λ xs.
                  try_addresses ws xs >> finish_connection ws)
                found_state).0
      of_list [] = Judges-throw _ no_addresses (λ h. cc)
      of_list (a ∷ addresses) =
          finish-Judges s.socket _ (try_addresses-LeavesSocket no_link (a ∷ addresses) found_state)

  -- How the destruction of a client ends, by the events of its two overlaps.
  abbrev pub Destroys : Option ℕ → Option ℕ → Outcome (Unit {0}) × Client W → Type 0
  Destroys (some event) (some send_event) r = (r.0 ≡ ok tt) × (r.1.socket ≡ ws.invalid_socket)
  Destroys (some event) none r = r.0 ≡ fault
  Destroys none send_event r = r.0 ≡ fault

  Destroys-lem :
      (s : Client W) (event send_event : Option ℕ)
      → s.event ≡ event
      → s.send_event ≡ send_event
      → Destroys event send_event (destroy ws s)
  unfolding destroy
  Destroys-lem s (some event) (some send_event) e d = (ground arith, ground arith)
  Destroys-lem s (some event) none e d = ground arith
  Destroys-lem s none (some send_event) e d = ground arith
  Destroys-lem s none none e d = ground arith

  -- A client is destroyed, its socket given up, if it has both overlaps; without one, as before
  -- `connect`, the destructor reads through a pointer that leads nowhere.
  pub delete_client-Destroys : (s : Client W) → Destroys s.event s.send_event (destroy ws s)
  delete_client-Destroys s = Destroys-lem s s.event s.send_event refl refl
