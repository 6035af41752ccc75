-- ===== src/Posix/Client/Construct.antt =====
-- client/posix/Client.cpp: the constructor, from `socket` to the wakeup pipe.
use c11http.Common.{
  ℕ, ◌≡◌, refl, inl, inr, Bool, true, false, Option, none, some, [], Outcome, ok, throw, or_raise,
  connect_failed, wakeup_pipe, socket_creation, not_presentation_format, inet_pton_failed,
  Option-cases, Bool-cases,
}
use c11http.Callback.{Bytes}
use c11http.Posix.{Os, FdSet, Address, Pton, converted, no_address, pton_error}
use c11http.Posix.Socket.{make_non_blocking}
use c11http.Posix.Client.{Client, new_client, with_host}

-- The system, but with a `connect` that is given 0.0.0.0 for the host of each address.
abbrev pub to_host_zero : {W : Type 0} → Os W → Os W
to_host_zero os = record os { connect = λ fd a v. os.connect fd (record a { host = 0 }) v }

module _ {W : Type 0} (os : Os W) (cb : Bool) (port : ℕ) (identifier : Bytes) (unset : FdSet)
    (address : Address) (w : W) where
  -- The system after `socket`.
  abbrev opened : W
  opened = (os.socket w).1

  -- The host that `connect` is given is 0.0.0.0 whatever the host name stands for: two names that
  -- `inet_pton` both converts, to any addresses and with the same effect on the system, make the
  -- same client or fail in the same way, and so does either where `connect` is given 0.0.0.0 in place
  -- of the host that the constructor gives it.
  pub new_client_ignores_hostname :
      (name name' : Bytes) (a a' : ℕ) (w' : W)
      → os.inet_pton name opened ≡ (converted a, w')
      → os.inet_pton name' opened ≡ (converted a', w')
      → (new_client os cb name port identifier unset address w
          ≡ new_client os cb name' port identifier unset address w)
        × (new_client os cb name port identifier unset address w
            ≡ new_client (to_host_zero os) cb name port identifier unset address w)
  unfolding new_client
  new_client_ignores_hostname name name' a a' w' e e' = elim (Option-cases (os.socket w).0) [
    | inl s ↦ rw s (refl, refl)
    | inr (fd, s) ↦ rw (s, e, e') (refl, refl)
  ]

  module _ (name : Bytes) where
    -- The systems along the way for descriptor `fd`: after `inet_pton`, after `connect`, and after
    -- the acknowledgement, the identifier and the setting of the flags.
    abbrev looked_up : Pton × W
    looked_up = os.inet_pton name opened

    abbrev linked : ℕ → Bool × W
    linked fd =
        os.connect fd (record { family = os.inet; port = os.htons port; host = 0 }) looked_up.1

    abbrev greeted : ℕ → W
    greeted fd =
        (make_non_blocking os fd (os.send fd identifier (os.recv fd 4 (linked fd).1).1).1).1

    abbrev pub Connects : Outcome (Client W) → Type 0
    Connects (ok c) =
        ((os.socket w).0 ≡ some c.socket)
        × ((host : ℕ) × (looked_up.0 ≡ converted host))
        × ((linked c.socket).0 ≡ true)
        × ((os.pipe (greeted c.socket)).0 ≡ some (c.wakeup_read, c.wakeup_write))
        × (c.is_connected ≡ true)
        × (c.identifier ≡ identifier)
        × (c.outgoing_bytes ≡ [])
    Connects (throw socket_creation) = (os.socket w).0 ≡ none
    Connects (throw not_presentation_format) = looked_up.0 ≡ no_address
    Connects (throw inet_pton_failed) = looked_up.0 ≡ pton_error
    Connects (throw connect_failed) =
        (fd : ℕ) × ((os.socket w).0 ≡ some fd) × ((linked fd).0 ≡ false)
    Connects (throw wakeup_pipe) =
        (fd : ℕ) × ((os.socket w).0 ≡ some fd)
        × ((linked fd).0 ≡ true)
        × ((os.pipe (greeted fd)).0 ≡ none)
    Connects _ = ⊥

    piped :
        (fd : ℕ) (host : ℕ) (ends : Option (ℕ × ℕ))
        → (os.socket w).0 ≡ some fd
        → looked_up.0 ≡ converted host
        → (linked fd).0 ≡ true
        → (os.pipe (greeted fd)).0 ≡ ends
        → Connects (new_client os cb name port identifier unset address w).0
    unfolding new_client
    piped fd host none s l c p = rw (s, l, with_host, c, p) (fd, s, c, p)
    piped fd host (some (r, v)) s l c p =
        rw (s, l, with_host, c, p) (s, (host, l), c, p, refl, refl, refl)

    looked :
        (fd : ℕ) (result : Pton)
        → (os.socket w).0 ≡ some fd
        → looked_up.0 ≡ result
        → Connects (new_client os cb name port identifier unset address w).0
    unfolding new_client
    looked fd (converted host) s l = elim (Bool-cases (linked fd).0) [
      | inl c ↦ piped fd host (os.pipe (greeted fd)).0 s l c refl
      | inr c ↦ rw (s, l, with_host, c) (fd, s, c)
    ]
    looked fd no_address s l = rw (s, l, with_host) l
    looked fd pton_error s l = rw (s, l, with_host) l

    -- The constructor makes a connected client, with nothing to send, exactly if each call of the
    -- system that it looks at succeeds; each exception names the one that failed.
    pub new_client-Connects : Connects (new_client os cb name port identifier unset address w).0
    unfolding new_client
    new_client-Connects = elim (Option-cases (os.socket w).0) [
      | inl s ↦ rw (s, or_raise) s
      | inr (fd, s) ↦ looked fd looked_up.0 s refl
    ]
