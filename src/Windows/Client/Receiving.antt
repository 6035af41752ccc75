-- ===== src/Windows/Client/Receiving.antt =====
-- client/windows/Client.cpp: `prepareClientToReceiveData`, which calls itself while data is at hand, and
-- what the loop does not do for later data.
use mathlib.Core.List.{append_assoc, append-nil}
use c11http.Common.{
  ℕ, zero, suc, ◌<◌, ◌≡◌, refl, true, false, some, List, [], ◌∷◌, ◌++◌, map, length, arith, ok,
}
use c11http.Callback.{Bytes, Event, receive_complete}
use c11http.Windows.{Winsock, at_once, io_pending}
use c11http.Windows.Client.{Client, prepare_to_receive}

module _ {W : Type 0} (ws : Winsock W) (fd event : ℕ) where
  -- What is at hand on the socket: these pieces, and then nothing.
  pub data AtHand : List Bytes → W → W → Type 0 where
    no_more : (w end : W) → ws.recv_now fd event w ≡ (io_pending, end) → AtHand [] w end
    piece :
        (bytes : Bytes) (pieces : List Bytes) (w next end : W)
        → ws.recv_now fd event w ≡ (at_once bytes, next)
        → AtHand pieces next end
        → AtHand (bytes ∷ pieces) w end

abbrev pub told : Bytes → List Bytes → List Event
told identifier = map (receive_complete identifier)

-- After these pieces have been taken.
abbrev pub taken : {W : Type 0} → List Bytes → W → Client W → Client W
taken pieces w s = record s {
  env = record s.env { world = w; log = s.env.log ++ told s.identifier pieces };
}

module _ {W : Type 0} (ws : Winsock W) where
  -- With some pieces at hand, `prepareClientToReceiveData` makes one call more of itself than there are
  -- pieces and returns, and a callback has been told of each piece, in their order.
  pub prepare_to_receive_drains :
      (pieces : List Bytes) (calls event : ℕ) (s : Client W) (end : W)
      → length pieces < calls
      → s.event ≡ some event
      → s.env.has_callback ≡ true
      → AtHand ws s.socket event pieces s.env.world end
      → prepare_to_receive ws calls s ≡ (ok true, taken pieces end s)
  unfolding prepare_to_receive
  prepare_to_receive_drains pieces zero event s end enough e cb at = elim enough [ ]
  prepare_to_receive_drains [] (suc calls) event s end enough e cb (no_more w _ none_left) =
      ground (arith, none_left, append-nil s.env.log)
  prepare_to_receive_drains (b ∷ pieces) (suc calls) event s end enough e cb
        (piece _ _ w next _ now rest) =
      let event_told = receive_complete s.identifier b in
      let s' = record s {
        env = record s.env { world = next; log = s.env.log ++ event_told ∷ [] };
      } in
      ground (
        arith,
        now,
        prepare_to_receive_drains pieces calls event s' end (omega arith) e cb rest,
        append_assoc s.env.log (event_told ∷ []) (told s.identifier pieces),
      )

  -- On a stream whose end the other side has announced, every receive completes at once with no byte:
  -- `prepareClientToReceiveData` then never stops calling itself, however many calls it may make.
  pub prepare_to_receive_endless :
      (calls event : ℕ) (s : Client W)
      → s.event ≡ some event
      → ((w : W) → (ws.recv_now s.socket event w).0 ≡ at_once [])
      → (prepare_to_receive ws calls s).0 ≡ ok false
  unfolding prepare_to_receive
  prepare_to_receive_endless zero event s e ended = refl
  prepare_to_receive_endless (suc calls) event s e ended =
      let w = (ws.recv_now s.socket event s.env.world).1 in
      let empty = receive_complete s.identifier [] in
      let silent = record s { env = record s.env { world = w } } in
      let heard = record s { env = record s.env { world = w; log = s.env.log ++ empty ∷ [] } } in
      ground (
        arith,
        ended s.env.world,
        prepare_to_receive_endless calls event silent e ended,
        prepare_to_receive_endless calls event heard e ended,
      )
