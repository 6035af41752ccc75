-- ===== src/Posix/Server/Telling.antt =====
-- server/posix/Server.cpp: what the callback of a server has been told, from the constructor on.
use c11http.Common.{ℕ, ◌≡◌, ◌+◌, Bool, true, List, [], Outcome, ok, throw, fault}
use c11http.Callback.{Bytes}
use c11http.Callback.Sessions.{comings, leavings, times, InTurn, Session-balance, Session-InTurn}
use c11http.Posix.{Os, FdSet}
use c11http.Posix.Descriptors.{Descriptors}
use c11http.Posix.Connection.{ServerConnection}
use c11http.Posix.Connections.Represents.Lists.{names, Represents}
use c11http.Posix.Server.{Server, Point, new_server}
use c11http.Posix.Server.Invariant.Runs.{from_start}
use c11http.Posix.Server.Shutdown.{Act}
use c11http.Posix.Server.Invariant.{Sound}
use c11http.Posix.Server.Invariant.Runs.{RunsOn}
use c11http.Posix.Server.Construct.{RunsFromStart, new_server-RunsFromStart}

module _ {W : Type 0} (os : Os W) (opened : W → FdSet) (laws : Descriptors os opened) where
  -- The connections of a server, and how often its callback was told that a name came and left.
  abbrev Tells : Bytes → Server W → Type 0
  Tells i s =
      (cs : List ServerConnection) × Represents s.store cs
      × (comings i s.env.log ≡ leavings i s.env.log + times i (names cs))
      × InTurn [] s.env.log

  abbrev TellsOn : Bytes → Outcome Point × Server W → Type 0
  TellsOn i (ok p, s) = Tells i s
  TellsOn i (throw e, s) = Tells i s
  TellsOn i (fault, s) = Unit {0}

  abbrev pub TellsFromStart : List Act → Bytes → Outcome (Server W) × W → Type 0
  TellsFromStart acts i (ok s, w) = TellsOn i (from_start os opened laws acts s)
  TellsFromStart acts i (throw e, w) = Unit {0}
  TellsFromStart acts i (fault, w) = ⊥

  Sound-Tells : (i : Bytes) (down : Bool) (s : Server W) → Sound os opened down s → Tells i s
  Sound-Tells i down s h =
      (h.connections, h.represents, Session-balance h.session i, Session-InTurn h.session)

  RunsOn-TellsOn :
      (i : Bytes) (r : Outcome Point × Server W) → RunsOn os opened laws r → TellsOn i r
  RunsOn-TellsOn i (ok p, s) (down, h) = Sound-Tells i down s h
  RunsOn-TellsOn i (throw e, s) (down, h) = Sound-Tells i down s h
  RunsOn-TellsOn i (fault, s) h = h

  told_from_start :
      (acts : List Act) (i : Bytes) (r : Outcome (Server W) × W)
      → RunsFromStart os opened laws acts r
      → TellsFromStart acts i r
  told_from_start acts i (ok s, w) h = RunsOn-TellsOn i (from_start os opened laws acts s) h
  told_from_start acts i (throw e, w) h = h
  told_from_start acts i (fault, w) h = h

  -- What the callback is told matches the connections, from the constructor on: if that does not throw,
  -- then after every run of `waitForEvents` and of calls of `send`, `broadcast` and `shutdown` by other
  -- threads, in any order, also at an exception, unless it has run into undefined behaviour, the calls
  -- of `connected` with a name are as many as those of `disconnected` with it and the live connections
  -- of that name together. Each call of `receiveComplete`, `sendComplete` and `disconnected` with a name
  -- stands where `connected` was called with it more often than `disconnected`, and neither a failure of
  -- a send nor bytes without a name are ever told. The system is one whose `socket` and
  -- `accept` answer with open descriptors, `accept` with new ones, and whose calls close no descriptor
  -- but that of a `close`.
  pub new_server-TellsFromStart :
      (acts : List Act) (i : Bytes) (port : ℕ) (unset : FdSet) (w : W)
      → TellsFromStart acts i (new_server os true port unset w)
  new_server-TellsFromStart acts i port unset w =
      told_from_start acts i (new_server os true port unset w)
        (new_server-RunsFromStart os opened laws acts port unset w)
