-- ===== src/Callback.antt =====
-- server/posix/Callback.h: the calls that a platform implementation makes of its callback, kept as a
-- log, oldest first. Texts are lists of bytes.
pub mod Sessions
use c11http.Common.{ℕ, List, ℕ_discrete}

abbrev pub Bytes : Type 0
Bytes = List ℕ

pub Bytes-discrete : Discrete Bytes
Bytes-discrete = hlevel ℕ_discrete

pub data Event : Type 0 where
  send_complete : Bytes → ℕ → Event
  send_failed : Bytes → Bytes → Event
  receive_complete : Bytes → Bytes → Event
  receive_unnamed : Bytes → Event  -- server/windows/Callback.h: `receiveComplete` without a name
  connected : Bytes → Event
  disconnected : Bytes → Event
