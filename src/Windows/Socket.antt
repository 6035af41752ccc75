-- ===== src/Windows/Socket.antt =====
-- server/windows/Socket.cpp and Overlap.h, which client/windows repeats: the wrapper round a socket,
-- whose destructor does nothing, and the event of an overlapped structure.
use c11http.Common.{
  ℕ, not, M, call, modify, pure, or_raise, throw_if, ◌>>=◌, ◌>>◌, socket_creation, overlap_alloc,
  create_event_failed, Outcome, ok, throw, fault,
}
use c11http.Windows.{Winsock}

module _ {W : Type 0} (ws : Winsock W) where
  -- `Socket::Socket()`. That the send buffer cannot be turned off is passed over.
  unfoldable pub new_socket : M W ℕ
  new_socket = do
    made ← call ws.socket
    fd ← or_raise made socket_creation
    modify (ws.no_send_buffer fd)
    pure fd

  -- `Overlap::createOverlap`: the event.
  unfoldable pub create_overlap : M W ℕ
  create_overlap = do
    allocated ← call ws.heap_alloc
    throw_if (not allocated) overlap_alloc
    made ← call ws.create_event
    or_raise made create_event_failed

  -- An exception that leaves a constructor before `mOverlap` is set runs `Overlap::~Overlap`, which
  -- reads through the null pointer.
  abbrev pub without_overlap : Outcome ℕ × W → Outcome ℕ × W
  without_overlap (ok event, w) = (ok event, w)
  without_overlap (throw e, w) = (fault, w)
  without_overlap (fault, w) = (fault, w)

  -- `Overlap::createOverlap` in the constructor of a class that has `Overlap` as its base.
  unfoldable pub construct_overlap : M W ℕ
  unfolding create_overlap
  construct_overlap w = without_overlap (create_overlap w)

  -- `Overlap::~Overlap`.
  unfoldable pub destroy_overlap : ℕ → W → W
  destroy_overlap event w = ws.heap_free (ws.close_event event w)
