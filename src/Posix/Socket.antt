-- ===== src/Posix/Socket.antt =====
-- server/posix/Socket.cpp and Socket.h, which client/posix repeats: the wrapper round a file
-- descriptor. Its destructor does nothing.
use Prim.Native.Nat.{bit_and, bit_or}
use c11http.Common.{ℕ, ◌-◌, M, call, modify, or_raise, ◌>>=◌, socket_creation}
use c11http.Posix.{Os}

module _ {W : Type 0} (os : Os W) where
  -- `Socket::Socket()`.
  unfoldable pub new_socket : M W ℕ
  new_socket = do made ← call os.socket; or_raise made socket_creation

  unfoldable pub make_non_blocking : ℕ → M W (Unit {0})
  make_non_blocking fd = do
    x ← call (os.get_flags fd)
    modify (os.set_flags fd (bit_or x os.o_nonblock))

  -- `x & ~O_NONBLOCK` takes the common bits out of `x`.
  unfoldable pub make_blocking : ℕ → M W (Unit {0})
  make_blocking fd = do
    x ← call (os.get_flags fd)
    modify (os.set_flags fd (x - bit_and x os.o_nonblock))

  unfoldable pub close_socket : ℕ → W → W
  close_socket fd w = os.close fd (os.no_linger fd (os.shut_down fd w))
