-- ===== src/Socket.antt =====
-- socket.c and socketforkserver.c: a server that polls three connections, and three clients, as
-- threads of one process or with the server in a child. Here is what the two programs share; their
-- differences are the fields of `Settings`.
pub mod Client
pub mod Server
pub mod Mains
pub mod Laws
pub mod Order
pub mod Timeouts
mod Tests
use generic_tests.Common.{ℕ, zero, suc, ◌+◌, String, Bool, List, [], ◌∷◌, if◌then◌else◌}
use generic_tests.Common.Int.{ℤ, pos, negsuc, is_neg}
use generic_tests.Sys.{nat, int, Call, Prog, exit, emit, ask, skip, perror, close}

-- What a read leaves in a buffer: its bytes over the first ones, and no NUL behind them.
abbrev pub overlay : List ℕ → List ℕ → List ℕ
overlay [] xs = []
overlay (b ∷ bs) [] = b ∷ bs
overlay (b ∷ bs) (x ∷ xs) = x ∷ overlay bs xs

-- BUFFER_SIZE, NUM_THREADS
abbrev pub buffer_size : ℕ
buffer_size = 1024

abbrev pub num_threads : ℕ
num_threads = 3

-- "Hello from server" and "Hello from client"
abbrev pub hello_from : List ℕ → List ℕ
hello_from rest = b'H' ∷ b'e' ∷ b'l' ∷ b'l' ∷ b'o' ∷ b' ' ∷ b'f' ∷ b'r' ∷ b'o' ∷ b'm' ∷ b' ' ∷ rest

abbrev pub response : List ℕ
response = hello_from (b's' ∷ b'e' ∷ b'r' ∷ b'v' ∷ b'e' ∷ b'r' ∷ [])

-- What the two programs do each in their way.
pub record Settings : Type 0 where
  pub timeout : ℕ  -- TIMEOUT
  pub goes_on : ℤ → ℕ → Bool  -- the test of the poll loop
  pub closed : Prog (Unit {0})  -- the end of `closefd`
  pub polled : ℕ → ℕ → Prog (Unit {0})  -- on POLLERR or POLLHUP
