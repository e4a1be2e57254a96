-- ===== src/Lib.antt =====
-- generic-tests: small C programs that exercise Linux system calls, as values of antt, with what they
-- do proved for every answer of their environment.
--
-- The programs do not call each other. What they share is the kernel, and passages that they repeat:
-- the ladder over the status word of `waitpid` and the loop around it, the loops over `fork`,
-- `pthread_create` and `pthread_join`, and the checks of the calls.
--
-- Files and sources (paths from the root of the repository):
-- - Common: the shared names of the libraries; Common/Tests (Boolean tests on numbers), Common/Lists,
--   Common/Int (signed numbers).
-- - Sys: a program as a tree of its calls. Sys/Calls has the calls and their answers, Sys/Programs the
--   monad, Sys/Run a run of one process against a list of answers, Sys/Tree all the processes that
--   forks make, Sys/Monitor rules on the order of calls, Sys/Buffer the buffer of stdout across
--   `fork`, Sys/Serve a run against a state, where some calls may block.
-- - Wait: the status word, the ladder and the loop over `waitpid`, as in serialfork.c, parallelfork.c,
--   multiforkexec.c, forktree_and_pthread.c and controlthreads.c.
-- - Fork: Fork/Serial is serialfork.c, Fork/Parallel is parallelfork.c, Fork/Multi is
--   multiforkexec.c. `main` of each is `serial_main`, `parallel_main`, `multi_main`. Fork/Single is
--   fork.c, Fork/Exec is forkexec.c and exec.c.
-- - ForkTree: forktree_and_pthread.c, whose functions keep their names.
-- - Semaphore: semaphore.c, its two loops as a step relation over all interleavings; Semaphore/Multi
--   is `sem_op` and `multisem_op`, Semaphore/Main is `main` as its calls, and Semaphore/Channel the
--   channel that the two processes implement.
-- - Threads: pthread.c (Threads/Pthread), forkmulti.c (Threads/ForkMulti), processesgalore.c
--   (Threads/Galore), and in Threads/Combined fork_and_pthread.c, forkexec_and_pthread.c,
--   forkexecwait_and_pthread.c, forkexecwait_and_pthreadchild.c and system_and_pthread.c.
--   Threads/Processes, Threads/Children and Threads/Fallen count the threads and processes that come
--   of them.
-- - Shell: `callsys` and `main` of system.c and simplesystem.c.
-- - Socket: socket.c and socketforkserver.c. Socket/Client is `client_thread`, Socket/Server is
--   `closefd` and `server_thread`, Socket/Mains the settings in which the two differ and each `main`.
-- - Control: controlthreads.c. Control/Threads are the functions of the threads, Control/Main
--   `makethreads`, `fork_demon`, `fork_and_wait` and `main`.
-- - Clone: clone.c. Shm: shmtest.c. Msg: msgtest.c. Clock: clock.c.
-- - Call64: call64.c, one definition for each of its numbered steps; Call64/Dirents is the loop over
--   the records of `getdents64`. The names that it tests by `#ifdef` are the fields of `Build`.
-- - Namespace: mkuidns.c; Namespace/Child is `childfunc`, Namespace/Ids the line of an id map.
-- - Registers: arch_prctl.c; the names that it tests are the fields of `Macros`. Registers/Laws and
--   Registers/Unread run it on a kernel that keeps the registers (Sys/Serve).
-- - Message: recvmsg.c and recvmsg-flush.c, which differ in their `Lines`.
-- - Vectors: iovec_demo.c; Vectors/Demos has its demonstrations and `main`. Time64: timeclock64.c.
-- - Small: hello.c, helloargs.c, identity.c, stat.c, waitkeyboard.c, termios.c and robustlist.c;
--   Small/Files: hellofile.c, fakeafile.c and devmemmadness.c; Small/Sample: sample.c.
-- - Lock: threadlockfail.c; the loop of `lock_acquire` runs on fuel.
-- A module Laws, Order, Timeouts or Multi beside a program holds its theorems, a module Tests their witnesses.
--
-- The kernel and the C library are not in the repository: a call is a node of the program, and its
-- answer (value, status word, numbers stored) is an argument of what follows. A theorem on a run
-- holds for all answers unless it names them. `atoi` and the values of variables that the source
-- leaves unset (`garbage`, `cpid`) are parameters.
--
-- Loops with a counter are recursion on the rounds left. The loops over `waitpid`, `poll` and `read`
-- have no bound in the source and run on fuel: each round takes an answer, so more fuel than answers
-- is enough. Without fuel a program is at `spin`, which no theorem takes for a return.
--
-- Not modelled: addresses, the sizes of int but for the status word and `char`, and the structs that
-- only go to the kernel. The interleaving of semaphore.c starts with the values that SETVAL has given
-- the semaphores, and leaves out the call of `multisem_op` behind it, which gives `semop` two
-- operations that are not set (Semaphore/Multi) and whose effect is therefore unknown.
pub mod Common
pub mod Sys
pub mod Wait
pub mod Fork
pub mod ForkTree
pub mod Semaphore
pub mod Threads
pub mod Socket
pub mod Control
pub mod Clone
pub mod Shm
pub mod Msg
pub mod Clock
pub mod Shell
pub mod Call64
pub mod Namespace
pub mod Registers
pub mod Message
pub mod Time64
pub mod Vectors
pub mod Lock
pub mod Small
