-- ===== src/Vectors/Demos.antt =====
-- The demonstrations, and `main`.
use generic_tests.Common.{
  ℕ, zero, suc, ◌+◌, String, Bool, List, [], ◌∷◌, if◌then◌else◌, length, replicate,
}
use generic_tests.Common.Int.{ℤ, pos, is_neg, pos_part}
use generic_tests.Sys.{
  nat, int, str, text, Prog, ret, ask, say, skip, ◌>>◌, print, print_flush, sys, getpid,
}
use generic_tests.Threads.{text_of}
use generic_tests.Message.{refill, flush_all}
use generic_tests.Namespace.{socket_at}
use generic_tests.Time64.{with_errno}
use generic_tests.Vectors.{
  at_least_zero, is_zero_or, show_buf, title, new_line, close_both, read_back, preadv_back,
  recv_back,
}

unfoldable pub demo_readv_writev : List ℕ → Prog (Unit {0})
demo_readv_writev old = do
  title "=== demo_readv_writev ===\n"
  is_zero_or (sys "pipe" []) "pipe" (λ p.
      print "Writev vec at %p, with msgs at %p and %p\n" (str "wv" ∷ str "a" ∷ str "b" ∷ [])
      >> (flush_all
          >> at_least_zero
              (sys "writev" (int (socket_at 1 p.bytes) ∷ str "Hello, " ∷ str "writev/readv!" ∷ []))
              "writev"
              (λ w.
                print "Readv vec at %p, with buf at  %p\n" (str "rv" ∷ str "buf" ∷ [])
                >> (flush_all >> read_back (socket_at 0 p.bytes) (socket_at 1 p.bytes) old))))

unfoldable pub demo_preadv_pwritev : Prog (Unit {0})
demo_preadv_pwritev = do
  title "=== demo_preadv_pwritev ===\n"
  at_least_zero (sys "mkstemp" (str "/tmp/iovec_demoXXXXXX" ∷ [])) "mkstemp" (λ f.
      say (sys "unlink" (str "tmpname" ∷ []))
      >> at_least_zero
          (sys "pwritev" (int f.result ∷ str "Segment-1:" ∷ str "Segment-2:" ∷ nat 0 ∷ []))
          "pwritev" (λ w. preadv_back f.result))

unfoldable pub demo_sendmsg_recvmsg : List ℕ → Prog (Unit {0})
demo_sendmsg_recvmsg old = do
  title "=== demo_sendmsg_recvmsg ===\n"
  is_zero_or (sys "socketpair" []) "socketpair" (λ sv.
      print "Sending message: with not explicit name since using socket pair :\n" []
      >> (print "vectors at %p '%s' '%s' \n" (str "iov" ∷ str "Part-A-" ∷ str "Part-B" ∷ [])
          >> (flush_all
              >> at_least_zero
                  (sys "sendmsg" (int (socket_at 0 sv.bytes) ∷ str "Part-A-" ∷ str "Part-B" ∷ []))
                  "sendmsg" (λ s. recv_back (socket_at 0 sv.bytes) (socket_at 1 sv.bytes) old))))

-- The loop over the messages received; the kernel gives the length and the bytes of each.
unfoldable pub show_batch : ℕ → ℕ → List ℕ → Prog (Unit {0})
show_batch zero i old = skip
show_batch (suc left) i old = ask (sys "rmsgs" (nat i ∷ [])) (λ m.
    show_buf "batch recv" (refill m.bytes old) (pos_part m.result) >> show_batch left (i + 1) old)

unfoldable pub demo_sendmmsg_recvmmsg : List ℕ → Prog (Unit {0})
demo_sendmmsg_recvmmsg old = do
  title "=== demo_sendmmsg_recvmmsg ===\n"
  is_zero_or (sys "socketpair" []) "socketpair" (λ sv.
      at_least_zero
        (sys "sendmmsg" (
          int (socket_at 0 sv.bytes)
          ∷ str "msg1-part1-"
          ∷ str "msg1-part2"
          ∷ str "msg2-part1-"
          ∷ str "msg2-part2"
          ∷ []))
        "sendmmsg"
        (λ s.
          print "sendmmsg sent %d messages\n" (int s.result ∷ [])
          >> (flush_all
              >> at_least_zero (sys "recvmmsg" (int (socket_at 1 sv.bytes) ∷ nat 2 ∷ [])) "recvmmsg"
                  (λ r.
                    print "recvmmsg received %d messages\n" (int r.result ∷ [])
                    >> (flush_all
                        >> (show_batch (pos_part r.result) 0 old
                            >> close_both (socket_at 0 sv.bytes) (socket_at 1 sv.bytes)))))))

-- `vmsplice` is whether SYS_vmsplice is defined.
unfoldable pub demo_vmsplice : Bool → List ℕ → Prog (Unit {0})
demo_vmsplice vmsplice old = do
  title "=== demo_vmsplice ===\n"
  if vmsplice
      then is_zero_or (sys "pipe" []) "pipe" (λ p.
        at_least_zero
          (sys "vmsplice" (int (socket_at 1 p.bytes) ∷ str "Data-for-vmsplice" ∷ nat 0 ∷ []))
          "vmsplice"
          (λ n.
            at_least_zero (sys "read" (int (socket_at 0 p.bytes) ∷ nat 64 ∷ []))
              "read after vmsplice"
              (λ r.
                show_buf "vmsplice->pipe read" (refill r.bytes old) (pos_part r.result)
                >> close_both (socket_at 0 p.bytes) (socket_at 1 p.bytes))))
      else (title "vmsplice not available on this platform/build.\n" >> new_line)

-- `fprintf(stderr, …, strerror(errno))`
abbrev pub warn : String → Prog (Unit {0})
warn format =
    with_errno (λ e message. say (sys "fprintf" (str "stderr" ∷ str format ∷ text message ∷ [])))

-- The two calls on the process itself; `out` starts as 64 zeros.
unfoldable pub demo_process_vm_readv_writev : Prog (Unit {0})
demo_process_vm_readv_writev = do
  title "=== demo_process_vm_readv_writev (self) ===\n"
  ask getpid (λ pid.
      ask (sys "process_vm_readv" (int pid.result ∷ str "SECRET_DATA_12345" ∷ nat 18 ∷ nat 64 ∷ []))
        (λ n.
          let out = refill n.bytes (replicate 64 0) in
          (if is_neg n.result
            then warn "process_vm_readv failed: %s\n"
            else (print "process_vm_readv read %ld bytes: " (int n.result ∷ [])
                >> (flush_all >> show_buf "out" out (pos_part n.result))))
          >> ask
              (sys "process_vm_writev"
                (int pid.result ∷ str "WRITTEN_BY_process_vm_writev" ∷ nat 64 ∷ []))
              (λ w.
                let after = refill w.bytes out in
                if is_neg w.result
                then warn "process_vm_writev failed: %s\n"
                else (print "process_vm_writev wrote %ld bytes; out now: " (int w.result ∷ [])
                    >> (flush_all >> show_buf "out" after (length (text_of after)))))))
  new_line

-- `main`, which has a `file` of its own; `old` is what the buffers of the functions hold before.
unfoldable pub iovec_main : Bool → List ℕ → Prog ℤ
iovec_main vmsplice old = do
  print_flush "iovec/syscall demo\n\n" []
  demo_readv_writev old
  demo_preadv_pwritev
  demo_sendmsg_recvmsg old
  demo_sendmmsg_recvmmsg old
  demo_vmsplice vmsplice old
  demo_process_vm_readv_writev
  print_flush "Done.\n" []
  ret (pos 0)
