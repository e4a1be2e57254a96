-- ===== src/Socket/Order.antt =====
-- To whom the servers answer, in every run.
use generic_tests.Common.{
  ℕ, zero, suc, ◌+◌, ◌≡◌, refl, inl, inr, List, [], ◌∷◌, arith, Option, none, some, if◌then◌else◌,
  Bool-cases, take, ◌%◌, ◌==◌,
}
use generic_tests.Common.Int.{ℤ, pos, negsuc, eqb_ℤ, ltb_ℤ, is_neg}
use generic_tests.Sys.{Answer, read, send, emit, ret, fflush}
use generic_tests.Sys.Run.{run}
use generic_tests.Sys.Monitor.{Monitor, Meets, Meets->>=, Accepts, run-Accepts}
use generic_tests.Socket.{Settings, num_threads}
use generic_tests.Socket.Server.{
  Serving, closefd, file_at, dec, deaf, serve_one, serve_all, poll_loop, accept_loop, serve,
  server_thread,
}
use generic_tests.Socket.Mains.{thread_settings, fork_settings}

-- The file whose bytes have been read and not answered.
abbrev pub replies : Monitor
replies = record {
  State = Option ℤ;
  guard = λ c m. elim c [ send fd text ↦ m ≡ some fd | _ ↦ Unit ];
  after_emit = λ c m. elim c [ send fd text ↦ none | _ ↦ m ];
  after_ask =
      λ c a m. elim c [ read fd n ↦ if ltb_ℤ (pos 0) a.result then some fd else none | _ ↦ m ];
  closing = λ m. Unit;
}

abbrev pub Any {ℓ} : {A : Type ℓ} → Option ℤ → A → Type 0
Any m a = Unit

-- The parts of the settings that make calls do not send.
abbrev pub IsPlain : Settings → Type 0
IsPlain s =
    ((m : Option ℤ) → Meets replies Any m s.closed)
    × ((m : Option ℤ) (i revents : ℕ) → Meets replies Any m (s.polled i revents))

thread_settings-IsPlain : IsPlain thread_settings
thread_settings-IsPlain = omega arith

fork_settings-IsPlain : IsPlain fork_settings
fork_settings-IsPlain = omega arith

module _ (s : Settings) (plain : IsPlain s) where
  closefd-replies : (m : Option ℤ) (i : ℕ) (fd : ℤ) → Meets replies Any m (closefd s i fd)
  closefd-replies m i fd = (
    tt,
    λ a. elim (Bool-cases (eqb_ℤ a.result (negsuc 0))) [
      | inl e ↦ rw e (tt, (tt, plain.0 m))
      | inr e ↦ rw e (tt, plain.0 m)
    ],
  )

  serve_one-replies :
      (i revents : ℕ) (st : Serving) (m : Option ℤ) → Meets replies Any m (serve_one s i revents st)
  unfolding serve_one
  serve_one-replies i revents st m = elim (Bool-cases (revents % 2 == 1)) [
    | inl e ↦ rw e (
      tt,
      λ a. elim (Bool-cases (ltb_ℤ (pos 0) a.result)) [
        | inl e2 ↦ rw e2 (tt, (tt, (refl, tt)))
        | inr e2 ↦ rw e2 (elim (Bool-cases (eqb_ℤ a.result (pos 0))) [
          | inl e3 ↦ rw e3 (
            tt,
            Meets->>= replies Any Any
                (λ _. emit fflush (ret (record st { num_open = dec st.num_open })))
                (λ m' _ _. (tt, tt)) none (closefd s i (file_at st.fds i))
                (closefd-replies none i (file_at st.fds i)),
          )
          | inr e3 ↦ rw e3 tt
        ])
      ],
    )
    | inr e ↦ rw e (elim (Bool-cases (revents == 0)) [
      | inl e2 ↦ rw e2 tt
      | inr e2 ↦ rw e2 (
          Meets->>= replies Any Any (λ _. ret (record st { fds = deaf st.fds i })) (λ m' _ _. tt) m
            (s.polled i revents) (plain.1 m i revents))
    ])
  ]

  serve_all-replies :
      (rs : List ℕ) (i : ℕ) (st : Serving) (m : Option ℤ)
      → Meets replies Any m (serve_all s i rs st)
  unfolding serve_all
  serve_all-replies [] i st m = tt
  serve_all-replies (r ∷ rs) i st m =
      Meets->>= replies Any Any (serve_all s (i + 1) rs)
        (λ m' st' _. serve_all-replies rs (i + 1) st' m') m (serve_one s i r st)
        (serve_one-replies i r st m)

  poll_loop-replies :
      (fuel : ℕ) (st : Serving) (m : Option ℤ) → Meets replies Any m (poll_loop s fuel st)
  unfolding poll_loop
  poll_loop-replies zero st m = tt
  poll_loop-replies (suc fuel) st m = elim (Bool-cases (s.goes_on st.num_open st.timeouts)) [
    | inl e ↦ rw e (
      tt,
      λ a. (
        tt,
        elim (Bool-cases (is_neg a.result)) [
          | inl e2 ↦ rw e2 (tt, tt)
          | inr e2 ↦ rw e2 (elim (Bool-cases (eqb_ℤ a.result (pos 0))) [
            | inl e3 ↦
                rw e3
                  (tt, (tt, poll_loop-replies fuel (record st { timeouts = st.timeouts + 1 }) m))
            | inr e3 ↦ rw e3 (
                Meets->>= replies Any Any _
                  (λ m' st' _. elim (Bool-cases (eqb_ℤ a.result (pos 3))) [
                    | inl e4 ↦ rw e4 tt
                    | inr e4 ↦ rw e4 (poll_loop-replies fuel st' m')
                  ])
                  m (serve_all s 0 (take num_threads a.bytes) st)
                  (serve_all-replies (take num_threads a.bytes) 0 st m))
          ])
        ],
      ),
    )
    | inr e ↦ rw e tt
  ]

  accept_loop-replies :
      (fd : ℤ) (left : ℕ) (m : Option ℤ) → Meets replies Any m (accept_loop fd left)
  unfolding accept_loop
  accept_loop-replies fd zero m = tt
  accept_loop-replies fd (suc left) m = (
    tt,
    λ a. elim (Bool-cases (is_neg a.result)) [
      | inl e ↦ rw e (tt, tt)
      | inr e ↦ rw e (
          Meets->>= replies Any Any (λ fds. ret ((a.result, 1) ∷ fds)) (λ m' fds _. tt) m
            (accept_loop fd left) (accept_loop-replies fd left m))
    ],
  )

  serve-replies :
      (fuel : ℕ) (fd : ℤ) (fds : List (ℤ × ℕ)) (m : Option ℤ)
      → Meets replies Any m (serve s fuel fd fds)
  unfolding serve
  serve-replies fuel fd fds m = (
    tt,
    (
      tt,
      Meets->>= replies Any Any _ (λ m' _ _. (tt, (tt, (tt, tt)))) m (poll_loop s fuel _)
          (poll_loop-replies fuel _ m),
    ),
  )

  server_thread-replies : (fuel : ℕ) → Meets replies Any none (server_thread s fuel)
  unfolding server_thread
  server_thread-replies fuel = (
    tt,
    λ a. elim (Bool-cases (eqb_ℤ a.result (pos 0))) [
      | inl e ↦ rw e (tt, tt)
      | inr e ↦ rw e (
        tt,
        λ b. elim (Bool-cases (is_neg b.result)) [
          | inl e2 ↦ rw e2 (tt, tt)
          | inr e2 ↦ rw e2 (
            tt,
            λ c. elim (Bool-cases (is_neg c.result)) [
              | inl e3 ↦ rw e3 (tt, tt)
              | inr e3 ↦ rw e3 (
                tt,
                (
                  tt,
                  Meets->>= replies Any Any (serve s fuel a.result)
                      (λ m' fds _. serve-replies fuel a.result fds m') none
                      (accept_loop a.result num_threads)
                      (accept_loop-replies a.result num_threads none),
                ),
              )
            ],
          )
        ],
      )
    ],
  )

-- In every run of the servers of socket.c and socketforkserver.c, each `send` goes to the connection
-- of the last `read`, which gave at least one byte and has not been answered before.
pub server_answers_reads :
    (fuel : ℕ) (answers : List Answer)
    → Accepts replies none (run (server_thread thread_settings fuel) answers).events
      × Accepts replies none (run (server_thread fork_settings fuel) answers).events
server_answers_reads fuel answers = (
  run-Accepts replies Any none (server_thread thread_settings fuel) answers
      (server_thread-replies thread_settings thread_settings-IsPlain fuel),
  run-Accepts replies Any none (server_thread fork_settings fuel) answers
      (server_thread-replies fork_settings fork_settings-IsPlain fuel),
)
