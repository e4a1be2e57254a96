-- ===== src/Socket/Timeouts.antt =====
-- When the server of socketforkserver.c gives up.
use generic_tests.Common.{
  ℕ, zero, suc, ◌+◌, ◌<◌, ◌≡◌, refl, ◌∙◌, ap, inl, inr, true, List, [], ◌∷◌, arith, if◌then◌else◌,
  Bool-cases, take, ◌%◌, ◌==◌,
}
use generic_tests.Common.Int.{ℤ, pos, negsuc, eqb_ℤ, ltb_ℤ, is_neg}
use generic_tests.Sys.{Answer, poll, emit, ret, fflush}
use generic_tests.Sys.Run.{run, done}
use generic_tests.Sys.Monitor.{Monitor, Meets, Meets->>=, Accepts, run-Accepts}
use generic_tests.Socket.{num_threads}
use generic_tests.Socket.Server.{
  Serving, closefd, file_at, dec, serve_one, serve_all, poll_loop, accept_loop, serve,
  server_thread,
}
use generic_tests.Socket.Mains.{fork_settings}
use generic_tests.Socket.Laws.{timed_out, timeouts_of, later, timeout_round, stops, still_open}

-- The polls that have timed out so far; after the third no other poll is made.
abbrev pub three_time_outs : Monitor
three_time_outs = record {
  State = ℕ;
  guard = λ c m. elim c [ poll fds timeout ↦ m < 3 | _ ↦ Unit ];
  after_emit = λ c m. m;
  after_ask =
      λ c a m. elim c [ poll fds timeout ↦ if eqb_ℤ a.result (pos 0) then m + 1 else m | _ ↦ m ];
  closing = λ m. Unit;
}

-- `timeouts` is that number.
abbrev pub Counted : ℕ → Serving → Type 0
Counted m st = m ≡ st.timeouts

abbrev pub Same {ℓ} : {A : Type ℓ} → ℕ → ℕ → A → Type 0
Same m m' a = m' ≡ m

closefd-Same : (m i : ℕ) (fd : ℤ) → Meets three_time_outs (Same m) m (closefd fork_settings i fd)
closefd-Same m i fd = (
  tt,
  λ a. elim (Bool-cases (eqb_ℤ a.result (negsuc 0))) [
    | inl e ↦ rw e (tt, (tt, (tt, refl)))
    | inr e ↦ rw e (tt, (tt, refl))
  ],
)

serve_one-Counted :
    (i revents : ℕ) (st : Serving) (m : ℕ)
    → Counted m st
    → Meets three_time_outs Counted m (serve_one fork_settings i revents st)
unfolding serve_one
serve_one-Counted i revents st m h = elim (Bool-cases (revents % 2 == 1)) [
  | inl e ↦ rw e (
    tt,
    λ a. elim (Bool-cases (ltb_ℤ (pos 0) a.result)) [
      | inl e2 ↦ rw e2 (tt, (tt, (tt, h)))
      | inr e2 ↦ rw e2 (elim (Bool-cases (eqb_ℤ a.result (pos 0))) [
        | inl e3 ↦ rw e3 (
          tt,
          Meets->>= three_time_outs (Same m) Counted
              (λ _. emit fflush (ret (record st { num_open = dec st.num_open })))
              (λ m' _ same. (tt, same ∙ h)) m (closefd fork_settings i (file_at st.fds i))
              (closefd-Same m i (file_at st.fds i)),
        )
        | inr e3 ↦ rw e3 h
      ])
    ],
  )
  | inr e ↦ rw e (elim (Bool-cases (revents == 0)) [ inl e2 ↦ rw e2 h | inr e2 ↦ rw e2 h ])
]

serve_all-Counted :
    (rs : List ℕ) (i : ℕ) (st : Serving) (m : ℕ)
    → Counted m st
    → Meets three_time_outs Counted m (serve_all fork_settings i rs st)
unfolding serve_all
serve_all-Counted [] i st m h = h
serve_all-Counted (r ∷ rs) i st m h =
    Meets->>= three_time_outs Counted Counted (serve_all fork_settings (i + 1) rs)
      (λ m' st' h'. serve_all-Counted rs (i + 1) st' m' h') m (serve_one fork_settings i r st)
      (serve_one-Counted i r st m h)

goes_on-few :
    (num_open : ℤ) (timeouts : ℕ) → fork_settings.goes_on num_open timeouts ≡ true → timeouts < 3
goes_on-few num_open timeouts e = ground arith

poll_loop-Counted :
    (fuel : ℕ) (st : Serving) (m : ℕ)
    → Counted m st
    → Meets three_time_outs Counted m (poll_loop fork_settings fuel st)
unfolding poll_loop
poll_loop-Counted zero st m h = tt
poll_loop-Counted (suc fuel) st m h =
    elim (Bool-cases (fork_settings.goes_on st.num_open st.timeouts)) [
      | inl e ↦ rw e (
        rw h (goes_on-few st.num_open st.timeouts e),
        λ a. (
          tt,
          elim (Bool-cases (is_neg a.result)) [
            | inl e2 ↦ rw e2 (tt, tt)
            | inr e2 ↦ rw e2 (elim (Bool-cases (eqb_ℤ a.result (pos 0))) [
              | inl e3 ↦ rw e3 (
                tt,
                (
                  tt,
                  poll_loop-Counted fuel (record st { timeouts = st.timeouts + 1 }) (m + 1)
                      (ap (λ n. n + 1) h),
                ),
              )
              | inr e3 ↦ rw e3 (
                  Meets->>= three_time_outs Counted Counted _
                    (λ m' st' h'. elim (Bool-cases (eqb_ℤ a.result (pos 3))) [
                      | inl e4 ↦ rw e4 h'
                      | inr e4 ↦ rw e4 (poll_loop-Counted fuel st' m' h')
                    ])
                    m (serve_all fork_settings 0 (take num_threads a.bytes) st)
                    (serve_all-Counted (take num_threads a.bytes) 0 st m h))
            ])
          ],
        ),
      )
      | inr e ↦ rw e h
    ]

accept_loop-Same : (fd : ℤ) (left m : ℕ) → Meets three_time_outs (Same m) m (accept_loop fd left)
unfolding accept_loop
accept_loop-Same fd zero m = refl
accept_loop-Same fd (suc left) m = (
  tt,
  λ a. elim (Bool-cases (is_neg a.result)) [
    | inl e ↦ rw e (tt, tt)
    | inr e ↦ rw e (
        Meets->>= three_time_outs (Same m) (Same m) (λ fds. ret ((a.result, 1) ∷ fds))
          (λ m' fds same. same) m (accept_loop fd left) (accept_loop-Same fd left m))
  ],
)

abbrev pub Any : ℕ → ℤ → Type 0
Any m a = Unit

serve-three :
    (fuel : ℕ) (fd : ℤ) (fds : List (ℤ × ℕ)) (m : ℕ)
    → m ≡ 0
    → Meets three_time_outs Any m (serve fork_settings fuel fd fds)
unfolding serve
serve-three fuel fd fds m h = (
  tt,
  (
    tt,
    Meets->>= three_time_outs Counted Any _ (λ m' _ _. (tt, (tt, (tt, tt)))) m
        (poll_loop fork_settings fuel _) (poll_loop-Counted fuel _ m h),
  ),
)

server_thread-three : (fuel : ℕ) → Meets three_time_outs Any 0 (server_thread fork_settings fuel)
unfolding server_thread
server_thread-three fuel = (
  tt,
  λ a. elim (Bool-cases (eqb_ℤ a.result (pos 0))) [
    | inl e ↦ rw e (tt, tt)
    | inr e ↦ rw e (
      tt,
      λ b. elim (Bool-cases (is_neg b.result)) [
        | inl e2 ↦ rw e2 (tt, tt)
        | inr e2 ↦ rw e2 (
          tt,
          λ c. elim (Bool-cases (is_neg c.result)) [
            | inl e3 ↦ rw e3 (tt, tt)
            | inr e3 ↦ rw e3 (
              tt,
              (
                tt,
                Meets->>= three_time_outs (Same 0) Any (serve fork_settings fuel a.result)
                    (λ m' fds same. serve-three fuel a.result fds m' same) 0
                    (accept_loop a.result num_threads) (accept_loop-Same a.result num_threads 0),
              ),
            )
          ],
        )
      ],
    )
  ],
)

-- In every run the server of socketforkserver.c makes no poll once three of its polls have timed out,
-- whatever has been read between them; and with an open connection its loop returns at the time-out
-- that follows two others.
pub fork_server_stops :
    (fuel : ℕ) (answers : List Answer) (st : Serving) (more : ℕ) (rest : List Answer)
    → st.num_open ≡ pos (suc more)
    → st.timeouts ≡ 2
    → Accepts three_time_outs 0 (run (server_thread fork_settings fuel) answers).events
      × (run (poll_loop fork_settings (suc (suc fuel)) st) (timed_out ∷ rest) ≡ record {
        events = timeouts_of st.fds 5000000 1;
        outcome = done (record st { timeouts = 3 }) rest;
      })
fork_server_stops fuel answers st more rest e two = (
  run-Accepts three_time_outs Any 0 (server_thread fork_settings fuel) answers
      (server_thread-three fuel),
  rw
      (
        timeout_round fork_settings (suc fuel) st rest (rw (e, two, still_open more)),
        stops fork_settings fuel (later st) rest (rw (e, two, still_open more)),
      )
      (rw two),
)
