-- ===== src/Namespace/Order.antt =====
-- The parent's calls under a monitor.
use text.Mathlib.Text.{◌==◌ as is_text}
use generic_tests.Common.{
  if◌then◌else◌, ℕ, zero, suc, ◌≡◌, refl, inl, inr, false, List, String, Bool-cases, take, ◌==◌,
}
use generic_tests.Common.Int.{ℤ, pos, minus_one, is_neg, eqb_ℤ, ltb_ℤ}
use generic_tests.Sys.{Call, Answer, Prog, ret, write}
use generic_tests.Sys.Monitor.{Monitor, Meets, Meets->>=, Accepts, run-Accepts}
use generic_tests.Sys.Run.{run}
use generic_tests.Wait.{if_exited}
use generic_tests.Wait.Order.{report-Meets}
use generic_tests.Namespace.{
  opened, judge, released, write_maps, mkuidns_main, child_formats, socket_at, deny, go,
}
use generic_tests.Namespace.Ids.{id_line}

-- What the parent has done: the child that it made, how many buffers it has written, the file that it
-- opened last and its name, and the ids that it was told.
pub record Progress : Type 0 where
  pub child : ℤ
  pub written : ℕ
  pub path : String
  pub file : ℤ
  pub uid : ℤ
  pub gid : ℤ

abbrev pub start : Progress
start = record {
  child = minus_one;
  written = 0;
  path = "";
  file = minus_one;
  uid = pos 0;
  gid = pos 0;
}

-- A buffer goes to the file of that name, which is open.
abbrev pub IsOpen : String → ℤ → Progress → Type 0
IsOpen path fd m = (m.path ≡ path) × (m.file ≡ fd) × (eqb_ℤ fd minus_one ≡ false)

-- The next buffer, after `n` of them: the map of the user, the groups, the map of the group, and the
-- permission to go on.
abbrev pub IsNext : ℕ → ℤ → List ℕ → Progress → Type 0
IsNext zero fd bytes m = IsOpen "uid_map" fd m × (bytes ≡ take 11 (id_line m.uid))
IsNext (suc zero) fd bytes m = IsOpen "setgroups" fd m × (bytes ≡ deny)
IsNext (suc (suc zero)) fd bytes m = IsOpen "gid_map" fd m × (bytes ≡ take 11 (id_line m.gid))
IsNext (suc (suc (suc zero))) fd bytes m = bytes ≡ go
IsNext _ fd bytes m = ⊥

abbrev pub Guarded : Call → Progress → Type 0
Guarded (Call.write fd bytes) m = IsNext m.written fd bytes m
Guarded (Call.open_proc pid path) m = pid ≡ m.child
Guarded (Call.waitpid pid) m = (m.written ≡ 4) × (pid ≡ m.child)
Guarded _ m = Unit

abbrev pub after_call : Call → Progress → Progress
after_call (Call.write fd bytes) m = record {
  child = m.child;
  written = suc m.written;
  path = m.path;
  file = m.file;
  uid = m.uid;
  gid = m.gid;
}
after_call _ m = m

abbrev pub answered : Call → Answer → Progress → Progress
answered (Call.open_proc pid path) a m = record {
  child = m.child;
  written = m.written;
  path = path;
  file = a.result;
  uid = m.uid;
  gid = m.gid;
}
answered Call.getuid a m = record {
  child = m.child;
  written = m.written;
  path = m.path;
  file = m.file;
  uid = a.result;
  gid = m.gid;
}
answered Call.getgid a m = record {
  child = m.child;
  written = m.written;
  path = m.path;
  file = m.file;
  uid = m.uid;
  gid = a.result;
}
answered (Call.sys name args) a m =
    if is_text name "clone" then record m { child = a.result } else m
answered _ a m = m

abbrev pub sequence : Monitor
sequence = record {
  State = Progress;
  guard = Guarded;
  after_emit = after_call;
  after_ask = answered;
  closing = λ m. ⊥;
}

abbrev pub AnyEnd : Progress → ℤ → Type 0
AnyEnd m v = Unit

judge-Meets : (m : Progress) (s : ℕ) → Meets sequence (λ m' u. Unit) m (judge s)
judge-Meets m s = elim (Bool-cases (if_exited s)) [
  | inl e ↦ rw e (elim (Bool-cases (s == 0)) [ inl z ↦ rw z tt | inr z ↦ rw z (tt, tt) ])
  | inr e ↦
      rw e (report-Meets sequence (λ m'. Unit) (λ format args m' h. (tt, tt)) child_formats s m tt)
]

released-Meets :
    (sock childpid : ℤ) (m : Progress)
    → m.written ≡ 3
    → childpid ≡ m.child
    → Meets sequence AnyEnd m (released sock childpid)
released-Meets sock childpid m three same = (
  rw three refl,
  (
    (rw three refl, same),
    λ a. elim (Bool-cases (ltb_ℤ (pos 0) a.result)) [
      | inl e ↦ rw e (
          Meets->>= sequence (λ m' u. Unit) AnyEnd (λ u. ret (pos 0)) (λ m' u h. tt)
            (after_call (write sock go) m) (judge a.status)
            (judge-Meets (after_call (write sock go) m) a.status))
      | inr e ↦ rw e (tt, tt)
    ],
  ),
)

-- The three files, and what follows.
opened-Meets :
    (childpid : ℤ) (path complaint : String) (next : ℤ → Prog ℤ) (m : Progress)
    → childpid ≡ m.child
    → ((fd : ℤ)
        → eqb_ℤ fd minus_one ≡ false
        → Meets sequence AnyEnd (record m { path = path; file = fd }) (next fd))
    → Meets sequence AnyEnd m (opened childpid path complaint next)
opened-Meets childpid path complaint next m same h = (
  same,
  λ a. elim (Bool-cases (eqb_ℤ a.result minus_one)) [
    | inl e ↦ rw e (tt, (tt, tt))
    | inr e ↦ rw e (h a.result e)
  ],
)

-- After the child has been made.
abbrev pub cloned_start : ℤ → Progress
cloned_start childpid = record start { child = childpid }

write_maps-Meets :
    (sock childpid : ℤ) → Meets sequence AnyEnd (cloned_start childpid) (write_maps sock childpid)
unfolding write_maps
write_maps-Meets sock childpid =
    opened-Meets childpid "uid_map" "unable to open uid map\n" _ (cloned_start childpid) refl
      (λ fd open_uid. (
        tt,
        λ u. (
          ((refl, refl, open_uid), refl),
          (
            tt,
            opened-Meets childpid "setgroups" "unable to open setgroups\n" _
                (record {
                  child = childpid;
                  written = 1;
                  path = "uid_map";
                  file = fd;
                  uid = u.result;
                  gid = pos 0;
                })
                refl
                (λ fd' open_groups. (
                  ((refl, refl, open_groups), refl),
                  (
                    tt,
                    opened-Meets childpid "gid_map" "unable to open gid map\n" _
                        (record {
                          child = childpid;
                          written = 2;
                          path = "setgroups";
                          file = fd';
                          uid = u.result;
                          gid = pos 0;
                        })
                        refl
                        (λ fd'' open_gid. (
                          tt,
                          λ g. (
                            ((refl, refl, open_gid), refl),
                            (tt, released-Meets sock childpid _ refl refl),
                          ),
                        )),
                  ),
                )),
          ),
        ),
      ))

mkuidns_main-Meets : Meets sequence AnyEnd start mkuidns_main
unfolding mkuidns_main
mkuidns_main-Meets = (
  tt,
  (
    tt,
    λ p. elim (Bool-cases (is_neg p.result)) [
      | inl e ↦ rw e (tt, tt)
      | inr e ↦ rw e (
        tt,
        λ m. elim (Bool-cases (eqb_ℤ m.result (pos 0))) [
          | inl e2 ↦ rw e2 (tt, tt)
          | inr e2 ↦ rw e2 (
            tt,
            λ c. elim (Bool-cases (eqb_ℤ c.result minus_one)) [
              | inl e3 ↦ rw e3 (tt, tt)
              | inr e3 ↦ rw e3 (write_maps-Meets (socket_at 1 p.bytes) c.result)
            ],
          )
        ],
      )
    ],
  ),
)

-- Whatever is answered, what a run of `mkuidns_main` writes is the beginning of this sequence: the line
-- of the answer of `getuid`, `deny`, the line of the answer of `getgid`, and `go`. Each of the first
-- three goes to the file of its name below /proc/<child>, which the run opened last and which did open,
-- and the lines are cut to eleven bytes. It waits only after all four, and for the child of `clone`.
pub mkuidns_order : (s : List Answer) → Accepts sequence start (run mkuidns_main s).events
mkuidns_order s = run-Accepts sequence AnyEnd start mkuidns_main s mkuidns_main-Meets
