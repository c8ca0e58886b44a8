-- ===== src/Processes/ClientLoop.antt =====
-- ProcessManager: a client process that crashes after every start.
use quick_desk.Base.{
  ℕ, suc, ◌≡◌, refl, subst, All, ◌+◌, length, ℤ, true, false, String, List, [], ◌∷◌, Option, none,
  some, is_empty, arith,
}
use quick_desk.Processes.Child.{
  running, process_running, ExitStatus, is_running, started, finished, Machine, is_abnormal,
  can_start, Parting,
}
use quick_desk.Processes.Client.{
  Client, Step, emits, restart_fires, receive, fire_restart, step, run,
}
use quick_desk.Processes.ClientBounds.{Steady}
use quick_desk.Processes.ClientStages.{launches, At, receive-crash, receive-started}
use quick_desk.Processes.ClientLaunches.{
  state_of-is_running, is_running-state_of, fire_restart-launches,
}

-- A crash of the running process, and what the machine is when its restart comes.
pub record Crash : Type 0 where
  pub code : ℤ
  pub exit : ExitStatus
  pub machine : Machine
  pub parting : Parting

unfoldable pub crash_steps : List Crash → List Step
crash_steps [] = []
crash_steps (x ∷ xs) =
    emits (finished x.code x.exit)
    ∷ restart_fires x.machine x.parting
    ∷ emits started
    ∷ crash_steps xs

-- The exit is abnormal, and the program is there when it is started again.
abbrev pub IsRestartable : String → Crash → Type 0
IsRestartable exe x = (is_abnormal x.code x.exit ≡ true) × (can_start x.machine exe ≡ true)

crash-At :
    {t : Option ℕ} {exe : String} {n : ℕ} (x : Crash) (c : Client)
    → is_empty exe ≡ false
    → IsRestartable exe x
    → At false (some process_running) t 0 running exe n c
    → At false (some process_running) none 0 running exe (suc n) (
        step
          (emits started)
          (step (restart_fires x.machine x.parting) (step (emits (finished x.code x.exit)) c)))
unfolding step
crash-At {t} {exe} {n} x c g h w =
    let c1 : Client = receive (finished x.code x.exit) c.process c in
    let c2 : Client = fire_restart x.machine x.parting c1.restart_timer c1 in
    let a = receive-crash x.code x.exit c (omega arith) h.0 w in
    receive-started c2
      (fire_restart-launches x.machine x.parting c1.restart_timer c1 g h.1 a.timed a)

crash_steps-At :
    (xs : List Crash) {t : Option ℕ} {exe : String} {n : ℕ} (c : Client)
    → is_empty exe ≡ false
    → All (IsRestartable exe) xs
    → At false (some process_running) t 0 running exe n c
    → (r : Option ℕ) × At false
        (some process_running)
        r
        0
        running
        exe
        (length xs + n)
        (run (crash_steps xs) c)
unfolding run crash_steps
crash_steps-At [] {t} {exe} {n} c g h w =
    (t, subst (λ (k : ℕ). At false (some process_running) t 0 running exe k c) (omega arith) w)
crash_steps-At (x ∷ xs) {t} {exe} {n} c g h w =
    let (r, u) = crash_steps-At xs _ g h.1 (crash-At x c g h.0 w) in
    (
      r,
      subst
          (λ (k : ℕ).
            At false (some process_running) r 0 running exe k (run (crash_steps (x ∷ xs)) c))
          (omega arith) u,
    )

-- A client process that runs, with automatic restarts on and no stop asked for, comes back from any
-- number of crashes, each soon after its start: where its program is there at every restart, it runs
-- again after the last crash and was launched once for each.
pub run-crash_steps :
    (xs : List Crash) (c : Client)
    → Steady c
    → is_running c.process ≡ true
    → c.status ≡ running
    → c.auto_restart ≡ true
    → c.is_stopping_intentionally ≡ false
    → is_empty c.exe_path ≡ false
    → All (IsRestartable c.exe_path) xs
    → (is_running (run (crash_steps xs) c).process ≡ true)
      × ((run (crash_steps xs) c).status ≡ running)
      × (launches (run (crash_steps xs) c).outputs ≡ length xs + launches c.outputs)
run-crash_steps xs c steady up told armed wanted path h =
    let start : At false (some process_running) c.restart_timer 0 running c.exe_path
        (launches c.outputs) c =
      record {
        child = is_running-state_of c.process up;
        timed = refl;
        counted = steady.settled up;
        told = told;
        path = refl;
        armed = armed;
        wanted = wanted;
        made = refl;
      } in
    let (r, w) = crash_steps-At xs c path h start in (state_of-is_running _ w.child, w.told, w.made)
