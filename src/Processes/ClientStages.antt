-- ===== src/Processes/ClientStages.antt =====
-- ProcessManager: the client process at the points of its life.
use quick_desk.Base.{
  ℕ, zero, suc, ◌≡◌, refl, ap, inl, inr, ◌<◌, ℤ, Bool, true, false, not, String, List, [], ◌∷◌,
  ◌++◌, Option, none, some, if_split, leb, nat_eqb, arith, Option-cases,
}
use quick_desk.Processes.Child.{
  ProcessStatus, not_started, starting, running, failed, restarting, status_code, ChildState,
  process_not_running, process_starting, process_running, ExitStatus, Child, started, finished,
  max_restart_attempts, calculate_restart_delay, is_abnormal,
}
use quick_desk.Processes.Client.{
  Output, client_process_started, client_process_stopped, client_process_restarting,
  client_process_status_changed, launched, Client, put_out, set_client_process_status,
  schedule_client_restart, on_client_process_finished, on_client_process_started, handle_signal,
  receive,
}
use quick_desk.Base.Count.{count, count-append}

abbrev pub is_launch : Output → Bool
is_launch (launched exe_path args) = true
is_launch o = false

-- How many processes the outputs say were launched.
abbrev pub launches : List Output → ℕ
launches outs = count is_launch outs

abbrev pub state_of : Option Child → Option ChildState
state_of none = none
state_of (some p) = some p.state

-- The client at a point of its life: its process, restart timer, counter and status, with automatic
-- restarts on, no stop asked for, and a number of launches made.
pub record IsAt (b : Bool) (st : Option ChildState) (t : Option ℕ) (k : ℕ) (s : ProcessStatus)
    (exe : String) (n : ℕ) (process : Option Child) (timer : Option ℕ) (restart_count : ℕ)
    (status : ProcessStatus) (exe_path : String) (auto stopping : Bool) (outs : List Output)
    : Type 0 where
  pub child : state_of process ≡ st
  pub timed : timer ≡ t
  pub counted : restart_count ≡ k
  pub told : status ≡ s
  pub path : exe_path ≡ exe
  pub armed : auto ≡ true
  pub wanted : stopping ≡ b
  pub made : launches outs ≡ n

abbrev pub At :
    Bool → Option ChildState → Option ℕ → ℕ → ProcessStatus → String → ℕ → Client → Type 0
At b st t k s exe n c =
    IsAt b st t k s exe n c.process c.restart_timer c.restart_count c.status c.exe_path
      c.auto_restart c.is_stopping_intentionally c.outputs

abbrev status_of_code : ℕ → ProcessStatus
status_of_code zero = not_started
status_of_code (suc zero) = starting
status_of_code (suc (suc zero)) = running
status_of_code (suc (suc (suc zero))) = failed
status_of_code _ = restarting

status_of_code-status_code : (s : ProcessStatus) → status_of_code (status_code s) ≡ s
status_of_code-status_code not_started = refl
status_of_code-status_code starting = refl
status_of_code-status_code running = refl
status_of_code-status_code failed = refl
status_of_code-status_code restarting = refl

status_code_inj : (a b : ProcessStatus) → nat_eqb (status_code a) (status_code b) ≡ true → a ≡ b
status_code_inj a b h =
    let e : status_code a ≡ status_code b = ground (arith, h) in
    cc (ap status_of_code e, status_of_code-status_code a, status_of_code-status_code b)

pub put_quiet :
    {b : Bool} {st : Option ChildState} {t : Option ℕ} {k : ℕ} {s : ProcessStatus} {exe : String}
    {n : ℕ} {process : Option Child} {timer : Option ℕ} {restart_count : ℕ} {status : ProcessStatus}
    {exe_path : String} {auto stopping : Bool} {outs : List Output} (o : Output)
    → is_launch o ≡ false
    → IsAt b st t k s exe n process timer restart_count status exe_path auto stopping outs
    → IsAt b st t k s exe n process timer restart_count status exe_path auto stopping
        (outs ++ o ∷ [])
unfolding count
put_quiet {outs = outs} o h w = record {
  child = w.child;
  timed = w.timed;
  counted = w.counted;
  told = w.told;
  path = w.path;
  armed = w.armed;
  wanted = w.wanted;
  made = ground (arith, count-append is_launch outs (o ∷ []), w.made, h);
}

pub set_client_process_status-At :
    {b : Bool} {st : Option ChildState} {t : Option ℕ} {k : ℕ} {s : ProcessStatus} {exe : String}
    {n : ℕ} (new : ProcessStatus) (c : Client)
    → At b st t k s exe n c
    → At b st t k new exe n (set_client_process_status new c)
unfolding set_client_process_status
set_client_process_status-At {b} {st} {t} {k} {s} {exe} {n} new c w =
    let turned : At b st t k new exe n (record c { status = new }) = record {
      child = w.child;
      timed = w.timed;
      counted = w.counted;
      told = refl;
      path = w.path;
      armed = w.armed;
      wanted = w.wanted;
      made = w.made;
    } in
    if_split (At b st t k new exe n) (nat_eqb (status_code c.status) (status_code new))
      (λ e. record {
        child = w.child;
        timed = w.timed;
        counted = w.counted;
        told = status_code_inj c.status new e;
        path = w.path;
        armed = w.armed;
        wanted = w.wanted;
        made = w.made;
      })
      (λ _. put_quiet client_process_status_changed refl turned)

schedule_client_restart-At :
    {b : Bool} {st : Option ChildState} {t : Option ℕ} {k : ℕ} {s : ProcessStatus} {exe : String}
    {n : ℕ} (c : Client)
    → At b st t k s exe n c
    → At b st
        (some (calculate_restart_delay (suc k)))
        (suc k)
        restarting
        exe
        n
        (schedule_client_restart c)
unfolding schedule_client_restart
schedule_client_restart-At {b} {st} {t} {k} {s} {exe} {n} c w =
    let counted : At b st t (suc k) s exe n (record c { restart_count = suc c.restart_count }) =
      record {
        child = w.child;
        timed = w.timed;
        counted = ap suc w.counted;
        told = w.told;
        path = w.path;
        armed = w.armed;
        wanted = w.wanted;
        made = w.made;
      } in
    let d = set_client_process_status-At restarting _ counted in
    put_quiet (client_process_restarting (suc c.restart_count) max_restart_attempts) refl (record {
      child = d.child;
      timed = rw w.counted refl;
      counted = d.counted;
      told = d.told;
      path = d.path;
      armed = d.armed;
      wanted = d.wanted;
      made = d.made;
    })

-- The process crashes and a restart is planned.
pub receive-crash :
    {t : Option ℕ} {k : ℕ} {s : ProcessStatus} {exe : String} {n : ℕ} (code : ℤ) (exit : ExitStatus)
    (c : Client)
    → k < 5
    → is_abnormal code exit ≡ true
    → At false (some process_running) t k s exe n c
    → At false
        (some process_not_running)
        (some (calculate_restart_delay (suc k)))
        (suc k)
        restarting
        exe
        n
        (receive (finished code exit) c.process c)
unfolding receive handle_signal on_client_process_finished
receive-crash {t} {k} {s} {exe} {n} code exit c h a w = elim (Option-cases c.process) [
  | inl e ↦ absurd (cc (e, w.child))
  | inr (p, e) ↦
      let r : p.state ≡ process_running = cc (w.child, e) in
      let P =
        At false (some process_not_running) (some (calculate_restart_delay (suc k))) (suc k)
          restarting exe n in
      let told : At false (some process_not_running) t k s exe n
          (record (put_out (client_process_stopped code)
            (record c { process = some (record p { state = process_not_running }) })) {
              has_messaging = false;
            }) =
        put_quiet (client_process_stopped code) refl (record {
          child = refl;
          timed = w.timed;
          counted = w.counted;
          told = w.told;
          path = w.path;
          armed = w.armed;
          wanted = w.wanted;
          made = w.made;
        }) in
      rw (e, receive, r)
        (if_split P c.is_stopping_intentionally (λ f. absurd (cc (f, w.wanted)))
          (λ _.
            if_split P (not c.auto_restart) (λ f. absurd (ground (arith, f, w.armed)))
              (λ _.
                if_split P (not (is_abnormal code exit)) (λ f. absurd (ground (arith, f, a)))
                  (λ _.
                    if_split P (leb max_restart_attempts c.restart_count)
                      (λ f. absurd (ground (arith, f, w.counted, h)))
                      (λ _. schedule_client_restart-At _ told)))))
]

pub receive-started :
    {b : Bool} {t : Option ℕ} {k : ℕ} {s : ProcessStatus} {exe : String} {n : ℕ} (c : Client)
    → At b (some process_starting) t k s exe n c
    → At b (some process_running) t 0 running exe n (receive started c.process c)
unfolding receive handle_signal on_client_process_started
receive-started {b} {t} {k} {s} {exe} {n} c w = elim (Option-cases c.process) [
  | inl e ↦ absurd (cc (e, w.child))
  | inr (p, e) ↦
      let r : p.state ≡ process_starting = cc (w.child, e) in
      let up : At b (some process_running) t 0 s exe n (record c {
        process = some (record p { state = process_running });
        has_messaging = true;
        restart_count = 0;
      }) =
        record {
          child = refl;
          timed = w.timed;
          counted = refl;
          told = w.told;
          path = w.path;
          armed = w.armed;
          wanted = w.wanted;
          made = w.made;
        } in
      rw (e, receive, r)
        (put_quiet client_process_started refl (set_client_process_status-At running _ up))
]
