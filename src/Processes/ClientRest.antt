-- ===== src/Processes/ClientRest.antt =====
-- ProcessManager: a client process that was told to stop.
use quick_desk.Base.{
  ℕ, ◌≡◌, refl, subst, ◌-◌, ℤ, Bool, true, false, not, ◌&&◌, ◌||◌, String, List, [], ◌∷◌, ◌++◌,
  Option, none, some, if_split, nat_eqb, arith, any, if◌then◌else◌,
}
use quick_desk.Processes.Child.{
  ProcessStatus, not_started, running, status_code, ChildState, process_not_running,
  process_starting, process_running, ExitStatus, ProcessError, failed_to_start, crashed,
  other_error, Child, is_running_state, is_starting_state, is_alive_state, ProcessSignal, started,
  finished, error_occurred, start_failed, process_error, Machine, is_alive, Force, terminates,
  kills, escalate_terminate, escalate_kill, Parting, can_emit,
}
use quick_desk.Processes.Client.{
  Output, client_process_started, client_process_stopped, client_process_error,
  client_auto_restart_changed, client_process_status_changed, forced, Client,
  set_client_process_status, set_client_auto_restart, reset_client_retry_count,
  on_client_process_finished, on_client_process_started, on_client_process_error_occurred,
  handle_signal, stop_client_process, put_force, Step, starts, stops, resets, enables, emits,
  restart_fires, terminate_fires, kill_fires, receive, fire_restart, fire_terminate, fire_kill,
  step, run,
}
use quick_desk.Processes.ClientBounds.{is_start_failure}
use quick_desk.Base.Count.{count, count-append}
use quick_desk.Processes.ClientStages.{is_launch, launches}

-- No restart is planned, and a live process is one whose end the manager takes for intended.
record IsResting (n : ℕ) (process : Option Child) (stopping : Bool) (timer : Option ℕ)
    (outs : List Output) : Type 0 where
  still : timer ≡ none
  quiet : stopping || not (is_alive process) ≡ true
  made : launches outs ≡ n

abbrev Resting : ℕ → Client → Type 0
Resting n c = IsResting n c.process c.is_stopping_intentionally c.restart_timer c.outputs

put_quiet :
    {n : ℕ} {process : Option Child} {stopping : Bool} {timer : Option ℕ} {outs : List Output}
    (o : Output)
    → is_launch o ≡ false
    → IsResting n process stopping timer outs
    → IsResting n process stopping timer (outs ++ o ∷ [])
unfolding count
put_quiet {outs = outs} o h w = record {
  still = w.still;
  quiet = w.quiet;
  made = ground (arith, count-append is_launch outs (o ∷ []), w.made, h);
}

set_client_process_status-Resting :
    {n : ℕ} (st : ProcessStatus) (c : Client)
    → Resting n c
    → Resting n (set_client_process_status st c)
unfolding set_client_process_status
set_client_process_status-Resting {n} st c w =
    if_split (Resting n) (nat_eqb (status_code c.status) (status_code st)) (λ _. w)
      (λ _. put_quiet client_process_status_changed refl w)

stop_client_process-Resting : (c : Client) → Resting (launches c.outputs) (stop_client_process c)
unfolding stop_client_process
stop_client_process-Resting c =
    if_split (Resting (launches c.outputs)) (is_alive c.process)
      (λ _. record { still = refl; quiet = refl; made = refl })
      (λ _.
        set_client_process_status-Resting not_started _
          (record { still = refl; quiet = refl; made = refl }))

-- The process has ended on its own signal.
on_client_process_finished-Resting :
    {n : ℕ} (code : ℤ) (exit : ExitStatus) (c : Client)
    → c.is_stopping_intentionally ≡ true
    → Resting n c
    → Resting n (on_client_process_finished code exit c)
unfolding on_client_process_finished
on_client_process_finished-Resting {n} code exit c h w =
    let told = put_quiet (client_process_stopped code) refl w in
    if_split (Resting n) c.is_stopping_intentionally
      (λ _.
        set_client_process_status-Resting not_started _
          (record { still = told.still; quiet = refl; made = told.made }))
      (λ f. absurd (cc (f, h)))

on_client_process_error_occurred-Resting :
    {n : ℕ} (error : ProcessError) (text : String) (c : Client)
    → (is_start_failure error ≡ true → c.is_stopping_intentionally ≡ true)
    → Resting n c
    → Resting n (on_client_process_error_occurred error text c)
unfolding on_client_process_error_occurred
on_client_process_error_occurred-Resting {n} failed_to_start text c h w =
    let told = put_quiet (client_process_error (start_failed text)) refl w in
    if_split (Resting n) (c.auto_restart && not c.is_stopping_intentionally)
      (λ f. absurd (ground (arith, f, h refl)))
      (λ _. set_client_process_status-Resting not_started _ told)
on_client_process_error_occurred-Resting crashed text c h w = w
on_client_process_error_occurred-Resting other_error text c h w =
    put_quiet (client_process_error (process_error text)) refl w

pub is_starting_state-alive :
    (st : ChildState) → is_starting_state st ≡ true → is_alive_state st ≡ true
is_starting_state-alive process_starting h = refl
is_starting_state-alive process_running h = absurd (cc h)
is_starting_state-alive process_not_running h = absurd (cc h)

pub is_running_state-alive :
    (st : ChildState) → is_running_state st ≡ true → is_alive_state st ≡ true
is_running_state-alive process_running h = refl
is_running_state-alive process_starting h = absurd (cc h)
is_running_state-alive process_not_running h = absurd (cc h)

-- A live process under a client at rest is one that was told to stop.
told_to_stop :
    {n : ℕ} {stopping : Bool} {timer : Option ℕ} {outs : List Output} (p : Child)
    → is_alive_state p.state ≡ true
    → IsResting n (some p) stopping timer outs
    → stopping ≡ true
told_to_stop p h w = ground (arith, h, w.quiet)

-- A signal that only a live process can emit finds the stop noted.
receive-Resting :
    {n : ℕ} (g : ProcessSignal) (o : Option Child) (c : Client)
    → IsResting n o c.is_stopping_intentionally c.restart_timer c.outputs
    → Resting n c
    → Resting n (receive g o c)
unfolding receive handle_signal on_client_process_started
receive-Resting g none c v w = w
receive-Resting {n} started (some p) c v w =
    if_split (Resting n) (can_emit started p.state)
      (λ e. put_quiet client_process_started refl (
        set_client_process_status-Resting running _ (record {
          still = v.still;
          quiet = rw (told_to_stop p (is_starting_state-alive p.state e) v) refl;
          made = v.made;
        })))
      (λ _. w)
receive-Resting {n} (finished code exit) (some p) c v w =
    if_split (Resting n) (can_emit (finished code exit) p.state)
      (λ e.
        on_client_process_finished-Resting code exit _
          (told_to_stop p (is_running_state-alive p.state e) v)
          (record {
            still = v.still;
            quiet = rw (told_to_stop p (is_running_state-alive p.state e) v) refl;
            made = v.made;
          }))
      (λ _. w)
receive-Resting {n} (error_occurred failed_to_start text) (some p) c v w =
    if_split (Resting n) (can_emit (error_occurred failed_to_start text) p.state)
      (λ e.
        on_client_process_error_occurred-Resting failed_to_start text _
          (λ _. told_to_stop p (is_starting_state-alive p.state e) v)
          (record {
            still = v.still;
            quiet = rw (told_to_stop p (is_starting_state-alive p.state e) v) refl;
            made = v.made;
          }))
      (λ _. w)
receive-Resting {n} (error_occurred crashed text) (some p) c v w =
    if_split (Resting n) (can_emit (error_occurred crashed text) p.state)
      (λ _.
        on_client_process_error_occurred-Resting crashed text _ (λ e. absurd (cc e))
          (record { still = v.still; quiet = v.quiet; made = v.made }))
      (λ _. w)
receive-Resting (error_occurred other_error text) (some p) c v w =
    on_client_process_error_occurred-Resting other_error text _ (λ e. absurd (cc e))
      (record { still = v.still; quiet = v.quiet; made = v.made })

fire_terminate-Resting :
    {n : ℕ} (o : Option Child) (c : Client)
    → IsResting n o c.is_stopping_intentionally c.restart_timer c.outputs
    → Resting n c
    → Resting n (fire_terminate o c)
unfolding fire_terminate escalate_terminate put_force
fire_terminate-Resting none c v w = w
fire_terminate-Resting {n} (some p) c v w =
    if_split (Resting n) (nat_eqb p.to_terminate 0) (λ _. w)
      (λ _.
        if_split (λ (r : Child × Option Force). Resting n (put_force r c)) (is_alive_state p.state)
          (λ _.
            put_quiet (forced terminates) refl
              (record { still = v.still; quiet = v.quiet; made = v.made }))
          (λ _. record { still = v.still; quiet = v.quiet; made = v.made }))

fire_kill-Resting :
    {n : ℕ} (o : Option Child) (c : Client)
    → IsResting n o c.is_stopping_intentionally c.restart_timer c.outputs
    → Resting n c
    → Resting n (fire_kill o c)
unfolding fire_kill escalate_kill put_force
fire_kill-Resting none c v w = w
fire_kill-Resting {n} (some p) c v w =
    let after : Child = record p { to_kill = p.to_kill - 1 } in
    let kept : IsResting n (some after) c.is_stopping_intentionally c.restart_timer c.outputs =
      record { still = v.still; quiet = v.quiet; made = v.made } in
    if_split (Resting n) (nat_eqb p.to_kill 0) (λ _. w)
      (λ _.
        if_split (λ (f : Option Force). Resting n (put_force (after, f) c)) (is_alive_state p.state)
          (λ _. put_quiet (forced kills) refl kept) (λ _. kept))

fire_restart-Resting :
    {n : ℕ} (m : Machine) (parting : Parting) (timer : Option ℕ) (c : Client)
    → timer ≡ none
    → Resting n c
    → Resting n (fire_restart m parting timer c)
unfolding fire_restart
fire_restart-Resting m parting none c h w = w
fire_restart-Resting m parting (some d) c h w = absurd (cc h)

abbrev pub is_start : Step → Bool
is_start (starts m parting) = true
is_start s = false

step-Resting :
    {n : ℕ} (s : Step) (c : Client) → is_start s ≡ false → Resting n c → Resting n (step s c)
unfolding step reset_client_retry_count set_client_auto_restart stop_client_process
step-Resting (starts m parting) c h w = absurd (cc h)
step-Resting {n} stops c h w =
    subst (λ (k : ℕ). Resting k (stop_client_process c)) w.made (stop_client_process-Resting c)
step-Resting resets c h w = record { still = w.still; quiet = w.quiet; made = w.made }
step-Resting {n} (enables enabled) c h w =
    if_split (Resting n) (if c.auto_restart then enabled else not enabled) (λ _. w)
      (λ _. put_quiet client_auto_restart_changed refl w)
step-Resting (emits g) c h w = receive-Resting g c.process c w w
step-Resting (restart_fires m parting) c h w =
    fire_restart-Resting m parting c.restart_timer c w.still w
step-Resting terminate_fires c h w = fire_terminate-Resting c.process c w w
step-Resting kill_fires c h w = fire_kill-Resting c.process c w w

run-Resting :
    {n : ℕ} (steps : List Step) (c : Client)
    → any is_start steps ≡ false
    → Resting n c
    → Resting n (run steps c)
unfolding run any
run-Resting [] c h w = w
run-Resting (s ∷ steps) c h w =
    run-Resting steps (step s c) (ground arith) (step-Resting s c (ground arith) w)

-- After a stop no client process is launched until the next call of startClientProcess, whatever the
-- process, its timers and the settings do in between, and no restart is planned.
pub stop_client_process-final :
    (steps : List Step) (c : Client)
    → any is_start steps ≡ false
    → (launches (run steps (stop_client_process c)).outputs ≡ launches c.outputs)
      × ((run steps (stop_client_process c)).restart_timer ≡ none)
stop_client_process-final steps c h =
    let w = run-Resting steps (stop_client_process c) h (stop_client_process-Resting c) in
    (w.made, w.still)
