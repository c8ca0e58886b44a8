-- ===== src/Processes/ClientRuns.antt =====
-- ProcessManager: the restart counter of the client process over whole histories.
use quick_desk.Base.{
  ℕ, ◌≡◌, refl, ◌≤◌, ◌-◌, Bool, true, false, not, String, List, [], ◌∷◌, Option, none, some,
  if_split, nat_eqb, is_empty, arith, any, if◌then◌else◌,
}
use quick_desk.Processes.Child.{
  ProcessStatus, not_started, starting, running, process_starting, crash_exit, failed_to_start,
  crashed, other_error, Child, is_running, is_alive_state, is_starting, set_state, ProcessSignal,
  started, finished, error_occurred, path_not_set, Machine, can_start, is_alive, ask_to_exit, Force,
  terminates, kills, escalate_terminate, escalate_kill, Parting, starts_then_dies, fails_to_start,
  parting_signals, can_emit,
}
use quick_desk.Processes.Client.{
  Output, client_process_started, client_process_error, client_auto_restart_changed, forced, Client,
  init, set_client_process_status, set_client_auto_restart, reset_client_retry_count,
  on_client_process_started, handle_signal, handle_signals, replace_process, start_process,
  finish_start, start_client_process, stop_client_process, on_client_restart_timer, put_force, Step,
  starts, stops, resets, enables, emits, restart_fires, terminate_fires, kill_fires, receive,
  fire_restart, fire_terminate, fire_kill, step, run,
}
use quick_desk.Processes.ClientBounds.{
  is_timely, is_excess, IsSteady, Steady, put_modest, set_client_process_status-Steady,
  on_client_process_finished-Steady, on_client_process_started-Steady,
  on_client_process_error_occurred-Steady,
}

-- The same counter and outputs with a process that does not run.
with_idle :
    {process idle : Option Child} {count : ℕ} {timer : Option ℕ} {outs : List Output}
    → is_running idle ≡ false
    → IsSteady process count timer outs
    → IsSteady idle count timer outs
with_idle h w = record {
  bounded = w.bounded;
  settled = λ e. absurd (cc (e, h));
  timely = w.timely;
  modest = w.modest;
}

set_client_process_status-process :
    (st : ProcessStatus) (c : Client) → (set_client_process_status st c).process ≡ c.process
unfolding set_client_process_status
set_client_process_status-process st c = ground arith

set_client_process_status-count :
    (st : ProcessStatus) (c : Client)
    → (set_client_process_status st c).restart_count ≡ c.restart_count
unfolding set_client_process_status
set_client_process_status-count st c = ground arith

parting-Steady :
    (parting : Parting) (c : Client)
    → is_running c.process ≡ false
    → Steady c
    → Steady (handle_signals (parting_signals parting) c)
unfolding handle_signals handle_signal on_client_process_started
parting-Steady (starts_then_dies code) c h w =
    on_client_process_finished-Steady code crash_exit _
      (cc (
        h,
        set_client_process_status-process running
            (record c { has_messaging = true; restart_count = 0 }),
      ))
      (set_client_process_status-count running _) (on_client_process_started-Steady c w)
parting-Steady (fails_to_start text) c h w =
    on_client_process_error_occurred-Steady failed_to_start text c (λ _. h) w

replace_process-Steady :
    (parting : Parting) (c : Client) → Steady c → Steady (replace_process parting c)
unfolding replace_process
replace_process-Steady parting c w =
    if_split Steady (is_starting c.process) (λ _. parting-Steady parting _ refl (with_idle refl w))
      (λ _. with_idle refl w)

finish_start-Steady : (r : Client × Bool) → Steady r.0 → Steady (finish_start r).0
unfolding finish_start
finish_start-Steady (c, true) w = w
finish_start-Steady (c, false) w = set_client_process_status-Steady not_started _ (with_idle refl w)

set_state-starting : (p : Option Child) → is_running (set_state process_starting p) ≡ false
set_state-starting none = refl
set_state-starting (some p) = refl

start_process-Steady : (m : Machine) (c : Client) → Steady c → Steady (start_process m c).0
unfolding start_process
start_process-Steady m c w =
    if_split (λ (r : Client × Bool). Steady r.0) (can_start m c.exe_path)
      (λ _. put_modest _ refl (with_idle (set_state-starting c.process) w))
      (λ _. put_modest _ refl w)

start_client_process-Steady :
    (m : Machine) (parting : Parting) (c : Client)
    → Steady c
    → Steady (start_client_process m parting c).0
unfolding start_client_process
start_client_process-Steady m parting c w =
    if_split (λ (r : Client × Bool). Steady r.0) (is_running c.process) (λ _. w)
      (λ _.
        if_split (λ (r : Client × Bool). Steady r.0) (is_empty c.exe_path)
          (λ _. put_modest (client_process_error path_not_set) refl w)
          (λ _. finish_start-Steady _ (
            start_process-Steady m _
              (set_client_process_status-Steady starting _ (replace_process-Steady parting c w)))))

ask_to_exit-running : (p : Option Child) → is_running (ask_to_exit p) ≡ is_running p
unfolding ask_to_exit
ask_to_exit-running none = refl
ask_to_exit-running (some p) = refl

stop_client_process-Steady : (c : Client) → Steady c → Steady (stop_client_process c)
unfolding stop_client_process
stop_client_process-Steady c w =
    if_split Steady (is_alive c.process)
      (λ _. record {
        bounded = w.bounded;
        settled = λ e. w.settled (cc (e, ask_to_exit-running c.process));
        timely = refl;
        modest = w.modest;
      })
      (λ _.
        set_client_process_status-Steady not_started _
          (record { bounded = omega arith; settled = λ e. refl; timely = refl; modest = w.modest }))

-- An escalation timer leaves the state of its process.
fire_terminate-Steady :
    (o : Option Child) (c : Client)
    → IsSteady o c.restart_count c.restart_timer c.outputs
    → Steady c
    → Steady (fire_terminate o c)
unfolding fire_terminate escalate_terminate put_force
fire_terminate-Steady none c v w = w
fire_terminate-Steady (some p) c v w =
    if_split Steady (nat_eqb p.to_terminate 0) (λ _. w)
      (λ _.
        if_split (λ (r : Child × Option Force). Steady (put_force r c)) (is_alive_state p.state)
          (λ _. put_modest (forced terminates) refl (record {
            bounded = v.bounded;
            settled = v.settled;
            timely = v.timely;
            modest = v.modest;
          }))
          (λ _. record {
            bounded = v.bounded;
            settled = v.settled;
            timely = v.timely;
            modest = v.modest;
          }))

fire_kill-Steady :
    (o : Option Child) (c : Client)
    → IsSteady o c.restart_count c.restart_timer c.outputs
    → Steady c
    → Steady (fire_kill o c)
unfolding fire_kill escalate_kill put_force
fire_kill-Steady none c v w = w
fire_kill-Steady (some p) c v w =
    let kept : IsSteady (some (record p { to_kill = p.to_kill - 1 })) c.restart_count
        c.restart_timer c.outputs =
      record { bounded = v.bounded; settled = v.settled; timely = v.timely; modest = v.modest } in
    if_split Steady (nat_eqb p.to_kill 0) (λ _. w)
      (λ _.
        if_split
          (λ (f : Option Force). Steady (put_force (record p { to_kill = p.to_kill - 1 }, f) c))
          (is_alive_state p.state) (λ _. put_modest (forced kills) refl kept) (λ _. kept))

-- A process that ran had a count of zero.
receive-Steady :
    (g : ProcessSignal) (o : Option Child) (c : Client)
    → IsSteady o c.restart_count c.restart_timer c.outputs
    → Steady c
    → Steady (receive g o c)
unfolding receive handle_signal on_client_process_started
receive-Steady g none c v w = w
receive-Steady started (some p) c v w =
    if_split Steady (can_emit started p.state)
      (λ _. put_modest client_process_started refl (
        set_client_process_status-Steady running _ (record {
          bounded = omega arith;
          settled = λ e. refl;
          timely = v.timely;
          modest = v.modest;
        })))
      (λ _. w)
receive-Steady (finished code exit) (some p) c v w =
    if_split Steady (can_emit (finished code exit) p.state)
      (λ e. on_client_process_finished-Steady code exit _ refl (v.settled e) (with_idle refl v))
      (λ _. w)
receive-Steady (error_occurred failed_to_start text) (some p) c v w =
    if_split Steady (can_emit (error_occurred failed_to_start text) p.state)
      (λ _.
        on_client_process_error_occurred-Steady failed_to_start text _ (λ _. refl)
          (with_idle refl v))
      (λ _. w)
receive-Steady (error_occurred crashed text) (some p) c v w =
    if_split Steady (can_emit (error_occurred crashed text) p.state)
      (λ _.
        on_client_process_error_occurred-Steady crashed text _ (λ e. cc e)
          (record {
            bounded = v.bounded;
            settled = v.settled;
            timely = v.timely;
            modest = v.modest;
          }))
      (λ _. w)
receive-Steady (error_occurred other_error text) (some p) c v w =
    on_client_process_error_occurred-Steady other_error text _ (λ e. cc e)
      (record { bounded = v.bounded; settled = v.settled; timely = v.timely; modest = v.modest })

fire_restart-Steady :
    (m : Machine) (parting : Parting) (timer : Option ℕ) (c : Client)
    → Steady c
    → Steady (fire_restart m parting timer c)
unfolding fire_restart on_client_restart_timer
fire_restart-Steady m parting none c w = w
fire_restart-Steady m parting (some delay) c w =
    start_client_process-Steady m parting _
      (record { bounded = w.bounded; settled = w.settled; timely = refl; modest = w.modest })

step-Steady : (s : Step) (c : Client) → Steady c → Steady (step s c)
unfolding step reset_client_retry_count set_client_auto_restart
step-Steady (starts m parting) c w = start_client_process-Steady m parting c w
step-Steady stops c w = stop_client_process-Steady c w
step-Steady resets c w = record {
  bounded = omega arith;
  settled = λ e. refl;
  timely = w.timely;
  modest = w.modest;
}
step-Steady (enables enabled) c w =
    if_split Steady (if c.auto_restart then enabled else not enabled) (λ _. w)
      (λ _. put_modest client_auto_restart_changed refl w)
step-Steady (emits g) c w = receive-Steady g c.process c w w
step-Steady (restart_fires m parting) c w = fire_restart-Steady m parting c.restart_timer c w
step-Steady terminate_fires c w = fire_terminate-Steady c.process c w w
step-Steady kill_fires c w = fire_kill-Steady c.process c w w

pub run-Steady : (steps : List Step) (c : Client) → Steady c → Steady (run steps c)
unfolding run
run-Steady [] c w = w
run-Steady (s ∷ steps) c w = run-Steady steps (step s c) (step-Steady s c w)

pub init-Steady : (exe_path log_dir config_dir : String) → Steady (init exe_path log_dir config_dir)
unfolding init any
init-Steady exe_path log_dir config_dir = record {
  bounded = omega arith;
  settled = λ e. refl;
  timely = refl;
  modest = refl;
}

-- In every history of the client process the restart counter stays within the five attempts, the
-- restart timer has a delay of 2 to 32 seconds, every announced restart is one of five, and the
-- manager never announces that it gives up after crashes.
pub run-within :
    (exe_path log_dir config_dir : String) (steps : List Step)
    → ((run steps (init exe_path log_dir config_dir)).restart_count ≤ 5)
      × (is_timely (run steps (init exe_path log_dir config_dir)).restart_timer ≡ true)
      × (any is_excess (run steps (init exe_path log_dir config_dir)).outputs ≡ false)
run-within exe_path log_dir config_dir steps =
    let w =
      run-Steady steps (init exe_path log_dir config_dir)
        (init-Steady exe_path log_dir config_dir) in
    (w.bounded, w.timely, w.modest)
