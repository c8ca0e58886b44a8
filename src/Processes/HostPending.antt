-- ===== src/Processes/HostPending.antt =====
-- ProcessManager: the end of an attempt to connect to the host service.
use quick_desk.Base.{
  suc, ◌≡◌, refl, Bool, true, false, not, ◌&&◌, String, List, [], ◌∷◌, Option, none, if_split, ltb,
  leb, nat_eqb, is_some, is_empty, arith, Option-cases, inl, inr,
}
use quick_desk.Processes.Child.{
  ProcessStatus, status_code, ProcessSignal, Machine, max_restart_attempts, is_abnormal, can_start,
  Parting, leaving, not_started, running, failed, restarting, failed_to_start, crashed, other_error,
  started, finished, error_occurred,
}
use quick_desk.Processes.Host.{
  Pipes, Host, init, is_host_service_running, set_host_process_status, announce_host_restart,
  count_restart, on_host_process_finished, on_host_process_started, on_host_process_error_occurred,
  handle_signal, handle_signals, start_process, finish_start, start_host_as_child_process,
}
use quick_desk.Processes.HostEvents.{
  cleanup_service_connection, fall_back, on_service_pipe_error, Step, fire_pipe_timer, step, run,
  pipe_timer_fires,
}
use quick_desk.Processes.HostRuns.{run-Steady, init-Steady}

-- No pipes, and none being opened.
record IsUnplugged (pipes : Option Pipes) (connecting : Bool) : Type 0 where
  gone : pipes ≡ none
  over : connecting ≡ false

abbrev Unplugged : Host → Type 0
Unplugged h = IsUnplugged h.pipes h.is_service_connecting

set_host_process_status-Unplugged :
    (st : ProcessStatus) (h : Host) → Unplugged h → Unplugged (set_host_process_status st h)
unfolding set_host_process_status
set_host_process_status-Unplugged st h w =
    if_split Unplugged (nat_eqb (status_code h.status) (status_code st)) (λ _. w) (λ _. w)

announce_host_restart-Unplugged : (h : Host) → Unplugged h → Unplugged (announce_host_restart h)
unfolding announce_host_restart
announce_host_restart-Unplugged h w =
    let d = set_host_process_status-Unplugged restarting h w in
    record { gone = d.gone; over = d.over }

handle_signal-Unplugged :
    (g : ProcessSignal) (h : Host) → Unplugged h → Unplugged (handle_signal g h)
unfolding handle_signal on_host_process_started on_host_process_finished
    on_host_process_error_occurred
handle_signal-Unplugged started h w = set_host_process_status-Unplugged running _ w
handle_signal-Unplugged (finished code exit) h w =
    if_split Unplugged h.is_stopping_intentionally
      (λ _. set_host_process_status-Unplugged not_started _ w)
      (λ _.
        if_split Unplugged (not h.auto_restart)
          (λ _. set_host_process_status-Unplugged not_started _ w)
          (λ _.
            if_split Unplugged (not (is_abnormal code exit))
              (λ _. set_host_process_status-Unplugged not_started _ w)
              (λ _.
                if_split Unplugged (leb max_restart_attempts h.restart_count)
                  (λ _. set_host_process_status-Unplugged failed _ w)
                  (λ _. announce_host_restart-Unplugged _ w))))
handle_signal-Unplugged (error_occurred failed_to_start text) h w =
    if_split Unplugged (h.auto_restart && not h.is_stopping_intentionally)
      (λ _.
        if_split Unplugged (ltb h.restart_count max_restart_attempts)
          (λ _. announce_host_restart-Unplugged _ w)
          (λ _. set_host_process_status-Unplugged failed _ w))
      (λ _. set_host_process_status-Unplugged not_started _ w)
handle_signal-Unplugged (error_occurred crashed text) h w = w
handle_signal-Unplugged (error_occurred other_error text) h w = w

handle_signals-Unplugged :
    (gs : List ProcessSignal) (h : Host) → Unplugged h → Unplugged (handle_signals gs h)
unfolding handle_signals
handle_signals-Unplugged [] h w = w
handle_signals-Unplugged (g ∷ gs) h w =
    handle_signals-Unplugged gs (handle_signal g h) (handle_signal-Unplugged g h w)

start_process-Unplugged :
    (m : Machine) (h : Host) → Unplugged h → Unplugged (finish_start (start_process m h)).0
unfolding start_process finish_start
start_process-Unplugged m h w =
    if_split (λ (r : Host × Bool). Unplugged (finish_start r).0) (can_start m h.exe_path) (λ _. w)
      (λ _. set_host_process_status-Unplugged not_started _ w)

start_host_as_child_process-Unplugged :
    (m : Machine) (parting : Parting) (h : Host)
    → Unplugged h
    → Unplugged (start_host_as_child_process m parting h).0
unfolding start_host_as_child_process
start_host_as_child_process-Unplugged m parting h w =
    if_split (λ (r : Host × Bool). Unplugged r.0) (is_empty h.exe_path)
      (λ _. set_host_process_status-Unplugged not_started _ w)
      (λ _. start_process-Unplugged m _ (handle_signals-Unplugged (leaving h.process parting) _ w))

cleanup_service_connection-Unplugged :
    (h : Host) → h.is_service_connecting ≡ false → Unplugged (cleanup_service_connection h)
unfolding cleanup_service_connection
cleanup_service_connection-Unplugged h e = elim (Option-cases h.pipes) [
  | inl f ↦ rw (f, cleanup_service_connection) (record { gone = refl; over = e })
  | inr (q, f) ↦ rw (f, cleanup_service_connection) (record { gone = refl; over = e })
]

-- An attempt that is pending ends with the pipes dropped.
on_service_pipe_error-Unplugged :
    (m : Machine) (parting : Parting) (h : Host)
    → h.is_service_connecting ≡ true
    → Unplugged (on_service_pipe_error m parting h)
unfolding on_service_pipe_error fall_back
on_service_pipe_error-Unplugged m parting h c =
    let h2 : Host =
      cleanup_service_connection
        (record h { is_service_connecting = false; is_pipe_timer_on = false }) in
    let w =
      cleanup_service_connection-Unplugged
        (record h { is_service_connecting = false; is_pipe_timer_on = false }) refl in
    if_split Unplugged h.is_service_connecting
      (λ _.
        if_split Unplugged (is_host_service_running m)
          (λ _.
            if_split Unplugged (leb (suc h2.restart_count) max_restart_attempts)
              (λ _.
                announce_host_restart-Unplugged (count_restart h2)
                  (record { gone = w.gone; over = w.over }))
              (λ _.
                start_host_as_child_process-Unplugged m parting _
                  (record { gone = w.gone; over = w.over })))
          (λ _.
            start_host_as_child_process-Unplugged m parting _
              (record { gone = w.gone; over = w.over })))
      (λ f. absurd (cc (f, c)))

fire_pipe_timer-Unplugged :
    (m : Machine) (parting : Parting) (h : Host)
    → h.is_pipe_timer_on ≡ true
    → h.is_service_connecting ≡ true
    → Unplugged (fire_pipe_timer m parting h)
unfolding fire_pipe_timer
fire_pipe_timer-Unplugged m parting h t c =
    if_split Unplugged h.is_pipe_timer_on (λ _. on_service_pipe_error-Unplugged m parting _ c)
      (λ f. absurd (cc (f, t)))

-- In every history of the host an attempt to connect to the host service has its pipes and its timer,
-- and when the timer fires the attempt is over and its pipes are dropped, whether the host is to be
-- connected again or becomes a child process.
pub run-pending :
    (exe_path log_dir config_dir : String) (steps : List Step) (m : Machine) (parting : Parting)
    → (run steps (init exe_path log_dir config_dir)).is_service_connecting ≡ true
    → ((run steps (init exe_path log_dir config_dir)).is_pipe_timer_on ≡ true)
      × (is_some (run steps (init exe_path log_dir config_dir)).pipes ≡ true)
      × ((step
            (pipe_timer_fires m parting)
            (run steps (init exe_path log_dir config_dir))).is_service_connecting
          ≡ false)
      × ((step (pipe_timer_fires m parting) (run steps (init exe_path log_dir config_dir))).pipes
          ≡ none)
unfolding step
run-pending exe_path log_dir config_dir steps m parting c =
    let h : Host = run steps (init exe_path log_dir config_dir) in
    let s =
      run-Steady steps (init exe_path log_dir config_dir)
        (init-Steady exe_path log_dir config_dir) in
    let t : h.is_pipe_timer_on ≡ true = ground (arith, s.watch, c) in
    let p : is_some h.pipes ≡ true = ground (arith, s.watch, c) in
    let w = fire_pipe_timer-Unplugged m parting h t c in (t, p, w.over, w.gone)
