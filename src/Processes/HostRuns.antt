-- ===== src/Processes/HostRuns.antt =====
-- ProcessManager: the announcements and the pipe connection of the host over whole histories.
use quick_desk.Base.{
  ℕ, ◌≡◌, refl, Bool, true, false, not, String, List, [], ◌∷◌, Option, none, some, if_split,
  nat_eqb, arith, any, if◌then◌else◌,
}
use quick_desk.Processes.Child.{
  Child, ProcessSignal, Machine, Force, Parting, can_emit, process_error,
}
use quick_desk.Processes.Host.{
  Pipes, Output, Host, init, is_connected, set_host_auto_restart, reset_host_retry_count,
  host_process_error, host_auto_restart_changed, read_pipe_opened, forced,
}
use quick_desk.Processes.HostEvents.{
  on_host_restart_timer, on_write_pipe_connected, on_pipe_error_occurred, put_force, Step, receive,
  fire_restart, fire_terminate, fire_kill, is_connecting, connect_write, connect_read,
  disconnect_read, fail_pipe, fire_deferred, fire_pipe_timer, step, run, starts, stops, resets,
  enables, emits, restart_fires, terminate_fires, kill_fires, write_connects, read_connects,
  pipe_fails, read_disconnects, deferred_fires, pipe_timer_fires,
}
use quick_desk.Processes.ClientBounds.{is_timely}
use quick_desk.Processes.HostBounds.{
  is_excess, IsSteady, Steady, put_modest, handle_signal-Steady, start_host_process-Steady,
}
use quick_desk.Processes.HostHandlers.{
  stop_host_process-Steady, on_service_pipe_connected-Steady, on_service_pipe_error-Steady,
  on_read_pipe_disconnected-Steady,
}

receive-Steady :
    (g : ProcessSignal) (o : Option Child) (h : Host) → Steady h → Steady (receive g o h)
unfolding receive
receive-Steady g none h w = w
receive-Steady g (some p) h w =
    if_split Steady (can_emit g p.state)
      (λ _.
        handle_signal-Steady g _ (record { timely = w.timely; watch = w.watch; modest = w.modest }))
      (λ _. w)

put_force-Steady : (r : Child × Option Force) (h : Host) → Steady h → Steady (put_force r h)
unfolding put_force
put_force-Steady (p, none) h w = record { timely = w.timely; watch = w.watch; modest = w.modest }
put_force-Steady (p, some force) h w =
    put_modest (forced force) refl
      (record { timely = w.timely; watch = w.watch; modest = w.modest })

fire_terminate-Steady : (o : Option Child) (h : Host) → Steady h → Steady (fire_terminate o h)
unfolding fire_terminate
fire_terminate-Steady none h w = w
fire_terminate-Steady (some p) h w =
    if_split Steady (nat_eqb p.to_terminate 0) (λ _. w) (λ _. put_force-Steady _ h w)

fire_kill-Steady : (o : Option Child) (h : Host) → Steady h → Steady (fire_kill o h)
unfolding fire_kill
fire_kill-Steady none h w = w
fire_kill-Steady (some p) h w =
    if_split Steady (nat_eqb p.to_kill 0) (λ _. w) (λ _. put_force-Steady _ h w)

fire_restart-Steady :
    (m : Machine) (parting : Parting) (timer : Option ℕ) (h : Host)
    → Steady h
    → Steady (fire_restart m parting timer h)
unfolding fire_restart on_host_restart_timer
fire_restart-Steady m parting none h w = w
fire_restart-Steady m parting (some delay) h w =
    start_host_process-Steady m parting _
      (record { timely = refl; watch = w.watch; modest = w.modest })

-- Pipes that are there do no harm.
with_pipes :
    {pipes : Option Pipes} {timer : Option ℕ} {connecting watched : Bool} {outs : List Output}
    (q : Pipes)
    → IsSteady pipes timer connecting watched outs
    → IsSteady (some q) timer connecting watched outs
with_pipes q w = record { timely = w.timely; watch = ground (arith, w.watch); modest = w.modest }

connect_write-Steady : (o : Option Pipes) (h : Host) → Steady h → Steady (connect_write o h)
unfolding connect_write on_write_pipe_connected
connect_write-Steady none h w = w
connect_write-Steady (some pipes) h w =
    if_split Steady (is_connecting pipes.write)
      (λ _.
        if_split Steady h.is_service_connecting
          (λ _. put_modest read_pipe_opened refl (with_pipes _ w)) (λ _. with_pipes _ w))
      (λ _. w)

connect_read-Steady : (o : Option Pipes) (h : Host) → Steady h → Steady (connect_read o h)
unfolding connect_read
connect_read-Steady none h w = w
connect_read-Steady (some pipes) h w =
    if_split Steady (is_connecting pipes.read)
      (λ _. on_service_pipe_connected-Steady _ (with_pipes _ w)) (λ _. w)

disconnect_read-Steady :
    (m : Machine) (parting : Parting) (o : Option Pipes) (h : Host)
    → Steady h
    → Steady (disconnect_read m parting o h)
unfolding disconnect_read
disconnect_read-Steady m parting none h w = w
disconnect_read-Steady m parting (some pipes) h w =
    if_split Steady (is_connected pipes.read)
      (λ _. on_read_pipe_disconnected-Steady m parting _ (with_pipes _ w)) (λ _. w)

fail_pipe-Steady :
    (is_peer_closed : Bool) (text : String) (o : Option Pipes) (h : Host)
    → Steady h
    → Steady (fail_pipe is_peer_closed text o h)
unfolding fail_pipe on_pipe_error_occurred
fail_pipe-Steady is_peer_closed text none h w = w
fail_pipe-Steady is_peer_closed text (some pipes) h w =
    if_split Steady h.is_service_connecting
      (λ _. record { timely = w.timely; watch = w.watch; modest = w.modest })
      (λ _.
        if_split Steady is_peer_closed (λ _. w)
          (λ _. put_modest (host_process_error (process_error text)) refl w))

unwatched :
    {pipes : Option Pipes} {timer : Option ℕ} {connecting watched : Bool} {outs : List Output}
    → IsSteady pipes timer connecting watched outs
    → IsSteady pipes timer false false outs
unwatched w = record { timely = w.timely; watch = refl; modest = w.modest }

step-Steady : (s : Step) (h : Host) → Steady h → Steady (step s h)
unfolding step reset_host_retry_count set_host_auto_restart fire_deferred fire_pipe_timer
step-Steady (starts m parting) h w = start_host_process-Steady m parting h w
step-Steady stops h w = stop_host_process-Steady h w
step-Steady resets h w = record { timely = w.timely; watch = w.watch; modest = w.modest }
step-Steady (enables enabled) h w =
    if_split Steady (if h.auto_restart then enabled else not enabled) (λ _. w)
      (λ _. put_modest host_auto_restart_changed refl w)
step-Steady (emits g) h w = receive-Steady g h.process h w
step-Steady (restart_fires m parting) h w = fire_restart-Steady m parting h.restart_timer h w
step-Steady terminate_fires h w = fire_terminate-Steady h.process h w
step-Steady kill_fires h w = fire_kill-Steady h.process h w
step-Steady write_connects h w = connect_write-Steady h.pipes h w
step-Steady read_connects h w = connect_read-Steady h.pipes h w
step-Steady (pipe_fails is_peer_closed text) h w = fail_pipe-Steady is_peer_closed text h.pipes h w
step-Steady (read_disconnects m parting) h w = disconnect_read-Steady m parting h.pipes h w
step-Steady (deferred_fires m parting) h w =
    if_split Steady (nat_eqb h.deferred_errors 0) (λ _. w)
      (λ _.
        on_service_pipe_error-Steady m parting _ (unwatched w)
          (λ _. record { timely = w.timely; watch = w.watch; modest = w.modest }))
step-Steady (pipe_timer_fires m parting) h w =
    if_split Steady h.is_pipe_timer_on
      (λ _.
        on_service_pipe_error-Steady m parting _ (unwatched w)
          (λ e. record { timely = w.timely; watch = rw e refl; modest = w.modest }))
      (λ _. w)

pub run-Steady : (steps : List Step) (h : Host) → Steady h → Steady (run steps h)
unfolding run
run-Steady [] h w = w
run-Steady (s ∷ steps) h w = run-Steady steps (step s h) (step-Steady s h w)

pub init-Steady : (exe_path log_dir config_dir : String) → Steady (init exe_path log_dir config_dir)
unfolding init any
init-Steady exe_path log_dir config_dir = record { timely = refl; watch = refl; modest = refl }

-- In every history of the host, every announced restart is the first to the fifth of five and the
-- restart timer has a delay of 2 to 32 seconds, in service mode and as a child process.
pub run-announces :
    (exe_path log_dir config_dir : String) (steps : List Step)
    → (any is_excess (run steps (init exe_path log_dir config_dir)).outputs ≡ false)
      × (is_timely (run steps (init exe_path log_dir config_dir)).restart_timer ≡ true)
run-announces exe_path log_dir config_dir steps =
    let w =
      run-Steady steps (init exe_path log_dir config_dir)
        (init-Steady exe_path log_dir config_dir) in
    (w.modest, w.timely)
