-- ===== src/Processes/HostRest.antt =====
-- ProcessManager: what follows a stop of the host.
use quick_desk.Base.{
  ℕ, ◌≡◌, refl, ◌-◌, Bool, true, false, not, String, List, [], ◌∷◌, Option, none, some, if_split,
  nat_eqb, arith, any, if◌then◌else◌,
}
use quick_desk.Processes.Child.{
  Child, is_alive_state, Machine, Force, escalate_terminate, escalate_kill, Parting, terminates,
  kills,
}
use quick_desk.Processes.Host.{
  Pipes, Host, set_host_auto_restart, reset_host_retry_count, host_auto_restart_changed, forced,
}
use quick_desk.Processes.HostEvents.{
  stop_host_process, on_service_pipe_error, put_force, Step, fire_restart, fire_terminate,
  fire_kill, connect_write, connect_read, disconnect_read, fail_pipe, fire_deferred,
  fire_pipe_timer, step, run, starts, stops, resets, enables, emits, restart_fires, terminate_fires,
  kill_fires, write_connects, read_connects, pipe_fails, read_disconnects, deferred_fires,
  pipe_timer_fires,
}
use quick_desk.Processes.HostStop.{
  launches, IsResting, Resting, put_quiet, stop_host_process-Resting,
}
use quick_desk.Processes.HostSignals.{receive-Resting}

fire_terminate-Resting :
    {n : ℕ} (o : Option Child) (h : Host)
    → IsResting n o h.pipes h.is_service_connecting h.is_stopping_intentionally h.restart_timer
        h.outputs
    → Resting n h
    → Resting n (fire_terminate o h)
unfolding fire_terminate escalate_terminate put_force
fire_terminate-Resting none h v w = w
fire_terminate-Resting {n} (some p) h v w =
    if_split (Resting n) (nat_eqb p.to_terminate 0) (λ _. w)
      (λ _.
        if_split (λ (r : Child × Option Force). Resting n (put_force r h)) (is_alive_state p.state)
          (λ _. put_quiet (forced terminates) refl (record {
            gone = v.gone;
            over = v.over;
            still = v.still;
            quiet = v.quiet;
            made = v.made;
          }))
          (λ _. record {
            gone = v.gone;
            over = v.over;
            still = v.still;
            quiet = v.quiet;
            made = v.made;
          }))

fire_kill-Resting :
    {n : ℕ} (o : Option Child) (h : Host)
    → IsResting n o h.pipes h.is_service_connecting h.is_stopping_intentionally h.restart_timer
        h.outputs
    → Resting n h
    → Resting n (fire_kill o h)
unfolding fire_kill escalate_kill put_force
fire_kill-Resting none h v w = w
fire_kill-Resting {n} (some p) h v w =
    let after : Child = record p { to_kill = p.to_kill - 1 } in
    if_split (Resting n) (nat_eqb p.to_kill 0) (λ _. w)
      (λ _.
        if_split (λ (f : Option Force). Resting n (put_force (after, f) h)) (is_alive_state p.state)
          (λ _. put_quiet (forced kills) refl (record {
            gone = v.gone;
            over = v.over;
            still = v.still;
            quiet = v.quiet;
            made = v.made;
          }))
          (λ _. record {
            gone = v.gone;
            over = v.over;
            still = v.still;
            quiet = v.quiet;
            made = v.made;
          }))

fire_restart-Resting :
    {n : ℕ} (m : Machine) (parting : Parting) (timer : Option ℕ) (h : Host)
    → timer ≡ none
    → Resting n h
    → Resting n (fire_restart m parting timer h)
unfolding fire_restart
fire_restart-Resting m parting none h e w = w
fire_restart-Resting m parting (some d) h e w = absurd (cc e)

-- Without pipes the signals of the pipes do not come.
connect_write-Resting :
    {n : ℕ} (o : Option Pipes) (h : Host) → o ≡ none → Resting n h → Resting n (connect_write o h)
unfolding connect_write
connect_write-Resting none h e w = w
connect_write-Resting (some q) h e w = absurd (cc e)

connect_read-Resting :
    {n : ℕ} (o : Option Pipes) (h : Host) → o ≡ none → Resting n h → Resting n (connect_read o h)
unfolding connect_read
connect_read-Resting none h e w = w
connect_read-Resting (some q) h e w = absurd (cc e)

fail_pipe-Resting :
    {n : ℕ} (is_peer_closed : Bool) (text : String) (o : Option Pipes) (h : Host)
    → o ≡ none
    → Resting n h
    → Resting n (fail_pipe is_peer_closed text o h)
unfolding fail_pipe
fail_pipe-Resting is_peer_closed text none h e w = w
fail_pipe-Resting is_peer_closed text (some q) h e w = absurd (cc e)

disconnect_read-Resting :
    {n : ℕ} (m : Machine) (parting : Parting) (o : Option Pipes) (h : Host)
    → o ≡ none
    → Resting n h
    → Resting n (disconnect_read m parting o h)
unfolding disconnect_read
disconnect_read-Resting m parting none h e w = w
disconnect_read-Resting m parting (some q) h e w = absurd (cc e)

-- Without a pending connection an error of the pipes that was put off does nothing.
on_service_pipe_error-Resting :
    {n : ℕ} (m : Machine) (parting : Parting) (h : Host)
    → Resting n h
    → Resting n (on_service_pipe_error m parting h)
unfolding on_service_pipe_error
on_service_pipe_error-Resting {n} m parting h w =
    if_split (Resting n) h.is_service_connecting (λ f. absurd (cc (f, w.over))) (λ _. w)

abbrev pub is_start : Step → Bool
is_start (starts m parting) = true
is_start s = false

step-Resting :
    {n : ℕ} (s : Step) (h : Host) → is_start s ≡ false → Resting n h → Resting n (step s h)
unfolding step reset_host_retry_count set_host_auto_restart fire_deferred fire_pipe_timer
step-Resting (starts m parting) h e w = absurd (cc e)
step-Resting stops h e w = stop_host_process-Resting h w.made
step-Resting resets h e w = record {
  gone = w.gone;
  over = w.over;
  still = w.still;
  quiet = w.quiet;
  made = w.made;
}
step-Resting {n} (enables enabled) h e w =
    if_split (Resting n) (if h.auto_restart then enabled else not enabled) (λ _. w)
      (λ _. put_quiet host_auto_restart_changed refl w)
step-Resting (emits g) h e w = receive-Resting g h.process h w w
step-Resting (restart_fires m parting) h e w =
    fire_restart-Resting m parting h.restart_timer h w.still w
step-Resting terminate_fires h e w = fire_terminate-Resting h.process h w w
step-Resting kill_fires h e w = fire_kill-Resting h.process h w w
step-Resting write_connects h e w = connect_write-Resting h.pipes h w.gone w
step-Resting read_connects h e w = connect_read-Resting h.pipes h w.gone w
step-Resting (pipe_fails is_peer_closed text) h e w =
    fail_pipe-Resting is_peer_closed text h.pipes h w.gone w
step-Resting (read_disconnects m parting) h e w =
    disconnect_read-Resting m parting h.pipes h w.gone w
step-Resting {n} (deferred_fires m parting) h e w =
    if_split (Resting n) (nat_eqb h.deferred_errors 0) (λ _. w)
      (λ _.
        on_service_pipe_error-Resting m parting _ (record {
          gone = w.gone;
          over = w.over;
          still = w.still;
          quiet = w.quiet;
          made = w.made;
        }))
step-Resting {n} (pipe_timer_fires m parting) h e w =
    if_split (Resting n) h.is_pipe_timer_on
      (λ _.
        on_service_pipe_error-Resting m parting _ (record {
          gone = w.gone;
          over = w.over;
          still = w.still;
          quiet = w.quiet;
          made = w.made;
        }))
      (λ _. w)

run-Resting :
    {n : ℕ} (steps : List Step) (h : Host)
    → any is_start steps ≡ false
    → Resting n h
    → Resting n (run steps h)
unfolding run any
run-Resting [] h e w = w
run-Resting (s ∷ steps) h e w =
    run-Resting steps (step s h) (ground arith) (step-Resting s h (ground arith) w)

-- After a stop, until the next call of startHostProcess, the host is not launched, no pipe of the
-- service is opened, and no restart is planned, whatever its process, its timers, an error of the
-- pipes that was put off, and the settings do in between, be it stopped while it was connecting.
pub stop_host_process-final :
    (steps : List Step) (h : Host)
    → any is_start steps ≡ false
    → (launches (run steps (stop_host_process h)).outputs ≡ launches h.outputs)
      × ((run steps (stop_host_process h)).restart_timer ≡ none)
      × ((run steps (stop_host_process h)).pipes ≡ none)
stop_host_process-final steps h e =
    let w = run-Resting steps (stop_host_process h) e (stop_host_process-Resting h refl) in
    (w.made, w.still, w.gone)
