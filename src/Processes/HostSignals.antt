-- ===== src/Processes/HostSignals.antt =====
-- ProcessManager: the signals of a host process that was stopped.
use quick_desk.Base.{
  ℕ, ◌≡◌, refl, ℤ, Bool, true, not, ◌&&◌, String, List, Option, none, some, if_split, arith,
}
use quick_desk.Processes.Child.{
  ExitStatus, ProcessError, Child, is_alive_state, ProcessSignal, can_emit, not_started, running,
  process_running, failed_to_start, crashed, other_error, started, finished, error_occurred,
  start_failed, process_error,
}
use quick_desk.Processes.Host.{
  Pipes, Output, Host, on_host_process_finished, on_host_process_started,
  on_host_process_error_occurred, handle_signal, host_process_started, host_process_stopped,
  host_process_error, host_launch_mode_changed,
}
use quick_desk.Processes.HostEvents.{receive}
use quick_desk.Processes.ClientBounds.{is_start_failure}
use quick_desk.Processes.ClientRest.{is_starting_state-alive, is_running_state-alive}
use quick_desk.Processes.HostStop.{IsResting, Resting, put_quiet, set_host_process_status-Resting}

on_host_process_finished-Resting :
    {n : ℕ} (code : ℤ) (exit : ExitStatus) (h : Host)
    → h.is_stopping_intentionally ≡ true
    → Resting n h
    → Resting n (on_host_process_finished code exit h)
unfolding on_host_process_finished
on_host_process_finished-Resting {n} code exit h e w =
    let told = put_quiet (host_process_stopped code) refl w in
    if_split (Resting n) h.is_stopping_intentionally
      (λ _. set_host_process_status-Resting not_started _ (record {
        gone = told.gone;
        over = told.over;
        still = told.still;
        quiet = refl;
        made = told.made;
      }))
      (λ f. absurd (cc (f, e)))

on_host_process_error_occurred-Resting :
    {n : ℕ} (error : ProcessError) (text : String) (h : Host)
    → (is_start_failure error ≡ true → h.is_stopping_intentionally ≡ true)
    → Resting n h
    → Resting n (on_host_process_error_occurred error text h)
unfolding on_host_process_error_occurred
on_host_process_error_occurred-Resting {n} failed_to_start text h e w =
    let told = put_quiet (host_process_error (start_failed text)) refl w in
    if_split (Resting n) (h.auto_restart && not h.is_stopping_intentionally)
      (λ f. absurd (ground (arith, f, e refl)))
      (λ _. set_host_process_status-Resting not_started _ told)
on_host_process_error_occurred-Resting crashed text h e w = w
on_host_process_error_occurred-Resting other_error text h e w =
    put_quiet (host_process_error (process_error text)) refl w

-- A live process under a host at rest is one that was told to stop.
told_to_stop :
    {n : ℕ} {pipes : Option Pipes} {connecting stopping : Bool} {timer : Option ℕ}
    {outs : List Output} (p : Child)
    → is_alive_state p.state ≡ true
    → IsResting n (some p) pipes connecting stopping timer outs
    → stopping ≡ true
told_to_stop p e w = ground (arith, e, w.quiet)

-- The host at rest, its process in another state while the stop is noted.
still_told :
    {n : ℕ} {process other : Option Child} {pipes : Option Pipes} {connecting stopping : Bool}
    {timer : Option ℕ} {outs : List Output}
    → stopping ≡ true
    → IsResting n process pipes connecting stopping timer outs
    → IsResting n other pipes connecting stopping timer outs
still_told e w = record {
  gone = w.gone;
  over = w.over;
  still = w.still;
  quiet = rw e refl;
  made = w.made;
}

pub receive-Resting :
    {n : ℕ} (g : ProcessSignal) (o : Option Child) (h : Host)
    → IsResting n o h.pipes h.is_service_connecting h.is_stopping_intentionally h.restart_timer
        h.outputs
    → Resting n h
    → Resting n (receive g o h)
unfolding receive handle_signal on_host_process_started
receive-Resting g none h v w = w
receive-Resting {n} started (some p) h v w =
    if_split (Resting n) (can_emit started p.state)
      (λ e.
        let u =
          still_told {other = some (record p { state = process_running })}
            (told_to_stop p (is_starting_state-alive p.state e) v) v in
        put_quiet host_process_started refl (
          set_host_process_status-Resting running _ (
            put_quiet host_launch_mode_changed refl (record {
              gone = u.gone;
              over = u.over;
              still = u.still;
              quiet = u.quiet;
              made = u.made;
            }))))
      (λ _. w)
receive-Resting {n} (finished code exit) (some p) h v w =
    if_split (Resting n) (can_emit (finished code exit) p.state)
      (λ e.
        let t = told_to_stop p (is_running_state-alive p.state e) v in
        on_host_process_finished-Resting code exit _ t (still_told t v))
      (λ _. w)
receive-Resting {n} (error_occurred failed_to_start text) (some p) h v w =
    if_split (Resting n) (can_emit (error_occurred failed_to_start text) p.state)
      (λ e.
        let t = told_to_stop p (is_starting_state-alive p.state e) v in
        on_host_process_error_occurred-Resting failed_to_start text _ (λ _. t) (still_told t v))
      (λ _. w)
receive-Resting {n} (error_occurred crashed text) (some p) h v w =
    if_split (Resting n) (can_emit (error_occurred crashed text) p.state)
      (λ _.
        on_host_process_error_occurred-Resting crashed text _ (λ e. absurd (cc e))
          (record {
            gone = v.gone;
            over = v.over;
            still = v.still;
            quiet = v.quiet;
            made = v.made;
          }))
      (λ _. w)
receive-Resting (error_occurred other_error text) (some p) h v w =
    on_host_process_error_occurred-Resting other_error text _ (λ e. absurd (cc e))
      (record { gone = v.gone; over = v.over; still = v.still; quiet = v.quiet; made = v.made })
