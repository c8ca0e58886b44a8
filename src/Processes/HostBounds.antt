-- ===== src/Processes/HostBounds.antt =====
-- ProcessManager: what the host announces and how a pending pipe connection is watched.
use quick_desk.Base.{
  ℕ, suc, ◌≡◌, refl, ◌<◌, ℤ, Bool, true, false, not, ◌&&◌, ◌||◌, String, List, [], ◌∷◌, ◌++◌,
  Option, if_split, ltb, leb, nat_eqb, is_some, is_empty, arith, any, any-append_false,
}
use quick_desk.Processes.Child.{
  ProcessStatus, status_code, ExitStatus, ProcessError, ProcessSignal, Machine,
  max_restart_attempts, is_abnormal, can_start, Parting, leaving, not_started, starting, running,
  failed, restarting, failed_to_start, crashed, other_error, started, finished, error_occurred,
  path_not_set, crashed_too_often, start_failed_too_often, not_executable, start_failed,
  process_error,
}
use quick_desk.Processes.Host.{
  Pipes, Output, Host, is_host_running, is_host_service_running, set_host_process_status,
  announce_host_restart, count_restart, on_host_process_finished, on_host_process_started,
  on_host_process_error_occurred, handle_signal, handle_signals, start_process, finish_start,
  start_host_as_child_process, connect_to_host_service_async, start_host_process,
  host_process_started, host_process_stopped, host_process_error, host_process_restarting,
  host_process_status_changed, host_launch_mode_changed, write_pipe_opened,
}
use quick_desk.Processes.ClientBounds.{is_timely, calculate_restart_delay-is_delay}

-- The announcement of a restart that is not one of the five.
abbrev pub is_excess : Output → Bool
is_excess (host_process_restarting k n) = not (leb 1 k && leb k 5 && nat_eqb n 5)
is_excess o = false

-- The planned restart is timely, the announced ones are among the five, and a connection to the
-- service that is being made has its pipes and its timer.
pub record IsSteady (pipes : Option Pipes) (timer : Option ℕ) (connecting watched : Bool)
    (outs : List Output) : Type 0 where
  pub timely : is_timely timer ≡ true
  pub watch : not connecting || (watched && is_some pipes) ≡ true
  pub modest : any is_excess outs ≡ false

abbrev pub Steady : Host → Type 0
Steady h = IsSteady h.pipes h.restart_timer h.is_service_connecting h.is_pipe_timer_on h.outputs

pub put_modest :
    {pipes : Option Pipes} {timer : Option ℕ} {connecting watched : Bool} {outs : List Output}
    (o : Output)
    → is_excess o ≡ false
    → IsSteady pipes timer connecting watched outs
    → IsSteady pipes timer connecting watched (outs ++ o ∷ [])
put_modest {outs = outs} o e w = record {
  timely = w.timely;
  watch = w.watch;
  modest = any-append_false is_excess outs o w.modest e;
}

pub set_host_process_status-Steady :
    (st : ProcessStatus) (h : Host) → Steady h → Steady (set_host_process_status st h)
unfolding set_host_process_status
set_host_process_status-Steady st h w =
    if_split Steady (nat_eqb (status_code h.status) (status_code st)) (λ _. w)
      (λ _. put_modest host_process_status_changed refl w)

pub announce_host_restart-Steady :
    (h : Host) → h.restart_count < 5 → Steady h → Steady (announce_host_restart (count_restart h))
unfolding announce_host_restart
announce_host_restart-Steady h e w =
    let told =
      set_host_process_status-Steady restarting (count_restart h)
        (record { timely = w.timely; watch = w.watch; modest = w.modest }) in
    put_modest _ (ground (arith, e)) (record {
      timely =
          calculate_restart_delay-is_delay (suc h.restart_count) (omega arith) (omega (arith, e));
      watch = told.watch;
      modest = told.modest;
    })

on_host_process_finished-Steady :
    (code : ℤ) (exit : ExitStatus) (h : Host)
    → Steady h
    → Steady (on_host_process_finished code exit h)
unfolding on_host_process_finished
on_host_process_finished-Steady code exit h w =
    let told = put_modest (host_process_stopped code) refl w in
    if_split Steady h.is_stopping_intentionally
      (λ _.
        set_host_process_status-Steady not_started _
          (record { timely = told.timely; watch = told.watch; modest = told.modest }))
      (λ _.
        if_split Steady (not h.auto_restart)
          (λ _. set_host_process_status-Steady not_started _ told)
          (λ _.
            if_split Steady (not (is_abnormal code exit))
              (λ _. set_host_process_status-Steady not_started _ told)
              (λ _.
                if_split Steady (leb max_restart_attempts h.restart_count)
                  (λ _.
                    put_modest (host_process_error crashed_too_often) refl
                      (set_host_process_status-Steady failed _ told))
                  (λ e. announce_host_restart-Steady _ (ground (arith, e)) told))))

on_host_process_started-Steady : (h : Host) → Steady h → Steady (on_host_process_started h)
unfolding on_host_process_started
on_host_process_started-Steady h w = put_modest host_process_started refl (
    set_host_process_status-Steady running _ (
      put_modest host_launch_mode_changed refl
        (record { timely = w.timely; watch = w.watch; modest = w.modest })))

on_host_process_error_occurred-Steady :
    (error : ProcessError) (text : String) (h : Host)
    → Steady h
    → Steady (on_host_process_error_occurred error text h)
unfolding on_host_process_error_occurred
on_host_process_error_occurred-Steady failed_to_start text h w =
    let told = put_modest (host_process_error (start_failed text)) refl w in
    if_split Steady (h.auto_restart && not h.is_stopping_intentionally)
      (λ _.
        if_split Steady (ltb h.restart_count max_restart_attempts)
          (λ e. announce_host_restart-Steady _ (ground (arith, e)) told)
          (λ _.
            put_modest (host_process_error start_failed_too_often) refl
              (set_host_process_status-Steady failed _ told)))
      (λ _. set_host_process_status-Steady not_started _ told)
on_host_process_error_occurred-Steady crashed text h w = w
on_host_process_error_occurred-Steady other_error text h w =
    put_modest (host_process_error (process_error text)) refl w

pub handle_signal-Steady : (g : ProcessSignal) (h : Host) → Steady h → Steady (handle_signal g h)
unfolding handle_signal
handle_signal-Steady started h w = on_host_process_started-Steady h w
handle_signal-Steady (finished code exit) h w = on_host_process_finished-Steady code exit h w
handle_signal-Steady (error_occurred error text) h w =
    on_host_process_error_occurred-Steady error text h w

handle_signals-Steady :
    (gs : List ProcessSignal) (h : Host) → Steady h → Steady (handle_signals gs h)
unfolding handle_signals
handle_signals-Steady [] h w = w
handle_signals-Steady (g ∷ gs) h w =
    handle_signals-Steady gs (handle_signal g h) (handle_signal-Steady g h w)

finish_start-Steady : (r : Host × Bool) → Steady r.0 → Steady (finish_start r).0
unfolding finish_start
finish_start-Steady (h, true) w = w
finish_start-Steady (h, false) w =
    set_host_process_status-Steady not_started _
      (record { timely = w.timely; watch = w.watch; modest = w.modest })

start_process-Steady : (m : Machine) (h : Host) → Steady h → Steady (start_process m h).0
unfolding start_process
start_process-Steady m h w =
    if_split (λ (r : Host × Bool). Steady r.0) (can_start m h.exe_path)
      (λ _. put_modest _ refl (record { timely = w.timely; watch = w.watch; modest = w.modest }))
      (λ _. put_modest (host_process_error (not_executable h.exe_path)) refl w)

pub start_host_as_child_process-Steady :
    (m : Machine) (parting : Parting) (h : Host)
    → Steady h
    → Steady (start_host_as_child_process m parting h).0
unfolding start_host_as_child_process
start_host_as_child_process-Steady m parting h w =
    if_split (λ (r : Host × Bool). Steady r.0) (is_empty h.exe_path)
      (λ _.
        set_host_process_status-Steady not_started _
          (put_modest (host_process_error path_not_set) refl w))
      (λ _. finish_start-Steady _ (
        start_process-Steady m _ (
          handle_signals-Steady (leaving h.process parting) _
            (record { timely = w.timely; watch = w.watch; modest = w.modest }))))

pub start_host_process-Steady :
    (m : Machine) (parting : Parting) (h : Host)
    → Steady h
    → Steady (start_host_process m parting h).0
unfolding start_host_process connect_to_host_service_async
start_host_process-Steady m parting h w =
    if_split (λ (r : Host × Bool). Steady r.0) (is_host_running h || h.is_service_connecting)
      (λ _. w)
      (λ _.
        let begun = set_host_process_status-Steady starting h w in
        if_split (λ (r : Host × Bool). Steady r.0) (is_host_service_running m)
          (λ _.
            put_modest write_pipe_opened refl
              (record { timely = begun.timely; watch = refl; modest = begun.modest }))
          (λ _. start_host_as_child_process-Steady m parting _ begun))
