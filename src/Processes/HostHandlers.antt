-- ===== src/Processes/HostHandlers.antt =====
-- ProcessManager: the restarts that the handlers of the host plan.
use quick_desk.Base.{suc, ◌≡◌, refl, pos, false, not, if_split, leb, is_some, arith}
use quick_desk.Processes.Child.{
  is_alive, Machine, max_restart_attempts, Parting, not_started, running,
}
use quick_desk.Processes.Host.{
  Host, put_out, is_host_service_running, host_process_started, host_process_stopped,
  host_launch_mode_changed, pipes_closed,
}
use quick_desk.Processes.HostEvents.{
  cleanup_service_connection, release_host, stop_host_process, on_service_pipe_connected, fall_back,
  on_service_pipe_error, on_read_pipe_disconnected,
}
use quick_desk.Processes.HostBounds.{
  IsSteady, Steady, put_modest, set_host_process_status-Steady, announce_host_restart-Steady,
  start_host_as_child_process-Steady,
}

-- A cleanup drops the pipes, so no connection may be pending in it.
cleanup_service_connection-Steady :
    (h : Host) → h.is_service_connecting ≡ false → Steady h → Steady (cleanup_service_connection h)
unfolding cleanup_service_connection
cleanup_service_connection-Steady h e w =
    if_split Steady (is_some h.pipes)
      (λ _.
        put_modest pipes_closed refl
          (record { timely = w.timely; watch = rw e refl; modest = w.modest }))
      (λ _. record { timely = w.timely; watch = w.watch; modest = w.modest })

cleanup_service_connection-connecting :
    (h : Host) → (cleanup_service_connection h).is_service_connecting ≡ h.is_service_connecting
unfolding cleanup_service_connection
cleanup_service_connection-connecting h = ground arith

fall_back-Steady :
    (m : Machine) (parting : Parting) (h : Host) → Steady h → Steady (fall_back m parting h)
unfolding fall_back
fall_back-Steady m parting h w = start_host_as_child_process-Steady m parting _ (
    put_modest host_launch_mode_changed refl
      (record { timely = w.timely; watch = w.watch; modest = w.modest }))

release_host-Steady :
    (h : Host) → h.is_service_connecting ≡ false → Steady h → Steady (release_host h)
unfolding release_host
release_host-Steady h e w =
    if_split Steady (is_some h.pipes)
      (λ _.
        let d = cleanup_service_connection-Steady h e w in
        set_host_process_status-Steady not_started _
          (record { timely = d.timely; watch = d.watch; modest = d.modest }))
      (λ _.
        if_split Steady (is_alive h.process)
          (λ _. record { timely = w.timely; watch = w.watch; modest = w.modest })
          (λ _.
            set_host_process_status-Steady not_started _
              (record { timely = w.timely; watch = w.watch; modest = w.modest })))

pub stop_host_process-Steady : (h : Host) → Steady h → Steady (stop_host_process h)
unfolding stop_host_process
stop_host_process-Steady h w = release_host-Steady _ refl (
    put_modest host_launch_mode_changed refl
      (record { timely = refl; watch = refl; modest = w.modest }))

pub on_service_pipe_connected-Steady : (h : Host) → Steady h → Steady (on_service_pipe_connected h)
unfolding on_service_pipe_connected
on_service_pipe_connected-Steady h w =
    if_split Steady h.is_service_connecting
      (λ _. put_modest host_process_started refl (
        set_host_process_status-Steady running _ (
          put_modest host_launch_mode_changed refl
            (record { timely = w.timely; watch = refl; modest = w.modest }))))
      (λ _. w)

pub on_service_pipe_error-Steady :
    (m : Machine) (parting : Parting) (h : Host)
    → IsSteady h.pipes h.restart_timer false false h.outputs
    → (h.is_service_connecting ≡ false → Steady h)
    → Steady (on_service_pipe_error m parting h)
unfolding on_service_pipe_error
on_service_pipe_error-Steady m parting h v w =
    let h1 : Host = record h { is_service_connecting = false; is_pipe_timer_on = false } in
    let h2 : Host = cleanup_service_connection h1 in
    let d = cleanup_service_connection-Steady h1 refl v in
    if_split Steady h.is_service_connecting
      (λ _.
        if_split Steady (is_host_service_running m)
          (λ _.
            if_split Steady (leb (suc h2.restart_count) max_restart_attempts)
              (λ e. announce_host_restart-Steady h2 (ground (arith, e)) d)
              (λ _.
                fall_back-Steady m parting _
                  (record { timely = d.timely; watch = d.watch; modest = d.modest })))
          (λ _. fall_back-Steady m parting _ d))
      (λ e. w e)

pub on_read_pipe_disconnected-Steady :
    (m : Machine) (parting : Parting) (h : Host)
    → Steady h
    → Steady (on_read_pipe_disconnected m parting h)
unfolding on_read_pipe_disconnected
on_read_pipe_disconnected-Steady m parting h w =
    if_split Steady h.is_service_connecting (λ _. w)
      (λ c.
        let h1 : Host = put_out (host_process_stopped (pos 0)) h in
        let h2 : Host = cleanup_service_connection h1 in
        let d =
          cleanup_service_connection-Steady h1 c
            (put_modest (host_process_stopped (pos 0)) refl w) in
        if_split Steady h2.is_stopping_intentionally
          (λ _.
            set_host_process_status-Steady not_started _
              (record { timely = d.timely; watch = d.watch; modest = d.modest }))
          (λ _.
            if_split Steady (not h2.auto_restart)
              (λ _. set_host_process_status-Steady not_started h2 d)
              (λ _.
                if_split Steady (is_host_service_running m)
                  (λ _.
                    if_split Steady (leb (suc h2.restart_count) max_restart_attempts)
                      (λ e. announce_host_restart-Steady h2 (ground (arith, e)) d)
                      (λ _.
                        fall_back-Steady m parting _
                          (record { timely = refl; watch = d.watch; modest = d.modest })))
                  (λ _.
                    fall_back-Steady m parting _
                      (record { timely = refl; watch = d.watch; modest = d.modest })))))
