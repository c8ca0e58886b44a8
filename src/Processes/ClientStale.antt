-- ===== src/Processes/ClientStale.antt =====
-- ProcessManager: a stop of a client process that is not there.
use quick_desk.Base.{
  ℕ, ◌≡◌, refl, inl, inr, ℤ, true, false, String, [], ◌∷◌, Option, none, some, if_split, is_empty,
  Option-cases,
}
use quick_desk.Processes.Child.{
  ProcessStatus, not_started, process_not_running, process_running, ExitStatus, started, finished,
  Machine, can_start, is_alive, Parting,
}
use quick_desk.Processes.Client.{
  client_process_stopped, Client, put_out, on_client_process_finished, handle_signal,
  start_client_process, stop_client_process, starts, stops, emits, receive, step, run,
}
use quick_desk.Processes.ClientStages.{
  put_quiet, launches, At, set_client_process_status-At, receive-started,
}
use quick_desk.Processes.ClientLaunches.{start_client_process-launches}

stop_client_process-At :
    (exe : String) (c : Client)
    → is_alive c.process ≡ false
    → c.exe_path ≡ exe
    → c.auto_restart ≡ true
    → At true none none 0 not_started exe (launches c.outputs) (stop_client_process c)
unfolding stop_client_process
stop_client_process-At exe c h path armed =
    if_split (At true none none 0 not_started exe (launches c.outputs)) (is_alive c.process)
      (λ f. absurd (cc (f, h)))
      (λ _. set_client_process_status-At not_started _ (record {
        child = refl;
        timed = refl;
        counted = refl;
        told = refl;
        path = path;
        armed = armed;
        wanted = refl;
        made = refl;
      }))

receive-finished_stopping :
    {t : Option ℕ} {k : ℕ} {s : ProcessStatus} {exe : String} {n : ℕ} (code : ℤ) (exit : ExitStatus)
    (c : Client)
    → At true (some process_running) t k s exe n c
    → At false none t 0 not_started exe n (receive (finished code exit) c.process c)
unfolding receive handle_signal on_client_process_finished
receive-finished_stopping {t} {k} {s} {exe} {n} code exit c w = elim (Option-cases c.process) [
  | inl e ↦ absurd (cc (e, w.child))
  | inr (p, e) ↦
      let r : p.state ≡ process_running = cc (w.child, e) in
      let P = At false none t 0 not_started exe n in
      let told : At true (some process_not_running) t k s exe n
          (record (put_out (client_process_stopped code)
            (record c { process = some (record p { state = process_not_running }) })) {
              has_messaging = false;
            }) =
        put_quiet (client_process_stopped code) refl (record {
          child = refl;
          timed = w.timed;
          counted = w.counted;
          told = w.told;
          path = w.path;
          armed = w.armed;
          wanted = w.wanted;
          made = w.made;
        }) in
      rw (e, receive, r)
        (if_split P c.is_stopping_intentionally
          (λ _. set_client_process_status-At not_started _ (record {
            child = refl;
            timed = told.timed;
            counted = refl;
            told = told.told;
            path = told.path;
            armed = told.armed;
            wanted = refl;
            made = told.made;
          }))
          (λ f. absurd (cc (f, w.wanted))))
]

-- A stop while no client process lives is remembered: the process of the next start, however it ends
-- while automatic restarts are on, is taken for one that was stopped on purpose, so the manager goes
-- back to "not started" and plans no restart.
pub stop_client_process-stale :
    (m : Machine) (parting : Parting) (code : ℤ) (exit : ExitStatus) (c : Client)
    → is_alive c.process ≡ false
    → c.auto_restart ≡ true
    → is_empty c.exe_path ≡ false
    → can_start m c.exe_path ≡ true
    → ((run (stops ∷ starts m parting ∷ emits started ∷ emits (finished code exit) ∷ []) c).status
        ≡ not_started)
      × ((run
            (stops ∷ starts m parting ∷ emits started ∷ emits (finished code exit) ∷ [])
            c).restart_timer
          ≡ none)
unfolding run step
stop_client_process-stale m parting code exit c dead armed path h =
    let c1 : Client = stop_client_process c in
    let c2 : Client = (start_client_process m parting c1).0 in
    let c3 : Client = receive started c2.process c2 in
    let a = stop_client_process-At c.exe_path c dead refl armed in
    let b = start_client_process-launches m parting c1 path h refl a in
    let w = receive-finished_stopping code exit c3 (receive-started c2 b) in (w.told, w.timed)
