-- ===== src/Processes/HostStop.antt =====
-- ProcessManager: a host that was told to stop.
use quick_desk.Base.{
  ℕ, ◌≡◌, refl, Bool, true, false, not, ◌||◌, List, [], ◌∷◌, ◌++◌, Option, none, some, if_split,
  nat_eqb, is_some, arith,
}
use quick_desk.Processes.Child.{ProcessStatus, status_code, Child, is_alive, not_started}
use quick_desk.Processes.Host.{
  Pipes, Output, Host, set_host_process_status, host_process_status_changed,
  host_launch_mode_changed, launched, write_pipe_opened, read_pipe_opened, pipes_closed,
}
use quick_desk.Processes.HostEvents.{cleanup_service_connection, release_host, stop_host_process}
use quick_desk.Base.Count.{count, count-append}

-- A program that is launched, or a pipe of the service that is opened.
abbrev pub is_launch : Output → Bool
is_launch (launched exe_path args) = true
is_launch write_pipe_opened = true
is_launch read_pipe_opened = true
is_launch o = false

abbrev pub launches : List Output → ℕ
launches outs = count is_launch outs

-- Nothing is connected or planned, and a live process is one whose end is taken for intended.
pub record IsResting (n : ℕ) (process : Option Child) (pipes : Option Pipes)
    (connecting stopping : Bool) (timer : Option ℕ) (outs : List Output) : Type 0 where
  pub gone : pipes ≡ none
  pub over : connecting ≡ false
  pub still : timer ≡ none
  pub quiet : stopping || not (is_alive process) ≡ true
  pub made : launches outs ≡ n

abbrev pub Resting : ℕ → Host → Type 0
Resting n h =
    IsResting n h.process h.pipes h.is_service_connecting h.is_stopping_intentionally
      h.restart_timer h.outputs

pub put_quiet :
    {n : ℕ} {process : Option Child} {pipes : Option Pipes} {connecting stopping : Bool}
    {timer : Option ℕ} {outs : List Output} (o : Output)
    → is_launch o ≡ false
    → IsResting n process pipes connecting stopping timer outs
    → IsResting n process pipes connecting stopping timer (outs ++ o ∷ [])
unfolding count
put_quiet {outs = outs} o e w = record {
  gone = w.gone;
  over = w.over;
  still = w.still;
  quiet = w.quiet;
  made = ground (arith, count-append is_launch outs (o ∷ []), w.made, e);
}

pub set_host_process_status-Resting :
    {n : ℕ} (st : ProcessStatus) (h : Host) → Resting n h → Resting n (set_host_process_status st h)
unfolding set_host_process_status
set_host_process_status-Resting {n} st h w =
    if_split (Resting n) (nat_eqb (status_code h.status) (status_code st)) (λ _. w)
      (λ _. put_quiet host_process_status_changed refl w)

is_some-none : (o : Option Pipes) → is_some o ≡ false → o ≡ none
is_some-none none e = refl
is_some-none (some q) e = absurd (cc e)

-- A host that is told to stop, before it drops its pipes.
record IsTold (n : ℕ) (h : Host) : Type 0 where
  over : h.is_service_connecting ≡ false
  still : h.restart_timer ≡ none
  noted : h.is_stopping_intentionally ≡ true
  made : launches h.outputs ≡ n

cleanup_service_connection-Resting :
    {n : ℕ} (h : Host) → IsTold n h → Resting n (cleanup_service_connection h)
unfolding cleanup_service_connection
cleanup_service_connection-Resting {n} h t =
    if_split (Resting n) (is_some h.pipes)
      (λ _. put_quiet pipes_closed refl (record {
        gone = refl;
        over = t.over;
        still = t.still;
        quiet = rw t.noted refl;
        made = t.made;
      }))
      (λ e. record {
        gone = is_some-none h.pipes e;
        over = t.over;
        still = t.still;
        quiet = rw t.noted refl;
        made = t.made;
      })

release_host-Resting : {n : ℕ} (h : Host) → IsTold n h → Resting n (release_host h)
unfolding release_host
release_host-Resting {n} h t =
    if_split (Resting n) (is_some h.pipes)
      (λ _.
        let d = cleanup_service_connection-Resting h t in
        set_host_process_status-Resting not_started _ (record {
          gone = d.gone;
          over = d.over;
          still = d.still;
          quiet = d.quiet;
          made = d.made;
        }))
      (λ e.
        if_split (Resting n) (is_alive h.process)
          (λ _. record {
            gone = is_some-none h.pipes e;
            over = t.over;
            still = t.still;
            quiet = rw t.noted refl;
            made = t.made;
          })
          (λ _. set_host_process_status-Resting not_started _ (record {
            gone = is_some-none h.pipes e;
            over = t.over;
            still = t.still;
            quiet = rw t.noted refl;
            made = t.made;
          })))

pub stop_host_process-Resting :
    {n : ℕ} (h : Host) → launches h.outputs ≡ n → Resting n (stop_host_process h)
unfolding stop_host_process count
stop_host_process-Resting {n} h e = release_host-Resting _ (record {
  over = refl;
  still = refl;
  noted = refl;
  made = ground (arith, count-append is_launch h.outputs (host_launch_mode_changed ∷ []), e);
})
