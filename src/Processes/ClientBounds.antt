-- ===== src/Processes/ClientBounds.antt =====
-- ProcessManager: the restart counter of the client process and what it announces.
use quick_desk.Base.{
  ℕ, zero, suc, ◌≡◌, refl, ◌≤◌, ◌<◌, ℤ, Bool, true, false, not, ◌&&◌, String, List, [], ◌∷◌, ◌++◌,
  Option, none, some, if_split, ltb, leb, nat_eqb, arith, any, any-append_false,
}
use quick_desk.Processes.Child.{
  ProcessStatus, not_started, running, failed, restarting, status_code, ExitStatus, ProcessError,
  failed_to_start, crashed, other_error, Child, is_running, crashed_too_often,
  start_failed_too_often, start_failed, process_error, max_restart_attempts,
  calculate_restart_delay, is_abnormal,
}
use quick_desk.Processes.Client.{
  Output, client_process_started, client_process_stopped, client_process_error,
  client_process_restarting, client_process_status_changed, Client, put_out,
  set_client_process_status, schedule_client_restart, on_client_process_finished,
  on_client_process_started, on_client_process_error_occurred,
}

-- The delays that the backoff can give.
abbrev pub is_delay : ℕ → Bool
is_delay d = leb 2000 d && leb d 32000

-- The announcement of a restart that is not one of the five, and the giving up after crashes.
abbrev pub is_excess : Output → Bool
is_excess (client_process_restarting k n) = not (leb 1 k && leb k 5 && nat_eqb n 5)
is_excess (client_process_error crashed_too_often) = true
is_excess o = false

abbrev pub is_timely : Option ℕ → Bool
is_timely none = true
is_timely (some d) = is_delay d

pub record IsSteady (process : Option Child) (count : ℕ) (timer : Option ℕ) (outs : List Output)
    : Type 0 where
  pub bounded : count ≤ 5
  pub settled : is_running process ≡ true → count ≡ 0
  pub timely : is_timely timer ≡ true
  pub modest : any is_excess outs ≡ false

abbrev pub Steady : Client → Type 0
Steady c = IsSteady c.process c.restart_count c.restart_timer c.outputs

pub calculate_restart_delay-is_delay :
    (n : ℕ) → 1 ≤ n → n ≤ 5 → is_delay (calculate_restart_delay n) ≡ true
unfolding calculate_restart_delay
calculate_restart_delay-is_delay zero h g = absurd (omega arith)
calculate_restart_delay-is_delay (suc zero) h g = refl
calculate_restart_delay-is_delay (suc (suc zero)) h g = refl
calculate_restart_delay-is_delay (suc (suc (suc zero))) h g = refl
calculate_restart_delay-is_delay (suc (suc (suc (suc zero)))) h g = refl
calculate_restart_delay-is_delay (suc (suc (suc (suc (suc zero))))) h g = refl
calculate_restart_delay-is_delay (suc (suc (suc (suc (suc (suc n)))))) h g = absurd (omega arith)

pub put_modest :
    {process : Option Child} {count : ℕ} {timer : Option ℕ} {outs : List Output} (o : Output)
    → is_excess o ≡ false
    → IsSteady process count timer outs
    → IsSteady process count timer (outs ++ o ∷ [])
put_modest {process} {count} {timer} {outs} o h w = record {
  bounded = w.bounded;
  settled = w.settled;
  timely = w.timely;
  modest = any-append_false is_excess outs o w.modest h;
}

pub set_client_process_status-Steady :
    (st : ProcessStatus) (c : Client) → Steady c → Steady (set_client_process_status st c)
unfolding set_client_process_status
set_client_process_status-Steady st c w =
    if_split Steady (nat_eqb (status_code c.status) (status_code st)) (λ _. w)
      (λ _. put_modest client_process_status_changed refl w)

pub schedule_client_restart-Steady :
    (c : Client)
    → is_running c.process ≡ false
    → c.restart_count < 5
    → Steady c
    → Steady (schedule_client_restart c)
unfolding schedule_client_restart set_client_process_status
schedule_client_restart-Steady c h g w =
    let base : IsSteady c.process (suc c.restart_count)
        (some (calculate_restart_delay (suc c.restart_count))) c.outputs =
      record {
        bounded = omega (arith, g);
        settled = λ e. cc (e, h);
        timely =
            calculate_restart_delay-is_delay (suc c.restart_count) (omega arith) (omega (arith, g));
        modest = w.modest;
      } in
    if_split
      (λ (d : Client).
        Steady
          (record (put_out (client_process_restarting (suc c.restart_count) max_restart_attempts)
            d) { restart_timer = some (calculate_restart_delay (suc c.restart_count)) }))
      (nat_eqb (status_code c.status) (status_code restarting))
      (λ _. put_modest _ (ground (arith, g)) base)
      (λ _. put_modest _ (ground (arith, g)) (put_modest client_process_status_changed refl base))

-- A process that ran has a count of zero, so its end never gives up.
pub on_client_process_finished-Steady :
    (code : ℤ) (exit : ExitStatus) (c : Client)
    → is_running c.process ≡ false
    → c.restart_count ≡ 0
    → Steady c
    → Steady (on_client_process_finished code exit c)
unfolding on_client_process_finished
on_client_process_finished-Steady code exit c h g w =
    let told = put_modest (client_process_stopped code) refl w in
    if_split Steady c.is_stopping_intentionally
      (λ _. set_client_process_status-Steady not_started _ (record {
        bounded = omega arith;
        settled = λ e. refl;
        timely = told.timely;
        modest = told.modest;
      }))
      (λ _.
        if_split Steady (not c.auto_restart)
          (λ _. set_client_process_status-Steady not_started _ told)
          (λ _.
            if_split Steady (not (is_abnormal code exit))
              (λ _. set_client_process_status-Steady not_started _ told)
              (λ _.
                if_split Steady (leb max_restart_attempts c.restart_count)
                  (λ e. absurd (ground (arith, e, g)))
                  (λ _. schedule_client_restart-Steady _ h (omega (arith, g)) told))))

pub on_client_process_started-Steady :
    (c : Client) → Steady c → Steady (on_client_process_started c)
unfolding on_client_process_started
on_client_process_started-Steady c w = put_modest client_process_started refl (
    set_client_process_status-Steady running _
      (record { bounded = omega arith; settled = λ e. refl; timely = w.timely; modest = w.modest }))

abbrev pub is_start_failure : ProcessError → Bool
is_start_failure failed_to_start = true
is_start_failure _ = false

pub on_client_process_error_occurred-Steady :
    (error : ProcessError) (text : String) (c : Client)
    → (is_start_failure error ≡ true → is_running c.process ≡ false)
    → Steady c
    → Steady (on_client_process_error_occurred error text c)
unfolding on_client_process_error_occurred
on_client_process_error_occurred-Steady failed_to_start text c h w =
    let told = put_modest (client_process_error (start_failed text)) refl w in
    if_split Steady (c.auto_restart && not c.is_stopping_intentionally)
      (λ _.
        if_split Steady (ltb c.restart_count max_restart_attempts)
          (λ e. schedule_client_restart-Steady _ (h refl) (ground (arith, e)) told)
          (λ _.
            put_modest (client_process_error start_failed_too_often) refl
              (set_client_process_status-Steady failed _ told)))
      (λ _. set_client_process_status-Steady not_started _ told)
on_client_process_error_occurred-Steady crashed text c h w = w
on_client_process_error_occurred-Steady other_error text c h w =
    put_modest (client_process_error (process_error text)) refl w
