-- ===== src/Processes/ClientLaunches.antt =====
-- ProcessManager: when the client process is launched.
use quick_desk.Base.{
  ℕ, suc, ◌≡◌, refl, ap, Bool, true, false, not, String, [], ◌∷◌, Option, none, some, if_split,
  is_empty, arith,
}
use quick_desk.Processes.Child.{
  ProcessStatus, starting, ChildState, process_not_running, process_starting, process_running,
  Child, is_running, is_running_state, is_alive_state, is_starting, set_state, Machine, arguments,
  can_start, Parting,
}
use quick_desk.Processes.Client.{
  launched, Client, replace_process, start_process, finish_start, start_client_process,
  on_client_restart_timer, fire_restart,
}
use quick_desk.Base.Count.{count, count-append}
use quick_desk.Processes.ClientStages.{is_launch, state_of, At, set_client_process_status-At}

abbrev pub is_resting_state : Option ChildState → Bool
is_resting_state none = true
is_resting_state (some st) = not (is_alive_state st)

state_of-rest :
    (st : Option ChildState) (o : Option Child)
    → is_resting_state st ≡ true
    → state_of o ≡ st
    → (is_running o ≡ false) × (is_starting o ≡ false)
state_of-rest st none h e = (refl, refl)
state_of-rest none (some p) h e = absurd (cc e)
state_of-rest (some process_not_running) (some p) h e =
    let r : p.state ≡ process_not_running = cc e in (rw r refl, rw r refl)
state_of-rest (some process_starting) (some p) h e = absurd (cc h)
state_of-rest (some process_running) (some p) h e = absurd (cc h)

pub state_of-is_running :
    (o : Option Child) → state_of o ≡ some process_running → is_running o ≡ true
state_of-is_running none h = absurd (cc h)
state_of-is_running (some p) h = let r : p.state ≡ process_running = cc h in rw r refl

is_running_state-eq : (st : ChildState) → is_running_state st ≡ true → st ≡ process_running
is_running_state-eq process_running h = refl
is_running_state-eq process_starting h = absurd (cc h)
is_running_state-eq process_not_running h = absurd (cc h)

pub is_running-state_of :
    (o : Option Child) → is_running o ≡ true → state_of o ≡ some process_running
is_running-state_of none h = absurd (cc h)
is_running-state_of (some p) h = ap some (is_running_state-eq p.state h)

state_of-set_state :
    (st new : ChildState) (o : Option Child)
    → state_of o ≡ some st
    → state_of (set_state new o) ≡ some new
state_of-set_state st new none h = absurd (cc h)
state_of-set_state st new (some p) h = refl

start_process-At :
    {b : Bool} {t : Option ℕ} {k : ℕ} {s : ProcessStatus} {exe : String} {n : ℕ} (m : Machine)
    (c : Client)
    → can_start m exe ≡ true
    → At b (some process_not_running) t k s exe n c
    → At b (some process_starting) t k s exe (suc n) (finish_start (start_process m c)).0
unfolding start_process finish_start count
start_process-At {b} {t} {k} {s} {exe} {n} m c h w =
    if_split
      (λ (r : Client × Bool). At b (some process_starting) t k s exe (suc n) (finish_start r).0)
      (can_start m c.exe_path)
      (λ _. record {
        child = state_of-set_state process_not_running process_starting c.process w.child;
        timed = w.timed;
        counted = w.counted;
        told = w.told;
        path = w.path;
        armed = w.armed;
        wanted = w.wanted;
        made = ground (
          arith,
          count-append is_launch c.outputs
              (launched c.exe_path (arguments c.log_dir c.config_dir) ∷ []),
          w.made,
        );
      })
      (λ f. absurd (cc (f, h, w.path)))

replace_process-At :
    {b : Bool} {st : Option ChildState} {t : Option ℕ} {k : ℕ} {s : ProcessStatus} {exe : String}
    {n : ℕ} (parting : Parting) (c : Client)
    → is_resting_state st ≡ true
    → At b st t k s exe n c
    → At b (some process_not_running) t k s exe n (replace_process parting c)
unfolding replace_process
replace_process-At {b} {st} {t} {k} {s} {exe} {n} parting c r w =
    if_split (At b (some process_not_running) t k s exe n) (is_starting c.process)
      (λ f. absurd (cc (f, (state_of-rest st c.process r w.child).1)))
      (λ _. record {
        child = refl;
        timed = w.timed;
        counted = w.counted;
        told = w.told;
        path = w.path;
        armed = w.armed;
        wanted = w.wanted;
        made = w.made;
      })

pub start_client_process-launches :
    {b : Bool} {st : Option ChildState} {t : Option ℕ} {k : ℕ} {s : ProcessStatus} {exe : String}
    {n : ℕ} (m : Machine) (parting : Parting) (c : Client)
    → is_empty exe ≡ false
    → can_start m exe ≡ true
    → is_resting_state st ≡ true
    → At b st t k s exe n c
    → At b (some process_starting) t k starting exe (suc n) (start_client_process m parting c).0
unfolding start_client_process
start_client_process-launches {b} {st} {t} {k} {s} {exe} {n} m parting c g h r w =
    let P : Client × Bool → Type 0 =
      λ (r : Client × Bool). At b (some process_starting) t k starting exe (suc n) r.0 in
    if_split P (is_running c.process)
      (λ f. absurd (cc (f, (state_of-rest st c.process r w.child).0)))
      (λ _.
        if_split P (is_empty c.exe_path) (λ f. absurd (cc (f, g, w.path)))
          (λ _.
            start_process-At m _ h
              (set_client_process_status-At starting _ (replace_process-At parting c r w))))

-- The restart timer fires and the process is launched.
pub fire_restart-launches :
    {k d : ℕ} {s : ProcessStatus} {exe : String} {n : ℕ} (m : Machine) (parting : Parting)
    (timer : Option ℕ) (c : Client)
    → is_empty exe ≡ false
    → can_start m exe ≡ true
    → timer ≡ some d
    → At false (some process_not_running) (some d) k s exe n c
    → At false (some process_starting) none k starting exe (suc n) (fire_restart m parting timer c)
unfolding fire_restart on_client_restart_timer
fire_restart-launches m parting none c g h e w = absurd (cc e)
fire_restart-launches m parting (some d) c g h e w =
    start_client_process-launches m parting _ g h refl (record {
      child = w.child;
      timed = refl;
      counted = w.counted;
      told = w.told;
      path = w.path;
      armed = w.armed;
      wanted = w.wanted;
      made = w.made;
    })
