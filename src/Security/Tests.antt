-- ===== src/Security/Tests.antt =====
-- The security manager on concrete clients.
use quick_desk.Base.{
  ℕ, ◌+◌, ◌*◌, ◌≡◌, ◌≢◌, ◌↔◌, refl, pos, true, false, List, [], ◌∷◌, none, ltb, is_empty, arith,
  nat_eq, string_eq,
}
use quick_desk.Base.Dict.{lookup, has_key, contains}
use quick_desk.Security.Access.{
  full_control, read_only, Access, authenticate_token, set_allowed_devices, is_device_allowed,
  is_dangerous_operation,
}
use quick_desk.Security.Limits.{Limits, record_activity, remove_client, expired_clients}
use quick_desk.Security.AccessLaws.{authenticate_token_iff, set_allowed_devices-allows}
use quick_desk.Security.Window.{promise_all}
use quick_desk.Security.Clients.{passed_by, checks_of, passed_by-window}
use quick_desk.Security.Sessions.{expired_clients_after}

abbrev access : Access
access = record {
  full_access_token = "secret";
  read_only_token = "look";
  allowed_devices = [];
  device_filter_enabled = false;
}

abbrev limits : Limits ℕ
limits = record {
  rate_limit_per_minute = pos 2;
  rate_limiter = [];
  session_timeout_secs = pos 60;
  last_activity = (1, 5000) ∷ [];
  session_timer = none;
}

authenticate_token_iff_example :
    ((authenticate_token "look" access ≡ full_control)
      ↔ (("look" ≡ access.full_access_token) × (is_empty "look" ≡ false)))
    × ((authenticate_token "look" access ≡ read_only) ↔ (
        ("look" ≡ access.read_only_token)
        × (is_empty "look" ≡ false)
        × ("look" ≢ access.full_access_token)))
authenticate_token_iff_example = authenticate_token_iff "look" access

set_allowed_devices-allows_example :
    is_device_allowed "d3" (set_allowed_devices ("d1" ∷ "d2" ∷ []) access) ≡ false
unfolding contains
set_allowed_devices-allows_example = set_allowed_devices-allows "d3" ("d1" ∷ "d2" ∷ []) access

-- Client 1 asks at 0 s, 10 s, 20 s and 61 s, and client 2 in between.
abbrev checks : List (ℕ × ℕ)
checks = (1, 0) ∷ (2, 1000) ∷ (1, 10000) ∷ (2, 11000) ∷ (1, 20000) ∷ (1, 61000) ∷ []

passed_by-window_example : passed_by 1 limits checks [] ≡ promise_all 2 (checks_of 1 checks) []
unfolding lookup checks_of
passed_by-window_example = passed_by-window 1 1 0 limits checks refl refl (omega arith)

expired_clients_after_example :
    (contains 2 (expired_clients 70000 (record_activity 2 9000 limits))
      ≡ ltb (9000 + 60 * 1000) 70000)
    × (contains 1 (expired_clients 70000 (record_activity 2 9000 limits))
        ≡ contains 1 (expired_clients 70000 limits))
    × (contains 2 (expired_clients 70000 (remove_client 2 limits)) ≡ false)
unfolding has_key
expired_clients_after_example =
    expired_clients_after 2 1 9000 70000 59 limits refl (refl, tt) (omega arith)

-- Alt+F4 in any letter case, here already lowered.
alt_f4 :
    is_dangerous_operation
      (λ s. s)
      "keyboardHotkey"
      (record { token = ""; device_id = ""; keys = "alt" ∷ "f4" ∷ []; text = "" })
    ≡ true
unfolding is_dangerous_operation contains
alt_f4 = refl

shell_text :
    is_dangerous_operation
      (λ s. s)
      "keyboardType"
      (record { token = ""; device_id = ""; keys = []; text = "sudo rm -rf /" })
    ≡ true
unfolding is_dangerous_operation
shell_text = refl
