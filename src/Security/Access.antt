-- ===== src/Security/Access.antt =====
-- Tokens, device and method filters, and the operations that are refused outright.
use text.Mathlib.Text.{find?}
use quick_desk.Base.{
  Bool, true, false, not, ◌&&◌, ◌||◌, String, List, [], ◌∷◌, map, str_eq, is_empty, is_some,
  if◌then◌else◌, string_eq,
}
use quick_desk.Base.Dict.{contains, add}

pub data PermissionLevel : Type 0 where
  no_access read_only full_control : PermissionLevel

-- The part of SecurityManager that decides who may do what.
pub record Access : Type 0 where
  pub full_access_token : String
  pub read_only_token : String
  pub allowed_devices : List String
  pub device_filter_enabled : Bool

unfoldable pub read_only_methods : List String
read_only_methods =
    "auth" ∷ "getHostInfo" ∷ "getHostClients" ∷ "getStatus" ∷ "getSignalingStatus"
    ∷ "listConnections" ∷ "getConnectionInfo" ∷ "screenshot" ∷ "getScreenSize" ∷ "getClipboard" ∷ []

unfoldable pub set_full_access_token : String → Access → Access
set_full_access_token token a = record a { full_access_token = token }

unfoldable pub set_read_only_token : String → Access → Access
set_read_only_token token a = record a { read_only_token = token }

unfoldable pub authenticate_token : String → Access → PermissionLevel
authenticate_token token a =
    if not (is_empty a.full_access_token) && str_eq token a.full_access_token
    then full_control
    else if not (is_empty a.read_only_token) && str_eq token a.read_only_token
    then read_only
    else no_access

-- The loop of `setAllowedDevices`.
unfoldable pub insert_all : List String → List String → List String
insert_all [] devices = devices
insert_all (id ∷ ids) devices = insert_all ids (add id devices)

abbrev pub is_nil : List String → Bool
is_nil [] = true
is_nil (x ∷ xs) = false

unfoldable pub set_allowed_devices : List String → Access → Access
set_allowed_devices ids a =
    let devices = insert_all ids [] in
    record a { allowed_devices = devices; device_filter_enabled = not (is_nil devices) }

unfoldable pub is_device_allowed : String → Access → Bool
is_device_allowed id a = if not a.device_filter_enabled then true else contains id a.allowed_devices

unfoldable pub is_method_allowed : String → PermissionLevel → Bool
is_method_allowed method full_control = true
is_method_allowed method read_only = contains method read_only_methods
is_method_allowed method no_access = false

-- The fields of a request's parameters that the API's guard reads; a missing one is empty.
pub record Params : Type 0 where
  pub token : String
  pub device_id : String
  pub keys : List String
  pub text : String

-- QString::contains
abbrev pub has_text : String → String → Bool
has_text s t = is_some (find? s t)

unfoldable pub dangerous_keys : List String → Bool
dangerous_keys keys =
    (contains "alt" keys && contains "f4" keys)
    || (contains "ctrl" keys && (contains "alt" keys && contains "delete" keys))

unfoldable pub dangerous_text : String → Bool
dangerous_text text =
    has_text text "shutdown"
    || (has_text text "reboot"
        || (has_text text "format"
            || (has_text text "rm -rf" || (has_text text "del /f /s /q" || has_text text "mkfs"))))

-- `to_lower` is QString::toLower.
unfoldable pub is_dangerous_operation : (String → String) → String → Params → Bool
unfolding dangerous_keys dangerous_text
is_dangerous_operation to_lower method p =
    if str_eq method "disconnectAll"
    then true
    else if str_eq method "keyboardHotkey" && dangerous_keys (map to_lower p.keys)
    then true
    else str_eq method "keyboardType" && dangerous_text (to_lower p.text)
