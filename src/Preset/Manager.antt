-- ===== src/Preset/Manager.antt =====
-- PresetManager: its fields, its timers, and its handlers. Times are milliseconds.
use quick_desk.Base.{
  ℕ, ◌-◌, ◌*◌, ◌/◌, ℤ, Bool, true, false, not, ◌&&◌, ◌||◌, String, List, [], ◌∷◌, ◌++◌, Option,
  none, some, if◌then◌else◌, leb, nat_eqb, str_eq, is_empty, string_eq,
}
use quick_desk.Base.Dict.{lookup}
use quick_desk.Preset.Version.{is_version_lower}

pub record Link : Type 0 where
  pub icon : String
  pub text : String
  pub url : String

-- The JSON object of the server, as `parsePresetData` reads it: texts and links by language. A
-- missing text is empty.
pub record Preset : Type 0 where
  pub announcement : List (String × String)
  pub links : List (String × List Link)
  pub webclient_url : String
  pub min_version : String

pub data Signal : Type 0 where
  -- A call of HttpRequest::sendGetRequest.
  request_sent : Signal
  announcement_changed links_changed preset_loaded_changed webclient_url_changed : Signal
  preset_load_failed : Signal
  force_upgrade_required : String → Signal

pub record PresetManager : Type 0 where
  pub is_poll_running : Bool
  pub is_initial_running : Bool
  pub first_request_time : Option ℕ
  pub preset_loaded : Bool
  pub started : Bool
  pub announcement : String
  pub links : List Link
  pub webclient_url : String
  pub last_min_version : String
  pub signals : List Signal

-- What is not in PresetManager.cpp: LanguageManage's answer, APP_VERSION_STR, and the numbers of
-- a version, by QString::split and QString::toInt.
pub record World : Type 0 where
  pub real_language : String
  pub app_version : String
  pub numbers_of : String → List ℤ

abbrev pub emit : Signal → PresetManager → PresetManager
emit o s = record s { signals = s.signals ++ o ∷ [] }

unfoldable pub start : PresetManager → PresetManager
start s = if s.started then s else record s { started = true; is_initial_running = true }

unfoldable pub stop : PresetManager → PresetManager
stop s = record s { started = false; is_initial_running = false; is_poll_running = false }

-- The request; its answer comes to `on_preset_response`.
unfoldable pub fetch_preset : PresetManager → PresetManager
fetch_preset s = emit request_sent s

-- The single shot of the initial timer.
unfoldable pub on_initial_timeout : ℕ → PresetManager → PresetManager
on_initial_timeout now s =
    let fetched =
      fetch_preset (record s { first_request_time = some now; is_initial_running = false }) in
    record fetched { is_poll_running = true }

unfoldable pub current_language : World → String
current_language w =
    if not (str_eq w.real_language "zh_CN") && not (str_eq w.real_language "en_US")
    then "en_US"
    else w.real_language

abbrev pub text_in : String → List (String × String) → String
text_in lang texts = elim (lookup lang texts) [ none ↦ "" | some t ↦ t ]

abbrev pub links_in : String → List (String × List Link) → List Link
links_in lang links = elim (lookup lang links) [ none ↦ [] | some ls ↦ ls ]

abbrev pub has_no_link : List Link → Bool
has_no_link [] = true
has_no_link (l ∷ ls) = false

abbrev pub link_eqb : Link → Link → Bool
link_eqb a b = str_eq a.icon b.icon && (str_eq a.text b.text && str_eq a.url b.url)

abbrev pub links_eqb : List Link → List Link → Bool
links_eqb [] [] = true
links_eqb [] (b ∷ bs) = false
links_eqb (a ∷ as') [] = false
links_eqb (a ∷ as') (b ∷ bs) = link_eqb a b && links_eqb as' bs

-- The text and the links shown in a language; English stands in for a language without them.
unfoldable pub announcement_for : String → Preset → String
announcement_for lang p =
    let t = text_in lang p.announcement in
    if is_empty t && not (str_eq lang "en_US") then text_in "en_US" p.announcement else t

unfoldable pub links_for : String → Preset → List Link
links_for lang p =
    let ls = links_in lang p.links in
    if has_no_link ls && not (str_eq lang "en_US") then links_in "en_US" p.links else ls

-- The five parts of `parsePresetData`, in its order.
unfoldable pub take_announcement : String → PresetManager → PresetManager
take_announcement t s =
    if str_eq s.announcement t then s else emit announcement_changed (record s { announcement = t })

unfoldable pub take_links : List Link → PresetManager → PresetManager
take_links ls s = if links_eqb s.links ls then s else emit links_changed (record s { links = ls })

unfoldable pub take_webclient_url : String → PresetManager → PresetManager
take_webclient_url url s =
    if str_eq s.webclient_url url
    then s
    else emit webclient_url_changed (record s { webclient_url = url })

unfoldable pub take_loaded : PresetManager → PresetManager
take_loaded s =
    if s.preset_loaded then s else emit preset_loaded_changed (record s { preset_loaded = true })

unfoldable pub take_min_version : World → String → PresetManager → PresetManager
take_min_version w v s =
    let noted : PresetManager = record s { last_min_version = v } in
    if is_empty v || str_eq v s.last_min_version
    then s
    else if is_version_lower (w.numbers_of w.app_version) (w.numbers_of v)
    then emit (force_upgrade_required v) (record noted { is_poll_running = false })
    else noted

-- The document is none where the data is no JSON object.
unfoldable pub parse_preset_data : World → Option Preset → PresetManager → PresetManager
parse_preset_data w none s = s
parse_preset_data w (some p) s =
    let lang = current_language w in
    take_min_version w p.min_version (
      take_loaded (
        take_webclient_url p.webclient_url
          (take_links (links_for lang p) (take_announcement (announcement_for lang p) s))))

-- `elapsed >= kLoadDeadlineMinutes * 60`
abbrev pub is_past_deadline : ℕ → Option ℕ → Bool
is_past_deadline now none = false
is_past_deadline now (some first) = leb (10 * 60) ((now - first) / 1000)

unfoldable pub on_preset_response :
    World → ℕ → ℕ → String → Option Preset → PresetManager → PresetManager
on_preset_response w now status error_msg doc s =
    if not (nat_eqb status 200) || not (is_empty error_msg)
    then if not s.preset_loaded && is_past_deadline now s.first_request_time
      then emit preset_load_failed (record s { is_poll_running = false })
      else s
    else parse_preset_data w doc s
