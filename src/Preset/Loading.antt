-- ===== src/Preset/Loading.antt =====
-- PresetManager.parsePresetData on an answer that has been taken in before.
use quick_desk.Base.{
  ◌≡◌, refl, ap, ap₂, sym, ◌∙◌, inl, inr, true, ◌||◌, String, List, [], ◌∷◌, some, str_eq, is_empty,
  eq_iff, arith, Bool-cases,
}
use quick_desk.Preset.Version.{is_version_lower}
use quick_desk.Preset.Manager.{
  Link, Preset, PresetManager, World, current_language, links_eqb, announcement_for, links_for,
  take_announcement, take_links, take_webclient_url, take_loaded, take_min_version,
  parse_preset_data,
}

links_eqb_refl : (ls : List Link) → links_eqb ls ls ≡ true
links_eqb_refl [] = refl
links_eqb_refl (l ∷ ls) =
    ground
      (arith, eq_iff l.icon l.icon, eq_iff l.text l.text, eq_iff l.url l.url, links_eqb_refl ls)

links_eqb_eq : (as' bs : List Link) → links_eqb as' bs ≡ true → as' ≡ bs
links_eqb_eq [] [] h = refl
links_eqb_eq [] (b ∷ bs) h = absurd (ground arith)
links_eqb_eq (a ∷ as') [] h = absurd (ground arith)
links_eqb_eq (a ∷ as') (b ∷ bs) h =
    ap₂ (◌∷◌) (ground (arith, eq_iff a.icon b.icon, eq_iff a.text b.text, eq_iff a.url b.url))
      (links_eqb_eq as' bs (ground arith))

-- The manager shows what a document says.
record IsTaken (w : World) (p : Preset) (s : PresetManager) : Type 0 where
  announced : s.announcement ≡ announcement_for (current_language w) p
  linked : s.links ≡ links_for (current_language w) p
  at_url : s.webclient_url ≡ p.webclient_url
  loaded : s.preset_loaded ≡ true
  noted : (is_empty p.min_version || str_eq p.min_version s.last_min_version) ≡ true

announcement-take : (t : String) (s : PresetManager) → (take_announcement t s).announcement ≡ t
unfolding take_announcement
announcement-take t s = ground (arith, eq_iff s.announcement t)

links-take : (ls : List Link) (s : PresetManager) → (take_links ls s).links ≡ ls
unfolding take_links
links-take ls s = elim (Bool-cases (links_eqb s.links ls)) [
  | inl e ↦ rw (e, take_links) (links_eqb_eq s.links ls e)
  | inr e ↦ rw (e, take_links) refl
]

url-take : (url : String) (s : PresetManager) → (take_webclient_url url s).webclient_url ≡ url
unfolding take_webclient_url
url-take url s = ground (arith, eq_iff s.webclient_url url)

loaded-take : (s : PresetManager) → (take_loaded s).preset_loaded ≡ true
unfolding take_loaded
loaded-take s = ground arith

noted-take :
    (w : World) (v : String) (s : PresetManager)
    → (is_empty v || str_eq v (take_min_version w v s).last_min_version) ≡ true
unfolding take_min_version
noted-take w v s =
    ground (
      arith,
      eq_iff v v,
      Bool-cases (is_version_lower (w.numbers_of w.app_version) (w.numbers_of v)),
    )

-- The later parts leave alone what the earlier ones have set.
links_kept : (ls : List Link) (s : PresetManager) → (take_links ls s).announcement ≡ s.announcement
unfolding take_links
links_kept ls s = ground arith

url_kept :
    (url : String) (s : PresetManager)
    → ((take_webclient_url url s).announcement ≡ s.announcement)
      × ((take_webclient_url url s).links ≡ s.links)
unfolding take_webclient_url
url_kept url s = (ground arith, ground arith)

loaded_kept :
    (s : PresetManager)
    → ((take_loaded s).announcement ≡ s.announcement)
      × ((take_loaded s).links ≡ s.links)
      × ((take_loaded s).webclient_url ≡ s.webclient_url)
unfolding take_loaded
loaded_kept s = (ground arith, ground arith, ground arith)

min_version_kept :
    (w : World) (v : String) (s : PresetManager)
    → ((take_min_version w v s).announcement ≡ s.announcement)
      × ((take_min_version w v s).links ≡ s.links)
      × ((take_min_version w v s).webclient_url ≡ s.webclient_url)
      × ((take_min_version w v s).preset_loaded ≡ s.preset_loaded)
unfolding take_min_version
min_version_kept w v s = (ground arith, ground arith, ground arith, ground arith)

parse_preset_data-IsTaken :
    (w : World) (p : Preset) (s : PresetManager) → IsTaken w p (parse_preset_data w (some p) s)
unfolding parse_preset_data
parse_preset_data-IsTaken w p s =
    let lang = current_language w in
    let s1 = take_announcement (announcement_for lang p) s in
    let s2 = take_links (links_for lang p) s1 in
    let s3 = take_webclient_url p.webclient_url s2 in
    let s4 = take_loaded s3 in
    let (a5, l5, u5, d5) = min_version_kept w p.min_version s4 in
    let (a4, l4, u4) = loaded_kept s3 in
    let (a3, l3) = url_kept p.webclient_url s2 in
    record {
      announced =
          a5
          ∙ a4
          ∙ a3
          ∙ links_kept (links_for lang p) s1
          ∙ announcement-take (announcement_for lang p) s;
      linked = l5 ∙ l4 ∙ l3 ∙ links-take (links_for lang p) s1;
      at_url = u5 ∙ u4 ∙ url-take p.webclient_url s2;
      loaded = d5 ∙ loaded-take s3;
      noted = noted-take w p.min_version s4;
    }

take_announcement-same :
    (t : String) (s : PresetManager) → s.announcement ≡ t → take_announcement t s ≡ s
unfolding take_announcement
take_announcement-same t s h = rw ((eq_iff s.announcement t).1 h) refl

take_links-same : (ls : List Link) (s : PresetManager) → s.links ≡ ls → take_links ls s ≡ s
unfolding take_links
take_links-same ls s h = rw (ap (links_eqb s.links) (sym h) ∙ links_eqb_refl s.links) refl

take_webclient_url-same :
    (url : String) (s : PresetManager) → s.webclient_url ≡ url → take_webclient_url url s ≡ s
unfolding take_webclient_url
take_webclient_url-same url s h = rw ((eq_iff s.webclient_url url).1 h) refl

take_loaded-same : (s : PresetManager) → s.preset_loaded ≡ true → take_loaded s ≡ s
unfolding take_loaded
take_loaded-same s h = rw h refl

take_min_version-same :
    (w : World) (v : String) (s : PresetManager)
    → (is_empty v || str_eq v s.last_min_version) ≡ true
    → take_min_version w v s ≡ s
unfolding take_min_version
take_min_version-same w v s h = rw h refl

IsTaken-parse_preset_data :
    (w : World) (p : Preset) (s : PresetManager)
    → IsTaken w p s
    → parse_preset_data w (some p) s ≡ s
unfolding parse_preset_data
IsTaken-parse_preset_data w p s t =
    rw
      (
        take_announcement-same (announcement_for (current_language w) p) s t.announced,
        take_links-same (links_for (current_language w) p) s t.linked,
        take_webclient_url-same p.webclient_url s t.at_url,
        take_loaded-same s t.loaded,
      )
      (take_min_version-same w p.min_version s t.noted)

-- Once a document has been taken in, the same document again, in the same language and of the same
-- program, changes no field, emits no signal and stops no timer.
pub parse_preset_data-again :
    (w : World) (p : Preset) (s : PresetManager)
    → parse_preset_data w (some p) (parse_preset_data w (some p) s) ≡ parse_preset_data w (some p) s
parse_preset_data-again w p s =
    IsTaken-parse_preset_data w p (parse_preset_data w (some p) s) (parse_preset_data-IsTaken w p s)
