-- ===== src/Configuration/Loading.antt =====
-- How `load_cfg` can end.
use yeti_lnp_resolver.Base.{
  ◌≡◌, refl, ◌↔◌, ℕ, ◌≤◌, Bool, true, false, ◌||◌, Option, none, some, List, [], ◌∷◌, Bytes, codes,
  ℤ, pos, negsuc, ltb, arith, Bool-cases, inl, inr,
}
use yeti_lnp_resolver.Configuration.{
  Section, ParseCode, cfg_success, cfg_file_error, cfg_parse_error, other_code, Confuse, opts,
  GlobalCfg, ◌>>=◌, clamp_level, read_urls, read_daemon, read_db, read_sip, read_prometheus,
  with_section, read_sections, Loaded, not_loaded, null_string, loaded_or_null, after_parse,
  load_cfg,
}

abbrev pub is_null : Option Bytes → Bool
is_null none = true
is_null (some s) = false

-- Whether a section that is there has a null pointer under one of the names.
abbrev pub any_null : List (Option Bytes) → Bool
any_null [] = false
any_null (s ∷ ss) = is_null s || any_null ss

abbrev pub strings_of : Section → List Bytes → List (Option Bytes)
strings_of s [] = []
strings_of s (name ∷ names) = s.getstr name ∷ strings_of s names

abbrev pub section_lacks : Option Section → (Section → List (Option Bytes)) → Bool
section_lacks none strings = false
section_lacks (some s) strings = any_null (strings s)

-- Whether any of the strings that the program reads is missing.
abbrev pub lacks_url : Confuse → Bool
lacks_url c = section_lacks (c.getsec (codes "daemon")) (λ s. s.getnstr (codes "listen"))

abbrev pub db_strings : Section → List (Option Bytes)
db_strings s =
    strings_of s (codes "host" ∷ codes "user" ∷ codes "pass" ∷ codes "name" ∷ codes "schema" ∷ [])

abbrev pub sip_strings : Section → List (Option Bytes)
sip_strings s = strings_of s (codes "contact_user" ∷ codes "from_uri" ∷ codes "from_name" ∷ [])

abbrev pub prometheus_strings : Section → List (Option Bytes)
prometheus_strings s = strings_of s (codes "host" ∷ [])

abbrev pub is_incomplete : Confuse → Bool
is_incomplete c =
    ((lacks_url c || section_lacks (c.getsec (codes "db")) db_strings)
      || section_lacks (c.getsec (codes "sip")) sip_strings)
    || section_lacks (c.getsec (codes "prometheus")) prometheus_strings

-- `none` exactly if a test holds.
abbrev NoneIf : {A : Type 0} → Option A → Bool → Type 0
NoneIf o b = (o ≡ none) ↔ (b ≡ true)

>>=-NoneIf :
    {A B : Type 0} (m : Option A) (f : A → Option B) (b c : Bool)
    → NoneIf m b
    → ((a : A) → NoneIf (f a) c)
    → NoneIf (m >>= f) (b || c)
>>=-NoneIf none f b c h k = ground (arith, h)
>>=-NoneIf (some a) f b c h k = ground (arith, h, k a)

read_urls-NoneIf : (urls : List (Option Bytes)) → NoneIf (read_urls urls) (any_null urls)
unfolding read_urls
read_urls-NoneIf [] = ground arith
read_urls-NoneIf (none ∷ urls) = ground arith
read_urls-NoneIf (some u ∷ urls) = ground (arith, read_urls-NoneIf urls)

with_section-NoneIf :
    (o : Option Section) (read : Section → GlobalCfg → Option GlobalCfg)
    (strings : Section → List (Option Bytes)) (cfg : GlobalCfg)
    → ((s : Section) → NoneIf (read s cfg) (any_null (strings s)))
    → NoneIf (with_section o read cfg) (section_lacks o strings)
with_section-NoneIf none read strings cfg h = ground arith
with_section-NoneIf (some s) read strings cfg h = h s

read_daemon-NoneIf :
    (s : Section) (cfg : GlobalCfg)
    → NoneIf (read_daemon s cfg) (any_null (s.getnstr (codes "listen")))
unfolding read_daemon
read_daemon-NoneIf s cfg = ground (arith, read_urls-NoneIf (s.getnstr (codes "listen")))

read_db-NoneIf : (s : Section) (cfg : GlobalCfg) → NoneIf (read_db s cfg) (any_null (db_strings s))
unfolding read_db
read_db-NoneIf s cfg = ground arith

read_sip-NoneIf :
    (s : Section) (cfg : GlobalCfg) → NoneIf (read_sip s cfg) (any_null (sip_strings s))
unfolding read_sip
read_sip-NoneIf s cfg = ground arith

read_prometheus-NoneIf :
    (s : Section) (cfg : GlobalCfg)
    → NoneIf (read_prometheus s cfg) (any_null (prometheus_strings s))
unfolding read_prometheus
read_prometheus-NoneIf s cfg = ground arith

read_sections-NoneIf :
    (c : Confuse) (cfg : GlobalCfg) → NoneIf (read_sections c cfg) (is_incomplete c)
unfolding read_sections
read_sections-NoneIf c cfg =
    >>=-NoneIf _ (with_section (c.getsec (codes "prometheus")) read_prometheus) _ _
      (>>=-NoneIf _ (with_section (c.getsec (codes "sip")) read_sip) _ _
        (>>=-NoneIf _ (with_section (c.getsec (codes "db")) read_db) _ _
          (with_section-NoneIf (c.getsec (codes "daemon")) read_daemon
            (λ s. s.getnstr (codes "listen")) cfg (λ s. read_daemon-NoneIf s cfg))
          (λ g.
            with_section-NoneIf (c.getsec (codes "db")) read_db db_strings g
              (λ s. read_db-NoneIf s g)))
        (λ g.
          with_section-NoneIf (c.getsec (codes "sip")) read_sip sip_strings g
            (λ s. read_sip-NoneIf s g)))
      (λ g.
        with_section-NoneIf (c.getsec (codes "prometheus")) read_prometheus prometheus_strings g
          (λ s. read_prometheus-NoneIf s g))

-- The file could not be read or parsed.
abbrev pub is_refused : ParseCode → Bool
is_refused cfg_file_error = true
is_refused cfg_parse_error = true
is_refused _ = false

loaded_or_null-null :
    (o : Option GlobalCfg) (b : Bool) → NoneIf o b → ((loaded_or_null o ≡ null_string) ↔ (b ≡ true))
loaded_or_null-null none b h = ground (arith, h)
loaded_or_null-null (some g) b h = ground (arith, h)

loaded_or_null-loaded : (o : Option GlobalCfg) (g : GlobalCfg) → ¬ (loaded_or_null o ≡ not_loaded g)
loaded_or_null-loaded none g e = cc
loaded_or_null-loaded (some h) g e = cc

abbrev Outcomes : Confuse → GlobalCfg → GlobalCfg → ParseCode → Loaded → Type 0
Outcomes c cfg g code ended =
    ((ended ≡ not_loaded g) ↔ ((is_refused code ≡ true) × (g ≡ cfg)))
    × ((ended ≡ null_string) ↔ ((is_refused code ≡ false) × (is_incomplete c ≡ true)))

read-Outcomes :
    (c : Confuse) (cfg g : GlobalCfg) (code : ParseCode)
    → is_refused code ≡ false
    → Outcomes c cfg g code (loaded_or_null (read_sections c cfg))
read-Outcomes c cfg g code taken =
    let read = loaded_or_null-null _ _ (read_sections-NoneIf c cfg) in
    (
      (λ e. absurd (loaded_or_null-loaded (read_sections c cfg) g e), λ p. cc (taken, p.0)),
      (λ e. (taken, read.0 e), λ p. read.1 p.1),
    )

after_parse-Outcomes :
    (c : Confuse) (cfg g : GlobalCfg) (code : ParseCode)
    → Outcomes c cfg g code (after_parse c cfg code)
after_parse-Outcomes c cfg g cfg_file_error = ground arith
after_parse-Outcomes c cfg g cfg_parse_error = ground arith
after_parse-Outcomes c cfg g cfg_success = read-Outcomes c cfg g cfg_success refl
after_parse-Outcomes c cfg g other_code = read-Outcomes c cfg g other_code refl

-- `load_cfg` returns false exactly if the file cannot be read or parsed, and leaves the
-- configuration as it was then. Otherwise it makes a string of a null pointer exactly if one of
-- the strings that it reads is missing in a section that is there.
pub load_cfg-outcomes :
    (c : Confuse) (path : Bytes) (cfg g : GlobalCfg)
    → ((load_cfg c path cfg ≡ not_loaded g) ↔ ((is_refused (c.parse opts path) ≡ true) × (g ≡ cfg)))
      × ((load_cfg c path cfg ≡ null_string)
          ↔ ((is_refused (c.parse opts path) ≡ false) × (is_incomplete c ≡ true)))
unfolding load_cfg
load_cfg-outcomes c path cfg g = after_parse-Outcomes c cfg g (c.parse opts path)

-- The level of the log is between L_ERR and L_DBG, and is the configured one where that is.
clamp_level_bounds : (z : ℤ) → (n : ℕ) × (clamp_level z ≡ pos n) × (n ≤ 3)
clamp_level_bounds (negsuc n) = (0, refl, omega arith)
clamp_level_bounds (pos n) = elim (Bool-cases (ltb 3 n)) [
  | inl above ↦ (3, rw above refl, omega arith)
  | inr within ↦ (n, rw within refl, ground arith)
]
