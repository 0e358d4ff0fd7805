-- ===== src/Cli/Locations.antt =====
-- middlesox-cli/src/main.rs with middlesox/src/config.rs: where the daemon looks for scripts.
use mathlib.Core.Path.{subst}
use text.Mathlib.TextLemmas.{cons-append, nil-append}
use middlesox.Prelude.{
  String, true, false, Option, none, some, Result, ok, ◌≡◌, refl, sym, ap, ◌∙◌, ◌<>◌, arith, not,
  ◌&&◌, if◌then◌else◌,
}
use middlesox.Config.{Config}
use middlesox.Paths.{is_absolute, join}
use middlesox.Load.{load, starts_with_tilde, resolve_scripts_dir, parse}
use middlesox.Load.Laws.{join-IsAbsolute}
use middlesox.Cli.{expand_path, after_tilde}

-- Where a configured directory of scripts is, for a configuration file in `dir`: an absolute one is
-- where it says, a relative one is below `dir`, one that begins with `~/` is below `home`, and any
-- other that begins with a tilde is taken as it is.
pub record IsLocated (dir : String) (home : String) (configured : String) (result : String)
    : Type 0 where
  pub absolute : is_absolute configured ≡ true → result ≡ configured
  pub relative :
      is_absolute configured ≡ false
      → starts_with_tilde configured ≡ false
      → result ≡ join dir configured
  pub below_home : (rest : String) → configured ≡ "~/" <> rest → result ≡ join home rest
  pub odd :
      starts_with_tilde configured ≡ true → after_tilde configured ≡ none → result ≡ configured

after_tilde-absolute : (path : String) → is_absolute path ≡ true → after_tilde path ≡ none
unfolding is_absolute
after_tilde-absolute String.[] h = refl
after_tilde-absolute (String.◌∷◌ c String.[]) h = refl
after_tilde-absolute (String.◌∷◌ c (String.◌∷◌ d rest)) h = ground arith

home_path : (rest : String) → after_tilde ("~/" <> rest) ≡ some rest
home_path rest = ap after_tilde (
    cons-append "~" "/" rest
    ∙ ap (λ s. String.◌∷◌ "~" s)
        (cons-append "/" "" rest ∙ ap (λ s. String.◌∷◌ "/" s) (nil-append rest)))

-- A path that begins with `~/` is not absolute, and begins with a tilde.
home_path-tilde :
    (path rest : String)
    → after_tilde path ≡ some rest
    → (is_absolute path ≡ false) × (starts_with_tilde path ≡ true)
unfolding is_absolute starts_with_tilde
home_path-tilde String.[] rest h = cc
home_path-tilde (String.◌∷◌ c String.[]) rest h = cc
home_path-tilde (String.◌∷◌ c (String.◌∷◌ d more)) rest h = ground arith

absolute-tilde : (path : String) → is_absolute path ≡ true → starts_with_tilde path ≡ false
unfolding is_absolute starts_with_tilde
absolute-tilde String.[] h = cc
absolute-tilde (String.◌∷◌ c s) h = ground arith

-- The directory of a loaded configuration.
abbrev placed : String → String → String
placed dir s = if not (is_absolute s) && not (starts_with_tilde s) then join dir s else s

resolve-placed :
    (dir : String) (raw : Config)
    → (resolve_scripts_dir (some dir) raw).settings.scripts_dir
      ≡ placed dir raw.settings.scripts_dir
unfolding resolve_scripts_dir
resolve-placed dir raw = ground arith

kept : (dir s : String) → starts_with_tilde s ≡ true → placed dir s ≡ s
kept dir s h = ground arith

placed-IsLocated :
    (dir home s : String)
    → is_absolute dir ≡ true
    → IsLocated dir home s (expand_path (some home) (placed dir s))
unfolding expand_path
placed-IsLocated dir home s at = record {
  absolute =
      λ h. let same : placed dir s ≡ s = ground arith in rw (same, after_tilde-absolute s h) refl;
  relative = λ h t.
      let same : placed dir s ≡ join dir s = ground arith in
      rw (same, after_tilde-absolute (join dir s) (join-IsAbsolute dir s at)) refl;
  below_home = λ rest e.
      let found : after_tilde s ≡ some rest = ap after_tilde e ∙ home_path rest in
      rw (kept dir s (home_path-tilde s rest found).1, found) refl;
  odd = λ t n. rw (kept dir s t, n) refl;
}

-- When the file of the configuration is read and parsed, and stands in a directory with an absolute
-- path, `load` gives a configuration, and with a known home directory the daemon looks for its scripts
-- where the file says: at an absolute path itself, at a relative one below the directory of the file,
-- at one with `~/` below the home directory, and at any other path with a tilde as it is.
pub expand_path-load :
    (read_file : String → Result String) (from_toml : String → Result Config)
    (parent : String → Option String) (path dir home content : String) (raw : Config)
    → read_file path ≡ ok content
    → from_toml content ≡ ok raw
    → parent path ≡ some dir
    → is_absolute dir ≡ true
    → (c : Config) × (load read_file from_toml parent path ≡ ok c)
      × IsLocated dir home raw.settings.scripts_dir (expand_path (some home) c.settings.scripts_dir)
unfolding load parse
expand_path-load read_file from_toml parent path dir home content raw reads parses at absolute = (
  resolve_scripts_dir (some dir) raw,
  rw (reads, parses, at) refl,
  subst (λ s. IsLocated dir home raw.settings.scripts_dir (expand_path (some home) s))
      (sym (resolve-placed dir raw)) (placed-IsLocated dir home raw.settings.scripts_dir absolute),
)
