-- ===== src/Load/Laws.antt =====
-- middlesox/src/config.rs: where the scripts of a loaded configuration are looked for.
use mathlib.Core.Path.{subst}
use text.Mathlib.TextLemmas.{cons-append}
use middlesox.Prelude.{
  String, true, Option, some, Result, ok, err, ◌≡◌, ◌||◌, ◌<>◌, arith, sym, ap, ◌∙◌,
}
use middlesox.Config.{Config}
use middlesox.Paths.{is_absolute, join}
use middlesox.Load.{load, resolve_scripts_dir, starts_with_tilde, located, read_config}

append-IsAbsolute : (p q : String) → is_absolute p ≡ true → is_absolute (p <> q) ≡ true
unfolding is_absolute
append-IsAbsolute String.[] q h = cc
append-IsAbsolute (String.◌∷◌ c p) q h = rw (cons-append c p q) h

pub join-IsAbsolute : (p q : String) → is_absolute p ≡ true → is_absolute (join p q) ≡ true
unfolding join
join-IsAbsolute p q h = ground (arith, append-IsAbsolute p q h, append-IsAbsolute p ("/" <> q) h)

resolve-IsAbsolute :
    (dir : String) (c : Config)
    → is_absolute dir ≡ true
    → let s = (resolve_scripts_dir (some dir) c).settings.scripts_dir in
      is_absolute s || starts_with_tilde s ≡ true
unfolding resolve_scripts_dir
resolve-IsAbsolute dir c h = ground (arith, join-IsAbsolute dir c.settings.scripts_dir h)

abbrev IsLocated : Result Config → Type 0
IsLocated (ok c) =
    is_absolute c.settings.scripts_dir || starts_with_tilde c.settings.scripts_dir ≡ true
IsLocated (err e) = Unit {0}

located-IsLocated :
    (dir : String) (m : Result Config) → is_absolute dir ≡ true → IsLocated (located (some dir) m)
located-IsLocated dir (ok c) h = resolve-IsAbsolute dir c h
located-IsLocated dir (err e) h = tt

-- When the configuration file stands in a directory with an absolute path, the directory of the
-- scripts of a configuration that `load` returns is an absolute path or starts with a tilde.
pub load-scripts_dir :
    (read_file : String → Result String) (from_toml : String → Result Config)
    (parent : String → Option String) (path dir : String) (c : Config)
    → parent path ≡ some dir
    → is_absolute dir ≡ true
    → load read_file from_toml parent path ≡ ok c
    → is_absolute c.settings.scripts_dir || starts_with_tilde c.settings.scripts_dir ≡ true
unfolding load
load-scripts_dir read_file from_toml parent path dir c at absolute loaded =
    subst IsLocated (ap (λ p. located p (read_config read_file from_toml path)) (sym at) ∙ loaded)
      (located-IsLocated dir (read_config read_file from_toml path) absolute)
