-- ===== src/Socket/Capabilities.antt =====
-- socket/src/lib.rs: the manifest that the capabilities of a bridge make.
use Prim.Native.Char.{code}
use middlesox.Prelude.{
  ℕ, ◌+◌, String, Bool, true, false, ◌&&◌, ◌||◌, Option, none, some, List, [], ◌∷◌, if◌then◌else◌,
  nat_eq, leb,
}
use middlesox.Capability.{Capability, read_only_cap, read_write_cap, with_description}
use middlesox.Manifest
use middlesox.Manifest.{CapabilityManifest, add}

pub record CapabilityInfo : Type 0 where
  pub name : String
  pub access : String
  pub description : Option String

abbrev lower_code : ℕ → ℕ
lower_code c = if leb b'A' c && leb c b'Z' then c + 32 else c

-- Whether `s.to_lowercase()` is this ASCII text without k: no other character's lower case is in it.
unfoldable pub lower_is : String → String → Bool
lower_is String.[] String.[] = true
lower_is String.[] (String.◌∷◌ d t) = false
lower_is (String.◌∷◌ c s) String.[] = false
lower_is (String.◌∷◌ c s) (String.◌∷◌ d t) =
    let rest = lower_is s t in if nat_eq (lower_code (code c)) (code d) then rest else false

abbrev pub is_rw : String → Bool
is_rw access = lower_is access "rw" || lower_is access "read_write" || lower_is access "readwrite"

abbrev pub described : Option String → Capability → Capability
described none cap = cap
described (some desc) cap = with_description cap desc

-- An access that is none of the known words gives a read-only capability.
unfoldable pub capability_of : CapabilityInfo → Capability
unfolding lower_is read_only_cap read_write_cap with_description
capability_of info =
    described info.description
      (if is_rw info.access then read_write_cap info.name else read_only_cap info.name)

abbrev pub add_all : CapabilityManifest → List CapabilityInfo → CapabilityManifest
add_all m [] = m
add_all m (info ∷ infos) = add_all (add m (capability_of info)) infos

unfoldable pub manifest_of : List CapabilityInfo → CapabilityManifest
unfolding Manifest.new add capability_of
manifest_of infos = add_all Manifest.new infos
