-- ===== src/Manifest.antt =====
-- middlesox/src/capability.rs: `CapabilityManifest`, the capabilities that an adapter declares.
pub mod Laws
pub mod Writes
use middlesox.Prelude.{ℕ, String, Bool, Option, List, [], ◌∷◌, ◌++◌, ◌==◌, length, is_empty, find}
use middlesox.Capability.{Capability}

pub record CapabilityManifest : Type 0 where
  pub capabilities : List Capability

unfoldable pub new : CapabilityManifest
new = record { capabilities = [] }

unfoldable pub add : CapabilityManifest → Capability → CapabilityManifest
add m cap = record { capabilities = m.capabilities ++ cap ∷ [] }

unfoldable pub find_cap : CapabilityManifest → String → Option Capability
find_cap m name = find (λ c. c.name == name) m.capabilities

unfoldable pub no_caps : CapabilityManifest → Bool
no_caps m = is_empty m.capabilities

unfoldable pub len : CapabilityManifest → ℕ
len m = length m.capabilities

unfoldable pub from_iter : List Capability → CapabilityManifest
from_iter caps = record { capabilities = caps }
