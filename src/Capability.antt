-- ===== src/Capability.antt =====
-- middlesox/src/capability.rs: access modes and capabilities.
use middlesox.Prelude.{String, Bool, true, false, Option, none, some}

pub data AccessMode : Type 0 where
  read_only read_write : AccessMode

pub record Capability : Type 0 where
  pub name : String
  pub access : AccessMode
  pub description : Option String

-- `Capability::read_only` and `Capability::read_write`.
unfoldable pub read_only_cap : String → Capability
read_only_cap name = record { name = name; access = read_only; description = none }

unfoldable pub read_write_cap : String → Capability
read_write_cap name = record { name = name; access = read_write; description = none }

unfoldable pub with_description : Capability → String → Capability
with_description c desc = record c { description = some desc }

abbrev allows_writes : AccessMode → Bool
allows_writes read_write = true
allows_writes read_only = false

unfoldable pub is_writable : Capability → Bool
is_writable c = allows_writes c.access
