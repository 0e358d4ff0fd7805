-- ===== src/Control/Files.antt =====
-- middlesox/src/control.rs: the runtime directory, the listening socket and its removal. The files are
-- an association list of paths; system calls that fail for another reason are in `Io`.
pub mod Safe
pub mod Again
use middlesox.Prelude.{
  ℕ, String, Bool, true, false, ◌||◌, not, Option, none, some, List, [], ◌∷◌, Result, ok, err, ◌<>◌,
  nat_eq, if◌then◌else◌, show_nat, lookup, insert, remove,
}

pub data Kind : Type 0 where
  regular directory symlink socket : Kind

-- `mode` is what was set by `set_permissions`, if anything was.
pub record Node : Type 0 where
  pub kind : Kind
  pub owner : ℕ
  pub mode : Option ℕ

abbrev pub Files : Type 0
Files = List (String × Node)

-- The process: its user, its id, and what `XDG_RUNTIME_DIR` says.
pub record Process : Type 0 where
  pub uid : ℕ
  pub pid : ℕ
  pub xdg_runtime_dir : Option String

-- The errors of the system calls, if they fail: `read` is the metadata of a path that is there, or of
-- one that the process may not look at.
pub record Io : Type 0 where
  pub create : Option String
  pub chmod : Option String
  pub read : Option String
  pub unlink : Option String
  pub bind : Option String

abbrev pub is_symlink : Node → Bool
is_symlink n = elim n.kind [ symlink ↦ true | other ↦ false ]

-- What `symlink_metadata` gives.
pub data Metadata : Type 0 where
  found : (node : Node) → Metadata
  not_found : Metadata
  failed : (error : String) → Metadata

abbrev pub metadata_from : Option String → Option Node → Metadata
metadata_from (some e) m = failed e
metadata_from none none = not_found
metadata_from none (some n) = found n

unfoldable pub symlink_metadata : Io → String → Files → Metadata
unfolding lookup
symlink_metadata io path files = metadata_from io.read (lookup path files)

abbrev pub fallback_dir : ℕ → String
fallback_dir uid = "/tmp/middlesox-" <> show_nat uid

abbrev pub rejected_dir : ℕ → String
rejected_dir pid = "/run/middlesox-rejected-" <> show_nat pid

-- The new directory, whose permissions are set if they can be.
abbrev pub created : Option String → ℕ → Node
created none uid = record { kind = directory; owner = uid; mode = some 448 }
created (some e) uid = record { kind = directory; owner = uid; mode = none }

-- Whether a path that is there already may be used.
abbrev pub validated : Process → Metadata → String
validated p (found n) =
    if is_symlink n || not (nat_eq n.owner p.uid) then rejected_dir p.pid else fallback_dir p.uid
validated p not_found = fallback_dir p.uid
validated p (failed e) = fallback_dir p.uid

abbrev pub made : Io → Process → Option String → Option Node → Files → String × Files
made io p (some e) none files = (fallback_dir p.uid, files)
made io p none none files =
    (fallback_dir p.uid, insert (fallback_dir p.uid) (created io.chmod p.uid) files)
made io p e (some n) files = (validated p (symlink_metadata io (fallback_dir p.uid) files), files)

abbrev pub chosen : Io → Process → Option String → Files → String × Files
chosen io p (some dir) files = (dir, files)
chosen io p none files = made io p io.create (lookup (fallback_dir p.uid) files) files

unfoldable pub runtime_dir : Io → Process → Files → String × Files
unfolding symlink_metadata lookup insert show_nat
runtime_dir io p files = chosen io p p.xdg_runtime_dir files

abbrev pub bound : Option String → ℕ → String → Files → Result (Unit {0}) × Files
bound (some e) uid path files = (err ("Failed to bind control socket: " <> path), files)
bound none uid path files =
    (ok tt, insert path (record { kind = socket; owner = uid; mode = none }) files)

abbrev pub replaced : Io → ℕ → String → Option String → Files → Result (Unit {0}) × Files
replaced io uid path (some e) files = (err ("Failed to remove existing socket: " <> path), files)
replaced io uid path none files = bound io.bind uid path (remove path files)

abbrev pub listen_at : Io → ℕ → String → Metadata → Files → Result (Unit {0}) × Files
listen_at io uid path (found n) files =
    if is_symlink n
    then (err ("Refusing to replace symlink at socket path: " <> path), files)
    else replaced io uid path io.unlink files
listen_at io uid path not_found files = bound io.bind uid path files
listen_at io uid path (failed e) files =
    (err ("Failed to check socket path " <> path <> ": " <> e), files)

unfoldable pub create_listener_at : Io → ℕ → String → Files → Result (Unit {0}) × Files
unfolding symlink_metadata remove insert lookup
create_listener_at io uid path files = listen_at io uid path (symlink_metadata io path files) files

abbrev pub unlinked : Option String → String → Files → Files
unlinked none path files = remove path files
unlinked (some e) path files = files

-- A failure to remove the socket is passed over.
unfoldable pub cleanup_socket : Io → String → Files → Files
unfolding remove
cleanup_socket io path files = unlinked io.unlink path files
