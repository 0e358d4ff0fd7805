-- ===== src/Cli/Startup/Traces.antt =====
-- middlesox-cli/src/main.rs: what a daemon leaves behind, whether it starts or not.
use middlesox.Prelude.{String, none, some, ok, ◌≡◌, ◌≢◌, lookup}
use middlesox.Config.{Config}
use middlesox.Control.Files.{Files}
use middlesox.Daemon
use middlesox.Cli.Startup.{World, Start, End}

-- The start and the end of a daemon touch no path but that of the socket, and no lock.
record Touches (path : String) (w v : World) : Type 0 where
  others : (q : String) → q ≢ path → lookup q v.files ≡ lookup q w.files
  lock : v.lock ≡ w.lock

-- What a daemon leaves: all paths but those of the runtime directory, the lock file and the socket as
-- they were, and the lock as it was found once the daemon has ended. If another process has the lock,
-- the daemon ends with an error, and leaves the path of the socket and what the lock file says as well.
pub record IsTidy (fallback : String) (st : Start) (w : World) (e : End) : Type 0 where
  pub others :
      (q : String)
      → q ≢ fallback
      → q ≢ st.lock_path
      → q ≢ st.socket_path
      → lookup q e.1.files ≡ lookup q w.files
  pub lock_back : e.0 ≢ none → e.1.lock.holder ≡ w.lock.holder
  pub refused : w.lock.holder ≢ none → (e.0 ≢ none) × (e.0 ≢ some (ok tt))
  pub refused_files :
      w.lock.holder ≢ none
      → (q : String) → q ≢ fallback
      → q ≢ st.lock_path
      → lookup q e.1.files ≡ lookup q w.files
  pub refused_text :
      w.lock.holder ≢ none → (text : String) → w.lock.text ≡ some text → e.1.lock.text ≡ some text
