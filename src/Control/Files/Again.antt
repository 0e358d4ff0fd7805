-- ===== src/Control/Files/Again.antt =====
-- middlesox/src/control.rs: what a later call of `runtime_dir` finds.
use middlesox.Prelude.{
  String, Option, none, some, ◌≡◌, refl, sym, ap, ◌∙◌, eq_iff, arith, lookup, lookup-insert,
}
use middlesox.Control.Files.{
  Node, Files, Process, Io, validated, made, chosen, created, fallback_dir, runtime_dir,
  symlink_metadata, metadata_from,
}

validated-created :
    (e r : Option String) (p : Process)
    → validated p (metadata_from r (some (created e p.uid))) ≡ fallback_dir p.uid
validated-created none (some x) p = refl
validated-created (some y) (some x) p = refl
validated-created none none p = ground arith
validated-created (some y) none p = ground arith

-- The directory that is chosen when something stands at its path.
made-some :
    (io : Io) (p : Process) (e : Option String) (n : Node) (files : Files) (k : Option Node)
    → lookup (fallback_dir p.uid) files ≡ k
    → made io p e (some n) files ≡ (validated p (metadata_from io.read k), files)
unfolding symlink_metadata
made-some io p e n files k h = ap (λ x. (validated p (metadata_from io.read x), files)) h

made-again :
    (io : Io) (p : Process) (e : Option String) (files later : Files) (m : Option Node)
    → lookup (fallback_dir p.uid) files ≡ m
    → lookup (fallback_dir p.uid) later ≡ lookup (fallback_dir p.uid) (made io p e m files).1
    → made io p e (lookup (fallback_dir p.uid) later) later ≡ ((made io p e m files).0, later)
made-again io p (some x) files later none h same = rw (same ∙ h) refl
made-again io p none files later none h same =
    let new : lookup (fallback_dir p.uid) later ≡ some (created io.chmod p.uid) =
      same
      ∙ ground (
        arith,
        lookup-insert (fallback_dir p.uid) (fallback_dir p.uid) (created io.chmod p.uid) files,
        eq_iff (fallback_dir p.uid) (fallback_dir p.uid),
      ) in
    ap (λ k. made io p none k later) new
    ∙ made-some io p none (created io.chmod p.uid) later _ new
    ∙ ap (λ d. (d, later)) (validated-created io.chmod io.read p)
made-again io p e files later (some n) h same =
    ap (λ k. made io p e k later) (same ∙ h)
    ∙ made-some io p e n later (some n) (same ∙ h)
    ∙ ap (λ d. (d, later)) (sym (ap (λ r. r.0) (made-some io p e n files (some n) h)))

chosen-again :
    (io : Io) (p : Process) (x : Option String) (files later : Files)
    → lookup (fallback_dir p.uid) later ≡ lookup (fallback_dir p.uid) (chosen io p x files).1
    → chosen io p x later ≡ ((chosen io p x files).0, later)
chosen-again io p (some dir) files later same = refl
chosen-again io p none files later same =
    made-again io p io.create files later (lookup (fallback_dir p.uid) files) refl same

-- A later call gives the same directory and changes nothing, where that directory is as the first call
-- has left it.
pub runtime_dir-again :
    (io : Io) (p : Process) (files later : Files)
    → lookup (fallback_dir p.uid) later ≡ lookup (fallback_dir p.uid) (runtime_dir io p files).1
    → runtime_dir io p later ≡ ((runtime_dir io p files).0, later)
unfolding runtime_dir
runtime_dir-again io p files later same = chosen-again io p p.xdg_runtime_dir files later same
