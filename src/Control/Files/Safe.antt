-- ===== src/Control/Files/Safe.antt =====
-- middlesox/src/control.rs: which files the daemon uses and replaces.
use middlesox.Prelude.{
  ℕ, String, true, false, Option, none, some, ◌≡◌, ◌≢◌, ◌⊎◌, inl, inr, refl, sym, ◌∙◌, eq_iff,
  nat_eq, arith, Result, ok, err, lookup, remove, lookup-insert, lookup-remove, ◌||◌, not,
  Bool-cases,
}
use mathlib.Core.Path.{subst}
use middlesox.Control.Files.{
  socket, Node, Files, Process, Io, is_symlink, found, validated, made, replaced, bound, listen_at,
  symlink_metadata, metadata_from, chosen, created, fallback_dir, rejected_dir, runtime_dir,
  create_listener_at,
}

-- The fallback directory was chosen: it is there, no link, and the user's.
pub record IsUsable (p : Process) (r : String × Files) : Type 0 where
  pub node : Node
  pub chosen_dir : r.0 ≡ fallback_dir p.uid
  pub there : lookup (fallback_dir p.uid) r.1 ≡ some node
  pub direct : is_symlink node ≡ false
  pub owned : node.owner ≡ p.uid

-- The fallback directory was not taken, since it is a link or another user's.
pub record IsRejected (p : Process) (files : Files) (r : String × Files) : Type 0 where
  pub node : Node
  pub chosen_dir : r.0 ≡ rejected_dir p.pid
  pub untouched : r.1 ≡ files
  pub there : lookup (fallback_dir p.uid) files ≡ some node
  pub unsafe : is_symlink node ≡ false → node.owner ≢ p.uid

module _ (p : Process) (files : Files) (n : Node)
    (there : lookup (fallback_dir p.uid) files ≡ some n) where
  validated-IsUsable :
      is_symlink n ≡ false → n.owner ≡ p.uid → IsUsable p (validated p (found n), files)
  validated-IsUsable d o = record {
    node = n;
    chosen_dir = ground arith;
    there = there;
    direct = d;
    owned = o;
  }

  validated-IsRejected :
      is_symlink n || not (nat_eq n.owner p.uid) ≡ true
      → IsRejected p files (validated p (found n), files)
  validated-IsRejected h = record {
    node = n;
    chosen_dir = rw h;
    untouched = refl;
    there = there;
    unsafe = λ d o. ground arith;
  }

  validated-cases :
      IsUsable p (validated p (found n), files) ⊎ IsRejected p files (validated p (found n), files)
  validated-cases = elim (Bool-cases (is_symlink n || not (nat_eq n.owner p.uid))) [
    | inl bad ↦ inr (validated-IsRejected bad)
    | inr good ↦ inl (validated-IsUsable (ground arith) (ground arith))
  ]

symlink_metadata-found :
    (io : Io) (path : String) (files : Files) (n : Node)
    → io.read ≡ none
    → lookup path files ≡ some n
    → symlink_metadata io path files ≡ found n
unfolding symlink_metadata
symlink_metadata-found io path files n hr h = rw (hr, h)

created_direct : (e : Option String) (uid : ℕ) → is_symlink (created e uid) ≡ false
created_direct none uid = refl
created_direct (some e) uid = refl

created_owned : (e : Option String) (uid : ℕ) → (created e uid).owner ≡ uid
created_owned none uid = refl
created_owned (some e) uid = refl

made-cases :
    (io : Io) (p : Process) (files : Files) (m : Option Node)
    → io.read ≡ none
    → lookup (fallback_dir p.uid) files ≡ m
    → IsUsable p (made io p none m files) ⊎ IsRejected p files (made io p none m files)
made-cases io p files none hr h = inl (record {
  node = created io.chmod p.uid;
  chosen_dir = refl;
  there = ground (
    arith,
    lookup-insert (fallback_dir p.uid) (fallback_dir p.uid) (created io.chmod p.uid) files,
    eq_iff (fallback_dir p.uid) (fallback_dir p.uid),
  );
  direct = created_direct io.chmod p.uid;
  owned = created_owned io.chmod p.uid;
})
made-cases io p files (some n) hr h =
    subst (λ m. IsUsable p (validated p m, files) ⊎ IsRejected p files (validated p m, files))
      (sym (symlink_metadata-found io (fallback_dir p.uid) files n hr h))
      (validated-cases p files n h)

-- Without `XDG_RUNTIME_DIR`, and where the system lets it create and look at the fallback directory, the
-- directory is the fallback one, which is then there, no link and owned by the user; only if a link or
-- another user's file stands at its path, it is a path under /run with the process id, and nothing is
-- changed.
pub runtime_dir-IsUsable :
    (io : Io) (p : Process) (files : Files)
    → p.xdg_runtime_dir ≡ none
    → io.create ≡ none
    → io.read ≡ none
    → IsUsable p (runtime_dir io p files) ⊎ IsRejected p files (runtime_dir io p files)
unfolding runtime_dir
runtime_dir-IsUsable io p files hx hc hr =
    let outcome = λ (r : String × Files). IsUsable p r ⊎ IsRejected p files r in
    subst (λ x. outcome (chosen io p x files)) (sym hx)
      (subst (λ e. outcome (made io p e (lookup (fallback_dir p.uid) files) files)) (sym hc)
        (made-cases io p files (lookup (fallback_dir p.uid) files) hr refl))

-- What `create_listener_at` may change at a path, with the user that listens.
pub record IsCareful (uid : ℕ) (path : String) (files : Files) (r : Result (Unit {0}) × Files)
    : Type 0 where
  pub others : (q : String) → q ≢ path → lookup q r.1 ≡ lookup q files
  pub link_kept :
      (n : Node) → lookup path files ≡ some n → is_symlink n ≡ true → (r.1 ≡ files) × (r.0 ≢ ok tt)
  pub listening :
      r.0 ≡ ok tt → lookup path r.1 ≡ some (record { kind = socket; owner = uid; mode = none })

bound-others :
    (e : Option String) (uid : ℕ) (path : String) (files : Files) (q : String)
    → q ≢ path
    → lookup q (bound e uid path files).1 ≡ lookup q files
bound-others (some e) uid path files q h = refl
bound-others none uid path files q h = ground (
  arith,
  lookup-insert path q (record { kind = socket; owner = uid; mode = none }) files,
  eq_iff path q,
)

bound-listening :
    (e : Option String) (uid : ℕ) (path : String) (files : Files)
    → (bound e uid path files).0 ≡ ok tt
    → lookup path (bound e uid path files).1
      ≡ some (record { kind = socket; owner = uid; mode = none })
bound-listening (some e) uid path files h = cc
bound-listening none uid path files h = ground (
  arith,
  lookup-insert path path (record { kind = socket; owner = uid; mode = none }) files,
  eq_iff path path,
)

replaced-others :
    (io : Io) (uid : ℕ) (path : String) (e : Option String) (files : Files) (q : String)
    → q ≢ path
    → lookup q (replaced io uid path e files).1 ≡ lookup q files
replaced-others io uid path (some e) files q h = refl
replaced-others io uid path none files q h =
    bound-others io.bind uid path (remove path files) q h
    ∙ ground (arith, lookup-remove path q files, eq_iff path q)

replaced-listening :
    (io : Io) (uid : ℕ) (path : String) (e : Option String) (files : Files)
    → (replaced io uid path e files).0 ≡ ok tt
    → lookup path (replaced io uid path e files).1
      ≡ some (record { kind = socket; owner = uid; mode = none })
replaced-listening io uid path (some e) files h = cc
replaced-listening io uid path none files h = bound-listening io.bind uid path (remove path files) h

unchanged-IsCareful :
    (uid : ℕ) (path : String) (files : Files) (e : String) → IsCareful uid path files (err e, files)
unchanged-IsCareful uid path files e = record {
  others = λ q h. refl;
  link_kept = λ n h l. (refl, λ g. cc);
  listening = λ h. cc;
}

listen_at-IsCareful :
    (io : Io) (uid : ℕ) (path : String) (files : Files) (e : Option String) (m : Option Node)
    → lookup path files ≡ m
    → IsCareful uid path files (listen_at io uid path (metadata_from e m) files)
listen_at-IsCareful io uid path files (some e) m h = unchanged-IsCareful uid path files _
listen_at-IsCareful io uid path files none none h = record {
  others = bound-others io.bind uid path files;
  link_kept = λ n l k. cc;
  listening = bound-listening io.bind uid path files;
}
listen_at-IsCareful io uid path files none (some n) h = elim (Bool-cases (is_symlink n)) [
  | inl link ↦ rw link (unchanged-IsCareful uid path files _)
  | inr direct ↦ rw direct (record {
    others = replaced-others io uid path io.unlink files;
    link_kept = λ k l g. ground arith;
    listening = replaced-listening io uid path io.unlink files;
  })
]

-- The listener never follows or replaces a link: it then fails and changes nothing. In every case it
-- leaves all other paths as they were, and where it succeeds the user's socket stands at its path.
pub create_listener_at-IsCareful :
    (io : Io) (uid : ℕ) (path : String) (files : Files)
    → IsCareful uid path files (create_listener_at io uid path files)
unfolding create_listener_at symlink_metadata
create_listener_at-IsCareful io uid path files =
    listen_at-IsCareful io uid path files io.read (lookup path files) refl
