-- ===== src/Cli/Backends/Choice.antt =====
-- middlesox-cli/src/main.rs: which adapter is created for which configuration.
use middlesox.Prelude.{
  String, Bool, Option, none, some, Result, ok, err, ◌==◌, eq_iff, ◌≡◌, ◌↔◌, ◌⊎◌, inl, inr, refl,
  sym, ◌∙◌, arith, lookup, Bool-cases,
}
use mathlib.Core.Path.{subst}
use middlesox.Config.{AdapterConfig}
use middlesox.HyprlandIpc.{discover_socket_dir}
use middlesox.Socket.{from_base_path, new}
use middlesox.Cli.Backends.{
  Backend, mock, mangowc, hyprland, socket, as_str, paths, socket_paths_from_options, hyprland_at,
  socket_at, named, create_backend_from_config,
}

-- The text of an option.
abbrev pub option : String → AdapterConfig → Option String
option key c = as_str (lookup key c.options)

-- The two sockets as they are given, or as `SocketAdapter::from_base_path` derives them.
pub data IsLocated (c : AdapterConfig) (cmd event : String) : Type 0 where
  given :
      option "cmd_socket" c ≡ some cmd
      → option "event_socket" c ≡ some event
      → IsLocated c cmd event
  derived :
      (base : String)
      → (option "cmd_socket" c ≡ none) ⊎ (option "event_socket" c ≡ none)
      → option "base_path" c ≡ some base
      → cmd ≡ (from_base_path base tt).cmd_socket
      → event ≡ (from_base_path base tt).event_socket
      → IsLocated c cmd event

-- What the configuration must say for an adapter.
abbrev pub Names : (String → Option String) → (String → Bool) → AdapterConfig → Backend → Type 0
Names var exists c mock = c.name ≡ "mock"
Names var exists c mangowc = c.name ≡ "mangowc"
Names var exists c (hyprland dir) =
    (c.name ≡ "hyprland")
    × ((option "socket_dir" c ≡ some dir)
        ⊎ ((option "socket_dir" c ≡ none) × (discover_socket_dir var exists ≡ ok dir)))
Names var exists c (socket cmd event) = (c.name ≡ "socket") × IsLocated c cmd event

module _ (c : AdapterConfig) (cmd event : String) where
  paths_ok :
      (m n b : Option String)
      → option "cmd_socket" c ≡ m
      → option "event_socket" c ≡ n
      → option "base_path" c ≡ b
      → paths m n b ≡ ok (cmd, event)
      → IsLocated c cmd event
  unfolding from_base_path new
  paths_ok (some x) (some y) b hm hn hb e = given (ground arith) (ground arith)
  paths_ok none n (some base) hm hn hb e = derived base (inl hm) hb (ground arith) (ground arith)
  paths_ok (some x) none (some base) hm hn hb e =
      derived base (inr hn) hb (ground arith) (ground arith)
  paths_ok none n none hm hn hb e = cc
  paths_ok (some x) none none hm hn hb e = cc

  paths_of :
      (m n b : Option String)
      → option "cmd_socket" c ≡ m
      → option "event_socket" c ≡ n
      → option "base_path" c ≡ b
      → IsLocated c cmd event
      → paths m n b ≡ ok (cmd, event)
  unfolding from_base_path new
  paths_of m n b hm hn hb (given x y) = ground arith
  paths_of m n b hm hn hb (derived base (inl no_cmd) x y z) = ground arith
  paths_of none n b hm hn hb (derived base (inr no_event) x y z) = ground arith
  paths_of (some w) n b hm hn hb (derived base (inr no_event) x y z) = ground arith

  socket_paths_iff : (socket_paths_from_options c.options ≡ ok (cmd, event)) ↔ IsLocated c cmd event
  unfolding socket_paths_from_options
  socket_paths_iff =
      let m = option "cmd_socket" c in
      let n = option "event_socket" c in
      let b = option "base_path" c in (paths_ok m n b refl refl refl, paths_of m n b refl refl refl)

hyprland_iff :
    (m : Option String) (d : Result String) (b : Backend)
    → (hyprland_at m d ≡ ok b)
      ↔ ((dir : String) × (b ≡ hyprland dir) × ((m ≡ some dir) ⊎ ((m ≡ none) × (d ≡ ok dir))))
hyprland_iff (some x) d b = (λ h. (x, ground arith, inl refl), λ (dir, e, w). ground arith)
hyprland_iff none (ok x) b = (λ h. (x, ground arith, inr (refl, refl)), λ (dir, e, w). ground arith)
hyprland_iff none (err x) b = (λ h. cc, λ (dir, e, w). ground arith)

socket_iff :
    (r : Result (String × String)) (b : Backend)
    → (socket_at r ≡ ok b)
      ↔ ((cmd : String) × (event : String) × (b ≡ socket cmd event) × (r ≡ ok (cmd, event)))
socket_iff (ok (x, y)) b = (λ h. (x, y, ground arith, refl), λ (cmd, event, e, w). ground arith)
socket_iff (err x) b = (λ h. cc, λ (cmd, event, e, w). ground arith)

-- The branch that a name takes.
data Branch (name : String) (p q : Result Backend) (b : Backend) : Type 0 where
  to_mock : name ≡ "mock" → b ≡ mock → Branch name p q b
  to_mangowc : name ≡ "mangowc" → b ≡ mangowc → Branch name p q b
  to_hyprland : name ≡ "hyprland" → p ≡ ok b → Branch name p q b
  to_socket : name ≡ "socket" → q ≡ ok b → Branch name p q b

named-Branch :
    (name : String) (p q : Result Backend) (b : Backend) → named name p q ≡ ok b → Branch name p q b
named-Branch name p q b h = elim (Bool-cases (name == "mock")) [
  | inl m ↦ to_mock ((eq_iff name "mock").0 m) (ground arith)
  | inr m ↦ elim (Bool-cases (name == "mangowc")) [
    | inl n ↦ to_mangowc ((eq_iff name "mangowc").0 n) (ground arith)
    | inr n ↦ elim (Bool-cases (name == "hyprland")) [
      | inl y ↦ to_hyprland ((eq_iff name "hyprland").0 y) (ground arith)
      | inr y ↦ elim (Bool-cases (name == "socket")) [
        | inl z ↦ to_socket ((eq_iff name "socket").0 z) (ground arith)
        | inr z ↦ ground arith
      ]
    ]
  ]
]

module _ (var : String → Option String) (exists : String → Bool) (c : AdapterConfig) where
  abbrev for_hyprland : Result Backend
  for_hyprland = hyprland_at (option "socket_dir" c) (discover_socket_dir var exists)

  abbrev for_socket : Result Backend
  for_socket = socket_at (socket_paths_from_options c.options)

  Branch-Names : (b : Backend) → Branch c.name for_hyprland for_socket b → Names var exists c b
  Branch-Names b (to_mock n e) = subst (Names var exists c) (sym e) n
  Branch-Names b (to_mangowc n e) = subst (Names var exists c) (sym e) n
  Branch-Names b (to_hyprland n e) =
      let (dir, same, w) =
        (hyprland_iff (option "socket_dir" c) (discover_socket_dir var exists) b).0 e in
      subst (Names var exists c) (sym same) (n, w)
  Branch-Names b (to_socket n e) =
      let (cmd, event, same, w) = (socket_iff (socket_paths_from_options c.options) b).0 e in
      subst (Names var exists c) (sym same) (n, (socket_paths_iff c cmd event).0 w)

  named_at :
      (name : String) (b : Backend)
      → c.name ≡ name
      → named name for_hyprland for_socket ≡ ok b
      → named c.name for_hyprland for_socket ≡ ok b
  named_at name b e h = subst (λ n. named n for_hyprland for_socket ≡ ok b) (sym e) h

  named_of : (b : Backend) → Names var exists c b → named c.name for_hyprland for_socket ≡ ok b
  named_of mock n = named_at "mock" mock n refl
  named_of mangowc n = named_at "mangowc" mangowc n refl
  named_of (hyprland dir) (n, w) = named_at "hyprland" (hyprland dir) n (
      (hyprland_iff (option "socket_dir" c) (discover_socket_dir var exists) (hyprland dir)).1
        (dir, refl, w))
  named_of (socket cmd event) (n, w) = named_at "socket" (socket cmd event) n (
      (socket_iff (socket_paths_from_options c.options) (socket cmd event)).1
        (cmd, event, refl, (socket_paths_iff c cmd event).1 w))

  -- An adapter is created exactly when the configuration names it and says where to find it: Hyprland
  -- in the directory that is given, or discovered if none is; a bridge at the two sockets that are
  -- given, or at those that the adapter itself derives from the base path.
  pub create_backend_ok_iff :
      (b : Backend) → (create_backend_from_config var exists c ≡ ok b) ↔ Names var exists c b
  create_backend_ok_iff b = (
    λ h. Branch-Names b (named-Branch c.name for_hyprland for_socket b (folded b ∙ h)),
    λ n. sym (folded b) ∙ named_of b n,
  )
    where
      folded :
          (b : Backend)
          → named c.name for_hyprland for_socket ≡ create_backend_from_config var exists c
      folded b = unfold create_backend_from_config in refl
