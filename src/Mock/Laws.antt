-- ===== src/Mock/Laws.antt =====
-- What can be read and set on the mock backend.
use middlesox.Prelude.{◌≡◌, ap, String, ok, err, ◌==◌, arith, Bool-cases, inl, inr}
use middlesox.Json.{
  Value, null, bool, number, string, array, object, pos_int, neg_int, float, from_i64, as_i64,
  as_str,
}
use middlesox.Mock.{MockBackend, get, set, set_workspace, set_layout}

set_workspace_back :
    (v : Value) (b : MockBackend)
    → (set_workspace (as_i64 v) b).0 ≡ ok tt
    → from_i64 (set_workspace (as_i64 v) b).1.workspace ≡ v
unfolding set_workspace
set_workspace_back (number (pos_int n)) b h = ground arith
set_workspace_back (number (neg_int n)) b h = cc
set_workspace_back (number (float x)) b h = cc
set_workspace_back null b h = cc
set_workspace_back (bool x) b h = cc
set_workspace_back (string s) b h = cc
set_workspace_back (array vs) b h = cc
set_workspace_back (object fs) b h = cc

set_layout_back :
    (v : Value) (b : MockBackend)
    → (set_layout (as_str v) b).0 ≡ ok tt
    → string (set_layout (as_str v) b).1.layout ≡ v
unfolding set_layout
set_layout_back (string s) b h = ground arith
set_layout_back null b h = cc
set_layout_back (bool x) b h = cc
set_layout_back (number n) b h = cc
set_layout_back (array vs) b h = cc
set_layout_back (object fs) b h = cc

-- A value that `set` accepts is what `get` then reads under that key.
pub get-set :
    (key : String) (v : Value) (b : MockBackend)
    → (set key v b).0 ≡ ok tt
    → (get key (set key v b).1).0 ≡ ok v
unfolding get set
get-set key v b h = elim (Bool-cases (key == "workspace")) [
  | inl w ↦ rw w (ap ok (set_workspace_back v b (rw w at h)))
  | inr w' ↦ elim (Bool-cases (key == "layout")) [
    | inl l ↦ rw (w', l) (ap ok (set_layout_back v b (rw (w', l) at h)))
    | inr l' ↦ ground (arith)
  ]
]

-- A refused `set` leaves the backend as it was.
pub set_refused_unchanged :
    (key : String) (v : Value) (b : MockBackend) {e : String}
    → (set key v b).0 ≡ err e
    → (set key v b).1 ≡ b
unfolding set
set_refused_unchanged key v b h = ground arith
