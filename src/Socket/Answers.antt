-- ===== src/Socket/Answers.antt =====
-- socket/src/lib.rs: which answers of the bridge count, and which capabilities may be written.
use middlesox.Prelude.{
  ℕ, String, Bool, true, false, Option, none, some, List, [], ◌∷◌, Result, ok, err, ◌>>=◌, ok_or,
  ◌≡◌, ◌↔◌, ◌⊎◌, inl, inr, refl, sym, ap, ◌∙◌, ◌==◌, eq_iff, nat_eq, nat_eq_iff, is_some,
  if◌then◌else◌,
}
use mathlib.Core.List.{Memᴰ}
use mathlib.Core.Path.{subst}
use middlesox.Json.{Value}
use middlesox.Capability.{Capability, is_writable, read_only_cap, read_write_cap, with_description}
use middlesox.Manifest.{CapabilityManifest, find_cap, add}
use middlesox.Manifest
use middlesox.Manifest.Laws.{find_cap-add}
use middlesox.Manifest.Writes.{allows, declares_writable}
use middlesox.Socket.Capabilities.{
  CapabilityInfo, capability_of, described, manifest_of, add_all, is_rw,
}
use middlesox.Socket.Protocol.{Response, get_request}
use middlesox.Socket.{
  Bridge, SocketAdapter, accept, read_line, send, counted, and_send, when_missing, get, init,
  or_null, outcome,
}

-- The bridge's answer to the request with this id is this value.
pub record IsAnswer {W : Type 0} (c : Bridge W) (id : ℕ) (line : Result String) (v : Value)
    : Type 0 where
  pub text : String
  pub response : Response
  pub read : line ≡ ok text
  pub decoded : c.to_response text ≡ some response
  pub same_id : response.id ≡ id
  pub no_error : response.error ≡ none
  pub value : or_null response.result ≡ v

accepted :
    (b : Bool) (error : Option String) (result : Option Value) (e : String) (v : Value)
    → (if b then outcome error result else err e) ≡ ok v
    → (b ≡ true) × (error ≡ none) × (or_null result ≡ v)
accepted true (some x) result e v h = cc
accepted true none result e v h = (refl, refl, cc)
accepted false error result e v h = cc

accept-eq-ok :
    (id : ℕ) (r : Response) (v : Value)
    → accept id r ≡ ok v
    → (r.id ≡ id) × (r.error ≡ none) × (or_null r.result ≡ v)
unfolding accept
accept-eq-ok id r v h =
    let (same, n, w) = accepted (nat_eq r.id id) r.error r.result _ v h in
    ((nat_eq_iff r.id id).0 same, n, w)

accept-of_answer :
    (id : ℕ) (r : Response) (v : Value)
    → r.id ≡ id
    → r.error ≡ none
    → or_null r.result ≡ v
    → accept id r ≡ ok v
unfolding accept
accept-of_answer id r v i n w =
    rw ((nat_eq_iff r.id id).1 i) (ap (λ e. outcome e r.result) n ∙ ap (λ x. ok x) w)

module _ {W : Type 0} (c : Bridge W) (id : ℕ) (v : Value) where
  decoded-IsAnswer :
      (text e : String) (m : Option Response)
      → c.to_response text ≡ m
      → (ok_or m e >>= accept id) ≡ ok v
      → IsAnswer c id (ok text) v
  decoded-IsAnswer text e none d h = cc
  decoded-IsAnswer text e (some r) d h =
      let (i, n, w) = accept-eq-ok id r v h in
      record {
        text = text;
        response = r;
        read = refl;
        decoded = d;
        same_id = i;
        no_error = n;
        value = w;
      }

  read_line-IsAnswer : (line : Result String) → read_line c id line ≡ ok v → IsAnswer c id line v
  read_line-IsAnswer (err e) h = cc
  read_line-IsAnswer (ok text) h = decoded-IsAnswer text _ (c.to_response text) refl h

  read_line-of_answer : (line : Result String) → IsAnswer c id line v → read_line c id line ≡ ok v
  read_line-of_answer line a =
      rw (a.read, a.decoded) (accept-of_answer id a.response v a.same_id a.no_error a.value)

-- Once the capabilities are there, `get` asks the bridge once, under the next id, and keeps the
-- capabilities; it returns a value exactly when the bridge answered with a response that carries this
-- id and no error, whose result, null if there is none, is the value.
pub get-eq-ok_iff :
    {W : Type 0} (c : Bridge W) (key : String) (v : Value) (m : CapabilityManifest)
    (s : SocketAdapter W)
    → s.cached_caps ≡ some m
    → let answer = c.exchange s.cmd_socket (get_request s.next_id key) s.world in
      (((get c key s).0 ≡ ok v) ↔ IsAnswer c s.next_id answer.0 v)
      × ((get c key s).1 ≡ record (counted c s) { world = answer.1 })
unfolding get init send get_request
get-eq-ok_iff c key v m s h =
    let answer = c.exchange s.cmd_socket (get_request s.next_id key) s.world in
    subst
      (λ x.
        let r = and_send c (λ id. get_request id key) (when_missing c x s) in
        ((r.0 ≡ ok v) ↔ IsAnswer c s.next_id answer.0 v)
        × (r.1 ≡ record (counted c s) { world = answer.1 }))
      (sym h)
      (
        (read_line-IsAnswer c s.next_id v answer.0, read_line-of_answer c s.next_id v answer.0),
        refl,
      )

-- The bridge has listed the key with an access that writes.
pub record IsGranted (infos : List CapabilityInfo) (key : String) : Type 0 where
  pub info : CapabilityInfo
  pub listed : Memᴰ info infos
  pub named : info.name ≡ key
  pub writes : is_rw info.access ≡ true

described_access :
    (d : Option String) (b : Bool) (name : String)
    → let cap = described d (if b then read_write_cap name else read_only_cap name) in
      (cap.name ≡ name) × (is_writable cap ≡ b)
unfolding is_writable read_only_cap read_write_cap with_description
described_access none true name = (refl, refl)
described_access none false name = (refl, refl)
described_access (some x) true name = (refl, refl)
described_access (some x) false name = (refl, refl)

capability_of_access :
    (info : CapabilityInfo)
    → ((capability_of info).name ≡ info.name)
      × (is_writable (capability_of info) ≡ is_rw info.access)
unfolding capability_of
capability_of_access info = described_access info.description (is_rw info.access) info.name

allowed_by :
    (found : Option Capability) (cap : Capability) (b : Bool)
    → allows (if is_some found then found else if b then some cap else none) ≡ true
    → (allows found ≡ true) ⊎ ((b ≡ true) × (is_writable cap ≡ true))
allowed_by (some c) cap b h = inl h
allowed_by none cap true h = inr (refl, h)
allowed_by none cap false h = cc

add-writable :
    (m : CapabilityManifest) (info : CapabilityInfo) (key : String)
    → declares_writable (add m (capability_of info)) key ≡ true
    → (declares_writable m key ≡ true) ⊎ ((info.name ≡ key) × (is_rw info.access ≡ true))
add-writable m info key h =
    let cap = capability_of info in
    let (named, access) = capability_of_access info in
    elim (allowed_by (find_cap m key) cap (cap.name == key)
      (ap allows (sym (find_cap-add m cap key).0) ∙ h)) [
        | inl before ↦ inl before
        | inr (same, w) ↦ inr (sym named ∙ (eq_iff cap.name key).0 same, sym access ∙ w)
      ]

add_all-writable :
    (infos : List CapabilityInfo) (m : CapabilityManifest) (key : String)
    → declares_writable (add_all m infos) key ≡ true
    → (declares_writable m key ≡ true) ⊎ IsGranted infos key
add_all-writable [] m key h = inl h
add_all-writable (info ∷ infos) m key h =
    elim (add_all-writable infos (add m (capability_of info)) key h) [
      | inl earlier ↦ elim (add-writable m info key earlier) [
        | inl before ↦ inl before
        | inr (n, w) ↦ inr (record { info = info; listed = Memᴰ.head refl; named = n; writes = w })
      ]
      | inr later ↦ inr (record {
        info = later.info;
        listed = Memᴰ.tail later.listed;
        named = later.named;
        writes = later.writes;
      })
    ]

-- A key is declared writable only if the bridge has listed it with the access rw, read_write or
-- readwrite, in capital or small letters: every other word gives a read-only key.
pub manifest_of-writable :
    (infos : List CapabilityInfo) (key : String)
    → declares_writable (manifest_of infos) key ≡ true
    → IsGranted infos key
unfolding manifest_of Manifest.new find_cap
manifest_of-writable infos key h = elim (add_all-writable infos Manifest.new key h) [
  | inl none_yet ↦ cc
  | inr granted ↦ granted
]
