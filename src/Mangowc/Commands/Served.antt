-- ===== src/Mangowc/Commands/Served.antt =====
-- mangowc/src/lib.rs: what a `set` sends to the compositor.
use middlesox.Prelude.{
  ℕ, ◌<◌, ◌^◌, ◌≡◌, refl, String, Bool, true, false, Option, none, some, List, [], ◌∷◌, ◌++◌,
  Result, ok, err, ◌>>=◌, ok_or, ◌==◌, leb, if◌then◌else◌, lookup, u32_max, arith, Bool-cases, inl,
  inr,
}
use middlesox.Json.{Value, as_u64, as_str, as_object}
use middlesox.Mangowc.Values.{
  value_as_u32, parse_tags_value, parse_client_tags_value, is_u64, client_tags_object, client_part,
  or_else,
}
use middlesox.Mangowc.Wayland.{Bound, lookup_id}
use middlesox.Mangowc.Commands.{
  Request, Thread, Phase, focused_ipc, at_phase, bound_output, focused_from, sent, serve, ask,
  parsed_then, set_layout_named, named_or_refused, set_on, layout_position,
}

-- The output that a request is for, and its numbers, which fit 32 bits.
abbrev pub Targets : Request → ℕ → Type 0
Targets (Request.set_tags output mask toggle) id = (output ≡ id) × (mask < 2 ^ 32)
Targets (Request.set_client_tags output and_tags xor_tags) id =
    (output ≡ id) × (and_tags < 2 ^ 32) × (xor_tags < 2 ^ 32)
Targets (Request.set_layout output index) id = (output ≡ id) × (index < 2 ^ 32)

-- Either an error and nothing is done, or one request, for the focused output, which is bound.
pub data IsServed (t : Thread) : Result (Unit {0}) × Thread → Type 0 where
  refused : (e : String) → IsServed t (err e, t)
  requested :
      (id : ℕ) (b : Bound) (r : Request)
      → t.wayland.focused_output_id ≡ some id
      → lookup_id id t.wayland.outputs ≡ some b
      → b.ipc ≡ true
      → Targets r id
      → IsServed t (ok tt, record t { requests = t.requests ++ (r ∷ []) })

module _ (request : ℕ → Request) (t : Thread) (fits : (id : ℕ) → Targets (request id) id) where
  bound_output-IsServed :
      (id : ℕ) (m : Option Bound)
      → t.wayland.focused_output_id ≡ some id
      → lookup_id id t.wayland.outputs ≡ m
      → IsServed t (sent request (bound_output id m) t)
  bound_output-IsServed id none f e = refused "No IPC output available for focused output"
  bound_output-IsServed id (some b) f e = elim (Bool-cases b.ipc) [
    | inl yes_bound ↦ rw yes_bound (requested id b (request id) f e yes_bound (fits id))
    | inr not_bound ↦ rw not_bound (refused "No IPC output available for focused output")
  ]

  focused_from-IsServed :
      (m : Option ℕ)
      → t.wayland.focused_output_id ≡ m
      → IsServed t (sent request (focused_from t.wayland m) t)
  focused_from-IsServed none e = refused "No focused output"
  focused_from-IsServed (some id) e =
      bound_output-IsServed id (lookup_id id t.wayland.outputs) e refl

  serve-IsServed : IsServed t (serve request t)
  unfolding focused_ipc
  serve-IsServed = focused_from-IsServed t.wayland.focused_output_id refl

ask-IsServed :
    (f : Thread → Result (Unit {0}) × Thread) (t : Thread) → IsServed t (f t) → IsServed t (ask f t)
ask-IsServed f t h = elim t.phase as (λ p. IsServed t (at_phase p t f)) [
  | Phase.serving ↦ h
  | Phase.leaving ↦ refused "No response from Wayland thread"
  | Phase.gone ↦ refused "Wayland thread closed"
]

-- What a reader gives satisfies `P`.
abbrev Gives : {A : Type 0} → (A → Type 0) → Result A → Type 0
Gives P (ok a) = P a
Gives P (err e) = Unit {0}

parsed_then-IsServed :
    {A : Type 0} (P : A → Type 0) (r : Result A) (request : A → ℕ → Request) (t : Thread)
    → Gives P r
    → ((a : A) → P a → (id : ℕ) → Targets (request a id) id)
    → IsServed t (parsed_then r request t)
parsed_then-IsServed P (err e) request t g h = refused e
parsed_then-IsServed P (ok a) request t g h =
    ask-IsServed (serve (request a)) t (serve-IsServed (request a) t (h a g))

>>=-Gives :
    {A B : Type 0} (P : A → Type 0) (Q : B → Type 0) (r : Result A) (f : A → Result B)
    → Gives P r
    → ((a : A) → P a → Gives Q (f a))
    → Gives Q (r >>= f)
>>=-Gives P Q (err e) f g h = tt
>>=-Gives P Q (ok a) f g h = h a g

abbrev Fits : ℕ → Type 0
Fits n = n < 2 ^ 32

abbrev Any : {A : Type 0} → A → Type 0
Any a = Unit {0}

ok_or-Any : {A : Type 0} (m : Option A) (e : String) → Gives Any (ok_or m e)
ok_or-Any none e = tt
ok_or-Any (some a) e = tt

value_as_u32-Fits : (v : Value) (name : String) → Gives Fits (value_as_u32 v name)
unfolding value_as_u32
value_as_u32-Fits v name =
    >>=-Gives Any Fits _ _ (ok_or-Any (as_u64 v) _) (λ raw u. elim (Bool-cases (leb raw u32_max)) [
      | inl h ↦ rw h (ground arith)
      | inr h ↦ rw h tt
    ])

if-Gives :
    {A : Type 0} (P : A → Type 0) (b : Bool) (p q : Result A)
    → Gives P p
    → Gives P q
    → Gives P (if b then p else q)
if-Gives P true p q g h = g
if-Gives P false p q g h = h

abbrev MaskFits : ℕ × Bool → Type 0
MaskFits (mask, toggle) = mask < 2 ^ 32

abbrev BothFit : ℕ × ℕ → Type 0
BothFit (m, n) = (m < 2 ^ 32) × (n < 2 ^ 32)

parse_tags_value-MaskFits : (v : Value) → Gives MaskFits (parse_tags_value v)
unfolding parse_tags_value lookup
parse_tags_value-MaskFits v =
    if-Gives MaskFits (is_u64 v) _ _
      (>>=-Gives Fits MaskFits _ _ (value_as_u32-Fits v "tags") (λ mask h. h))
      (>>=-Gives Any MaskFits _ _ (ok_or-Any (as_object v) _) (λ object u.
        >>=-Gives Any MaskFits _ _
          (ok_or-Any (or_else (lookup "tagmask" object) (lookup "tags" object)) _)
          (λ w u. >>=-Gives Fits MaskFits _ _ (value_as_u32-Fits w "tagmask") (λ mask h. h))))

client_part-Fits :
    (key : String) (object : List (String × Value)) → Gives Fits (client_part key object)
client_part-Fits key object =
    >>=-Gives Any Fits _ _ (ok_or-Any (lookup key object) _) (λ v u. value_as_u32-Fits v key)

client_tags_object-BothFit :
    (m : Option Value) (object : List (String × Value))
    → Gives BothFit (client_tags_object m object)
client_tags_object-BothFit (some tags) object =
    >>=-Gives Fits BothFit _ _ (value_as_u32-Fits tags "client_tags.tags")
      (λ mask h. (omega arith, h))
client_tags_object-BothFit none object =
    >>=-Gives Fits BothFit _ _ (client_part-Fits "and_tags" object)
      (λ m h. >>=-Gives Fits BothFit _ _ (client_part-Fits "xor_tags" object) (λ n g. (h, g)))

parse_client_tags_value-BothFit : (v : Value) → Gives BothFit (parse_client_tags_value v)
unfolding parse_client_tags_value lookup
parse_client_tags_value-BothFit v =
    if-Gives BothFit (is_u64 v) _ _
      (>>=-Gives Fits BothFit _ _ (value_as_u32-Fits v "client_tags") (λ mask h. (omega arith, h)))
      (>>=-Gives Any BothFit _ _ (ok_or-Any (as_object v) _)
        (λ object u. client_tags_object-BothFit (lookup "tags" object) object))

set_layout_named-IsServed : (name : String) (t : Thread) → IsServed t (set_layout_named name t)
set_layout_named-IsServed name t = ask-IsServed _ t (
    parsed_then-IsServed Any (ok_or (layout_position name t.wayland.state.global.layouts) _) _ t
      (ok_or-Any _ _) (λ index u id. (refl, omega arith)))

named_or_refused-IsServed : (r : Result String) (t : Thread) → IsServed t (named_or_refused r t)
named_or_refused-IsServed (err e) t = refused e
named_or_refused-IsServed (ok name) t = set_layout_named-IsServed name t

if-IsServed :
    (t : Thread) (b : Bool) (p q : Result (Unit {0}) × Thread)
    → IsServed t p
    → IsServed t q
    → IsServed t (if b then p else q)
if-IsServed t true p q g h = g
if-IsServed t false p q g h = h

-- Whatever key and value `set` is given, either it fails and nothing is sent, or it succeeds and
-- exactly one request has been sent, for the focused output, whose IPC output is bound, with masks or
-- an index that fit 32 bits.
pub set_on-IsServed : (key : String) (v : Value) (t : Thread) → IsServed t (set_on key v t)
unfolding set_on
set_on-IsServed key v t =
    if-IsServed t (key == "tags") _ _
      (parsed_then-IsServed MaskFits (parse_tags_value v) _ t (parse_tags_value-MaskFits v)
        (λ a h id. (refl, h)))
      (if-IsServed t (key == "client_tags") _ _
        (parsed_then-IsServed BothFit (parse_client_tags_value v) _ t
          (parse_client_tags_value-BothFit v) (λ a h id. (refl, h.0, h.1)))
        (if-IsServed t (key == "layout") _ _
          (parsed_then-IsServed Any (ok_or (as_u64 v) _) _ t (ok_or-Any (as_u64 v) _)
            (λ a h id. (refl, omega arith)))
          (if-IsServed t (key == "layout_name") _ _
            (named_or_refused-IsServed (ok_or (as_str v) _) t) (refused _))))
