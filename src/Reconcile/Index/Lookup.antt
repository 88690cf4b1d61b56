-- ===== src/Reconcile/Index/Lookup.antt =====
-- pkg/config/config.go against internal/controller/reconcilecontroller/index.go: that the two look
-- up the same engines.
use mathlib.Core.List.{map-append}
use forge_ci.Common.{
  String, ◌≡◌, refl, sym, ap, ◌∙◌, Bool, true, false, not, List, [], ◌∷◌, ◌++◌, Option, none, some,
  Result, ok, err, ◌==◌, map, lookup, eq_of_==, Bool-cases, inl, inr, if◌then◌else◌,
}
use forge_ci.Waves.{WavesError}
use forge_ci.Config.{Port, port_text, artifact, Engine, Pipeline}
use forge_ci.Config.Problems.{Place, Problem, add_if}
use forge_ci.Config.Validate.{ports_by, port_problems, require_port, order_problems}
use forge_ci.Config.Stages.{is_artifact}
use forge_ci.Reconcile.Index.{
  EngineIndex, engines_by, or_empty, with_root, index_with, index_of, engine_of, require,
}

-- The index has an engine of the port under the alias.
abbrev pub IsResolved : EngineIndex → String → Port → Type 0
IsResolved index alias want = (e : Engine) × (require index alias want ≡ ok e)

pub nil-left : {A : Type 0} (xs ys : List A) → xs ++ ys ≡ [] → xs ≡ []
nil-left [] ys h = refl
nil-left (x ∷ xs) ys h = cc

pub nil-right : {A : Type 0} (xs ys : List A) → xs ++ ys ≡ [] → ys ≡ []
nil-right [] ys h = h
nil-right (x ∷ xs) ys h = cc

abbrev port_entry : String × Engine → String × Port
port_entry (alias, e) = (alias, e.port)

ports_by-entries : (es : List Engine) → ports_by es ≡ map port_entry (engines_by es)
unfolding ports_by engines_by
ports_by-entries [] = refl
ports_by-entries (e ∷ es) =
    ap (λ l. l ++ (e.alias, e.port) ∷ []) (ports_by-entries es)
    ∙ sym (map-append port_entry (engines_by es) _)

pub not-added : (b : Bool) (problem : Problem) → add_if (not b) problem ≡ [] → b ≡ true
unfolding add_if
not-added true problem h = refl
not-added false problem h = cc

port_problems-nil :
    (place : Place) (alias : String) (want : Port) (o : Option Port)
    → port_problems place alias want o ≡ []
    → (got : Port) × (o ≡ some got) × ((port_text got == port_text want) ≡ true)
unfolding port_problems
port_problems-nil place alias want none h = cc
port_problems-nil place alias want (some got) h = (got, refl, not-added _ _ h)

require_port-nil :
    (ports : List (String × Port)) (place : Place) (alias : String) (want : Port)
    → require_port ports place alias want ≡ []
    → (got : Port) × (lookup alias ports ≡ some got) × ((port_text got == port_text want) ≡ true)
unfolding require_port
require_port-nil ports place alias want h =
    port_problems-nil place alias want (lookup alias ports) h

lookup-hit :
    {V : Type 0} (k j : String) (v : V) (m : List (String × V))
    → (j == k) ≡ true
    → lookup k ((j, v) ∷ m) ≡ some v
lookup-hit k j v m e = rw e refl

lookup-miss :
    {V : Type 0} (k j : String) (v : V) (m : List (String × V))
    → (j == k) ≡ false
    → lookup k ((j, v) ∷ m) ≡ lookup k m
lookup-miss k j v m e = rw e refl

some_inj : {A : Type 0} {a b : A} → ◌≡◌ {A = Option A} (some a) (some b) → a ≡ b
some_inj h = cc

lookup-port_entry :
    (alias : String) (entries : List (String × Engine)) (got : Port)
    → lookup alias (map port_entry entries) ≡ some got
    → (e : Engine) × (lookup alias entries ≡ some e) × (e.port ≡ got)
lookup-port_entry alias [] got h = cc
lookup-port_entry alias ((key, e) ∷ entries) got h = elim (Bool-cases (key == alias)) [
  | inl same ↦ (
    e,
    lookup-hit alias key e entries same,
    some_inj (sym (lookup-hit alias key e.port (map port_entry entries) same) ∙ h),
  )
  | inr other ↦
      let (found, at, same) =
        lookup-port_entry alias entries got
          (sym (lookup-miss alias key e.port (map port_entry entries) other) ∙ h) in
      (found, lookup-miss alias key e entries other ∙ at, same)
]

-- The index's own entry for the state engine keeps its port.
index_with-port :
    (p : Pipeline) (root alias : String) (st : Option Engine) (e : Engine)
    → lookup p.state (engines_by p.engines) ≡ st
    → lookup alias (engines_by p.engines) ≡ some e
    → (found : Engine) × (lookup alias (index_with p root st).engines ≡ some found)
      × (found.port ≡ e.port)
unfolding index_with
index_with-port p root alias none e there h = (e, h, refl)
index_with-port p root alias (some st) e there h = elim (Bool-cases (p.state == alias)) [
  | inl same ↦ (
    record st { spec = some (with_root root (or_empty st.spec)) },
    lookup-hit alias p.state _ _ same,
    ap (λ (x : Engine). x.port)
        (some_inj (sym there ∙ (ap (λ k. lookup k (engines_by p.engines)) (eq_of_== same) ∙ h))),
  )
  | inr other ↦ (e, lookup-miss alias p.state _ _ other ∙ h, refl)
]

engine_of-port :
    (alias : String) (want : Port) (e : Engine)
    → (port_text e.port == port_text want) ≡ true
    → engine_of alias want (some e) ≡ ok e
unfolding engine_of
engine_of-port alias want e same = rw same refl

require-found :
    (index : EngineIndex) (alias : String) (want : Port) (e : Engine)
    → lookup alias index.engines ≡ some e
    → (port_text e.port == port_text want) ≡ true
    → IsResolved index alias want
unfolding require
require-found index alias want e at same =
    (e, ap (engine_of alias want) at ∙ engine_of-port alias want e same)

pub ports_by-IsResolved :
    (p : Pipeline) (root alias : String) (got want : Port)
    → lookup alias (ports_by p.engines) ≡ some got
    → (port_text got == port_text want) ≡ true
    → IsResolved (index_of p root) alias want
unfolding index_of
ports_by-IsResolved p root alias got want at same =
    let (e, there, port) =
      lookup-port_entry alias (engines_by p.engines) got
        (ap (lookup alias) (sym (ports_by-entries p.engines)) ∙ at) in
    let (found, indexed, kept) =
      index_with-port p root alias (lookup p.state (engines_by p.engines)) e refl there in
    require-found (index_of p root) alias want found indexed
      (ap (λ x. port_text x == port_text want) (kept ∙ port) ∙ same)

-- What `requirePort` lets pass, the index resolves.
pub require_port-IsResolved :
    (p : Pipeline) (root alias : String) (place : Place) (want : Port)
    → require_port (ports_by p.engines) place alias want ≡ []
    → IsResolved (index_of p root) alias want
require_port-IsResolved p root alias place want h =
    let (got, at, same) = require_port-nil (ports_by p.engines) place alias want h in
    ports_by-IsResolved p root alias got want at same

pub is_artifact-some :
    (o : Option Port)
    → is_artifact o ≡ true
    → (got : Port) × (o ≡ some got) × ((port_text got == port_text artifact) ≡ true)
unfolding is_artifact port_text
is_artifact-some none h = cc
is_artifact-some (some got) h = (got, refl, h)

pub otherwise : (b : Bool) (xs : List Problem) → b ≡ false → (if b then [] else xs) ≡ [] → xs ≡ []
otherwise true xs e h = cc
otherwise false xs e h = h

pub order_problems-ok :
    (problem : WavesError → Problem) (r : Result WavesError (List (List String)))
    → order_problems problem r ≡ []
    → (groups : List (List String)) × (r ≡ ok groups)
unfolding order_problems
order_problems-ok problem (ok groups) h = (groups, refl)
order_problems-ok problem (err e) h = cc
