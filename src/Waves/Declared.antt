-- ===== src/Waves/Declared.antt =====
-- pkg/citypes/waves.go and pkg/config/config.go: the needs that are declared one by one, in the map that
-- `NeedsOf` and `SubstageNeeds` make of them.
use forge_ci.Common.{
  Among, String, ◌≡◌, ◌≢◌, refl, sym, ap, ◌∙◌, subst, true, false, List, [], ◌∷◌, ◌++◌, ◌==◌,
  member, map, inl, inr, arith, eq_iff, All, Bool-cases, eq_of_==,
}
use mathlib.Core.Bool.{false≢true}
use forge_ci.Waves.{Needs, needs_at}
use forge_ci.Waves.Order.{Follows, NeedsDone}

-- A name, and what it declares to need.
abbrev pub Entry : Type 0
Entry = String × List String

abbrev pub names_of : List Entry → List String
names_of entries = map (λ entry. entry.0) entries

abbrev pub IsDistinct : List String → Type 0
IsDistinct [] = Unit
IsDistinct (x ∷ xs) = (member x xs ≡ false) × IsDistinct xs

-- Each wave that holds the name stands behind one that holds the need, or behind `done`.
abbrev pub Earlier : (need name : String) → List String → List (List String) → Type 0
Earlier need name done [] = Unit
Earlier need name done (wave ∷ later) =
    (member name wave ≡ true → member need done ≡ true) × Earlier need name (wave ++ done) later

-- A later entry of a name wins, unless it needs nothing.
abbrev pub entered : String → List String → Needs → Needs
entered name [] needs = needs
entered name (n ∷ ns) needs = (name, n ∷ ns) ∷ needs

abbrev pub all_entered : Needs → List Entry → Needs
all_entered needs [] = needs
all_entered needs ((name, ns) ∷ entries) = all_entered (entered name ns needs) entries

entered-apart :
    (name other : String) (ns : List String) (needs : Needs)
    → other ≢ name
    → needs_at (entered other ns needs) name ≡ needs_at needs name
entered-apart name other [] needs apart = refl
entered-apart name other (n ∷ ns) needs apart = ground (arith, eq_iff other name, apart)

entered-same :
    (name : String) (ns : List String) (needs : Needs)
    → needs_at needs name ≡ []
    → needs_at (entered name ns needs) name ≡ ns
entered-same name [] needs none = none
entered-same name (n ∷ ns) needs none = ground (arith, eq_iff name name)

all_entered-apart :
    (name : String) (needs : Needs) (entries : List Entry)
    → member name (names_of entries) ≡ false
    → needs_at (all_entered needs entries) name ≡ needs_at needs name
all_entered-apart name needs [] h = refl
all_entered-apart name needs ((other, ns) ∷ entries) h =
    all_entered-apart name (entered other ns needs) entries (ground (arith, h))
    ∙ entered-apart name other ns needs (ground (arith, h, eq_iff other name, eq_iff name other))

Among-member :
    (name : String) (ns : List String) (entries : List Entry)
    → Among (name, ns) entries
    → member name (names_of entries) ≡ true
Among-member name ns [] among = absurd among
Among-member name ns ((x, xs) ∷ entries) (inl e) =
    let same : x ≡ name = ap (λ entry. entry.0) e in
    ground (arith, same, eq_iff x name, eq_iff name x)
Among-member name ns ((x, xs) ∷ entries) (inr later) =
    ground (arith, Among-member name ns entries later)

-- What stands in the map under a name is what the name declares.
pub needs_at-declared :
    (name : String) (ns : List String) (needs : Needs) (entries : List Entry)
    → IsDistinct (names_of entries)
    → needs_at needs name ≡ []
    → Among (name, ns) entries
    → needs_at (all_entered needs entries) name ≡ ns
needs_at-declared name ns needs [] distinct none among = absurd among
needs_at-declared name ns needs ((x, xs) ∷ entries) distinct none (inl e) =
    let same : x ≡ name = ap (λ entry. entry.0) e in
    let needed : xs ≡ ns = ap (λ entry. entry.1) e in
    all_entered-apart name (entered x xs needs) entries
      (subst (λ y. member y (names_of entries) ≡ false) same distinct.0)
    ∙ ap (λ y. needs_at (entered y xs needs) name) same
    ∙ entered-same name xs needs none
    ∙ needed
needs_at-declared name ns needs ((x, xs) ∷ entries) distinct none (inr later) =
    let found = Among-member name ns entries later in
    let apart : x ≢ name =
      λ e. false≢true (sym distinct.0 ∙ ap (λ y. member y (names_of entries)) e ∙ found) in
    needs_at-declared name ns (entered x xs needs) entries distinct.1
      (entered-apart name x xs needs apart ∙ none) later

All-at : (P : String → Type 0) (xs : List String) (a : String) → All P xs → member a xs ≡ true → P a
All-at P [] a all m = cc
All-at P (x ∷ xs) a all m = elim (Bool-cases (x == a)) [
  | inl same ↦ subst P (eq_of_== same) all.0
  | inr other ↦ All-at P xs a all.1 (ground (arith, other, m))
]

Follows-Earlier :
    (need name : String) (needs : Needs) (names done : List String) (groups : List (List String))
    → member need (needs_at needs name) ≡ true
    → need ≢ name
    → member need names ≡ true
    → Follows needs names done groups
    → Earlier need name done groups
Follows-Earlier need name needs names done [] h apart named follows = tt
Follows-Earlier need name needs names done (wave ∷ later) h apart named follows = (
  λ m. All-at (NeedsDone needs names done) wave name follows.0 m need h apart named,
  Follows-Earlier need name needs names (wave ++ done) later h apart named follows.1,
)

-- Waves that follow the map stand in the order that the entries declare.
pub Follows-IsBehind :
    (entries : List Entry) (among : List String) (groups : List (List String))
    → IsDistinct (names_of entries)
    → Follows (all_entered [] entries) among [] groups
    → (name need : String) (needs : List String) → Among (name, needs) entries
    → member need needs ≡ true
    → need ≢ name
    → member need among ≡ true
    → Earlier need name [] groups
Follows-IsBehind entries among groups distinct follows name need needs entry h apart named =
    let declared = needs_at-declared name needs [] entries distinct refl entry in
    Follows-Earlier need name (all_entered [] entries) among [] groups
      (ap (λ l. member need l) declared ∙ h) apart named follows

pub Among-map :
    {A B : Type 0} (f : A → B) (a : A) (xs : List A) → Among a xs → Among (f a) (map f xs)
Among-map f a [] among = absurd among
Among-map f a (x ∷ xs) (inl e) = inl (ap f e)
Among-map f a (x ∷ xs) (inr later) = inr (Among-map f a xs later)

pub names_of-map :
    {A : Type 0} (f : A → Entry) (xs : List A) → names_of (map f xs) ≡ map (λ x. (f x).0) xs
names_of-map f [] = refl
names_of-map f (x ∷ xs) = ap (λ rest. (f x).0 ∷ rest) (names_of-map f xs)
