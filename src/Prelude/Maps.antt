-- ===== src/Prelude/Maps.antt =====
-- A Go `map` with text keys: its entries in the order in which a `range` loop would visit them.
-- That order is not specified, so whatever is stated for every list holds for every order.
use Prim.Native.String.{String}
use mathlib.Core.Path.{◌≡◌, refl, sym, ap, ◌∙◌}
use mathlib.Core.Logic.{◌≢◌, inl, inr}
use mathlib.Core.Option.{Option, none, some}
use mathlib.Core.List.{List, [], ◌∷◌}
use native.Mathlib.Omega.{arith}
use text.Mathlib.Text.{◌==◌ as str_eq}
use text.Mathlib.TextEquality.{eq_iff}
use cloudinfo.Prelude.Lists.{In}
use cloudinfo.Prelude.Tests.{if◌then◌else◌}

module _ {ℓ} {V : Type ℓ} where
  -- `value, ok := entries[key]`
  unfoldable pub lookup : String → List (String × V) → Option V
  lookup key [] = none
  lookup key ((name, value) ∷ entries) =
      let later = lookup key entries in if str_eq name key then some value else later

  -- `entries[key] = value`
  unfoldable pub insert : String → V → List (String × V) → List (String × V)
  insert key value [] = (key, value) ∷ []
  insert key value ((name, old) ∷ entries) =
      let kept = (name, old) ∷ insert key value entries in
      if str_eq name key then (key, value) ∷ entries else kept

  pub lookup-insert :
      (key other : String) (value : V) (entries : List (String × V))
      → lookup other (insert key value entries)
        ≡ (if str_eq key other then some value else lookup other entries)
  unfolding insert lookup
  lookup-insert key other value ((name, old) ∷ entries) =
      let before = lookup-insert key other value entries in
      ground (arith, before, eq_iff name other, eq_iff name key, eq_iff key other)
  lookup-insert key other value [] = refl

  -- No key stands twice, as in every Go map.
  abbrev pub Absent : String → List (String × V) → Type 0
  Absent k [] = Unit
  Absent k ((j, v) ∷ m) = (j ≢ k) × Absent k m

  abbrev pub HasDistinctKeys : List (String × V) → Type 0
  HasDistinctKeys [] = Unit
  HasDistinctKeys ((j, v) ∷ m) = Absent j m × HasDistinctKeys m

  pub lookup-Absent : (k : String) (m : List (String × V)) → Absent k m → lookup k m ≡ none
  unfolding lookup
  lookup-Absent k [] h = refl
  lookup-Absent k ((j, v) ∷ m) h = ground (arith, eq_iff j k, lookup-Absent k m h.1)

  pub Absent-insert :
      (k j : String) (v : V) (m : List (String × V)) → j ≢ k → Absent k m → Absent k (insert j v m)
  unfolding insert
  Absent-insert k j v [] n h = (n, tt)
  Absent-insert k j v ((i, w) ∷ m) n h = ground (arith, eq_iff i j, Absent-insert k j v m n h.1)

  pub insert-HasDistinctKeys :
      (k : String) (v : V) (m : List (String × V))
      → HasDistinctKeys m
      → HasDistinctKeys (insert k v m)
  unfolding insert
  insert-HasDistinctKeys k v [] h = (tt, tt)
  insert-HasDistinctKeys k v ((j, w) ∷ m) h =
      ground (arith, eq_iff j k, Absent-insert j k v m, insert-HasDistinctKeys k v m h.1)

module _ {V : Type 0} where
  pub Absent-In : (k j : String) (v : V) (m : List (String × V)) → Absent k m → In (j, v) m → k ≢ j
  Absent-In k j v [] h i = elim i [ ]
  Absent-In k j v ((l, w) ∷ m) (n, h) (inl e) = λ same. n (sym (same ∙ ap (λ p. p.0) e))
  Absent-In k j v ((l, w) ∷ m) (n, h) (inr i) = Absent-In k j v m h i

  pub In-unique :
      (k : String) (v w : V) (m : List (String × V))
      → HasDistinctKeys m
      → In (k, v) m
      → In (k, w) m
      → v ≡ w
  In-unique k v w [] d i j = elim i [ ]
  In-unique k v w ((l, u) ∷ m) (a, d) (inl e) (inl f) = ap (λ p. p.1) (e ∙ sym f)
  In-unique k v w ((l, u) ∷ m) (a, d) (inl e) (inr j) =
      elim (Absent-In l k w m a j (ap (λ p. p.0) (sym e))) [ ]
  In-unique k v w ((l, u) ∷ m) (a, d) (inr i) (inl f) =
      elim (Absent-In l k v m a i (ap (λ p. p.0) (sym f))) [ ]
  In-unique k v w ((l, u) ∷ m) (a, d) (inr i) (inr j) = In-unique k v w m d i j
