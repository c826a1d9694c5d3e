-- ===== src/Providers/Groups.antt =====
-- The loops of the clients over a Go map from names to lists of texts, which end at the first list
-- that has a text. The map is visited in some order, so the lists must not overlap.
use cloudinfo.Prelude.{
  String, ◌≡◌, refl, sym, ap, ◌∙◌, ◌↔◌, ◌≢◌, inl, inr, Bool, true, false, not, ◌&&◌, List, [], ◌∷◌,
  Option, some, none, In, str_eq, eq_iff, if◌then◌else◌, Bool-cases, Option-cases, some-injective,
  arith, subst,
}
use cloudinfo.CloudInfo.{contains_text}

-- `for name, values := range groups { if Contains(values, s) { return name } }`
unfoldable pub group_of : List (String × List String) → String → Option String
group_of [] s = none
group_of ((name, values) ∷ groups) s =
    let later = group_of groups s in if contains_text values s then some name else later

-- No text of the first list is in the second.
abbrev apart : List String → List String → Bool
apart [] other = true
apart (v ∷ values) other = not (contains_text other v) && apart values other

abbrev apart_from_all : List String → List (String × List String) → Bool
apart_from_all values [] = true
apart_from_all values ((name, other) ∷ groups) = apart values other && apart_from_all values groups

-- No text is in two lists.
abbrev pub are_disjoint : List (String × List String) → Bool
are_disjoint [] = true
are_disjoint ((name, values) ∷ groups) = apart_from_all values groups && are_disjoint groups

group_of-some :
    (groups : List (String × List String)) (s name : String)
    → group_of groups s ≡ some name
    → (values : List String) × In (name, values) groups × (contains_text values s ≡ true)
unfolding group_of contains_text
group_of-some [] s name e = cc
group_of-some ((n, values) ∷ groups) s name e = elim (Bool-cases (contains_text values s)) [
  | inl here ↦ (values, inl (rw (some-injective (rw here at e)) refl), here)
  | inr elsewhere ↦
      let later = group_of-some groups s name (rw elsewhere at e) in (later.0, inr later.1, later.2)
]

group_of-In :
    (groups : List (String × List String)) (s name : String) (values : List String)
    → In (name, values) groups
    → contains_text values s ≡ true
    → group_of groups s ≢ none
unfolding group_of contains_text
group_of-In [] s name values i h = elim i [ ]
group_of-In ((n, vs) ∷ groups) s name values (inl e) h =
    ground (arith, subst (λ p. contains_text p.1 s ≡ true) e h)
group_of-In ((n, vs) ∷ groups) s name values (inr i) h =
    ground (arith, group_of-In groups s name values i h)

apart-contains :
    (values other : List String) (s : String)
    → apart values other ≡ true
    → contains_text values s ≡ true
    → contains_text other s ≡ false
unfolding contains_text
apart-contains [] other s d h = cc
apart-contains (v ∷ values) other s d h = elim (Bool-cases (str_eq v s)) [
  | inl same ↦ subst (λ t. contains_text other t ≡ false) ((eq_iff v s).0 same) (ground arith)
  | inr different ↦ apart-contains values other s (ground arith) (ground arith)
]

apart_from_all-In :
    (values : List String) (groups : List (String × List String)) (name s : String)
    (other : List String)
    → apart_from_all values groups ≡ true
    → In (name, other) groups
    → contains_text values s ≡ true
    → contains_text other s ≡ false
apart_from_all-In values [] name s other d i h = elim i [ ]
apart_from_all-In values ((n, o) ∷ groups) name s other d (inl e) h =
    ap (λ p. contains_text p.1 s) e ∙ apart-contains values o s (ground arith) h
apart_from_all-In values ((n, o) ∷ groups) name s other d (inr i) h =
    apart_from_all-In values groups name s other (ground arith) i h

same_group :
    (groups : List (String × List String)) (a b s : String) (va vb : List String)
    → are_disjoint groups ≡ true
    → In (a, va) groups
    → In (b, vb) groups
    → contains_text va s ≡ true
    → contains_text vb s ≡ true
    → a ≡ b
same_group [] a b s va vb d i j ha hb = elim i [ ]
same_group ((n, vs) ∷ groups) a b s va vb d (inl e) (inl f) ha hb = ap (λ p. p.0) (e ∙ sym f)
same_group ((n, vs) ∷ groups) a b s va vb d (inl e) (inr j) ha hb = cc (
  hb,
  apart_from_all-In vs groups b s vb (ground arith) j
      (subst (λ p. contains_text p.1 s ≡ true) e ha),
)
same_group ((n, vs) ∷ groups) a b s va vb d (inr i) (inl f) ha hb = cc (
  ha,
  apart_from_all-In vs groups a s va (ground arith) i
      (subst (λ p. contains_text p.1 s ≡ true) f hb),
)
same_group ((n, vs) ∷ groups) a b s va vb d (inr i) (inr j) ha hb =
    same_group groups a b s va vb (ground arith) i j ha hb

-- Over disjoint lists the loop finds the same whatever the order in which the map is visited.
pub group_of-order :
    (groups visited : List (String × List String)) (s : String)
    → are_disjoint groups ≡ true
    → ((name : String) (values : List String)
        → In (name, values) visited ↔ In (name, values) groups)
    → group_of visited s ≡ group_of groups s
group_of-order groups visited s d same = elim (Option-cases (group_of groups s)) [
  | inl missing ↦ elim (Option-cases (group_of visited s)) [
    | inl also ↦ also ∙ sym missing
    | inr (b, there) ↦
        let (values, i, h) = group_of-some visited s b there in
        elim (group_of-In groups s b values ((same b values).0 i) h missing) [ ]
  ]
  | inr (a, here) ↦
      let (va, i, ha) = group_of-some groups s a here in
      elim (Option-cases (group_of visited s)) [
        | inl missing ↦ elim (group_of-In visited s a va ((same a va).1 i) ha missing) [ ]
        | inr (b, there) ↦
            let (vb, j, hb) = group_of-some visited s b there in
            there ∙ ap some (same_group groups b a s vb va d ((same b vb).0 j) i hb ha) ∙ sym here
      ]
]
