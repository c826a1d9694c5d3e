-- ===== src/Loader/Filters.antt =====
-- What the strategies of the loader select.
use cloudinfo.Prelude.{
  String, ◌≡◌, refl, sym, ◌≢◌, ◌↔◌, inl, inr, Bool, true, false, not, List, [], ◌∷◌, any, keep, In,
  subst, str_eq, eq_iff, eq_refl, arith, Bool-cases,
}
use cloudinfo.Types.{VmInfo, Image}
use cloudinfo.CloudInfo.{contains_text}
use cloudinfo.Loader.{
  exclude_zones, include_zones, exclude_images, contains_vm, exclude_vms, include_vms,
}

module _ {A : Type 0} (p : A → Bool) where
  keep_sound : (xs : List A) (x : A) → In x (keep p xs) → In x xs × (p x ≡ true)
  keep_sound [] x m = elim m [ ]
  keep_sound (y ∷ xs) x m = elim (Bool-cases (p y)) [
    | inl e ↦ elim (rw e at m) [
      | inl same ↦ (inl same, subst (λ z. p z ≡ true) (sym same) e)
      | inr later ↦ (inr (keep_sound xs x later).0, (keep_sound xs x later).1)
    ]
    | inr e ↦ (inr (keep_sound xs x (rw e at m)).0, (keep_sound xs x (rw e at m)).1)
  ]

  keep_complete : (xs : List A) (x : A) → In x xs → p x ≡ true → In x (keep p xs)
  keep_complete [] x m e = elim m [ ]
  keep_complete (y ∷ xs) x (inl same) e = rw (subst (λ z. p z ≡ true) same e) (inl same)
  keep_complete (y ∷ xs) x (inr m) e = elim (Bool-cases (p y)) [
    | inl h ↦ rw h (inr (keep_complete xs x m e))
    | inr h ↦ rw h (keep_complete xs x m e)
  ]

  keep-In : (xs : List A) (x : A) → In x (keep p xs) ↔ (In x xs × (p x ≡ true))
  keep-In xs x = (keep_sound xs x, λ h. keep_complete xs x h.0 h.1)

  -- What a loop that ends at the first passing entry finds.
  pub record Found (xs : List A) : Type 0 where
    pub entry : A
    pub listed : In entry xs
    pub passes : p entry ≡ true

  pub any-Found : (xs : List A) → any p xs ≡ true → Found xs
  any-Found [] h = cc
  any-Found (x ∷ xs) h = elim (Bool-cases (p x)) [
    | inl e ↦ record { entry = x; listed = inl refl; passes = e }
    | inr e ↦
        let f = any-Found xs (rw e at h) in
        record { entry = f.entry; listed = inr f.listed; passes = f.passes }
  ]

  pub Found-any : (xs : List A) (x : A) → In x xs → p x ≡ true → any p xs ≡ true
  Found-any [] x m e = elim m [ ]
  Found-any (y ∷ xs) x (inl same) e = rw (subst (λ z. p z ≡ true) same e) refl
  Found-any (y ∷ xs) x (inr m) e = ground (arith, Found-any xs x m e)

pub not-true : (b : Bool) → (not b ≡ true) ↔ (b ≢ true)
not-true true = (λ h e. cc, λ h. elim (h refl) [ ])
not-true false = (λ h e. cc, λ h. refl)

pub contains_text-In : (xs : List String) (x : String) → (contains_text xs x ≡ true) ↔ In x xs
unfolding contains_text
contains_text-In xs x = (
  λ h.
      let f = any-Found (λ e. str_eq e x) xs h in
      subst (λ y. In y xs) ((eq_iff f.entry x).0 f.passes) f.listed,
  λ m. Found-any (λ e. str_eq e x) xs x m (eq_refl x),
)

-- A list of zones for the strategy "exclude" leaves exactly the other zones of the source, and
-- one for "include" exactly the zones that are in both.
pub zones_iff :
    (zones listed : List String) (zone : String)
    → (In zone (exclude_zones zones listed) ↔ (In zone zones × (In zone listed → ⊥)))
      × (In zone (include_zones zones listed) ↔ (In zone zones × In zone listed))
unfolding exclude_zones include_zones
zones_iff zones listed zone =
    let excluded = keep-In (λ z. not (contains_text listed z)) zones zone in
    let included = keep-In (λ z. contains_text zones z) listed zone in
    let is_listed = contains_text-In listed zone in
    let is_zone = contains_text-In zones zone in
    let negated = not-true (contains_text listed zone) in
    (
      (
        λ m. ((excluded.0 m).0, λ i. negated.0 (excluded.0 m).1 (is_listed.1 i)),
        λ h. excluded.1 (h.0, negated.1 (λ t. h.1 (is_listed.0 t))),
      ),
      (λ m. (is_zone.0 (included.0 m).1, (included.0 m).0), λ h. included.1 (h.1, is_zone.1 h.0)),
    )

-- A virtual machine of the type stands in the list.
pub record IsTypeListed (listed : List VmInfo) (vm_type : String) : Type 0 where
  pub vm : VmInfo
  pub named : In vm listed
  pub same : vm.type ≡ vm_type

contains_vm-IsTypeListed :
    (listed : List VmInfo) (vm_type : String)
    → (contains_vm listed vm_type ≡ true) ↔ IsTypeListed listed vm_type
unfolding contains_vm
contains_vm-IsTypeListed listed vm_type = (
  λ h.
      let f = any-Found (λ vm. str_eq vm.type vm_type) listed h in
      record { vm = f.entry; named = f.listed; same = (eq_iff f.entry.type vm_type).0 f.passes },
  λ t.
      Found-any (λ vm. str_eq vm.type vm_type) listed t.vm t.named
        ((eq_iff t.vm.type vm_type).1 t.same),
)

-- The machines of the source that are left by "exclude" are those whose type no listed machine
-- has, and those that are taken by "include" those whose type a listed machine has. They keep
-- the source's data.
pub vms_iff :
    (vms listed : List VmInfo) (vm : VmInfo)
    → (In vm (exclude_vms vms listed) ↔ (In vm vms × (IsTypeListed listed vm.type → ⊥)))
      × (In vm (include_vms vms listed) ↔ (In vm vms × IsTypeListed listed vm.type))
unfolding exclude_vms include_vms
vms_iff vms listed vm =
    let excluded = keep-In (λ v. not (contains_vm listed v.type)) vms vm in
    let included = keep-In (λ v. contains_vm listed v.type) vms vm in
    let is_listed = contains_vm-IsTypeListed listed vm.type in
    let negated = not-true (contains_vm listed vm.type) in
    (
      (
        λ m. ((excluded.0 m).0, λ i. negated.0 (excluded.0 m).1 (is_listed.1 i)),
        λ h. excluded.1 (h.0, negated.1 (λ t. h.1 (is_listed.0 t))),
      ),
      (
        λ m. ((included.0 m).0, is_listed.0 (included.0 m).1),
        λ h. included.1 (h.0, is_listed.1 h.1),
      ),
    )

-- An image of another name stands in the list.
pub record IsOtherListed (listed : List Image) (name : String) : Type 0 where
  pub image : Image
  pub named : In image listed
  pub other : image.name ≢ name

-- For images "exclude" leaves an image exactly if some listed image has another name. So a
-- listed image is left unless every listed image has its name, and with an empty list nothing is
-- left.
pub exclude_images_iff :
    (images listed : List Image) (image : Image)
    → In image (exclude_images images listed) ↔ (In image images × IsOtherListed listed image.name)
unfolding exclude_images
exclude_images_iff images listed image =
    let differs = λ (i : Image). λ (o : Image). not (str_eq o.name i.name) in
    let kept = keep-In (λ i. any (differs i) listed) images image in
    (
      λ m.
          let f = any-Found (differs image) listed (kept.0 m).1 in
          (
            (kept.0 m).0,
            record {
              image = f.entry;
              named = f.listed;
              other = λ e.
                  (not-true (str_eq f.entry.name image.name)).0 f.passes
                    ((eq_iff f.entry.name image.name).1 e);
            },
          ),
      λ h. kept.1 (
        h.0,
        Found-any (differs image) listed h.1.image h.1.named (
            (not-true (str_eq h.1.image.name image.name)).1
              (λ e. h.1.other ((eq_iff h.1.image.name image.name).0 e))),
      ),
    )
