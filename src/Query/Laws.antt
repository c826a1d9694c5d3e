-- ===== src/Query/Laws.antt =====
-- What a filter accepts.
use cloudinfo.Prelude.{
  ◌≡◌, refl, ◌↔◌, inl, inr, Bool, true, false, not, List, [], ◌∷◌, Option, none, some, any, In,
  arith, Bool-cases, not, ◌&&◌,
}
use cloudinfo.Query.{is_set, Compared, Filter, fails, apply_filter, float_compared}

abbrev pub OnSome : {A : Type 0} → Option A → (A → Type 0) → Type 0
OnSome none P = Unit
OnSome (some x) P = P x

fails_iff :
    {A : Type 0} (field : Option A) (test : A → Bool)
    → (fails field test ≡ false) ↔ OnSome field (λ x. test x ≡ true)
fails_iff none test = (λ h. tt, λ h. refl)
fails_iff (some x) test = (λ h. ground arith, λ h. ground arith)

fails-not_iff :
    {A : Type 0} (field : Option A) (test : A → Bool)
    → (fails field (λ x. not (test x)) ≡ false) ↔ OnSome field (λ x. test x ≡ false)
fails-not_iff none test = (λ h. tt, λ h. refl)
fails-not_iff (some x) test = (λ h. ground arith, λ h. ground arith)

pub any_sound :
    {A : Type 0} (test : A → Bool) (xs : List A)
    → any test xs ≡ true
    → (x : A) × In x xs × (test x ≡ true)
any_sound test [] h = cc
any_sound test (x ∷ xs) h = elim (Bool-cases (test x)) [
  | inl e ↦ (x, inl refl, e)
  | inr e ↦ let (y, m, t) = any_sound test xs (ground arith) in (y, inr m, t)
]

pub any_complete :
    {A : Type 0} (test : A → Bool) (xs : List A) (x : A)
    → In x xs
    → test x ≡ true
    → any test xs ≡ true
any_complete test [] x m t = elim m [ ]
any_complete test (y ∷ xs) x (inl e) t = rw (← e, t)
any_complete test (y ∷ xs) x (inr m) t = ground (arith, any_complete test xs x m t)

among_iff :
    {A : Type 0} (field : Option (List A)) (test : A → Bool)
    → (fails field (any test) ≡ false) ↔ OnSome field (λ xs. (x : A) × In x xs × (test x ≡ true))
among_iff none test = (λ h. tt, λ h. refl)
among_iff (some xs) test =
    (λ h. any_sound test xs (ground arith), λ (x, m, t). ground (arith, any_complete test xs x m t))

module _ {A : Type 0} ⦃o : Compared A⦄ where
  -- The conditions that the fields of a filter other than `Nin` put on a value.
  pub record Accepts (value : A) (filter : Filter A) : Type 0 where
    pub eq : OnSome filter.eq (λ x. o.eq value x ≡ true)
    pub ne : OnSome filter.ne (λ x. o.eq value x ≡ false)
    pub lt : OnSome filter.lt (λ x. o.lt value x ≡ true)
    pub lte : OnSome filter.lte (λ x. o.le value x ≡ true)
    pub gt : OnSome filter.gt (λ x. o.lt x value ≡ true)
    pub gte : OnSome filter.gte (λ x. o.le x value ≡ true)
    pub among : OnSome filter.in_list (λ xs. (x : A) × In x xs × (o.eq value x ≡ true))

  -- Without `Nin` a filter passes exactly the values that meet each of its conditions.
  pub apply_filter_iff :
      (value : A) (filter : Filter A)
      → filter.nin_list ≡ none
      → (apply_filter value filter ≡ true) ↔ Accepts value filter
  unfolding apply_filter
  apply_filter_iff value filter n = (
    λ h. record {
      eq = (fails_iff filter.eq _).0 (ground arith);
      ne = (fails-not_iff filter.ne _).0 (ground arith);
      lt = (fails_iff filter.lt _).0 (ground arith);
      lte = (fails_iff filter.lte _).0 (ground arith);
      gt = (fails_iff filter.gt _).0 (ground arith);
      gte = (fails_iff filter.gte _).0 (ground arith);
      among = (among_iff filter.in_list _).0 (ground arith);
    },
    λ a. rw (
      n,
      (fails_iff filter.eq _).1 a.eq,
      (fails-not_iff filter.ne _).1 a.ne,
      (fails_iff filter.lt _).1 a.lt,
      (fails_iff filter.lte _).1 a.lte,
      (fails_iff filter.gt _).1 a.gt,
      (fails_iff filter.gte _).1 a.gte,
      (among_iff filter.in_list _).1 a.among,
    ),
  )

  -- `Nin` is never compared with the value: a filter that has it passes what the filter without it
  -- passes if `In` is nil, and nothing if `In` is there.
  pub apply_filter_nin :
      (value : A) (filter : Filter A) (xs : List A)
      → filter.nin_list ≡ some xs
      → apply_filter value filter
        ≡ (not (is_set filter.in_list) && apply_filter value (record filter { nin_list = none }))
  unfolding apply_filter
  apply_filter_nin value filter xs h = ground arith
