-- ===== src/Scrape/Prices/Merge.antt =====
-- The orders in which the steps of several goroutines can come.
use cloudinfo.Prelude.{◌≡◌, refl, ◌⊎◌, ◌↔◌, inl, inr, List, [], ◌∷◌, ◌++◌, All, In, subst}

module _ {A : Type 0} where
  -- The next step of one of the threads, and what the threads have still to do after it.
  pub data Takes : A → List (List A) → List (List A) → Type 0 where
    first :
        {a : A}
        → {thread : List A} → {threads : List (List A)}
        → Takes a ((a ∷ thread) ∷ threads) (thread ∷ threads)
    later :
        {a : A}
        → {thread : List A} → {threads rest : List (List A)} → Takes a threads rest
        → Takes a (thread ∷ threads) (thread ∷ rest)

  pub data IsMerge : List (List A) → List A → Type 0 where
    ends : {threads : List (List A)} → All (λ t. t ≡ []) threads → IsMerge threads []
    takes :
        {a : A}
        → {threads rest : List (List A)} → {trace : List A} → Takes a threads rest
        → IsMerge rest trace
        → IsMerge threads (a ∷ trace)

  abbrev pub InSome : A → List (List A) → Type 0
  InSome a [] = ⊥
  InSome a (thread ∷ threads) = In a thread ⊎ InSome a threads

  Takes-In_out :
      (a x : A) (threads rest : List (List A))
      → Takes a threads rest
      → InSome x threads
      → (x ≡ a) ⊎ InSome x rest
  Takes-In_out a x threads rest first (inl (inl e)) = inl e
  Takes-In_out a x threads rest first (inl (inr m)) = inr (inl m)
  Takes-In_out a x threads rest first (inr m) = inr (inr m)
  Takes-In_out a x threads rest (later h) (inl m) = inr (inl m)
  Takes-In_out a x threads rest (later {threads = ts} {rest = us} h) (inr m) =
      elim (Takes-In_out a x ts us h m) [ inl e ↦ inl e | inr n ↦ inr (inr n) ]

  Takes-In_back :
      (a x : A) (threads rest : List (List A))
      → Takes a threads rest
      → (x ≡ a) ⊎ InSome x rest
      → InSome x threads
  Takes-In_back a x threads rest first (inl e) = inl (inl e)
  Takes-In_back a x threads rest first (inr (inl m)) = inl (inr m)
  Takes-In_back a x threads rest first (inr (inr m)) = inr m
  Takes-In_back a x threads rest (later {threads = ts} {rest = us} h) (inl e) =
      inr (Takes-In_back a x ts us h (inl e))
  Takes-In_back a x threads rest (later h) (inr (inl m)) = inl m
  Takes-In_back a x threads rest (later {threads = ts} {rest = us} h) (inr (inr m)) =
      inr (Takes-In_back a x ts us h (inr m))

  none_left : (x : A) (threads : List (List A)) → All (λ t. t ≡ []) threads → InSome x threads → ⊥
  none_left x [] h m = m
  none_left x (t ∷ threads) (e, h) (inl m) = subst (λ u. In x u) e m
  none_left x (t ∷ threads) (e, h) (inr m) = none_left x threads h m

  IsMerge-In_out :
      (x : A) (threads : List (List A)) (trace : List A)
      → IsMerge threads trace
      → InSome x threads
      → In x trace
  IsMerge-In_out x threads trace (ends h) m = none_left x threads h m
  IsMerge-In_out x threads trace (takes {a = a} {rest = rest} t merged) m =
      elim (Takes-In_out a x threads rest t m) [
        | inl e ↦ inl e
        | inr n ↦ inr (IsMerge-In_out x rest _ merged n)
      ]

  IsMerge-In_back :
      (x : A) (threads : List (List A)) (trace : List A)
      → IsMerge threads trace
      → In x trace
      → InSome x threads
  IsMerge-In_back x threads trace (ends h) m = elim m [ ]
  IsMerge-In_back x threads trace (takes {a = a} {rest = rest} t merged) (inl e) =
      Takes-In_back a x threads rest t (inl e)
  IsMerge-In_back x threads trace (takes {a = a} {rest = rest} t merged) (inr m) =
      Takes-In_back a x threads rest t (inr (IsMerge-In_back x rest _ merged m))

  -- Every step of a thread is in the merged order, and no other.
  pub IsMerge-In :
      (x : A) (threads : List (List A)) (trace : List A)
      → IsMerge threads trace
      → InSome x threads ↔ In x trace
  IsMerge-In x threads trace m =
      (IsMerge-In_out x threads trace m, IsMerge-In_back x threads trace m)

  later_all :
      (threads : List (List A)) (trace : List A)
      → IsMerge threads trace
      → IsMerge ([] ∷ threads) trace
  later_all threads trace (ends h) = ends (refl, h)
  later_all threads trace (takes t m) = takes (later t) (later_all _ _ m)

  one_thread :
      (thread : List A) (threads : List (List A)) (trace : List A)
      → IsMerge threads trace
      → IsMerge (thread ∷ threads) (thread ++ trace)
  one_thread [] threads trace m = later_all threads trace m
  one_thread (a ∷ thread) threads trace m = takes first (one_thread thread threads trace m)

  -- The order in which one thread runs to its end before the next one starts.
  abbrev pub one_by_one : List (List A) → List A
  one_by_one [] = []
  one_by_one (thread ∷ threads) = thread ++ one_by_one threads

  -- There is an order, so the threads can all end.
  pub one_by_one-IsMerge : (threads : List (List A)) → IsMerge threads (one_by_one threads)
  one_by_one-IsMerge [] = ends tt
  one_by_one-IsMerge (thread ∷ threads) = one_thread thread threads _ (one_by_one-IsMerge threads)
