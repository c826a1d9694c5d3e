-- ===== src/Scrape/Prices/Agreement.antt =====
-- The prices that are stored when the goroutines of all regions have ended.
use cloudinfo.Prelude.{
  String, ◌≡◌, refl, ap, ◌∙◌, ◌≢◌, ◌⊎◌, inl, inr, List, [], ◌∷◌, Option, some, Bool-cases, In,
  subst, str_eq, eq_iff,
}
use cloudinfo.Prelude.Text.{IsName}
use cloudinfo.Types.{Price}
use cloudinfo.Store.Key.{price_key}
use cloudinfo.Store.Interface.{CloudInfoStore, get_price, store_price}
use cloudinfo.Scrape.{CloudInfoer, World, emit}
use cloudinfo.Scrape.Prices.{Action, stores, reports, perform}

same_or_not : (a b : String) → (a ≡ b) ⊎ (a ≢ b)
same_or_not a b = elim (Bool-cases (str_eq a b)) [
  | inl e ↦ inl ((eq_iff a b).0 e)
  | inr e ↦ inr λ same. cc (e, (eq_iff a b).1 same)
]

module _ (st : CloudInfoStore) (infoer : CloudInfoer) (provider : String) where
  -- No name in the trace holds a slash.
  abbrev pub AreNamed : List Action → Type 0
  AreNamed trace =
      (region inst_type : String) (price : Price)
      → In (stores region inst_type price) trace
      → IsName region × IsName inst_type

  module _ (hp : IsName provider) (region inst_type : String) (hr : IsName region)
      (ht : IsName inst_type) where
    abbrev stored_price : World st infoer provider → Option Price
    stored_price w = get_price st w.store provider region inst_type

    store_price_other :
        (r t : String) (q : Price) (s : st.State)
        → IsName r
        → IsName t
        → (region ≢ r) ⊎ (inst_type ≢ t)
        → get_price st (store_price st s provider r t q) provider region inst_type
          ≡ get_price st s provider region inst_type
    store_price_other r t q s nr nt (inl ne) =
        st.fetch-put_other s (price_key provider region inst_type) (price_key provider r t) q
          (hp, hr, ht) (hp, nr, nt) λ e. ne (cc)
    store_price_other r t q s nr nt (inr ne) =
        st.fetch-put_other s (price_key provider region inst_type) (price_key provider r t) q
          (hp, hr, ht) (hp, nr, nt) λ e. ne (cc)

    store_price_same :
        (r t : String) (q : Price) (s : st.State)
        → region ≡ r
        → inst_type ≡ t
        → get_price st (store_price st s provider r t q) provider region inst_type ≡ some q
    store_price_same r t q s e f =
        subst
          (λ x. get_price st (store_price st s provider x t q) provider region inst_type ≡ some q) e
          (subst
            (λ y.
              get_price st (store_price st s provider region y q) provider region inst_type
              ≡ some q)
            f (st.fetch-put s (price_key provider region inst_type) q (hp, hr, ht)))

    -- A call that stores a price stores ours or leaves ours alone.
    store_price_cases :
        (r t : String) (q : Price) (s : st.State)
        → IsName r
        → IsName t
        → ((◌≡◌ {A = Action} (stores region inst_type q) (stores r t q))
            × (get_price st (store_price st s provider r t q) provider region inst_type ≡ some q))
          ⊎ (((p : Price) → stores region inst_type p ≢ stores r t q)
              × (get_price st (store_price st s provider r t q) provider region inst_type
                  ≡ get_price st s provider region inst_type))
    store_price_cases r t q s nr nt = elim (same_or_not region r) [
      | inr ne ↦ inr ((λ p e. ne (cc)), store_price_other r t q s nr nt (inl ne))
      | inl e ↦ elim (same_or_not inst_type t) [
        | inr ne ↦ inr ((λ p e'. ne (cc)), store_price_other r t q s nr nt (inr ne))
        | inl f ↦ inl (cc, store_price_same r t q s e f)
      ]
    ]

    -- If all calls for our price agree, the last of them decides.
    pub perform-price :
        (p : Price) (trace : List Action) (w : World st infoer provider)
        → AreNamed trace
        → ((q : Price) → In (stores region inst_type q) trace → q ≡ p)
        → In (stores region inst_type p) trace ⊎ (stored_price w ≡ some p)
        → stored_price (perform st infoer provider w trace) ≡ some p
    unfolding perform emit
    perform-price p [] w named agree (inl m) = elim m [ ]
    perform-price p [] w named agree (inr h) = h
    perform-price p (reports e ∷ rest) w named agree (inl (inl x)) = cc
    perform-price p (reports e ∷ rest) w named agree (inl (inr m)) =
        perform-price p rest _ (λ r t q i. named r t q (inr i)) (λ q i. agree q (inr i)) (inl m)
    perform-price p (reports e ∷ rest) w named agree (inr h) =
        perform-price p rest _ (λ r t q i. named r t q (inr i)) (λ q i. agree q (inr i)) (inr h)
    perform-price p (stores r t q ∷ rest) w named agree m =
        perform-price p rest _ (λ r' t' q' i. named r' t' q' (inr i)) (λ q' i. agree q' (inr i))
          (elim (store_price_cases r t q w.store (named r t q (inl refl)).0
            (named r t q (inl refl)).1) [
              | inl (e, h) ↦ inr (h ∙ ap some (agree q (inl e)))
              | inr (ne, h) ↦ elim m [
                | inl (inl e) ↦ elim (ne p e) [ ]
                | inl (inr i) ↦ inl i
                | inr before ↦ inr (h ∙ before)
              ]
            ])

    -- Without a call for our price, it stays.
    pub perform-price_other :
        (trace : List Action) (w : World st infoer provider)
        → AreNamed trace
        → ((q : Price) → In (stores region inst_type q) trace → ⊥)
        → stored_price (perform st infoer provider w trace) ≡ stored_price w
    unfolding perform emit
    perform-price_other [] w named away = refl
    perform-price_other (reports e ∷ rest) w named away =
        perform-price_other rest _ (λ r t q i. named r t q (inr i)) λ q i. away q (inr i)
    perform-price_other (stores r t q ∷ rest) w named away =
        perform-price_other rest _ (λ r' t' q' i. named r' t' q' (inr i)) (λ q' i. away q' (inr i))
        ∙ elim (store_price_cases r t q w.store (named r t q (inl refl)).0
            (named r t q (inl refl)).1) [ inl (e, h) ↦ elim (away q (inl e)) [ ] | inr (ne, h) ↦ h ]
