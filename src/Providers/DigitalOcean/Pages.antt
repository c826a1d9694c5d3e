-- ===== src/Providers/DigitalOcean/Pages.antt =====
-- The loop of `getSizes` over the pages that the API serves.
use cloudinfo.Prelude.{ℕ, zero, suc, ◌+◌, ◌≤◌, ◌≡◌, refl, List, [], ◌∷◌, ◌++◌, some, length, arith}
use cloudinfo.Prelude.Result.{ok}
use cloudinfo.Providers.DigitalOcean.{
  Size, Links, last_page, page_of, SizesPage, Client, get_sizes, get_sizes_from,
}

abbrev answer : List Size → Links → SizesPage
answer sizes links = record { sizes = sizes; links = links }

-- The sizes of all pages, in their order.
unfoldable pub joined : List (List Size) → List Size
joined [] = []
joined (page ∷ pages) = page ++ joined pages

module _ (client : Client) where
  -- The API serves these pages: the one asked for as `requested` has the number `number`, and the
  -- links of the last one say so.
  abbrev pub ServesFrom : ℕ → ℕ → List Size → List (List Size) → Type 0
  ServesFrom requested number page [] = client.list_sizes requested ≡ ok (answer page last_page)
  ServesFrom requested number page (next ∷ pages) =
      (client.list_sizes requested ≡ ok (answer page (page_of (ok number))))
      × ServesFrom (number + 1) (number + 1) next pages

  append_assoc : (a b c : List Size) → (a ++ b) ++ c ≡ a ++ (b ++ c)
  append_assoc [] b c = refl
  append_assoc (x ∷ a) b c = rw (append_assoc a b c) refl

  append_nil : (a : List Size) → a ++ [] ≡ a
  append_nil [] = refl
  append_nil (x ∷ a) = rw (append_nil a) refl

  get_sizes_from-ServesFrom :
      (fuel requested number : ℕ) (seen page : List Size) (pages : List (List Size))
      → length (page ∷ pages) ≤ fuel
      → ServesFrom requested number page pages
      → get_sizes_from client fuel requested seen ≡ some (ok (seen ++ joined (page ∷ pages)))
  unfolding get_sizes_from joined
  get_sizes_from-ServesFrom zero requested number seen page pages enough serves = ground arith
  get_sizes_from-ServesFrom (suc fuel) requested number seen page [] enough serves =
      rw (serves, get_sizes_from, append_nil page) refl
  get_sizes_from-ServesFrom (suc fuel) requested number seen page (next ∷ pages) enough serves =
      rw
        (
          serves.0,
          get_sizes_from,
          get_sizes_from-ServesFrom fuel (number + 1) (number + 1) (seen ++ page) next pages
              (omega arith) serves.1,
          append_assoc seen page (next ++ joined pages),
        )
        refl

  -- Where the API serves some pages, `getSizes` ends after as many rounds as there are pages, with
  -- the sizes of all of them in their order.
  pub get_sizes-ServesFrom :
      (fuel : ℕ) (page : List Size) (pages : List (List Size))
      → length (page ∷ pages) ≤ fuel
      → ServesFrom 0 1 page pages
      → get_sizes client fuel ≡ some (ok (joined (page ∷ pages)))
  unfolding get_sizes
  get_sizes-ServesFrom fuel page pages enough serves =
      get_sizes_from-ServesFrom fuel 0 1 [] page pages enough serves
