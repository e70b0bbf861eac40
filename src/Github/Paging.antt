-- ===== src/Github/Paging.antt =====
-- internal/github/client.go: the loop that asks for page after page.
pub mod Exact
use terrakojo.Prelude.{
  ℕ, zero, suc, Bool, Option, none, some, List, [], ◌∷◌, ◌++◌, nat_eq, if◌then◌else◌,
}
use terrakojo.Control.Errors.{Result, ok, err}

-- a page of a list, with the number of the next one; 0 where there is none
pub record Page (A : Type 0) : Type 0 where
  pub items : List A
  pub next : ℕ

-- The answer to the newest request of a page, given all page numbers asked for so far.
abbrev pub Answers : Type 0 → Type 0
Answers A = List ℕ → Result (Page A)

module _ {A B : Type 0} (answers : Answers A) (taken : List A → List B) where
  -- `taken` is what is kept of a page; `rest` is the loop from the page that this one names.
  abbrev pub turn :
      List B → (Page A → Option (Result (List B))) → Result (Page A) → Option (Result (List B))
  turn all rest (err e) = some (err e)
  turn all rest (ok p) =
      let more = rest p in if nat_eq p.next 0 then some (ok (all ++ taken p.items)) else more

  -- `none`: the fuel ran out
  unfoldable pub paginate : ℕ → List B → ℕ → List ℕ → Option (Result (List B))
  paginate zero all page asked = none
  paginate (suc fuel) all page asked =
      turn all (λ p. paginate fuel (all ++ taken p.items) p.next (page ∷ asked))
        (answers (page ∷ asked))

  -- from the first page on; a request without a number is for the first page
  unfoldable pub all_pages : ℕ → Option (Result (List B))
  unfolding paginate
  all_pages fuel = paginate fuel [] 0 []
