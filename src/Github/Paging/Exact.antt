-- ===== src/Github/Paging/Exact.antt =====
-- internal/github/client.go: what the loop over pages returns.
use terrakojo.Prelude.{
  ℕ, zero, suc, ◌≤◌, ◌<◌, ◌+◌, ◌≡◌, ◌≢◌, ◌↔◌, subst, refl, sym, ap, ◌∙◌, inl, inr, ◌⊎◌, Bool, true,
  false, Option, none, some, List, [], ◌∷◌, ◌++◌, nat_eq, if◌then◌else◌, arith, Option-cases,
}
use mathlib.Core.List.{append_assoc}
use terrakojo.Control.Errors.{Result, ok, err}
use terrakojo.Github.Paging.{Page, Answers, turn, paginate, all_pages}

-- `Serves n page asked items`: from `page` on, and after the requests `asked`, the service gives `items`
-- on exactly `n` pages that each name the next one.
pub data Serves {A B : Type 0} (answers : Answers A) (taken : List A → List B)
    : ℕ → ℕ → List ℕ → List B → Type 0 where
  last :
      {page : ℕ} {asked : List ℕ} {p : Page A}
      → answers (page ∷ asked) ≡ ok p
      → nat_eq p.next 0 ≡ true
      → Serves answers taken 1 page asked (taken p.items)
  more :
      {n page : ℕ} {asked : List ℕ} {p : Page A} {items : List B}
      → answers (page ∷ asked) ≡ ok p
      → nat_eq p.next 0 ≡ false
      → Serves answers taken n p.next (page ∷ asked) items
      → Serves answers taken (suc n) page asked (taken p.items ++ items)

if-none :
    {C : Type 0} (x : C) (b : Bool) (y : Option C)
    → (if b then some x else y) ≡ none
    → (b ≡ false) × (y ≡ none)
if-none x true y e = cc
if-none x false y e = (refl, e)

module _ {A B : Type 0} (answers : Answers A) (taken : List A → List B) where
  paginate-of_Serves :
      (fuel : ℕ) {n page : ℕ} {asked : List ℕ} {items : List B} (all : List B)
      → Serves answers taken n page asked items
      → n ≤ fuel
      → paginate answers taken fuel all page asked ≡ some (ok (all ++ items))
  unfolding paginate
  paginate-of_Serves zero all (last r h) le = ground arith
  paginate-of_Serves zero all (more r h s) le = ground arith
  paginate-of_Serves (suc fuel) all (last r h) le = rw (r, turn, h) refl
  paginate-of_Serves (suc fuel) all (more {p = p} {items = items} r h s) le =
      let go = paginate-of_Serves fuel (all ++ taken p.items) s (omega (arith, le)) in
      rw (r, turn, h) (go ∙ ap (λ l. some (ok l)) (append_assoc all (taken p.items) items))

  -- what the loop has shown when it returns
  Served : ℕ → ℕ → List ℕ → List B → List B → Type 0
  Served fuel page asked all result =
      (n : ℕ) × (items : List B) × (n ≤ fuel)
      × Serves answers taken n page asked items
      × (result ≡ all ++ items)

  by_next :
      (fuel page : ℕ) (asked : List ℕ) (all result : List B) (p : Page A)
      → answers (page ∷ asked) ≡ ok p
      → (b : Bool) → nat_eq p.next 0 ≡ b
      → (paginate answers taken fuel (all ++ taken p.items) p.next (page ∷ asked) ≡ some (ok result)
          → Served fuel p.next (page ∷ asked) (all ++ taken p.items) result)
      → (if b
          then some (ok (all ++ taken p.items))
          else paginate answers taken fuel (all ++ taken p.items) p.next (page ∷ asked))
        ≡ some (ok result)
      → Served (suc fuel) page asked all result
  unfolding Served
  by_next fuel page asked all result p r true h go e = (1, taken p.items, omega arith, last r h, cc)
  by_next fuel page asked all result p r false h go e =
      let (n, items, le, s, same) = go e in
      (
        suc n,
        taken p.items ++ items,
        omega (arith, le),
        more r h s,
        same ∙ append_assoc all (taken p.items) items,
      )

  by_answer :
      (fuel page : ℕ) (asked : List ℕ) (all result : List B) (r : Result (Page A))
      → answers (page ∷ asked) ≡ r
      → ((p : Page A)
          → paginate answers taken fuel (all ++ taken p.items) p.next (page ∷ asked)
            ≡ some (ok result)
          → Served fuel p.next (page ∷ asked) (all ++ taken p.items) result)
      → turn answers taken all
          (λ p. paginate answers taken fuel (all ++ taken p.items) p.next (page ∷ asked))
          r
        ≡ some (ok result)
      → Served (suc fuel) page asked all result
  by_answer fuel page asked all result (ok p) r go e =
      by_next fuel page asked all result p r (nat_eq p.next 0) refl (go p) e
  by_answer fuel page asked all result (err x) r go e = cc

  paginate-serves :
      (fuel page : ℕ) (asked : List ℕ) (all result : List B)
      → paginate answers taken fuel all page asked ≡ some (ok result)
      → Served fuel page asked all result
  unfolding paginate
  paginate-serves zero page asked all result e = ground arith
  paginate-serves (suc fuel) page asked all result e =
      by_answer fuel page asked all result (answers (page ∷ asked)) refl
        (λ p. paginate-serves fuel p.next (page ∷ asked) (all ++ taken p.items) result) e

  -- The loop over pages, started at the first one and run at most `fuel` times, returns the items exactly
  -- where the service, asked for page after page, gives them on at most that many pages, each of which
  -- names the next one and the last of which names none: it keeps what is kept of each page, in order,
  -- and leaves no page out.
  pub all_pages_exact :
      (fuel : ℕ) (items : List B)
      → all_pages answers taken fuel ≡ some (ok items)
        ↔ ((n : ℕ) × (n ≤ fuel) × Serves answers taken n 0 [] items)
  unfolding all_pages Served
  all_pages_exact fuel items = (
    (λ e.
        let (n, found, le, s, same) = paginate-serves fuel 0 [] [] items e in
        (n, le, subst (Serves answers taken n 0 []) (sym same) s)),
    λ (n, le, s). paginate-of_Serves fuel [] s le,
  )

  -- Page numbers that rise to at most `limit`, 0 being the end.
  abbrev pub Rising : ℕ → Type 0
  Rising limit =
      (page : ℕ) (asked : List ℕ) (p : Page A)
      → answers (page ∷ asked) ≡ ok p
      → (p.next ≡ 0) ⊎ ((page < p.next) × (p.next ≤ limit))

  turn-halts :
      (limit fuel page : ℕ) (asked : List ℕ) (all : List B) (r : Result (Page A))
      → answers (page ∷ asked) ≡ r
      → Rising limit
      → limit < suc fuel + page
      → ((p : Page A)
          → limit < fuel + p.next
          → p.next ≤ limit
          → paginate answers taken fuel (all ++ taken p.items) p.next (page ∷ asked) ≢ none)
      → turn answers taken all
          (λ p. paginate answers taken fuel (all ++ taken p.items) p.next (page ∷ asked))
          r
        ≢ none
  turn-halts limit fuel page asked all (err x) r rising enough go e = cc
  turn-halts limit fuel page asked all (ok p) r rising enough go e =
      let (on, left) =
        if-none _ (nat_eq p.next 0)
          (paginate answers taken fuel (all ++ taken p.items) p.next (page ∷ asked)) e in
      elim (rising page asked p r) [
        | inl stop ↦ ground arith
        | inr (up, le) ↦ go p (omega (arith, enough, up)) le left
      ]

  paginate-halts :
      (limit fuel page : ℕ) (asked : List ℕ) (all : List B)
      → Rising limit
      → page ≤ limit
      → limit < fuel + page
      → paginate answers taken fuel all page asked ≢ none
  unfolding paginate
  paginate-halts limit zero page asked all rising le enough = ground arith
  paginate-halts limit (suc fuel) page asked all rising le enough =
      turn-halts limit fuel page asked all (answers (page ∷ asked)) refl rising enough (λ p more le.
        paginate-halts limit fuel p.next (page ∷ asked) (all ++ taken p.items) rising le more)

  -- Where the page numbers that the service names rise and stay at most `limit`, until it names none,
  -- the loop ends, with the items or with an error, after at most `limit + 1` runs.
  pub all_pages-halts :
      (limit : ℕ)
      → Rising limit
      → (result : Result (List B)) × (all_pages answers taken (suc limit) ≡ some result)
  unfolding all_pages
  all_pages-halts limit rising = elim (Option-cases (paginate answers taken (suc limit) [] 0 [])) [
    | inl out ↦
        absurd (paginate-halts limit (suc limit) 0 [] [] rising (omega arith) (omega arith) out)
    | inr found ↦ found
  ]
