-- ===== src/Prelude/Histories.antt =====
-- A list of events, the newest first: what holds of each event and those before it.
use terrakojo.Prelude.{◌⊎◌, List, [], ◌∷◌}

module _ {A : Type 0} where
  -- `P` holds of every event with the events before it
  abbrev pub Always : (A → List A → Type 0) → List A → Type 0
  Always P [] = Unit {0}
  Always P (event ∷ earlier) = P event earlier × Always P earlier

  -- `P` holds of one of the events with the events before it
  abbrev pub Sometime : (A → List A → Type 0) → List A → Type 0
  Sometime P [] = ⊥
  Sometime P (event ∷ earlier) = P event earlier ⊎ Sometime P earlier
