-- ===== src/Frontend/Selection/Tests.antt =====
-- Three offers to a selection of two.
use mutation_judge.Base.{◌≡◌, refl, List, [], ◌∷◌, Text, codes, take, inl, inr}
use mutation_judge.Base.Heap.{up, down}
use mutation_judge.Base.Int.{ℤ, pos, int_eq, int_lt}
use mutation_judge.Base.Sort.{sort}
use mutation_judge.Model.{Mutation}
use mutation_judge.Frontend.Selection.{mutation_less, offer_all, sorted}
use mutation_judge.Frontend.Selection.First.{room, offer_all-first}

abbrev at_byte : ℤ → Text → Mutation
at_byte n id = record {
  id = id;
  operator = codes "boolean";
  rule_id = codes "true";
  span = record {
    file = codes "a.go";
    start_byte = n;
    end_byte = n;
    start_line = pos 1;
    start_col = pos 1;
    end_line = pos 1;
    end_col = pos 1;
  };
  original = codes "true";
  replacement = codes "false";
  description = [];
  suggestion = [];
  diff = [];
  equivalent_reason = [];
}

abbrev offers : List Mutation
offers =
    at_byte (pos 9) (codes "M-1")
    ∷ at_byte (pos 4) (codes "M-2")
    ∷ at_byte (pos 7) (codes "M-3")
    ∷ []

offer_all-first_example :
    sorted (offer_all offers (record { limit = pos 2; items = [] }))
    ≡ take (room (pos 2)) (sort mutation_less offers)
unfolding mutation_less int_eq int_lt
offer_all-first_example =
    offer_all-first (pos 2) offers ((inr refl, (inr refl, tt)), ((inl refl, tt), (tt, tt)))

-- The heap has the latest item at the root.
offers_run :
    (offer_all offers (record { limit = pos 2; items = [] })).items
    ≡ at_byte (pos 7) (codes "M-3") ∷ at_byte (pos 4) (codes "M-2") ∷ []
unfolding offer_all int_eq int_lt mutation_less up down
offers_run = refl
