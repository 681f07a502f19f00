-- ===== src/Frontend/Selection.antt =====
-- internal/frontend/selection.go: the first mutations of a file, with a heap that holds as many as the
-- limit says.
pub mod Keep
pub mod Ordering
pub mod First
mod Tests
use mutation_judge.Base.{ℕ, Bool, not, List, [], ◌∷◌, length, text_lt, if◌then◌else◌}
use mutation_judge.Base.Int.{ℤ, pos, int_eq, int_lt}
use mutation_judge.Base.Heap.{push, fix}
use mutation_judge.Base.Sort.{sort}
use mutation_judge.Model.{Mutation}

-- `mutationLess`
unfoldable pub mutation_less : Mutation → Mutation → Bool
unfolding int_eq int_lt text_lt
mutation_less a b =
    if not (int_eq a.span.start_byte b.span.start_byte)
    then int_lt a.span.start_byte b.span.start_byte
    else text_lt a.id b.id

-- `maxMutationHeap.Less`: the root is the latest mutation.
abbrev pub heap_less : Mutation → Mutation → Bool
heap_less a b = mutation_less b a

-- `boundedSelection`
pub record Selection : Type 0 where
  pub limit : ℤ
  pub items : List Mutation

-- An offer to a heap that is full; one with no items does not come here.
unfoldable pub replace_root : Mutation → List Mutation → List Mutation
unfolding mutation_less fix
replace_root m [] = []
replace_root m (root ∷ rest) =
    if mutation_less m root then fix heap_less (m ∷ rest) else root ∷ rest

unfoldable pub offer : Mutation → Selection → Selection
unfolding replace_root int_lt push
offer m s =
    if not (int_lt (pos 0) s.limit)
    then s
    else if int_lt (pos (length s.items)) s.limit
    then record s { items = push heap_less s.items m }
    else record s { items = replace_root m s.items }

-- The offers of a file, one after another.
unfoldable pub offer_all : List Mutation → Selection → Selection
unfolding offer
offer_all [] s = s
offer_all (m ∷ ms) s = offer_all ms (offer m s)

unfoldable pub sorted : Selection → List Mutation
unfolding sort mutation_less
sorted s = sort mutation_less s.items
