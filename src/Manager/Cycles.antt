-- ===== src/Manager/Cycles.antt =====
-- `detect_cycles` of fleet/manager/dag.py. A dictionary is the list of its entries, a set a list. The
-- loop is on fuel: a round takes one task, so there are as many rounds as tasks at most.
use aidean_fleet.Common.{
  ℕ, zero, suc, Bool, not, ◌&&◌, ◌||◌, List, [], ◌∷◌, ◌++◌, map, Option, none, some, String,
  if◌then◌else◌, eqb, all, filter, is_empty, length,
}
use aidean_fleet.Common.Text.{is_in, precedes}
use aidean_fleet.Common.Sorted.{order_by}

-- a task and what it depends on
abbrev pub Entry : Type 0
Entry = String × List String

abbrev pub names_of : List Entry → List String
names_of graph = map (λ e. e.0) graph

-- `remaining`: the dependencies within the graph
unfoldable pub inner_of : List String → List Entry → List Entry
inner_of known [] = []
inner_of known ((node, deps) ∷ graph) =
    (node, filter (λ d. is_in d known) deps) ∷ inner_of known graph

unfoldable pub remaining : List Entry → List Entry
remaining graph = inner_of (names_of graph) graph

-- `deps <= taken`
abbrev pub is_within : List String → List String → Bool
is_within taken deps = all (λ d. is_in d taken) deps

-- the loop over `remaining.items()`: what has become free joins the queue, which is sorted
unfoldable pub add_free : List String → List Entry → List String → List String
add_free taken [] queue = queue
add_free taken ((other, deps) ∷ rest) queue =
    let skip = add_free taken rest queue in
    let join = add_free taken rest (order_by precedes (queue ++ other ∷ [])) in
    if is_in other taken || is_in other queue
    then skip
    else if not (is_empty deps) && is_within taken deps
    then join
    else skip

-- `while indegree_zero`; what is taken has the newest first
unfoldable pub take_free : List Entry → ℕ → List String → List String → Option (List String)
take_free graph fuel taken [] = some taken
take_free graph zero taken (node ∷ queue) = none
take_free graph (suc fuel) taken (node ∷ queue) =
    take_free graph fuel (node ∷ taken) (add_free (node ∷ taken) graph queue)

unfoldable pub first_free : List Entry → List String
first_free graph = order_by precedes (names_of (filter (λ e. is_empty e.1) graph))

-- the tasks that are not taken
unfoldable pub left_over : List Entry → List String → List String
left_over graph taken = order_by precedes (filter (λ n. not (is_in n taken)) (names_of graph))

unfoldable pub report : List Entry → List String → List (List String)
report graph taken = if eqb (length taken) (length graph) then [] else left_over graph taken ∷ []

unfoldable pub detect_cycles : List Entry → Option (List (List String))
detect_cycles deps_map =
    let graph = remaining deps_map in
    elim (take_free graph (length graph) [] (first_free graph)) [
      | none ↦ none
      | some taken ↦ some (report graph taken)
    ]
