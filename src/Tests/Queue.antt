-- ===== src/Tests/Queue.antt =====
-- A queue that is filled, drained and filled again at an address used before.
use cpp_nio_socket.Common.{ℕ, ◌≡◌, refl, List, [], ◌∷◌, none}
use cpp_nio_socket.Queue
use cpp_nio_socket.Queue.{
  ObjectQueue, new_queue, add_item, add, add_all, drain_items, drain, peek, clear, clear_items,
}
use cpp_nio_socket.Queue.Represents.{Represents}
use cpp_nio_socket.Queue.Commands.{
  Command, put, put_all, get, get_some, look, count, empty, number, element, elements, done,
  execute, run, reference, AllFresh, Leaves, run_lem,
}

abbrev start : ObjectQueue ℕ
start = new_queue (λ a. none)

abbrev session : List (Command ℕ)
session =
    put 5 10
    ∷ put_all ((3, 20) ∷ (8, 30) ∷ [])
    ∷ look
    ∷ get
    ∷ get_some 1
    ∷ count
    ∷ put 5 40
    ∷ get_some 0
    ∷ get
    ∷ empty
    ∷ []

session_answers :
    reference 0 session []
    ≡ number 1
      ∷ number 3
      ∷ element 10
      ∷ element 10
      ∷ elements (20 ∷ [])
      ∷ number 1
      ∷ number 2
      ∷ elements (30 ∷ 40 ∷ [])
      ∷ element 0
      ∷ done
      ∷ []
session_answers = refl

start-Represents : Represents start []
start-Represents = record { segment = refl; ends = tt; counted = refl }

session-AllFresh : AllFresh 0 session start
unfolding execute add add_item add_all Queue.take drain drain_items peek clear clear_items
session-AllFresh =
    (refl, ((refl, (refl, tt)), (tt, (tt, (tt, (tt, (refl, (tt, (tt, (tt, tt))))))))))

run_lem_example : Leaves 0 [] (run 0 session start) (reference 0 session [])
run_lem_example = run_lem 0 session start [] session-AllFresh start-Represents
