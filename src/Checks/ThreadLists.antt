-- ===== src/Checks/ThreadLists.antt =====
-- The thread lists of kernel/process/process.cpp at concrete inputs.
use optimist_os.Common.{ℕ, ◌≡◌, ◌≢◌, refl, true, some, [], ◌∷◌, ◌++◌}
use optimist_os.Process.Threads.{
  ThreadRef, done, fault, spinning, add_thread_to_list, get_thread_info, get_next_thread,
  remove_thread_from_list,
}
use optimist_os.Process.Threads.Laws.{
  add_thread_to_list_lem, get_thread_info_lem, get_next_thread_lem, remove_thread_lem,
}

abbrev thread : ℕ → ThreadRef
thread n = record { address = n; thread_id = n }

add_thread_to_list_lem_example :
    add_thread_to_list (thread 3) (thread 1 ∷ thread 2 ∷ [])
    ≡ (thread 1 ∷ thread 2 ∷ []) ++ thread 3 ∷ []
add_thread_to_list_lem_example = add_thread_to_list_lem (thread 3) (thread 1 ∷ thread 2 ∷ [])

get_thread_info_lem_example :
    ((thread 1).thread_id ≡ 2
      → get_thread_info 6 2 (thread 1 ∷ thread 2 ∷ []) ≡ done (some (thread 1)))
    × ((thread 1).thread_id ≢ 2 → get_thread_info 5 2 (thread 1 ∷ thread 2 ∷ []) ≡ spinning)
get_thread_info_lem_example = get_thread_info_lem 5 2 (thread 1) (thread 2 ∷ [])

get_next_thread_lem_example :
    ((thread 2).thread_id ≡ 1
      → get_next_thread (thread 2) (thread 1 ∷ thread 2 ∷ thread 3 ∷ []) ≡ done (thread 2))
    × ((thread 2).thread_id ≢ 1
        → (v : ThreadRef)
        → get_next_thread (thread 2) (thread 1 ∷ thread 2 ∷ v ∷ thread 3 ∷ []) ≡ done v)
    × ((thread 2).thread_id ≢ 1 → get_next_thread (thread 2) (thread 1 ∷ thread 2 ∷ []) ≡ fault)
get_next_thread_lem_example = get_next_thread_lem (thread 2) (thread 1) (thread 2) (thread 3 ∷ [])

remove_thread_lem_example :
    (remove_thread_from_list (thread 2) (thread 1 ∷ thread 2 ∷ thread 3 ∷ thread 4 ∷ [])
      ≡ done (thread 1 ∷ thread 3 ∷ thread 3 ∷ thread 4 ∷ [], true))
    × (remove_thread_from_list (thread 2) (thread 1 ∷ thread 2 ∷ []) ≡ fault)
remove_thread_lem_example =
    remove_thread_lem (thread 2) (thread 1) (thread 2) (thread 3) (thread 4 ∷ []) refl
