-- ===== src/Process/Threads/Laws.antt =====
-- What the list functions of kernel/process/process.cpp do with threads.
use optimist_os.Common.{ℕ, zero, suc, ◌≡◌, ◌≢◌, refl, arith, true, some, [], ◌∷◌, ◌++◌}
use optimist_os.Process.Threads.{
  ThreadRef, Threads, done, fault, spinning, add_thread_to_list, get_thread_info, get_thread_list,
  next_of, get_next_thread, overwrite_thread, remove_thread_from_list,
}

-- `addThreadToList` puts the thread behind all others, on the empty list too.
pub add_thread_to_list_lem :
    (new : ThreadRef) (l : Threads) → add_thread_to_list new l ≡ l ++ new ∷ []
unfolding add_thread_to_list
add_thread_to_list_lem new [] = refl
add_thread_to_list_lem new (t ∷ []) = refl
add_thread_to_list_lem new (t ∷ u ∷ rest) = rw (add_thread_to_list_lem new (u ∷ rest))

-- `getThreadInfo` finds the first thread of the list; for any other identifier on a list that is not
-- empty it never returns.
pub get_thread_info_lem :
    (rounds thread_id : ℕ) (t : ThreadRef) (rest : Threads)
    → (t.thread_id ≡ thread_id → get_thread_info (suc rounds) thread_id (t ∷ rest) ≡ done (some t))
      × (t.thread_id ≢ thread_id → get_thread_info rounds thread_id (t ∷ rest) ≡ spinning)
unfolding get_thread_info
get_thread_info_lem rounds thread_id t rest = (λ e. ground arith, never rounds)
  where
    never : (n : ℕ) → t.thread_id ≢ thread_id → get_thread_info n thread_id (t ∷ rest) ≡ spinning
    never zero ne = refl
    never (suc n) ne = ground (arith, never n)

-- With the threads `t` and `u` in front, the thread behind `t` is `u`. For every other thread
-- `getNextThread` gives the third of the list, whichever the current one is, and on a list of two it
-- runs past the end: the schedule does not come back to the first thread.
pub get_next_thread_lem :
    (current t u : ThreadRef) (rest : Threads)
    → (current.thread_id ≡ t.thread_id → get_next_thread current (t ∷ u ∷ rest) ≡ done u)
      × (current.thread_id ≢ t.thread_id
          → (v : ThreadRef) → get_next_thread current (t ∷ u ∷ v ∷ rest) ≡ done v)
      × (current.thread_id ≢ t.thread_id → get_next_thread current (t ∷ u ∷ []) ≡ fault)
unfolding get_next_thread get_thread_list next_of
get_next_thread_lem current t u rest = (λ e. ground arith, λ ne v. ground arith, λ ne. ground arith)

-- `removeThreadFromList` of the second thread of three or more does not shorten the list: the third
-- thread then stands in it twice. Of the last of two threads it runs past the end.
pub remove_thread_lem :
    (thread t u v : ThreadRef) (rest : Threads)
    → u.address ≡ thread.address
    → (remove_thread_from_list thread (t ∷ u ∷ v ∷ rest) ≡ done (t ∷ v ∷ v ∷ rest, true))
      × (remove_thread_from_list thread (t ∷ u ∷ []) ≡ fault)
unfolding remove_thread_from_list overwrite_thread
remove_thread_lem thread t u v rest e = (ground arith, ground arith)
