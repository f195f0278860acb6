-- ===== src/Checks/Processes.antt =====
-- kernel/process/process.cpp at concrete inputs.
use optimist_os.Common.{ℕ, ◌≡◌, refl, arith, true, false, List, [], ◌∷◌, ◌++◌, length}
use optimist_os.Process.Processes.{
  ProcessNode, Processes, done, fault, register_process, remove_process_from_list,
}
use optimist_os.Process.Processes.Laws.{
  IsCounted, has, erase, register_process_lem, remove_process_cases,
}

abbrev process : ℕ → ℕ → ProcessNode
process address id = record { address = address; process_id = id; thread_count = 1 }

abbrev three : List ProcessNode
three = process 4096 0 ∷ process 8192 7 ∷ process 12288 14 ∷ []

abbrev listed : Processes
listed = record { head = three; count = 3 }

listed-IsCounted : IsCounted listed
listed-IsCounted = record { count = refl; small = omega arith }

register_process_lem_example :
    (qs : Processes) × (register_process (process 16384 21) listed ≡ done qs)
    × (qs.head ≡ three ++ process 16384 21 ∷ [])
    × (qs.count ≡ length qs.head)
register_process_lem_example = register_process_lem (process 16384 21) listed-IsCounted

remove_process_cases_example :
    (has 12288 (process 8192 7 ∷ process 12288 14 ∷ []) ≡ true
      → remove_process_from_list 12288 listed
        ≡ done (
          record {
            head = process 4096 0 ∷ erase 12288 (process 8192 7 ∷ process 12288 14 ∷ []);
            count = 3;
          },
          true,
        ))
    × (has 12288 (process 8192 7 ∷ process 12288 14 ∷ []) ≡ false
        → remove_process_from_list 12288 listed ≡ fault)
remove_process_cases_example =
    remove_process_cases 12288 3 (process 4096 0) (process 8192 7 ∷ process 12288 14 ∷ [])
      listed-IsCounted
