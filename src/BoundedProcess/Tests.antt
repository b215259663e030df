-- ===== src/BoundedProcess/Tests.antt =====
-- Runs of a process over a few rounds, within and beyond a limit of four bytes.
use blacklist.Prelude.{true, ◌≡◌, ◌≢◌, refl, [], ◌∷◌, ◌++◌, arith}
use blacklist.Prelude.Int.{pos}
use blacklist.BoundedProcess.{
  stdout, stderr, Round, completed, timeout_expired, still_running, run_bounded, read_pipes,
  and_then, read_events, read_event, stderr_limit, close,
}
use blacklist.BoundedProcess.Replies.{IsReply, run_bounded-IsReply, run_bounded-Ends}

abbrev first : Round
first = record { now = 10; events = (stdout, 1 ∷ 2 ∷ []) ∷ (stderr, 9 ∷ []) ∷ [] }

abbrev second : Round
second = record { now = 20; events = (stdout, 3 ∷ 4 ∷ 5 ∷ []) ∷ [] }

abbrev last : Round
last = record { now = 30; events = (stdout, []) ∷ (stderr, []) ∷ [] }

within : run_bounded 4 100 (pos 0) (first ∷ last ∷ []) ≡ completed (pos 0) (1 ∷ 2 ∷ []) (9 ∷ [])
unfolding run_bounded read_pipes and_then read_events read_event stderr_limit close
within = refl

beyond : run_bounded 4 100 (pos 0) (first ∷ second ∷ last ∷ []) ≡ completed (pos 63) [] (9 ∷ [])
unfolding run_bounded read_pipes and_then read_events read_event stderr_limit close
beyond = refl

too_late : run_bounded 4 20 (pos 0) (first ∷ second ∷ last ∷ []) ≡ timeout_expired
unfolding run_bounded read_pipes and_then read_events read_event stderr_limit close
too_late = refl

run_bounded-IsReply_example :
    IsReply 4 100
      (pos 0)
      []
      []
      true
      true
      (first ∷ second ∷ last ∷ [])
      (run_bounded 4 100 (pos 0) (first ∷ second ∷ last ∷ []))
run_bounded-IsReply_example = run_bounded-IsReply 4 100 (pos 0) (first ∷ second ∷ last ∷ [])

run_bounded-Ends_example :
    run_bounded 4 20 (pos 0) ((first ∷ []) ++ second ∷ (last ∷ [])) ≢ still_running
run_bounded-Ends_example =
    run_bounded-Ends 4 20 (pos 0) (first ∷ []) second (last ∷ []) (omega arith)
