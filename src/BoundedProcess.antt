-- ===== src/BoundedProcess.antt =====
-- `run_bounded` of collector/core/bounded_process.py, which runs curl with a limit on its output.
--
-- A round of the loop is a reading of the clock and what `select` and `os.read` then give; a chunk
-- is a list of bytes, and an empty one the end of its stream. The process has started; `wait` is
-- the code it ends with, which is negative after a signal.
mod Tests
pub mod Output
pub mod Streams
pub mod Replies
use blacklist.Prelude.{
  ℕ, ◌+◌, ◌-◌, ◌*◌, Bool, true, false, ◌||◌, List, [], ◌∷◌, ◌++◌, leb, ltb, if◌then◌else◌, length,
  take, String,
}
use blacklist.Prelude.Int.{ℤ, pos}

pub data Stream : Type 0 where
  stdout stderr : Stream

abbrev pub Event : Type 0
Event = Stream × List ℕ

pub record Round : Type 0 where
  pub now : ℕ
  pub events : List Event

-- The streams that the selector still has, and the bytes read.
pub record Pipes : Type 0 where
  pub stdout_open : Bool
  pub stderr_open : Bool
  pub out : List ℕ
  pub err : List ℕ

-- After some events: the loop goes on, or the output is too large.
pub data Progress : Type 0 where
  continues : Pipes → Progress
  too_large : List ℕ → Progress

-- A completed process, TimeoutExpired, or a loop that has not ended in the rounds given.
pub data Run : Type 0 where
  completed : ℤ → List ℕ → List ℕ → Run
  timeout_expired still_running : Run

unfoldable pub stderr_limit : ℕ
stderr_limit = 64 * 1024

unfoldable pub close : Stream → Pipes → Pipes
close stdout p = record p { stdout_open = false }
close stderr p = record p { stderr_open = false }

unfoldable pub read_event : ℕ → Event → Pipes → Progress
read_event max_bytes (s, []) p = continues (close s p)
read_event max_bytes (stdout, b ∷ bs) p =
    if ltb max_bytes (length p.out + length (b ∷ bs))
    then too_large p.err
    else continues (record p { out = p.out ++ b ∷ bs })
read_event max_bytes (stderr, b ∷ bs) p = continues (
    if ltb (length p.err) stderr_limit
    then record p { err = p.err ++ take (stderr_limit - length p.err) (b ∷ bs) }
    else p)

unfoldable pub and_then {ℓ} : {A : Type ℓ} → (List ℕ → A) → (Pipes → A) → Progress → A
and_then large next (too_large err) = large err
and_then large next (continues p) = next p

unfoldable pub read_events : ℕ → List Event → Pipes → Progress
read_events max_bytes [] p = continues p
read_events max_bytes (e ∷ es) p =
    and_then too_large (read_events max_bytes es) (read_event max_bytes e p)

module _ (max_bytes deadline : ℕ) (wait : ℤ) where
  unfoldable pub read_pipes : List Round → Pipes → Run
  read_pipes [] p =
      if p.stdout_open || p.stderr_open then still_running else completed wait p.out p.err
  read_pipes (r ∷ rs) p =
      let next =
        and_then (completed (pos 63) []) (read_pipes rs) (read_events max_bytes r.events p) in
      if p.stdout_open || p.stderr_open
      then (if leb deadline r.now then timeout_expired else next)
      else completed wait p.out p.err

  unfoldable pub run_bounded : List Round → Run
  run_bounded rounds =
      read_pipes rounds (record { stdout_open = true; stderr_open = true; out = []; err = [] })

-- The texts of `run_text_bounded`, none where it raises or goes on.
pub data TextRun : Type 0 where
  text_completed : ℤ → String → String → TextRun
  text_timeout text_running : TextRun

unfoldable pub decode_run : (List ℕ → String) → Run → TextRun
decode_run decode (completed code out err) = text_completed code (decode out) (decode err)
decode_run decode timeout_expired = text_timeout
decode_run decode still_running = text_running

unfoldable pub run_text_bounded : (List ℕ → String) → ℕ → ℕ → ℤ → List Round → TextRun
run_text_bounded decode max_bytes deadline wait rounds =
    decode_run decode (run_bounded max_bytes deadline wait rounds)
