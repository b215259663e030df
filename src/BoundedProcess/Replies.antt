-- ===== src/BoundedProcess/Replies.antt =====
-- Every end of the loop over the pipes, and that the deadline ends it.
use blacklist.Prelude.{
  ℕ, zero, suc, ◌≤◌, ◌<◌, ◌≡◌, ◌≢◌, ◌⊎◌, inl, inr, refl, ap, sym, ◌∙◌, subst, Bool, true, false,
  ◌||◌, List, [], ◌∷◌, ◌++◌, leb, leb→le, le→leb, if◌then◌else◌, length, take, append_nil,
  append_assoc, arith,
}
use blacklist.BoundedProcess.{
  stdout, stderr, Round, Pipes, Progress, continues, too_large, Run, completed, timeout_expired,
  still_running, stderr_limit, and_then, read_events, read_pipes, run_bounded,
}
use blacklist.Prelude.Int.{ℤ, pos}
use blacklist.BoundedProcess.Output.{written, written_in, Holds, HoldsAfter, read_events-Holds}
use blacklist.BoundedProcess.Streams.{open_after, open_in, Has, read_events-Has}

take_nil : (n : ℕ) → [] ≡ take {A = ℕ} n []
take_nil zero = refl
take_nil (suc n) = refl

start :
    (max_bytes : ℕ)
    → Holds max_bytes [] [] (record { stdout_open = true; stderr_open = true; out = []; err = [] })
unfolding Holds
start max_bytes = (refl, omega arith, take_nil stderr_limit)

module _ (max_bytes deadline : ℕ) (wait : ℤ) where
  -- Both streams ended and the output is within the limit, or the process was stopped beyond it.
  unfoldable pub IsOutput : ℤ → List ℕ → List ℕ → List ℕ → List ℕ → Bool → Bool → Type 0
  IsOutput code out err all_out all_err out_open err_open =
      ((code ≡ wait)
        × (out_open ≡ false)
        × (err_open ≡ false)
        × (length out ≤ max_bytes)
        × (out ≡ all_out)
        × (err ≡ take stderr_limit all_err))
      ⊎ ((code ≡ pos 63) × (out ≡ []) × (max_bytes < length all_out) × (length err ≤ stderr_limit))

  -- What a run may give after `out` and `err` were written, with the streams open or not, and
  -- `rounds` come.
  unfoldable pub IsReply : List ℕ → List ℕ → Bool → Bool → List Round → Run → Type 0
  IsReply out err out_open err_open rounds (completed code o e) =
      (consumed : List Round) × (unread : List Round) × (rounds ≡ consumed ++ unread)
      × IsOutput code o e (out ++ written_in stdout consumed) (err ++ written_in stderr consumed)
          (open_in stdout consumed out_open) (open_in stderr consumed err_open)
  IsReply out err out_open err_open rounds timeout_expired =
      (consumed : List Round) × (late : Round) × (unread : List Round) × (rounds
        ≡ consumed ++ late ∷ unread)
      × (deadline ≤ late.now)
      × ((open_in stdout consumed out_open || open_in stderr consumed err_open) ≡ true)
  IsReply out err out_open err_open rounds still_running =
      (length (out ++ written_in stdout rounds) ≤ max_bytes)
      × ((open_in stdout rounds out_open || open_in stderr rounds err_open) ≡ true)

  -- One round more at the front.
  extend :
      (r : Round) (rs : List Round) (out err : List ℕ) (oo eo : Bool) (run : Run)
      → IsReply
          (out ++ written stdout r.events)
          (err ++ written stderr r.events)
          (open_after stdout r.events oo)
          (open_after stderr r.events eo)
          rs
          run
      → IsReply out err oo eo (r ∷ rs) run
  unfolding IsReply written_in open_in
  extend r rs out err oo eo (completed code o e) (consumed, unread, split, h) = (
    r ∷ consumed,
    unread,
    ap (λ xs. r ∷ xs) split,
    subst
        (λ xs.
          IsOutput code o e xs (err ++ (written stderr r.events ++ written_in stderr consumed))
            (open_in stdout consumed (open_after stdout r.events oo))
            (open_in stderr consumed (open_after stderr r.events eo)))
        (append_assoc out _ _)
        (subst
          (λ ys.
            IsOutput code o e ((out ++ written stdout r.events) ++ written_in stdout consumed) ys
              (open_in stdout consumed (open_after stdout r.events oo))
              (open_in stderr consumed (open_after stderr r.events eo)))
          (append_assoc err _ _) h),
  )
  extend r rs out err oo eo timeout_expired (consumed, late, unread, split, h, k) =
      (r ∷ consumed, late, unread, ap (λ xs. r ∷ xs) split, h, k)
  extend r rs out err oo eo still_running (h, k) =
      (subst (λ xs. length xs ≤ max_bytes) (append_assoc out _ _) h, k)

  after_round :
      (r : Round) (rs : List Round) (out err : List ℕ) (oo eo : Bool) (next : Pipes → Run)
      (progress : Progress)
      → ((p : Pipes)
          → Holds max_bytes (out ++ written stdout r.events) (err ++ written stderr r.events) p
          → IsReply
              (out ++ written stdout r.events)
              (err ++ written stderr r.events)
              p.stdout_open
              p.stderr_open
              rs
              (next p))
      → HoldsAfter max_bytes
          (out ++ written stdout r.events)
          (err ++ written stderr r.events)
          progress
      → Has (open_after stdout r.events oo) (open_after stderr r.events eo) progress
      → IsReply out err oo eo (r ∷ rs) (and_then (completed (pos 63) []) next progress)
  unfolding and_then HoldsAfter IsReply IsOutput written_in
  after_round r rs out err oo eo next (too_large x) k (lt, le) flags = (
    r ∷ [],
    rs,
    refl,
    inr (refl, refl, subst (λ xs. max_bytes < length (out ++ xs)) (sym (append_nil _)) lt, le),
  )
  after_round r rs out err oo eo next (continues p) k h (e₁, e₂) =
      extend r rs out err oo eo (next p) (
        subst
          (λ b.
            IsReply (out ++ written stdout r.events) (err ++ written stderr r.events) b
              (open_after stderr r.events eo) rs (next p))
          e₁
          (subst
            (λ b.
              IsReply (out ++ written stdout r.events) (err ++ written stderr r.events)
                p.stdout_open b rs (next p))
            e₂ (k p h)))

  closed :
      (rounds : List Round) (out err : List ℕ) (p : Pipes)
      → Holds max_bytes out err p
      → (p.stdout_open || p.stderr_open) ≡ false
      → IsReply out err p.stdout_open p.stderr_open rounds (completed wait p.out p.err)
  unfolding Holds IsReply IsOutput written_in open_in
  closed rounds out err p (e₁, le, e₂) both = (
    [],
    rounds,
    refl,
    inl (
      refl,
      ground arith,
      ground arith,
      subst (λ xs. length xs ≤ max_bytes) (sym e₁) le,
      e₁ ∙ sym (append_nil out),
      e₂ ∙ ap (take stderr_limit) (sym (append_nil err)),
    ),
  )

  choose :
      (out err : List ℕ) (oo eo : Bool) (rounds : List Round) (b : Bool) (x y : Run)
      → (b ≡ true → IsReply out err oo eo rounds x)
      → (b ≡ false → IsReply out err oo eo rounds y)
      → IsReply out err oo eo rounds (if b then x else y)
  choose out err oo eo rounds true x y h k = h refl
  choose out err oo eo rounds false x y h k = k refl

  read_pipes-IsReply :
      (rounds : List Round) (out err : List ℕ) (p : Pipes)
      → Holds max_bytes out err p
      → IsReply out err p.stdout_open p.stderr_open rounds
          (read_pipes max_bytes deadline wait rounds p)
  unfolding read_pipes Holds IsReply written_in open_in
  read_pipes-IsReply [] out err p h =
      choose out err p.stdout_open p.stderr_open [] (p.stdout_open || p.stderr_open) _ _
        (λ some_open. (subst (λ xs. length xs ≤ max_bytes) (sym (append_nil out)) h.1, some_open))
        (λ both. closed [] out err p h both)
  read_pipes-IsReply (r ∷ rs) out err p h =
      choose out err p.stdout_open p.stderr_open (r ∷ rs) (p.stdout_open || p.stderr_open) _ _
        (λ some_open.
          choose out err p.stdout_open p.stderr_open (r ∷ rs) (leb deadline r.now) _ _
            (λ late. ([], r, rs, refl, leb→le _ _ late, some_open))
            (λ _.
              after_round r rs out err p.stdout_open p.stderr_open
                (read_pipes max_bytes deadline wait rs) (read_events max_bytes r.events p)
                (read_pipes-IsReply rs _ _) (read_events-Holds max_bytes r.events out err p h)
                (read_events-Has max_bytes r.events p)))
        (λ both. closed (r ∷ rs) out err p h both)

  -- The rounds split into those that were read and the others. A run gives the process's own code
  -- only if both streams ended in the rounds read; its output is then all that these rounds wrote,
  -- which is within the limit, and its errors are the first 65,536 bytes of theirs. It gives code 63
  -- and no output only if the rounds read wrote more than the limit. It gives TimeoutExpired only
  -- if a stream is open in a round at the deadline or later, and goes on only while a stream is
  -- open and the output is within the limit.
  pub run_bounded-IsReply :
      (rounds : List Round)
      → IsReply [] [] true true rounds (run_bounded max_bytes deadline wait rounds)
  unfolding run_bounded
  run_bounded-IsReply rounds = read_pipes-IsReply rounds [] [] _ (start max_bytes)

  after_round-Ends :
      (next : Pipes → Run) (progress : Progress)
      → ((p : Pipes) → next p ≢ still_running)
      → and_then (completed (pos 63) []) next progress ≢ still_running
  unfolding and_then
  after_round-Ends next (too_large x) k e = cc
  after_round-Ends next (continues p) k e = k p e

  choose_end :
      (b : Bool) (x y : Run)
      → x ≢ still_running
      → y ≢ still_running
      → (if b then x else y) ≢ still_running
  choose_end true x y h k = h
  choose_end false x y h k = k

  read_pipes-Ends :
      (before : List Round) (late : Round) (unread : List Round) (p : Pipes)
      → deadline ≤ late.now
      → read_pipes max_bytes deadline wait (before ++ late ∷ unread) p ≢ still_running
  unfolding read_pipes
  read_pipes-Ends [] late unread p h =
      rw (le→leb deadline late.now h)
        (choose_end (p.stdout_open || p.stderr_open) timeout_expired _ (λ e. cc) (λ e. cc))
  read_pipes-Ends (r ∷ before) late unread p h =
      choose_end (p.stdout_open || p.stderr_open) _ _
        (choose_end (leb deadline r.now) timeout_expired _ (λ e. cc)
          (after_round-Ends _ (read_events max_bytes r.events p)
            (λ q. read_pipes-Ends before late unread q h)))
        (λ e. cc)

  -- The loop has ended once a reading of the clock is at the deadline or later, whatever the
  -- process writes.
  pub run_bounded-Ends :
      (before : List Round) (late : Round) (unread : List Round)
      → deadline ≤ late.now
      → run_bounded max_bytes deadline wait (before ++ late ∷ unread) ≢ still_running
  unfolding run_bounded
  run_bounded-Ends before late unread h = read_pipes-Ends before late unread _ h
