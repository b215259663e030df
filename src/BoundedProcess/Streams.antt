-- ===== src/BoundedProcess/Streams.antt =====
-- Which streams the selector has, against the ends of stream that were read.
use blacklist.Prelude.{
  ℕ, ◌-◌, ◌≡◌, refl, ap, ◌∙◌, subst, Bool, true, false, List, [], ◌∷◌, ◌++◌, if◌then◌else◌, length,
  take,
}
use blacklist.BoundedProcess.{
  Stream, stdout, stderr, Event, Round, Pipes, Progress, continues, too_large, stderr_limit, close,
  read_event, and_then, read_events,
}

-- Whether a stream is open after some events, when it was open or not before them: an empty chunk
-- is its end.
unfoldable pub open_after : Stream → List Event → Bool → Bool
open_after s [] b = b
open_after stdout ((stdout, []) ∷ es) b = open_after stdout es false
open_after stderr ((stderr, []) ∷ es) b = open_after stderr es false
open_after stdout ((stdout, c ∷ cs) ∷ es) b = open_after stdout es b
open_after stdout ((stderr, cs) ∷ es) b = open_after stdout es b
open_after stderr ((stderr, c ∷ cs) ∷ es) b = open_after stderr es b
open_after stderr ((stdout, cs) ∷ es) b = open_after stderr es b

unfoldable pub open_in : Stream → List Round → Bool → Bool
open_in s [] b = b
open_in s (r ∷ rs) b = open_in s rs (open_after s r.events b)

-- The selector has the streams that are open.
abbrev pub Has : Bool → Bool → Progress → Type 0
Has o e (continues p) = (p.stdout_open ≡ o) × (p.stderr_open ≡ e)
Has o e (too_large err) = Unit {0}

read_out-Has :
    (chunk : List ℕ) (p : Pipes) (large : Bool)
    → Has p.stdout_open p.stderr_open
        (if large then too_large p.err else continues (record p { out = p.out ++ chunk }))
read_out-Has chunk p true = tt
read_out-Has chunk p false = (refl, refl)

read_err-Has :
    (chunk : List ℕ) (p : Pipes) (room : Bool)
    → Has p.stdout_open p.stderr_open (
        continues (
          if room then record p { err = p.err ++ take (stderr_limit - length p.err) chunk } else p))
read_err-Has chunk p true = (refl, refl)
read_err-Has chunk p false = (refl, refl)

read_event-Has :
    (max_bytes : ℕ) (e : Event) (p : Pipes)
    → Has
        (open_after stdout (e ∷ []) p.stdout_open)
        (open_after stderr (e ∷ []) p.stderr_open)
        (read_event max_bytes e p)
unfolding read_event open_after close
read_event-Has max_bytes (stdout, []) p = (refl, refl)
read_event-Has max_bytes (stderr, []) p = (refl, refl)
read_event-Has max_bytes (stdout, b ∷ bs) p = read_out-Has (b ∷ bs) p _
read_event-Has max_bytes (stderr, b ∷ bs) p = read_err-Has (b ∷ bs) p _

open_after-cons :
    (s : Stream) (e : Event) (es : List Event) (b : Bool)
    → open_after s es (open_after s (e ∷ []) b) ≡ open_after s (e ∷ es) b
unfolding open_after
open_after-cons stdout (stdout, []) es b = refl
open_after-cons stdout (stdout, c ∷ cs) es b = refl
open_after-cons stdout (stderr, cs) es b = refl
open_after-cons stderr (stderr, []) es b = refl
open_after-cons stderr (stderr, c ∷ cs) es b = refl
open_after-cons stderr (stdout, cs) es b = refl

after_event-Has :
    (max_bytes : ℕ) (e : Event) (es : List Event) (o c : Bool) (progress : Progress)
    → ((p : Pipes)
        → Has
            (open_after stdout es p.stdout_open)
            (open_after stderr es p.stderr_open)
            (read_events max_bytes es p))
    → Has (open_after stdout (e ∷ []) o) (open_after stderr (e ∷ []) c) progress
    → Has
        (open_after stdout (e ∷ es) o)
        (open_after stderr (e ∷ es) c)
        (and_then too_large (read_events max_bytes es) progress)
unfolding and_then
after_event-Has max_bytes e es o c (too_large err) k h = tt
after_event-Has max_bytes e es o c (continues p) k (h₁, h₂) =
    subst (λ b. Has b (open_after stderr (e ∷ es) c) (read_events max_bytes es p))
      (ap (open_after stdout es) h₁ ∙ open_after-cons stdout e es o)
      (subst (λ b. Has (open_after stdout es p.stdout_open) b (read_events max_bytes es p))
        (ap (open_after stderr es) h₂ ∙ open_after-cons stderr e es c) (k p))

pub read_events-Has :
    (max_bytes : ℕ) (es : List Event) (p : Pipes)
    → Has
        (open_after stdout es p.stdout_open)
        (open_after stderr es p.stderr_open)
        (read_events max_bytes es p)
unfolding read_events open_after
read_events-Has max_bytes [] p = (refl, refl)
read_events-Has max_bytes (e ∷ es) p =
    after_event-Has max_bytes e es p.stdout_open p.stderr_open (read_event max_bytes e p)
      (read_events-Has max_bytes es) (read_event-Has max_bytes e p)
