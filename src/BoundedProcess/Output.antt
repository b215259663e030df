-- ===== src/BoundedProcess/Output.antt =====
-- What the loop over the pipes gives, against all that the process wrote, and when it ends.
use blacklist.Prelude.{
  ℕ, zero, suc, ◌+◌, ◌-◌, ◌≤◌, ◌<◌, ◌≡◌, refl, ap, sym, ◌∙◌, subst, Bool, true, false, List, [],
  ◌∷◌, ◌++◌, ltb, ltb→lt, ltb→le, if◌then◌else◌, length, take, append_nil, append_assoc,
  length-append, length-take-le, arith,
}
use blacklist.BoundedProcess.{
  Stream, stdout, stderr, Event, Round, Pipes, Progress, continues, too_large, stderr_limit, close,
  read_event, and_then, read_events,
}

-- What the events have of a stream.
unfoldable pub written : Stream → List Event → List ℕ
written stdout [] = []
written stdout ((stdout, bs) ∷ es) = bs ++ written stdout es
written stdout ((stderr, bs) ∷ es) = written stdout es
written stderr [] = []
written stderr ((stdout, bs) ∷ es) = written stderr es
written stderr ((stderr, bs) ∷ es) = bs ++ written stderr es

unfoldable pub written_in : Stream → List Round → List ℕ
written_in s [] = []
written_in s (r ∷ rs) = written s r.events ++ written_in s rs

take_same : (j k : ℕ) (xs ys : List ℕ) → j ≡ k → xs ++ take j ys ≡ xs ++ take k ys
take_same j k xs ys e = ap (λ i. xs ++ take i ys) e

take-append :
    (n : ℕ) (xs ys : List ℕ) → take n xs ++ take (n - length (take n xs)) ys ≡ take n (xs ++ ys)
take-append zero xs ys = refl
take-append (suc n) [] ys = take_same (suc n - 0) (suc n) [] ys (omega arith)
take-append (suc n) (x ∷ xs) ys =
    ap (λ zs. x ∷ zs)
      (take_same (suc n - suc (length (take n xs))) _ (take n xs) ys (omega arith)
        ∙ take-append n xs ys)

-- The pipes hold what was written: all of the output, and the limit's worth of the errors.
unfoldable pub Holds : ℕ → List ℕ → List ℕ → Pipes → Type 0
Holds max_bytes out err p =
    (p.out ≡ out) × (length out ≤ max_bytes) × (p.err ≡ take stderr_limit err)

unfoldable pub HoldsAfter : ℕ → List ℕ → List ℕ → Progress → Type 0
HoldsAfter max_bytes out err (continues p) = Holds max_bytes out err p
HoldsAfter max_bytes out err (too_large e) = (max_bytes < length out) × (length e ≤ stderr_limit)

-- A chunk of the output is refused if it passes the limit.
read_out-Holds :
    (max_bytes : ℕ) (chunk out err : List ℕ) (p : Pipes) (large : Bool)
    → ltb max_bytes (length p.out + length chunk) ≡ large
    → Holds max_bytes out err p
    → HoldsAfter max_bytes
        (out ++ chunk)
        (err ++ [])
        (if large then too_large p.err else continues (record p { out = p.out ++ chunk }))
unfolding Holds HoldsAfter
read_out-Holds max_bytes chunk out err p true h (e₁, le, e₂) = rw (length-append out chunk) (
  subst (λ xs. max_bytes < length xs + length chunk) e₁ (ltb→lt _ _ h),
  rw e₂ (length-take-le stderr_limit err),
)
read_out-Holds max_bytes chunk out err p false h (e₁, le, e₂) =
    rw (length-append out chunk, append_nil err)
      (
        ap (λ xs. xs ++ chunk) e₁,
        subst (λ xs. length xs + length chunk ≤ max_bytes) e₁ (ltb→le _ _ h),
        e₂,
      )

-- The errors beyond their limit are dropped.
take_full : (n : ℕ) (xs ys : List ℕ) → n ≤ length (take n xs) → take n xs ≡ take n (xs ++ ys)
take_full n xs ys h =
    sym (append_nil (take n xs))
    ∙ take_same 0 (n - length (take n xs)) (take n xs) ys (omega arith)
    ∙ take-append n xs ys

read_err-Holds :
    (max_bytes : ℕ) (chunk out err : List ℕ) (p : Pipes) (room : Bool)
    → ltb (length p.err) stderr_limit ≡ room
    → Holds max_bytes out err p
    → Holds max_bytes
        (out ++ [])
        (err ++ chunk)
        (if room then record p { err = p.err ++ take (stderr_limit - length p.err) chunk } else p)
unfolding Holds
read_err-Holds max_bytes chunk out err p true h (e₁, le, e₂) = rw (append_nil out) (
  e₁,
  le,
  ap (λ xs. xs ++ take (stderr_limit - length xs) chunk) e₂ ∙ take-append stderr_limit err chunk,
)
read_err-Holds max_bytes chunk out err p false h (e₁, le, e₂) = rw (append_nil out) (
  e₁,
  le,
  e₂ ∙ take_full stderr_limit err chunk (subst (λ xs. stderr_limit ≤ length xs) e₂ (ltb→le _ _ h)),
)

read_event-Holds :
    (max_bytes : ℕ) (e : Event) (out err : List ℕ) (p : Pipes)
    → Holds max_bytes out err p
    → HoldsAfter max_bytes
        (out ++ written stdout (e ∷ []))
        (err ++ written stderr (e ∷ []))
        (read_event max_bytes e p)
unfolding read_event written close Holds HoldsAfter
read_event-Holds max_bytes (stdout, []) out err p h = rw (append_nil out, append_nil err) h
read_event-Holds max_bytes (stderr, []) out err p h = rw (append_nil out, append_nil err) h
read_event-Holds max_bytes (stdout, b ∷ bs) out err p h =
    rw (append_nil (b ∷ bs)) (read_out-Holds max_bytes (b ∷ bs) out err p _ refl h)
read_event-Holds max_bytes (stderr, b ∷ bs) out err p h =
    rw (append_nil (b ∷ bs)) (read_err-Holds max_bytes (b ∷ bs) out err p _ refl h)

written-cons :
    (s : Stream) (e : Event) (es : List Event)
    → written s (e ∷ es) ≡ written s (e ∷ []) ++ written s es
unfolding written
written-cons stdout (stdout, bs) es = rw (append_nil bs) refl
written-cons stdout (stderr, bs) es = refl
written-cons stderr (stdout, bs) es = refl
written-cons stderr (stderr, bs) es = rw (append_nil bs) refl

append-cons :
    (s : Stream) (e : Event) (es : List Event) (before : List ℕ)
    → (before ++ written s (e ∷ [])) ++ written s es ≡ before ++ written s (e ∷ es)
append-cons s e es before =
    append_assoc before _ _ ∙ ap (λ xs. before ++ xs) (sym (written-cons s e es))

length-append-lt :
    (max_bytes : ℕ) (xs ys : List ℕ) → max_bytes < length xs → max_bytes < length (xs ++ ys)
length-append-lt max_bytes xs ys h = omega (arith, length-append xs ys)

module _ (max_bytes : ℕ) where
  after_event-Holds :
      (e : Event) (es : List Event) (out err : List ℕ) (next : Pipes → Progress)
      (progress : Progress)
      → ((p : Pipes)
          → Holds max_bytes (out ++ written stdout (e ∷ [])) (err ++ written stderr (e ∷ [])) p
          → HoldsAfter max_bytes
              ((out ++ written stdout (e ∷ [])) ++ written stdout es)
              ((err ++ written stderr (e ∷ [])) ++ written stderr es)
              (next p))
      → HoldsAfter max_bytes
          (out ++ written stdout (e ∷ []))
          (err ++ written stderr (e ∷ []))
          progress
      → HoldsAfter max_bytes
          (out ++ written stdout (e ∷ es))
          (err ++ written stderr (e ∷ es))
          (and_then too_large next progress)
  unfolding and_then HoldsAfter
  after_event-Holds e es out err next (too_large x) k (lt, le) = (
    subst (λ xs. max_bytes < length xs) (append-cons stdout e es out)
        (length-append-lt max_bytes _ _ lt),
    le,
  )
  after_event-Holds e es out err next (continues p) k h =
      subst (λ xs. HoldsAfter max_bytes xs (err ++ written stderr (e ∷ es)) (next p))
        (append-cons stdout e es out)
        (subst
          (λ ys.
            HoldsAfter max_bytes ((out ++ written stdout (e ∷ [])) ++ written stdout es) ys
              (next p))
          (append-cons stderr e es err) (k p h))

  pub read_events-Holds :
      (es : List Event) (out err : List ℕ) (p : Pipes)
      → Holds max_bytes out err p
      → HoldsAfter max_bytes
          (out ++ written stdout es)
          (err ++ written stderr es)
          (read_events max_bytes es p)
  unfolding read_events HoldsAfter written
  read_events-Holds [] out err p h = rw (append_nil out, append_nil err) h
  read_events-Holds (e ∷ es) out err p h =
      after_event-Holds e es out err (read_events max_bytes es) (read_event max_bytes e p)
        (read_events-Holds es _ _) (read_event-Holds max_bytes e out err p h)
