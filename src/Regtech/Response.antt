-- ===== src/Regtech/Response.antt =====
-- How collector/core/regtech/page_collection.py reads what curl prints: the response, a line break
-- and the HTTP status. A text is the list of its code points.
use blacklist.Prelude.{
  ℕ, ◌+◌, ◌-◌, ◌*◌, ◌≤◌, ◌≡◌, refl, Bool, true, false, ◌&&◌, ◌||◌, Option, none, some, List, [],
  ◌∷◌, ◌++◌, ◌==◌, leb, ltb, if◌then◌else◌, arith,
}

abbrev pub line_break : ℕ
line_break = 10

abbrev code_length : ℕ → ℕ
code_length c = if ltb c 128 then 1 else (if ltb c 2048 then 2 else (if ltb c 65536 then 3 else 4))

-- `len(text.encode("utf-8"))`
unfoldable pub utf8_length : List ℕ → ℕ
utf8_length [] = 0
utf8_length (c ∷ text) = code_length c + utf8_length text

abbrev prefix_found : ℕ → List ℕ → Option (List ℕ × List ℕ) → Option (List ℕ × List ℕ)
prefix_found c text (some (head, tail)) = some (c ∷ head, tail)
prefix_found c text none = if c == line_break then some ([], text) else none

-- `text.rpartition("\n")`, none where there is no line break.
unfoldable pub rpartition : List ℕ → Option (List ℕ × List ℕ)
rpartition [] = none
rpartition (c ∷ text) = prefix_found c text (rpartition text)

abbrev pub is_digit : ℕ → Bool
is_digit c = leb 48 c && leb c 57

unfoldable pub all_digits : List ℕ → Bool
all_digits [] = true
all_digits (c ∷ text) = is_digit c && all_digits text

-- `text.isdigit()`: curl writes no digits but those of ASCII.
unfoldable pub isdigit : List ℕ → Bool
isdigit [] = false
isdigit (c ∷ text) = is_digit c && all_digits text

-- `int(text)` on digits, `value` being that of the digits before.
unfoldable pub int_of_digits : ℕ → List ℕ → ℕ
int_of_digits value [] = value
int_of_digits value (c ∷ text) = int_of_digits (value * 10 + (c - 48)) text

unfoldable pub response_text : Option (List ℕ × List ℕ) → List ℕ
response_text none = []
response_text (some (text, status_text)) = text

unfoldable pub http_status : Option (List ℕ × List ℕ) → ℕ
http_status none = 0
http_status (some (text, status_text)) =
    if isdigit status_text then int_of_digits 0 status_text else 0

-- The white space of `str.strip()`.
abbrev is_space : ℕ → Bool
is_space c =
    leb 9 c && leb c 13
    || leb 28 c && leb c 32
    || c == 133
    || c == 160
    || c == 5760
    || leb 8192 c && leb c 8202
    || c == 8232
    || c == 8233
    || c == 8239
    || c == 8287
    || c == 12288

-- `not text.strip()`
unfoldable pub is_blank : List ℕ → Bool
is_blank [] = true
is_blank (c ∷ text) = is_space c && is_blank text

-- The decimal digits of a status of three digits, as `%{http_code}` prints it.
abbrev pub status_digits : ℕ → ℕ → ℕ → List ℕ
status_digits a b c = (48 + a) ∷ (48 + b) ∷ (48 + c) ∷ []

rpartition-digits : (text : List ℕ) → all_digits text ≡ true → rpartition text ≡ none
unfolding rpartition all_digits
rpartition-digits [] h = refl
rpartition-digits (c ∷ text) h = ground (arith, rpartition-digits text)

rpartition-append :
    (body status_text : List ℕ)
    → all_digits status_text ≡ true
    → rpartition (body ++ line_break ∷ status_text) ≡ some (body, status_text)
unfolding rpartition
rpartition-append [] status_text h = rw (rpartition-digits status_text h) refl
rpartition-append (c ∷ body) status_text h = rw (rpartition-append body status_text h) refl

-- What curl prints is read back: for any response, line breaks in it included, and a status of three
-- digits, the response and the number of the status.
pub response_roundtrip :
    (body : List ℕ) (a b c : ℕ)
    → a ≤ 9
    → b ≤ 9
    → c ≤ 9
    → let printed = rpartition (body ++ line_break ∷ status_digits a b c) in
      (response_text printed ≡ body) × (http_status printed ≡ a * 100 + b * 10 + c)
unfolding response_text http_status isdigit int_of_digits all_digits
response_roundtrip body a b c ha hb hc =
    let h : all_digits (status_digits a b c) ≡ true = ground arith in
    rw (rpartition-append body (status_digits a b c) h) (refl, ground arith)
