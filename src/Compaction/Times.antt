-- ===== src/Compaction/Times.antt =====
-- `_utc` of src/agent_continuity/compaction.py: the pattern `_UTC_RE`, and the dates and times that
-- `datetime.fromisoformat` accepts among the texts of that pattern. A digit outside ASCII, which `\d`
-- matches and `fromisoformat` refuses, is no match here, so only the error's words differ.
use local_ai_coding_agent.Common.{
  ℕ, zero, suc, ◌+◌, ◌*◌, ◌%◌, ◌-◌, Bool, false, not, ◌&&◌, ◌||◌, String, List, [], ◌∷◌, Option,
  none, some, Result, ok, err, guard, ◌>>=◌, ◌>>◌, Json, codes, is_empty, ◌++◌, leb, nat_eq,
  if◌then◌else◌,
}
use local_ai_coding_agent.Compaction.Values.{state_text, state_error}

abbrev pub is_digit : ℕ → Bool
is_digit c = leb b'0' c && leb c b'9'

-- A number of so many digits, after what was read, and the rest.
unfoldable pub read_digits : ℕ → ℕ → List ℕ → Option (ℕ × List ℕ)
read_digits zero n cs = some (n, cs)
read_digits (suc k) n [] = none
read_digits (suc k) n (c ∷ cs) =
    let rest = read_digits k (n * 10 + (c - b'0')) cs in if is_digit c then rest else none

-- A fixed character, and the rest.
abbrev pub read_char : ℕ → List ℕ → Option (List ℕ)
read_char k [] = none
read_char k (c ∷ cs) = if nat_eq k c then some cs else none

-- Numbers of so many digits, each followed by its character.
unfoldable pub read_fields : List (ℕ × ℕ) → List ℕ → Option (List ℕ × List ℕ)
unfolding read_digits
read_fields [] cs = some ([], cs)
read_fields ((k, end) ∷ fs) cs = elim (read_digits k 0 cs) [
  | none ↦ none
  | some (n, rest) ↦ elim (read_char end rest) [
    | none ↦ none
    | some rest' ↦ elim (read_fields fs rest') [
      | none ↦ none
      | some (ns, rest'') ↦ some (n ∷ ns, rest'')
    ]
  ]
]

-- Up to so many digits, and then `Z` at the end.
unfoldable pub is_fraction : ℕ → List ℕ → Bool
is_fraction k [] = false
is_fraction zero (c ∷ cs) = nat_eq c b'Z' && is_empty cs
is_fraction (suc k) (c ∷ cs) =
    let rest = is_fraction k cs in if is_digit c then rest else nat_eq c b'Z' && is_empty cs

-- What follows the seconds' digits: `Z`, or a dot, one to six digits and `Z`.
unfoldable pub is_zone : List ℕ → Bool
unfolding is_fraction
is_zone [] = false
is_zone (c ∷ []) = nat_eq c b'Z'
is_zone (c ∷ d ∷ cs) = nat_eq c b'.' && (is_digit d && is_fraction 5 cs)

abbrev pub is_leap : ℕ → Bool
is_leap y = nat_eq (y % 4) 0 && (not (nat_eq (y % 100) 0) || nat_eq (y % 400) 0)

abbrev pub is_one_of : ℕ → List ℕ → Bool
is_one_of n [] = false
is_one_of n (m ∷ ms) = nat_eq n m || is_one_of n ms

abbrev pub days_in_month : ℕ → ℕ → ℕ
days_in_month y m =
    if nat_eq m 2
    then (if is_leap y then 29 else 28)
    else if is_one_of m (4 ∷ 6 ∷ 9 ∷ 11 ∷ [])
    then 30
    else 31

-- The numbers of a date and a time of the calendar.
unfoldable pub is_calendar_time : List ℕ → Bool
is_calendar_time (y ∷ m ∷ d ∷ h ∷ n ∷ s ∷ []) =
    (leb 1 y && (leb 1 m && leb m 12))
    && ((leb 1 d && leb d (days_in_month y m)) && (leb h 23 && (leb n 59 && leb s 59)))
is_calendar_time ns = false

-- The pattern, as far as the numbers go: `none` is no match.
unfoldable pub read_time : String → Option (List ℕ)
unfolding read_fields read_digits is_zone
read_time s =
    elim (read_fields ((4, b'-') ∷ (2, b'-') ∷ (2, b'T') ∷ (2, b':') ∷ (2, b':') ∷ []) (codes s)) [
      | none ↦ none
      | some (ns, rest) ↦ elim (read_digits 2 0 rest) [
        | none ↦ none
        | some (n, zone) ↦ if is_zone zone then some (ns ++ n ∷ []) else none
      ]
    ]

unfoldable pub check_time : Option (List ℕ) → String → Result (Unit {0})
check_time none path =
    err (state_error (path ∷ " must be an RFC3339 UTC timestamp ending in Z" ∷ []))
check_time (some ns) path =
    guard (is_calendar_time ns) (state_error (path ∷ " must be a valid RFC3339 UTC timestamp" ∷ []))

-- `_utc`
unfoldable pub utc : Json → String → Result String
utc v path = do s ← state_text v path; check_time (read_time s) path; ok s
