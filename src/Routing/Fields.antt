-- ===== src/Routing/Fields.antt =====
-- The field validators of src/agent_continuity/routing.py: the regular expressions `_ID_RE` and
-- `_SHA256_RE`, and `_text`, over the code points of a text.
use Prim.Native.Char.{code}
use local_ai_coding_agent.Common.{
  ℕ, Bool, false, not, ◌&&◌, ◌||◌, String, List, [], ◌∷◌, Option, none, some, codes, length, leb,
  nat_eq, all, if◌then◌else◌, ◌==◌,
}

abbrev pub is_lower_alnum : ℕ → Bool
is_lower_alnum c = (leb b'a' c && leb c b'z') || (leb b'0' c && leb c b'9')

-- `[a-z0-9._:-]`
abbrev pub is_id_char : ℕ → Bool
is_id_char c =
    is_lower_alnum c || (nat_eq c b'.' || (nat_eq c b'_' || (nat_eq c b':' || nat_eq c b'-')))

unfoldable pub matches_id : List ℕ → Bool
matches_id [] = false
matches_id (c ∷ cs) = is_lower_alnum c && (all is_id_char cs && leb (length cs) 127)

-- `_ID_RE.fullmatch(value)`
unfoldable pub is_identifier : String → Bool
unfolding matches_id
is_identifier s = matches_id (codes s)

-- `[0-9a-f]`
abbrev pub is_hex : ℕ → Bool
is_hex c = (leb b'0' c && leb c b'9') || (leb b'a' c && leb c b'f')

-- The rest of a text behind a prefix.
unfoldable pub after : List ℕ → List ℕ → Option (List ℕ)
after [] cs = some cs
after (p ∷ ps) [] = none
after (p ∷ ps) (c ∷ cs) = let rest = after ps cs in if nat_eq p c then rest else none

-- `_SHA256_RE.fullmatch(value)`
unfoldable pub is_digest : String → Bool
unfolding after
is_digest s = elim (after (codes "sha256:") (codes s)) [
  | none ↦ false
  | some rest ↦ all is_hex rest && nat_eq (length rest) 64
]

-- The code points that `str.strip` removes.
abbrev pub is_space : ℕ → Bool
is_space c =
    (leb 9 c && leb c 13)
    || ((leb 28 c && leb c 32)
        || (nat_eq c 133
            || (nat_eq c 160
                || (nat_eq c 5760
                    || ((leb 8192 c && leb c 8202)
                        || ((leb 8232 c && leb c 8233)
                            || (nat_eq c 8239 || (nat_eq c 8287 || nat_eq c 12288))))))))

unfoldable pub strip_left : String → String
strip_left String.[] = String.[]
strip_left (String.◌∷◌ c s) =
    let rest = strip_left s in if is_space (code c) then rest else String.◌∷◌ c s

-- A character in front of a text that is stripped already.
abbrev pub strip_front : String → String → String → String
strip_front String.[] blank kept = blank
strip_front (String.◌∷◌ c s) blank kept = kept

unfoldable pub strip_right : String → String
strip_right String.[] = String.[]
strip_right (String.◌∷◌ c s) =
    let rest = strip_right s in
    strip_front rest (if is_space (code c) then String.[] else String.◌∷◌ c String.[])
      (String.◌∷◌ c rest)

-- `value.strip()`
unfoldable pub strip : String → String
unfolding strip_left strip_right
strip s = strip_right (strip_left s)

-- `"\x00" in value`
unfoldable pub has_null : List ℕ → Bool
has_null [] = false
has_null (c ∷ cs) = nat_eq c 0 || has_null cs

-- `value.strip() and "\x00" not in value`
unfoldable pub is_text : String → Bool
unfolding strip has_null
is_text s = not (strip s == "") && not (has_null (codes s))
