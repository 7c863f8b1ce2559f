-- ===== src/Routing/Parsing/Evidence.antt =====
-- `_parse_evidence` of src/agent_continuity/routing.py. The file system is a parameter: what the
-- source observes of a cited file under the evidence root, from the file's path.
use Prim.Native.Char.{code, Char}
use local_ai_coding_agent.Common.{
  Bool, true, false, not, ◌&&◌, ◌||◌, String, List, [], ◌∷◌, Option, none, some, Result, ok, err,
  manifest_error, guard, ◌>>=◌, ◌>>◌, Dict, Json, join, str, nat_eq, contains, ◌==◌, if◌then◌else◌,
}
use local_ai_coding_agent.Routing.Types.{EvidenceRecord}
use local_ai_coding_agent.Routing.Fields.{is_digest}
use local_ai_coding_agent.Routing.Parsing.{
  object_with, at, text, nonempty_array, parse_entries, fresh_id,
}

-- What is found at a cited path: it leads out of the root, it is no regular file, or a file with
-- this hash.
pub data Observation : Type 0 where
  escapes irregular : Observation
  regular : String → Observation

-- The characters of `PurePosixPath`: a backslash is replaced by a slash first.
abbrev pub is_slash : Char → Bool
is_slash c = nat_eq (code c) b'/' || nat_eq (code c) 92

-- The first part of a text, with a character put in front of it.
abbrev pub push : Char → List String → List String
push c [] = String.◌∷◌ c String.[] ∷ []
push c (s ∷ ss) = String.◌∷◌ c s ∷ ss

-- `value.replace("\\", "/").split("/")`
unfoldable pub segments : String → List String
segments String.[] = "" ∷ []
segments (String.◌∷◌ c s) = let rest = segments s in if is_slash c then "" ∷ rest else push c rest

-- The path's own parts: `PurePosixPath` drops empty parts and single dots.
unfoldable pub path_parts : List String → List String
path_parts [] = []
path_parts (s ∷ ss) = let rest = path_parts ss in if s == "" || s == "." then rest else s ∷ rest

unfoldable pub is_absolute : String → Bool
is_absolute String.[] = false
is_absolute (String.◌∷◌ c s) = is_slash c

-- `path.as_posix()`, where the path is relative.
unfoldable pub as_posix : List String → String
unfolding join
as_posix [] = "."
as_posix (s ∷ ss) = join "/" (s ∷ ss)

-- `verify_evidence`: the observed hash must be the cited one.
unfoldable pub verify_file :
    Bool → Option (String → Observation) → String → String → Result (Unit {0})
verify_file false root path digest = ok tt
verify_file true none path digest = err (manifest_error "verify_evidence requires evidence_root")
verify_file true (some observe) path digest = elim (observe path) [
  | escapes ↦ err (manifest_error "evidence path escapes root")
  | irregular ↦ err (manifest_error "evidence is not a regular file")
  | regular observed ↦ guard (observed == digest) (manifest_error "evidence hash mismatch")
]

-- `raw["sha256"]`, in canonical form.
unfoldable pub canonical_digest : Json → Result String
canonical_digest (str s) = do guard (is_digest s) (manifest_error "sha256 must be canonical"); ok s
canonical_digest _ = err (manifest_error "sha256 must be canonical")

module _ (verify : Bool) (root : Option (String → Observation)) where
  unfoldable pub parse_evidence_record :
      Dict EvidenceRecord → Json → Result (String × EvidenceRecord)
  unfolding segments path_parts is_absolute as_posix canonical_digest verify_file
  parse_evidence_record output v = do
    raw ← object_with ("id" ∷ "path" ∷ "sha256" ∷ []) v
    i ← fresh_id output raw
    path_text ← at raw "path" >>= text
    let parts = path_parts (segments path_text)
    guard (not (is_absolute path_text) && not (contains ".." parts))
        (manifest_error "unsafe evidence path")
    digest ← at raw "sha256" >>= canonical_digest
    verify_file verify root (as_posix parts) digest
    ok (i, record { id = i; path = as_posix parts; sha256 = digest })

  unfoldable pub parse_evidence : Json → Result (Dict EvidenceRecord)
  unfolding parse_evidence_record
  parse_evidence v = do vs ← nonempty_array v; parse_entries parse_evidence_record [] vs
