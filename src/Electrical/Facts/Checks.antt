-- ===== src/Electrical/Facts/Checks.antt =====
-- The checks of `validate_facts` on the evidence of one fact.
use parts_bin.Prelude.{
  ℕ, Bool, true, false, not, ◌&&◌, ◌||◌, List, [], ◌∷◌, length, any, Option, none, some, ltb, leb,
  ◌==◌, pos, zero, suc,
}
use parts_bin.Storage.Parts.{Text, same_text, same_text?}
use parts_bin.Storage.Tx.{Result, ok, err, type_error}
use parts_bin.Texts.{codes}
use parts_bin.Electrical.Entries.{lookup, keys, same_set}
use parts_bin.Electrical.Decimals.Texts.{is_nothing, is_digit}
use parts_bin.Electrical.Quantities.{invalid}
use parts_bin.Electrical.Results.{◌>>=◌, ◌>>◌, refuse_if}
use parts_bin.Electrical.Json.{
  Json, null, text, integer, array, object, Object, text_of, array_of, object_of,
}
use parts_bin.Electrical.Specifications.{is_unbounded}

-- What `urllib.parse.urlsplit` finds in a URL
pub record Url : Type 0 where
  pub scheme : Text
  pub hostname : Option Text
  pub username : Option Text
  pub password : Option Text

-- `urlsplit`, where none stands for its `ValueError`; and whether the time that
-- `datetime.fromisoformat` reads has a time zone, where none stands for an error.
pub record Readers : Type 0 where
  pub urlsplit : Text → Option Url
  pub has_timezone : Text → Option Bool

-- `m.get(key)`, and `m[key]` where the keys are known
abbrev pub member : Text → Object → Json
member k m = elim (lookup k m) [ none ↦ null | some j ↦ j ]

-- `set(m) == set(names)`
abbrev pub has_only : List Text → Object → Bool
has_only names m = same_set (keys m) names

-- Whether a text is in a set: a list or a dictionary has no hash.
unfoldable pub kind_of : Json → Result Text
kind_of (text s) = ok s
kind_of (array items) = err type_error
kind_of (object members) = err type_error
kind_of _ = invalid

unfoldable pub check_excerpt : ℕ → Json → Result (Unit {0})
check_excerpt limit raw = text_of raw >>= λ s. refuse_if (is_unbounded limit s)

-- `type(page) is int and page >= 1`
abbrev pub is_page : Json → Bool
is_page (integer (pos zero)) = false
is_page (integer (pos (suc n))) = true
is_page _ = false

abbrev pub passage_keys : List Text
passage_keys = codes "page" ∷ codes "excerpt" ∷ []

unfoldable pub check_passages : List Json → Result (Unit {0})
unfolding check_excerpt
check_passages [] = ok tt
check_passages (raw ∷ rest) =
    let others = check_passages rest in
    do
      passage ← object_of raw
      refuse_if (not (has_only passage_keys passage))
      refuse_if (not (is_page (member (codes "page") passage)))
      check_excerpt 1200 (member (codes "excerpt") passage)
      others

-- Python's truth of an optional text
abbrev is_filled : Option Text → Bool
is_filled none = false
is_filled (some s) = not (is_nothing s)

abbrev pub is_plain_https : Url → Bool
is_plain_https url =
    same_text url.scheme (codes "https")
    && is_filled url.hostname
    && not (is_filled url.username)
    && not (is_filled url.password)

unfoldable pub check_url : Readers → Json → Result (Unit {0})
check_url readers (text s) = elim (readers.urlsplit s) [
  | none ↦ invalid
  | some url ↦ refuse_if (ltb 2048 (length s) || not (is_plain_https url))
]
check_url readers _ = invalid

-- `re.fullmatch('[0-9a-f]{64}', …)`
abbrev is_hex : ℕ → Bool
is_hex c = is_digit c || (leb 97 c && leb c 102)

unfoldable pub check_hash : Json → Result (Unit {0})
check_hash (text s) = refuse_if (not (length s == 64) || any (λ c. not (is_hex c)) s)
check_hash _ = invalid

unfoldable pub check_time : Readers → Json → Result (Unit {0})
check_time readers (text s) = elim (readers.has_timezone s) [
  | none ↦ invalid
  | some zone ↦ refuse_if (not zone)
]
check_time readers _ = invalid

-- The ordering code of the source is that of the part, which has one.
abbrev pub is_exact : Option Text → Json → Bool
is_exact part_number (text s) = is_filled part_number && same_text? part_number (some s)
is_exact part_number _ = false

abbrev pub source_keys : List Text
source_keys =
    codes "kind"
    ∷ codes "excerpt"
    ∷ codes "url"
    ∷ codes "page"
    ∷ codes "sha256"
    ∷ codes "retrieved_at"
    ∷ codes "part_number"
    ∷ []

-- `evidence.get('supporting_passages', [])`
abbrev pub passages_of : Option Json → Result (List Json)
passages_of none = ok []
passages_of (some raw) = array_of raw

unfoldable pub check_source : Readers → Option Text → Object → Result (Unit {0})
unfolding check_passages check_url check_hash check_time
check_source readers part_number evidence = do
  refuse_if (
      not (
        has_only source_keys evidence
        || has_only (codes "supporting_passages" ∷ source_keys) evidence))
  passages ← passages_of (lookup (codes "supporting_passages") evidence)
  refuse_if (ltb 3 (length passages))
  check_passages passages
  check_url readers (member (codes "url") evidence)
  refuse_if (not (is_page (member (codes "page") evidence)))
  check_hash (member (codes "sha256") evidence)
  check_time readers (member (codes "retrieved_at") evidence)
  refuse_if (not (is_exact part_number (member (codes "part_number") evidence)))
