-- ===== src/Annotate.antt =====
-- The annotate: URIs of app.py, which carry the metadata of a queued track before its path.

pub mod RoundTrip
pub mod Values
use web_broadcaster.Base.{
  ℕ, Bool, true, false, not, ◌&&◌, ◌||◌, Option, none, some, List, [], ◌∷◌, ◌++◌, ltb, leb, ◌==◌,
  if◌then◌else◌,
}
use web_broadcaster.Base.Text.{Text, codes, strip, text_eq}

-- `_annotate_escape_value` on one character
unfoldable pub escape_char : ℕ → Text
escape_char c =
    if c == 92
    then 92 ∷ 92 ∷ []
    else if c == 34
    then 92 ∷ 34 ∷ []
    else if (c == 10) || (c == 13)
    then 32 ∷ []
    else c ∷ []

unfoldable pub annotate_escape_value : Text → Text
annotate_escape_value [] = []
annotate_escape_value (c ∷ s) = escape_char c ++ annotate_escape_value s

abbrev prepend : ℕ → Option (Text × Text) → Option (Text × Text)
prepend c none = none
prepend c (some (head, tail)) = some (c ∷ head, tail)

-- The loop of `_split_annotate_uri`: what stands before the first colon outside quotes, and what
-- follows it.
unfoldable pub scan : Bool → Bool → Text → Option (Text × Text)
scan in_quotes escaped [] = none
scan in_quotes true (c ∷ s) = prepend c (scan in_quotes false s)
scan true false (c ∷ s) = let rest = scan (not (c == 34)) (c == 92) s in prepend c rest
scan false false (c ∷ s) =
    let rest = scan (c == 34) false s in if c == 58 then some ([], s) else prepend c rest

unfoldable pub is_key_char : ℕ → Bool
is_key_char c =
    (leb 48 c && leb c 57) || (leb 65 c && leb c 90) || (leb 97 c && leb c 122) || (c == 95)

pub data Mode : Type 0 where
  in_key : Text → Mode
  after_equals : Text → Mode
  in_value : Text → Text → Mode

unfoldable pub start_key : ℕ → Mode
unfolding is_key_char
start_key c = if is_key_char c then in_key (c ∷ []) else in_key []

unfoldable pub has_key : Text → Bool
has_key [] = false
has_key (c ∷ s) = true

unfoldable pub step_mode : Mode → ℕ → Mode
unfolding is_key_char start_key has_key
step_mode (in_key k) c =
    if is_key_char c
    then in_key (k ++ c ∷ [])
    else if (c == 61) && has_key k
    then after_equals k
    else in_key []
step_mode (after_equals k) c = if c == 34 then in_value k [] else start_key c
step_mode (in_value k v) c = if c == 34 then in_key [] else in_value k (v ++ c ∷ [])

unfoldable pub emit : Mode → ℕ → List (Text × Text) → List (Text × Text)
emit (in_key k) c found = found
emit (after_equals k) c found = found
emit (in_value k v) c found = if c == 34 then (k, v) ∷ found else found

-- `finditer` of `([A-Za-z0-9_]+)="([^"]*)"`: a key runs as far as it can, and a value without its
-- closing quote leaves no quote for a later match.
unfoldable pub find_meta : Mode → Text → List (Text × Text)
unfolding emit step_mode
find_meta m [] = []
find_meta m (c ∷ s) = emit m c (find_meta (step_mode m c) s)

-- A dict: the last value of a key, at the place of its first.
unfoldable pub set_key : Text → Text → List (Text × Text) → List (Text × Text)
unfolding text_eq
set_key k v [] = (k, v) ∷ []
set_key k v ((j, w) ∷ m) =
    let rest = (j, w) ∷ set_key k v m in if text_eq j k then (j, v) ∷ m else rest

unfoldable pub dict_of : List (Text × Text) → List (Text × Text) → List (Text × Text)
unfolding set_key
dict_of [] m = m
dict_of ((k, v) ∷ found) m = dict_of found (set_key k v m)

unfoldable pub drop_prefix : Text → Text → Option Text
drop_prefix [] s = some s
drop_prefix (p ∷ ps) [] = none
drop_prefix (p ∷ ps) (c ∷ s) = if p == c then drop_prefix ps s else none

with_meta : Option (Text × Text) → Option (List (Text × Text) × Text)
with_meta none = none
with_meta (some (head, tail)) = some (dict_of (find_meta (in_key []) head) [], tail)

split_body : Option Text → Option (List (Text × Text) × Text)
unfolding with_meta
split_body none = none
split_body (some body) = with_meta (scan false false body)

unfoldable pub split_annotate_uri : Text → Option (List (Text × Text) × Text)
unfolding split_body
split_annotate_uri uri = split_body (drop_prefix (codes "annotate:") (strip uri))

unfoldable pub all_key_chars : Text → Bool
unfolding is_key_char
all_key_chars [] = true
all_key_chars (c ∷ s) = is_key_char c && all_key_chars s

unfoldable pub is_key : Text → Bool
unfolding all_key_chars has_key
is_key k = has_key k && all_key_chars k

unfoldable pub field : Text → Text → Text
field k v = k ++ (61 ∷ 34 ∷ (annotate_escape_value v ++ 34 ∷ []))

unfoldable pub fields : List (Text × Text) → List Text
unfolding is_key field
fields [] = []
fields ((k, v) ∷ meta) =
    let rest = fields meta in if is_key (strip k) then field (strip k) v ∷ rest else rest

-- `",".join(...)`
unfoldable pub join : List Text → Text
join [] = []
join (t ∷ []) = t
join (t ∷ u ∷ ts) = t ++ (44 ∷ join (u ∷ ts))

unfoldable pub build_annotate_uri : List (Text × Text) → Text → Text
unfolding fields join
build_annotate_uri meta path = codes "annotate:" ++ (join (fields meta) ++ (58 ∷ path))
