-- ===== src/Tests/Annotate.antt =====
-- A title with a colon, and one with a quote.
use web_broadcaster.Base.{◌≡◌, refl, some, List, [], ◌∷◌, ◌++◌}
use web_broadcaster.Base.Text.{Text, codes, is_space, strip, text_eq}
use web_broadcaster.Annotate.{
  in_key, is_key, field, fields, join, find_meta, dict_of, split_annotate_uri, build_annotate_uri,
  annotate_escape_value, escape_char, scan, drop_prefix,
}
use web_broadcaster.Annotate.RoundTrip.{split-build_annotate_uri}
use web_broadcaster.Annotate.Values.{find_meta-field_quoted}

-- "
abbrev quote : Text
quote = 34 ∷ []

abbrev tagged : List (Text × Text)
tagged = (codes "title", codes "Day: 1") ∷ (codes " by ", codes "a" ++ quote ++ codes "b") ∷ []

split-build_annotate_uri_example :
    split_annotate_uri (build_annotate_uri tagged (codes "http://x/a.mp" ++ 51 ∷ []))
    ≡ some (
      dict_of (find_meta (in_key []) (join (fields tagged))) [],
      codes "http://x/a.mp" ++ 51 ∷ [],
    )
unfolding is_space
split-build_annotate_uri_example = split-build_annotate_uri tagged (codes "http://x/a.mp") 51 refl

find_meta-field_quoted_example :
    (found : List (Text × Text)) × (find_meta
        (in_key [])
        (field (codes "title") (codes "My " ++ 34 ∷ codes "Way"))
      ≡ (codes "title", codes "My " ++ 92 ∷ []) ∷ found)
unfolding is_key
find_meta-field_quoted_example =
    find_meta-field_quoted (codes "title") (codes "My ") (codes "Way") refl refl

reads_title :
    split_annotate_uri (build_annotate_uri ((codes "title", codes "Day: 1") ∷ []) (codes "/a"))
    ≡ some ((codes "title", codes "Day: 1") ∷ [], codes "/a")
unfolding split_annotate_uri build_annotate_uri strip drop_prefix scan find_meta dict_of fields join
    field is_key annotate_escape_value escape_char text_eq
reads_title = refl
