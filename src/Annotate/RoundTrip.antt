-- ===== src/Annotate/RoundTrip.antt =====
-- What `_split_annotate_uri` reads of a URI that `_build_annotate_uri` wrote.
use mathlib.Core.Path.{subst}
use web_broadcaster.Base.{
  ℕ, ◌≡◌, refl, sym, ap, ◌∙◌, true, false, Option, some, List, [], ◌∷◌, ◌++◌, ◌||◌, ◌==◌,
  append_assoc, All, Bool-cases, inl, inr, arith,
}
use web_broadcaster.Base.Text.{Text, codes, strip, is_space}
use web_broadcaster.Base.Trimmed.{strip_trimmed}
use web_broadcaster.Annotate.{
  escape_char, annotate_escape_value, prepend, scan, is_key_char, is_key, all_key_chars, field,
  fields, join, build_annotate_uri, split_annotate_uri, drop_prefix, find_meta, dict_of, in_key,
}

abbrev prepend_all : Text → Option (Text × Text) → Option (Text × Text)
prepend_all [] o = o
prepend_all (c ∷ s) o = prepend c (prepend_all s o)

prepend_all-append :
    (s t : Text) (o : Option (Text × Text))
    → prepend_all (s ++ t) o ≡ prepend_all s (prepend_all t o)
prepend_all-append [] t o = refl
prepend_all-append (c ∷ s) t o = ap (prepend c) (prepend_all-append s t o)

prepend_all-some : (s tail : Text) → prepend_all s (some ([], tail)) ≡ some (s, tail)
prepend_all-some [] tail = refl
prepend_all-some (c ∷ s) tail = rw (prepend_all-some s tail) refl

scan-escape_char :
    (c : ℕ) (rest : Text)
    → scan true false (escape_char c ++ rest) ≡ prepend_all (escape_char c) (scan true false rest)
unfolding scan escape_char
scan-escape_char c rest = elim (Bool-cases (c == 92)) [
  | inl e ↦ rw e refl
  | inr e ↦ rw e (elim (Bool-cases (c == 34)) [
    | inl k ↦ rw k refl
    | inr k ↦ rw k (elim (Bool-cases ((c == 10) || (c == 13))) [
      | inl n ↦ rw n refl
      | inr n ↦ rw n (rw (e, k) refl)
    ])
  ])
]

-- An escaped value is read within its quotes.
scan-annotate_escape_value :
    (v rest : Text)
    → scan true false (annotate_escape_value v ++ rest)
      ≡ prepend_all (annotate_escape_value v) (scan true false rest)
unfolding annotate_escape_value
scan-annotate_escape_value [] rest = refl
scan-annotate_escape_value (c ∷ v) rest =
    rw
      (
        append_assoc (escape_char c) (annotate_escape_value v) rest,
        scan-escape_char c (annotate_escape_value v ++ rest),
        scan-annotate_escape_value v rest,
        prepend_all-append (escape_char c) (annotate_escape_value v) (scan true false rest),
      )
      refl

-- A part that the scan outside quotes passes over.
abbrev IsPassed : Text → Type 0
IsPassed t = (rest : Text) → scan false false (t ++ rest) ≡ prepend_all t (scan false false rest)

scan-key_char :
    (c : ℕ) (s : Text)
    → is_key_char c ≡ true
    → scan false false (c ∷ s) ≡ prepend c (scan false false s)
unfolding scan is_key_char
scan-key_char c s h =
    let not_quote : (c == 34) ≡ false = ground arith in
    let not_colon : (c == 58) ≡ false = ground arith in rw (not_quote, not_colon) refl

key-IsPassed : (k : Text) → all_key_chars k ≡ true → IsPassed k
unfolding all_key_chars
key-IsPassed [] h rest = refl
key-IsPassed (c ∷ k) h rest = elim (Bool-cases (is_key_char c)) [
  | inl e ↦ scan-key_char c (k ++ rest) e ∙ ap (prepend c) (key-IsPassed k (rw e at h) rest)
  | inr e ↦ absurd (cc (rw e at h))
]

append-IsPassed : (s t : Text) → IsPassed s → IsPassed t → IsPassed (s ++ t)
append-IsPassed s t hs ht rest =
    rw (append_assoc s t rest, hs (t ++ rest), ht rest)
      (sym (prepend_all-append s t (scan false false rest)))

quoted-IsPassed : (v : Text) → IsPassed (61 ∷ 34 ∷ (annotate_escape_value v ++ 34 ∷ []))
unfolding scan
quoted-IsPassed v rest =
    rw
      (
        append_assoc (annotate_escape_value v) (34 ∷ []) rest,
        scan-annotate_escape_value v (34 ∷ rest),
        prepend_all-append (annotate_escape_value v) (34 ∷ []) (scan false false rest),
      )
      refl

field-IsPassed : (k v : Text) → is_key k ≡ true → IsPassed (field k v)
unfolding field is_key
field-IsPassed k v h =
    append-IsPassed k (61 ∷ 34 ∷ (annotate_escape_value v ++ 34 ∷ []))
      (key-IsPassed k (ground arith)) (quoted-IsPassed v)

comma-IsPassed : IsPassed (44 ∷ [])
unfolding scan
comma-IsPassed rest = refl

join-IsPassed : (ts : List Text) → All IsPassed ts → IsPassed (join ts)
unfolding join
join-IsPassed [] h rest = refl
join-IsPassed (t ∷ []) h rest = h.0 rest
join-IsPassed (t ∷ u ∷ ts) h rest =
    append-IsPassed t (44 ∷ join (u ∷ ts)) h.0
      (append-IsPassed (44 ∷ []) (join (u ∷ ts)) comma-IsPassed (join-IsPassed (u ∷ ts) h.1)) rest

fields-IsPassed : (meta : List (Text × Text)) → All IsPassed (fields meta)
unfolding fields
fields-IsPassed [] = tt
fields-IsPassed ((k, v) ∷ meta) = elim (Bool-cases (is_key (strip k))) [
  | inl e ↦ rw e (field-IsPassed (strip k) v e, fields-IsPassed meta)
  | inr e ↦ rw e (fields-IsPassed meta)
]

scan-join :
    (meta : List (Text × Text)) (path : Text)
    → scan false false (join (fields meta) ++ 58 ∷ path) ≡ some (join (fields meta), path)
unfolding scan
scan-join meta path =
    join-IsPassed (fields meta) (fields-IsPassed meta) (58 ∷ path)
    ∙ prepend_all-some (join (fields meta)) path

strip-build_annotate_uri :
    (meta : List (Text × Text)) (p : Text) (z : ℕ)
    → is_space z ≡ false
    → strip (build_annotate_uri meta (p ++ z ∷ [])) ≡ build_annotate_uri meta (p ++ z ∷ [])
unfolding build_annotate_uri is_space
strip-build_annotate_uri meta p z h =
    subst (λ (t : Text). strip (97 ∷ (codes "nnotate:" ++ t)) ≡ 97 ∷ (codes "nnotate:" ++ t))
      (append_assoc (join (fields meta)) (58 ∷ p) (z ∷ []))
      (strip_trimmed 97 (codes "nnotate:" ++ (join (fields meta) ++ 58 ∷ p)) z refl h)

drop-build_annotate_uri :
    (meta : List (Text × Text)) (path : Text)
    → drop_prefix (codes "annotate:") (build_annotate_uri meta path)
      ≡ some (join (fields meta) ++ 58 ∷ path)
unfolding build_annotate_uri drop_prefix
drop-build_annotate_uri meta path = refl

-- Whatever the metadata hold, quotes, backslashes and colons included, a path without white space at
-- its end is read back whole, and the metadata are those found in the fields that were written.
pub split-build_annotate_uri :
    (meta : List (Text × Text)) (p : Text) (z : ℕ)
    → is_space z ≡ false
    → split_annotate_uri (build_annotate_uri meta (p ++ z ∷ []))
      ≡ some (dict_of (find_meta (in_key []) (join (fields meta))) [], p ++ z ∷ [])
unfolding split_annotate_uri
split-build_annotate_uri meta p z h =
    rw
      (
        strip-build_annotate_uri meta p z h,
        drop-build_annotate_uri meta (p ++ z ∷ []),
        scan-join meta (p ++ z ∷ []),
      )
      refl
