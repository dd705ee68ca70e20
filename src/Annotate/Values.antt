-- ===== src/Annotate/Values.antt =====
-- The values that are read back of a URI.
use web_broadcaster.Base.{
  ℕ, ◌≡◌, refl, ap, ◌∙◌, Bool, true, false, ◌||◌, List, [], ◌∷◌, ◌++◌, ◌==◌, append_assoc,
  append-nil, any, Bool-cases, inl, inr, arith,
}
use web_broadcaster.Base.Text.{Text}
use web_broadcaster.Annotate.{
  escape_char, annotate_escape_value, is_key_char, has_key, all_key_chars, is_key, field, in_key,
  in_value, find_meta,
}

-- The characters that are escaped.
abbrev pub is_escaped : ℕ → Bool
is_escaped c = (c == 92) || (c == 34) || (c == 10) || (c == 13)

escape_plain :
    (v w : Text)
    → any is_escaped v ≡ false
    → annotate_escape_value (v ++ w) ≡ v ++ annotate_escape_value w
unfolding annotate_escape_value escape_char
escape_plain [] w h = refl
escape_plain (c ∷ v) w h = ground (arith, escape_plain v w)

find_meta-key :
    (k seen rest : Text)
    → all_key_chars k ≡ true
    → find_meta (in_key seen) (k ++ rest) ≡ find_meta (in_key (seen ++ k)) rest
unfolding find_meta all_key_chars
find_meta-key [] seen rest h = rw (append-nil seen) refl
find_meta-key (c ∷ k) seen rest h = elim (Bool-cases (is_key_char c)) [
  | inl e ↦
      let later = find_meta-key k (seen ++ c ∷ []) rest (rw e at h) in
      rw e (later ∙ ap (λ (t : Text). find_meta (in_key t) rest) (append_assoc seen (c ∷ []) k))
  | inr e ↦ absurd (cc (rw e at h))
]

find_meta-value :
    (k v seen rest : Text)
    → any is_escaped v ≡ false
    → find_meta (in_value k seen) (v ++ rest) ≡ find_meta (in_value k (seen ++ v)) rest
unfolding find_meta
find_meta-value k [] seen rest h = rw (append-nil seen) refl
find_meta-value k (c ∷ v) seen rest h =
    let not_quote : (c == 34) ≡ false = ground arith in
    let plain : any is_escaped v ≡ false = ground arith in
    let later = find_meta-value k v (seen ++ c ∷ []) rest plain in
    rw not_quote
      (later ∙ ap (λ (t : Text). find_meta (in_value k t) rest) (append_assoc seen (c ∷ []) v))

-- A key and what opens its value.
find_meta-open :
    (k rest : Text)
    → is_key k ≡ true
    → find_meta (in_key []) (k ++ (61 ∷ 34 ∷ rest)) ≡ find_meta (in_value k []) rest
unfolding is_key
find_meta-open k rest h =
    let chars : all_key_chars k ≡ true = ground arith in
    let nonempty : has_key k ≡ true = ground arith in
    find_meta-key k [] (61 ∷ 34 ∷ rest) chars ∙ (unfold find_meta in rw nonempty refl)

-- A value with a quote is read back cut: it ends before the quote, and the backslash that was written
-- to escape the quote is its last character.
pub find_meta-field_quoted :
    (k v w : Text)
    → is_key k ≡ true
    → any is_escaped v ≡ false
    → (found : List (Text × Text)) × (find_meta (in_key []) (field k (v ++ 34 ∷ w))
        ≡ (k, v ++ 92 ∷ []) ∷ found)
unfolding field
find_meta-field_quoted k v w key plain = (
  find_meta (in_key []) (annotate_escape_value w ++ 34 ∷ []),
  rw
      (
        find_meta-open k (annotate_escape_value (v ++ 34 ∷ w) ++ 34 ∷ []) key,
        escape_plain v (34 ∷ w) plain,
        append_assoc v (annotate_escape_value (34 ∷ w)) (34 ∷ []),
        find_meta-value k v [] (annotate_escape_value (34 ∷ w) ++ 34 ∷ []) plain,
      )
      (unfold find_meta annotate_escape_value escape_char in refl),
)
