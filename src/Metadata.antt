-- ===== src/Metadata.antt =====
-- The comparison form of artists and titles: `AutoDJService.normalize_text` (autodj/service.py) and
-- `PlaybackRepository._normalize_metadata` (storage/playback_repository.py), which are the same code.
use web_broadcaster.Base.{
  ℕ, Bool, true, false, not, ◌&&◌, ◌||◌, [], ◌∷◌, leb, if◌then◌else◌, ◌≡◌, refl,
}
use web_broadcaster.Base.Text.{Text, strip, lower, is_space, codes}

-- [a-z0-9]
unfoldable pub is_word : ℕ → Bool
is_word c = (leb 97 c && leb c 122) || (leb 48 c && leb c 57)

abbrev pub not_space : ℕ → Bool
not_space c = not (is_space c)

-- `re.sub` of each maximal run of characters that fail the test, by one space; the flag says that
-- the character before was in such a run.
unfoldable pub sub_runs : (ℕ → Bool) → Bool → Text → Text
sub_runs keep in_run [] = []
sub_runs keep in_run (c ∷ s) =
    let kept = sub_runs keep false s in
    let skipped = sub_runs keep true s in
    if keep c then c ∷ kept else if in_run then skipped else 32 ∷ skipped

unfoldable pub normalize_text : Text → Text
unfolding strip lower is_word is_space sub_runs
normalize_text value =
    strip (sub_runs not_space false (sub_runs is_word false (lower (strip value))))

normalizes : normalize_text (codes "  The  B-52's ") ≡ codes "the b 52 s"
unfolding normalize_text
normalizes = refl
