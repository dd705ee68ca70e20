-- ===== src/Tests/Identity.antt =====
-- A deck whose track is confirmed.
use web_broadcaster.Base.{true, not, ◌&&◌, leb, ◌-◌, ◌≡◌, refl, [], arith}
use web_broadcaster.Base.Int.{pos, negsuc}
use web_broadcaster.Base.Text.{codes, strip, text_eq}
use web_broadcaster.Engine.Identity.{
  RawIdentity, Registry, normalize_identity, remember_confirmed, resolve_confirmed, normalize_deck,
}
use web_broadcaster.Engine.Loads.{accept_deck_loaded, load_signature, clear}
use web_broadcaster.Engine.LoadsLaws.{accept_deck_loaded-twice}
use web_broadcaster.Engine.IdentityLaws.{
  Resolves, resolve_confirmed-Resolves, only_queue_id, resolve-remember_confirmed,
}

abbrev loaded : RawIdentity
loaded = record {
  raw_deck = codes "deck_a";
  raw_queue_id = pos 7;
  raw_track_id = negsuc 2;
  raw_slot_token = codes " s1 ";
  raw_path = codes "/m/a.mp3";
  raw_artist = codes "Ann";
  raw_title = codes "One";
  raw_year = [];
}

abbrev empty : Registry
empty = record { confirmed = [] }

resolve-remember_confirmed_example :
    resolve_confirmed
      (codes "fm")
      (only_queue_id (codes "deck_a") 7)
      (remember_confirmed (codes "fm") loaded empty).1
    ≡ normalize_identity loaded
unfolding normalize_deck strip
resolve-remember_confirmed_example =
    resolve-remember_confirmed (codes "fm") loaded empty refl refl (omega arith)

resolve_confirmed-Resolves_example :
    let g = (remember_confirmed (codes "fm") loaded empty).1 in
    Resolves
      (strip (codes "fm"))
      g
      (normalize_identity (only_queue_id (codes "deck_a") 7))
      (resolve_confirmed (codes "fm") (only_queue_id (codes "deck_a") 7) g)
resolve_confirmed-Resolves_example =
    resolve_confirmed-Resolves (codes "fm") (only_queue_id (codes "deck_a") 7)
      (remember_confirmed (codes "fm") loaded empty).1

accept_deck_loaded-twice_example :
    let (shown, n, g', loads') = accept_deck_loaded 2000 (codes "fm") loaded 100 empty [] in
    (accept_deck_loaded 2000 (codes "fm") loaded 900 g' loads').0
    ≡ not (
        text_eq
          (load_signature (normalize_identity loaded))
          (load_signature (normalize_identity loaded))
        && leb 100 900
        && leb (900 - 100) 2000)
accept_deck_loaded-twice_example =
    accept_deck_loaded-twice 2000 100 900 (codes "fm") loaded loaded empty
      (accept_deck_loaded 2000 (codes "fm") loaded 100 empty []).2 [] refl

prints_ids : load_signature (normalize_identity loaded) ≡ codes "A|7|0|s1|/m/a.mp3"
unfolding load_signature normalize_identity
prints_ids = refl

-- After `clear` a load is shown again.
shown_after_clear :
    let (shown, n, g, loads) = accept_deck_loaded 2000 (codes "fm") loaded 100 empty [] in
    let (g', loads') = clear g loads in
    (accept_deck_loaded 2000 (codes "fm") loaded 101 g' loads').0 ≡ true
unfolding clear accept_deck_loaded
shown_after_clear = refl
