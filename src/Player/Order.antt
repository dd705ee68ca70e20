-- ===== src/Player/Order.antt =====
-- The numbers of requests, the order in which reports have to come, and what is true in each phase
-- of the worker.
use web_broadcaster.Base.{
  ℕ, suc, ◌≤◌, ◌<◌, ◌≡◌, refl, ◌∙◌, true, false, Option, none, some, List, [], ◌∷◌, ◌++◌, ltb,
  arith, length,
}
use web_broadcaster.Player.Requests.{Request, State, public_status}
use web_broadcaster.Player.Worker.{
  Phase, no_worker, at_loop, starting, polling, reserved, waiting, finishing, Report, replied,
  began, targeted, handed, noted, completed, started_worker,
}

abbrev pub seqs : List Request → List ℕ
seqs [] = []
seqs (r ∷ rs) = r.request_id.seq ∷ seqs rs

-- The numbers rise, above `low` and up to `high`.
abbrev pub Rising : ℕ → List ℕ → ℕ → Type 0
Rising low [] high = low ≤ high
Rising low (n ∷ ns) high = (low < n) × Rising n ns high

pub Rising-append_one :
    (low : ℕ) (rs : List Request) (high : ℕ) (r : Request)
    → Rising low (seqs rs) high
    → r.request_id.seq ≡ suc high
    → Rising low (seqs (rs ++ r ∷ [])) (suc high)
Rising-append_one low [] high r h e = omega arith
Rising-append_one low (x ∷ rs) high r h e =
    (h.0, Rising-append_one x.request_id.seq rs high r h.1 e)

pub Rising-bounds : (low : ℕ) (ns : List ℕ) (high : ℕ) → Rising low ns high → low ≤ high
Rising-bounds low [] high h = h
Rising-bounds low (n ∷ ns) high h = omega (arith, Rising-bounds n ns high h.1)

pub Rising-suc : (low : ℕ) (ns : List ℕ) (high : ℕ) → Rising low ns high → Rising low ns (suc high)
Rising-suc low [] high h = omega arith
Rising-suc low (n ∷ ns) high h = (h.0, Rising-suc n ns high h.1)

-- The number of the request that the worker has taken.
abbrev pub busy : Phase → Option ℕ
busy no_worker = none
busy at_loop = none
busy (starting r) = some r.request_id.seq
busy (polling r d) = some r.request_id.seq
busy (reserved r q t) = some r.request_id.seq
busy (waiting r q t d) = some r.request_id.seq
busy (finishing r x) = some r.request_id.seq

-- The reports of one worker: it begins requests in the order of their numbers, each after the one
-- before is completed, and hands over queue items only for the request that it has begun.
abbrev pub Serial : ℕ → Option ℕ → List Report → Type 0
Serial low b [] = Unit
Serial low b (replied r ∷ log) = Serial low b log
Serial low none (began id ∷ log) = (low < id.seq) × Serial id.seq (some id.seq) log
Serial low (some n) (began id ∷ log) = ⊥
Serial low b (noted qid success ∷ log) = Serial low b log
Serial low none (targeted id qid ∷ log) = ⊥
Serial low (some n) (targeted id qid ∷ log) = (id.seq ≡ n) × (0 < qid) × Serial low (some n) log
Serial low none (handed id qid ∷ log) = ⊥
Serial low (some n) (handed id qid ∷ log) = (id.seq ≡ n) × (0 < qid) × Serial low (some n) log
Serial low none (completed id result dropped ∷ log) = ⊥
Serial low (some n) (completed id result dropped ∷ log) = (id.seq ≡ n) × Serial low none log

abbrev pub InPhase : Phase → State → Type 0
InPhase no_worker s = (s.pending ≡ []) × (s.processing ≡ false)
InPhase at_loop s = Unit
InPhase (starting r) s = s.processing ≡ true
InPhase (polling r d) s = s.processing ≡ true
InPhase (reserved r q t) s = (s.processing ≡ true) × (0 < q)
InPhase (waiting r q t d) s = s.processing ≡ true
InPhase (finishing r x) s = s.processing ≡ true

pub InPhase-fields :
    (p : Phase) (s t : State)
    → t.pending ≡ s.pending
    → t.processing ≡ s.processing
    → InPhase p s
    → InPhase p t
InPhase-fields no_worker s t e f h = (e ∙ h.0, f ∙ h.1)
InPhase-fields at_loop s t e f h = tt
InPhase-fields (starting r) s t e f h = f ∙ h
InPhase-fields (polling r d) s t e f h = f ∙ h
InPhase-fields (reserved r q k) s t e f h = (f ∙ h.0, h.1)
InPhase-fields (waiting r q k d) s t e f h = f ∙ h
InPhase-fields (finishing r x) s t e f h = f ∙ h

pub started_worker-InPhase :
    (p : Phase) (s t : State)
    → t.processing ≡ s.processing
    → InPhase p s
    → InPhase (started_worker p) t
started_worker-InPhase no_worker s t f h = tt
started_worker-InPhase at_loop s t f h = tt
started_worker-InPhase (starting r) s t f h = f ∙ h
started_worker-InPhase (polling r d) s t f h = f ∙ h
started_worker-InPhase (reserved r q k) s t f h = (f ∙ h.0, h.1)
started_worker-InPhase (waiting r q k d) s t f h = f ∙ h
started_worker-InPhase (finishing r x) s t f h = f ∙ h

pub busy-started_worker : (p : Phase) → busy (started_worker p) ≡ busy p
busy-started_worker no_worker = refl
busy-started_worker p = refl

pub no_pending : (rs : List Request) → ltb 0 (length rs) ≡ false → rs ≡ []
no_pending [] h = refl
no_pending (r ∷ rs) h = absurd (ground arith)

pub idle_lem :
    (p : Phase) (s : State)
    → InPhase p s
    → (public_status s).in_progress ≡ false
    → (busy p ≡ none) × (s.pending ≡ [])
unfolding public_status
idle_lem no_worker s h e = (refl, h.0)
idle_lem at_loop s h e = (refl, no_pending s.pending (ground arith))
idle_lem (reserved r q k) s h e = absurd (ground (arith, h.0))
idle_lem p s h e = absurd (ground arith)
