-- ===== src/Player/Results.antt =====
-- What the parts of `_execute_one` can return.
use web_broadcaster.Base.{
  ℕ, ◌<◌, ◌≡◌, refl, Bool, true, false, not, ◌&&◌, ◌||◌, Option, none, some, ◌==◌, arith,
  if◌then◌else◌, inl, inr, Bool-cases,
}
use web_broadcaster.Base.Text.{text_eq, codes}
use web_broadcaster.Base.Fallible.{Result, ok, raised}
use web_broadcaster.Player.Requests.{Request, NextResult}
use web_broadcaster.Player.Execute.{
  Answers, ReservedPlan, NativeState, Handoff, Poll, finished, reserve, poll_again, HandoffStep,
  handoff_result, handoff_done, protected_skip, poll_plan, poll_native, poll_head, hand_over,
  no_lines, is_audible, has_evidence, direct_handoff_step, or_skip, or_false,
}

-- A poll ends in a failure, or reserves a positive id, or goes on.
pub data Reserves : Poll → Type 0 where
  finishes : {x : NextResult} → x.success ≡ false → Reserves (finished x)
  reserves : (plan : ReservedPlan) → 0 < plan.target_qid → Reserves (reserve plan)
  again : Reserves poll_again

choices-Reserves :
    (b c d e : Bool) (x y : NextResult) (plan : ReservedPlan)
    → x.success ≡ false
    → y.success ≡ false
    → 0 < plan.target_qid
    → Reserves (
        if b
        then finished x
        else if c
        then reserve plan
        else if d
        then reserve plan
        else if e
        then finished y
        else poll_again)
choices-Reserves true c d e x y plan p q h = finishes p
choices-Reserves false true d e x y plan p q h = reserves plan h
choices-Reserves false false true e x y plan p q h = reserves plan h
choices-Reserves false false false true x y plan p q h = finishes q
choices-Reserves false false false false x y plan p q h = again

poll_native-Reserves :
    (plan : ReservedPlan) (n : NativeState) (late : Bool)
    → 0 < plan.target_qid
    → Reserves (poll_native plan n late)
unfolding poll_native
poll_native-Reserves plan n late h =
    choices-Reserves (not n.running) ((n.queue_id == 0) || not (n.queue_id == plan.target_qid))
      (has_evidence n && not (is_audible n plan.target_qid)) late _ _ plan refl refl h

poll_plan-Reserves :
    (plan : ReservedPlan) (n : Result NativeState) (late : Bool) → Reserves (poll_plan plan n late)
unfolding poll_plan
poll_plan-Reserves plan (raised e) late =
    elim (Bool-cases (no_lines plan.queue_lines || (plan.target_qid == 0))) [
      | inl empty ↦ rw empty (finishes refl)
      | inr some_line ↦ rw some_line (finishes refl)
    ]
poll_plan-Reserves plan (ok n) late =
    elim (Bool-cases (no_lines plan.queue_lines || (plan.target_qid == 0))) [
      | inl e ↦ rw e (finishes refl)
      | inr e ↦ rw e (poll_native-Reserves plan n late (ground (arith, e)))
    ]

pub poll_head-Reserves :
    (plan : Result ReservedPlan) (n : Result NativeState) (late : Bool)
    → Reserves (poll_head plan n late)
unfolding poll_head
poll_head-Reserves (raised e) n late = finishes refl
poll_head-Reserves (ok plan) n late = poll_plan-Reserves plan n late

-- A skip, if there is one, is marked as such.
pub data Skips : Option NextResult → Type 0 where
  goes_on : Skips none
  skips : {x : NextResult} → x.skipped ≡ true → Skips (some x)

pub protected_skip-Skips : (r : Request) (a : Answers) → Skips (protected_skip r a)
unfolding protected_skip
protected_skip-Skips r a =
    elim (Bool-cases (
      text_eq r.source (codes "script")
      && (or_false a.scheduler_active || or_false a.url_active))) [
        | inl e ↦ rw e (skips refl)
        | inr e ↦ rw e goes_on
      ]

-- The handoff fails, or is skipped, or is done.
pub data Gives : HandoffStep → Type 0 where
  fails : {x : NextResult} → x.success ≡ false → Gives (handoff_result x)
  gives_way : {x : NextResult} → x.skipped ≡ true → Gives (handoff_result x)
  hands_over : {h : Handoff} → Gives (handoff_done h)

direct_handoff_step-Gives :
    (qid tid : ℕ) (o : Result (Option Handoff)) → Gives (direct_handoff_step qid tid o)
unfolding direct_handoff_step
direct_handoff_step-Gives qid tid (raised e) = fails refl
direct_handoff_step-Gives qid tid (ok none) = fails refl
direct_handoff_step-Gives qid tid (ok (some h)) = elim (Bool-cases h.handed_over) [
  | inl e ↦ rw e hands_over
  | inr e ↦ rw e (fails refl)
]

or_skip-Gives :
    {o : Option NextResult} {step : HandoffStep} → Skips o → Gives step → Gives (or_skip o step)
or_skip-Gives goes_on g = g
or_skip-Gives (skips e) g = gives_way e

pub hand_over-Gives :
    (r : Request) (qid tid : ℕ) (a : Answers) (c : Result Bool) → Gives (hand_over r qid tid a c)
unfolding hand_over
hand_over-Gives r qid tid a (raised e) = fails refl
hand_over-Gives r qid tid a (ok false) = fails refl
hand_over-Gives r qid tid a (ok true) =
    or_skip-Gives (protected_skip-Skips r a) (direct_handoff_step-Gives qid tid a.handoff)
