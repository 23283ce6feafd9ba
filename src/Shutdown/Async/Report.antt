-- ===== src/Shutdown/Async/Report.antt =====
-- That `shutdown_get_status` of src/shutdown/shutdown.c reports what the workflow recorded.
use airies_ups_c.Shutdown.Async.Steps.{
  System, Step, refused, begun, spawned, not_spawned, recorded, appended, finished, Reachable,
  at_first, then_step,
}
use mathlib.Core.Path.{subst}
use airies_ups_c.Base.{
  ap, inl, inr, dec_lt, Bool-cases, length-append, ℕ, ◌+◌, ◌≡◌, refl, Bool, true, false, ◌&&◌,
  Option, none, some, List, [], ◌∷◌, ◌++◌, ◌==◌, if◌then◌else◌, arith, length,
}
use airies_ups_c.Shutdown.Async.{
  Mgr, Result, StepRow, is_running, is_completed, mirror, mirror_into, begin_start, start_failed,
  start_recorded, finish, shutdown_get_status, copied, result_append_to, result_row_fill,
}

-- The failed rows.
unfoldable pub count_failed : List StepRow → ℕ
count_failed [] = 0
count_failed (row ∷ rows) = (if row.ok == 1 then 1 else 0) + count_failed rows

count_failed-append :
    (rows : List StepRow) (row : StepRow)
    → count_failed (rows ++ (row ∷ [])) ≡ count_failed rows + (if row.ok == 1 then 1 else 0)
unfolding count_failed
count_failed-append [] row = omega arith
count_failed-append (first ∷ rows) row = omega (arith, count_failed-append rows row)

-- The counters of a result are those of its rows.
abbrev pub IsCounted : Option Result → Type 0
IsCounted none = Unit {0}
IsCounted (some res) = (res.n_steps ≡ length res.steps) × (res.n_failed ≡ count_failed res.steps)

append-IsCounted :
    (grown : Bool) (res : Result) (phase target : Option (List ℕ)) (ok : ℕ) (err : Option (List ℕ))
    → IsCounted (some res)
    → IsCounted (some (result_append_to grown res phase target ok err))
unfolding result_append_to result_row_fill
append-IsCounted grown res phase target ok err h = ground (
  arith,
  length-append res.steps (result_row_fill phase target ok err ∷ []),
  count_failed-append res.steps (result_row_fill phase target ok err),
)

mirror-IsCounted :
    (grown : Bool) (m : Mgr) (snap : Option Result) (phase target : Option (List ℕ)) (ok : ℕ)
    (err : Option (List ℕ))
    → m.snapshot ≡ snap
    → IsCounted snap
    → IsCounted (mirror_into grown m snap phase target ok err).snapshot
unfolding mirror_into
mirror-IsCounted grown m none phase target ok err e h = rw e tt
mirror-IsCounted grown m (some res) phase target ok err e h =
    elim (Bool-cases (is_running m.state)) [
      | inl up ↦ rw up (append-IsCounted grown res phase target ok err h)
      | inr down ↦ rw (down, e) h
    ]

begun-IsCounted :
    (m : Mgr) (dry_run : Bool) (now : ℕ) (got : Bool) (m' : Mgr)
    → begin_start m dry_run now got ≡ some m'
    → IsCounted m'.snapshot
unfolding begin_start count_failed
begun-IsCounted m dry_run now true m' e =
    let f : some (record { steps = []; n_steps = 0; n_failed = 0 }) ≡ m'.snapshot = ground arith in
    subst IsCounted f (refl, refl)
begun-IsCounted m dry_run now false m' e =
    let f : none ≡ m'.snapshot = ground arith in subst IsCounted f tt

Step-IsCounted : {s t : System} → Step s t → IsCounted s.mgr.snapshot → IsCounted t.mgr.snapshot
unfolding start_failed start_recorded finish mirror
Step-IsCounted (refused _ _ _ _) h = h
Step-IsCounted {s} (begun dry_run now got m e) h = begun-IsCounted s.mgr dry_run now got m e
Step-IsCounted (spawned k e) h = h
Step-IsCounted (not_spawned k now e) h = h
Step-IsCounted (recorded k e) h = h
Step-IsCounted {s} (appended k ok grown phase target err e) h =
    mirror-IsCounted grown s.mgr s.mgr.snapshot phase target ok err refl h
Step-IsCounted (finished k now e) h = h

Reachable-IsCounted : {s : System} → Reachable s → IsCounted s.mgr.snapshot
Reachable-IsCounted at_first = tt
Reachable-IsCounted (then_step r st) = Step-IsCounted st (Reachable-IsCounted r)

copied_honest :
    (snap : Option Result)
    → IsCounted snap
    → ((copied true snap).1 ≡ length (copied true snap).0)
      × ((copied true snap).2 ≡ count_failed (copied true snap).0)
unfolding copied count_failed
copied_honest none h = (refl, refl)
copied_honest (some res) h = elim (dec_lt 0 res.n_steps) [
  | yes p ↦ ground arith
  | no p ↦ ground arith
]

-- In every state that the threads can reach, a status whose allocation succeeds counts its own rows
-- right, the steps and the failures, and says `all_ok` exactly if the workflow is COMPLETED and none
-- of the rows failed.
pub status_honest :
    {s : System}
    → Reachable s
    → let st = shutdown_get_status true s.mgr in
      (st.n_steps ≡ length st.steps)
      × (st.n_failed ≡ count_failed st.steps)
      × (st.all_ok ≡ (is_completed s.mgr.state && count_failed st.steps == 0))
unfolding shutdown_get_status
status_honest {s} r =
    let c = copied_honest s.mgr.snapshot (Reachable-IsCounted r) in
    (c.0, c.1, ap (λ n. is_completed s.mgr.state && n == 0) c.1)
