-- ===== src/Report/Phases.antt =====
-- cmd/local-report-runner/main.go: how the phases of a run lie to its load window.
use ironbird.Base.{
  ℕ, ◌+◌, ◌-◌, ◌<◌, ◌≡◌, inl, inr, String, Bool, false, not, ◌&&◌, ◌||◌, List, [], ◌∷◌, ltb, leb,
  ◌==◌, if◌then◌else◌, Bool-cases, All, arith,
}
use ironbird.Report.Merge.{min_time, max_time, overlap_seconds}

pub record PhaseSpan : Type 0 where
  pub name : String
  pub started : ℕ
  pub ended : ℕ
  pub seconds : ℕ
  pub note : String

-- The part of `loadWindowObservation` that is used here.
pub record LoadWindowObservation : Type 0 where
  pub started_at : ℕ
  pub ended_at : ℕ

pub record LoadWindowPhaseOverlap : Type 0 where
  pub name : String
  pub note : String
  pub started : ℕ
  pub ended : ℕ
  pub phase_seconds : ℕ
  pub before_window_seconds : ℕ
  pub in_window_seconds : ℕ
  pub after_window_seconds : ℕ
  pub classification : String

abbrev positive : ℕ → Bool
positive n = ltb 0 n

unfoldable pub classify_load_window_phase : ℕ → ℕ → ℕ → String
classify_load_window_phase before inside after =
    if inside == 0 && positive before && after == 0
    then "before_window"
    else if inside == 0 && positive after && before == 0
    then "after_window"
    else if positive before && positive after
    then "spans_window"
    else if positive before
    then "crosses_window_start"
    else if positive after
    then "crosses_window_end"
    else if positive inside
    then "inside_window"
    else "outside_window"

unfoldable pub before_window : ℕ → ℕ → ℕ → ℕ
unfolding min_time
before_window started ended window_start =
    let before_end = min_time ended window_start in
    if ltb started window_start
    then (if ltb started before_end then before_end - started else 0)
    else 0

unfoldable pub after_window : ℕ → ℕ → ℕ → ℕ
unfolding max_time
after_window started ended window_end =
    let after_start = max_time started window_end in
    if ltb window_end ended then (if ltb after_start ended then ended - after_start else 0) else 0

unfoldable pub phase_overlap : PhaseSpan → LoadWindowObservation → LoadWindowPhaseOverlap
unfolding before_window after_window overlap_seconds classify_load_window_phase
phase_overlap span obs =
    let before = before_window span.started span.ended obs.started_at in
    let inside = overlap_seconds span.started span.ended obs.started_at obs.ended_at in
    let after = after_window span.started span.ended obs.ended_at in
    record {
      name = span.name;
      note = span.note;
      started = span.started;
      ended = span.ended;
      phase_seconds = span.ended - span.started;
      before_window_seconds = before;
      in_window_seconds = inside;
      after_window_seconds = after;
      classification = classify_load_window_phase before inside after;
    }

abbrev pub bad_span : ℕ → ℕ → Bool
bad_span started ended = started == 0 || ended == 0 || not (ltb started ended)

unfoldable pub phase_overlaps : List PhaseSpan → LoadWindowObservation → List LoadWindowPhaseOverlap
unfolding phase_overlap
phase_overlaps [] obs = []
phase_overlaps (span ∷ spans) obs =
    let rest = phase_overlaps spans obs in
    if bad_span span.started span.ended then rest else phase_overlap span obs ∷ rest

unfoldable pub summarize_load_window_phase_overlaps :
    List PhaseSpan → LoadWindowObservation → List LoadWindowPhaseOverlap
unfolding phase_overlaps
summarize_load_window_phase_overlaps spans obs =
    if bad_span obs.started_at obs.ended_at then [] else phase_overlaps spans obs

-- Where the phase from `s` to `e` lies, by comparing its ends with those of the window from `a` to `b`.
abbrev pub position : ℕ → ℕ → ℕ → ℕ → String
position s e a b =
    if leb e a
    then "before_window"
    else if leb b s
    then "after_window"
    else if ltb s a
    then (if ltb b e then "spans_window" else "crosses_window_start")
    else if ltb b e
    then "crosses_window_end"
    else "inside_window"

-- A row is right: its three parts add up to the phase, and its class is the phase's position.
pub record IsAccounted (obs : LoadWindowObservation) (row : LoadWindowPhaseOverlap) : Type 0 where
  pub parts :
      row.before_window_seconds + row.in_window_seconds + row.after_window_seconds
      ≡ row.phase_seconds
  pub length : row.started + row.phase_seconds ≡ row.ended
  pub placed : row.classification ≡ position row.started row.ended obs.started_at obs.ended_at

module _ (s e a b : ℕ) (hs : s < e) (ha : a < b) where
  parts_lem : before_window s e a + overlap_seconds s e a b + after_window s e b ≡ e - s
  unfolding before_window overlap_seconds after_window min_time max_time
  parts_lem = ground arith

  placed_lem :
      classify_load_window_phase
        (before_window s e a)
        (overlap_seconds s e a b)
        (after_window s e b)
      ≡ position s e a b
  unfolding classify_load_window_phase before_window overlap_seconds after_window min_time max_time
  placed_lem = ground arith

phase_overlap-IsAccounted :
    (span : PhaseSpan) (obs : LoadWindowObservation)
    → span.started < span.ended
    → obs.started_at < obs.ended_at
    → IsAccounted obs (phase_overlap span obs)
unfolding phase_overlap
phase_overlap-IsAccounted span obs hs ha = record {
  parts = parts_lem span.started span.ended obs.started_at obs.ended_at hs ha;
  length = omega arith;
  placed = placed_lem span.started span.ended obs.started_at obs.ended_at hs ha;
}

good_lem : (s e : ℕ) → bad_span s e ≡ false → s < e
good_lem s e h = ground arith

phase_overlaps-IsAccounted :
    (spans : List PhaseSpan) (obs : LoadWindowObservation)
    → obs.started_at < obs.ended_at
    → All (IsAccounted obs) (phase_overlaps spans obs)
unfolding phase_overlaps
phase_overlaps-IsAccounted [] obs ha = tt
phase_overlaps-IsAccounted (span ∷ spans) obs ha =
    elim (Bool-cases (bad_span span.started span.ended)) [
      | inl bad ↦ rw bad (phase_overlaps-IsAccounted spans obs ha)
      | inr good ↦ rw good (
        phase_overlap-IsAccounted span obs (good_lem span.started span.ended good) ha,
        phase_overlaps-IsAccounted spans obs ha,
      )
    ]

-- Every row of the summary of phases is right, whatever the spans and the window are: the time before,
-- in and after the load window adds up to the phase's time, that time is the distance of the row's
-- ends, and the class names the position of the phase's ends relative to the window's.
pub summarize-IsAccounted :
    (spans : List PhaseSpan) (obs : LoadWindowObservation)
    → All (IsAccounted obs) (summarize_load_window_phase_overlaps spans obs)
unfolding summarize_load_window_phase_overlaps
summarize-IsAccounted spans obs = elim (Bool-cases (bad_span obs.started_at obs.ended_at)) [
  | inl bad ↦ rw bad tt
  | inr good ↦
      rw good (phase_overlaps-IsAccounted spans obs (good_lem obs.started_at obs.ended_at good))
]
