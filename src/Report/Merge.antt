-- ===== src/Report/Merge.antt =====
-- cmd/local-report-runner/main.go: clipping intervals to a window, and merging those that touch.
use ironbird.Base.{
  ℕ, ◌+◌, ◌-◌, String, Bool, true, not, ◌||◌, Option, none, some, List, [], ◌∷◌, ltb, ◌==◌, str_eq,
  if◌then◌else◌,
}

pub record LoadWindowInterval : Type 0 where
  pub name : String
  pub class : String
  pub method : String
  pub source : String
  pub provenance : String
  pub started : ℕ
  pub ended : ℕ

pub record ClippedClockInterval : Type 0 where
  pub started : ℕ
  pub ended : ℕ

unfoldable pub min_time : ℕ → ℕ → ℕ
min_time a b = if ltb a b then a else b

unfoldable pub max_time : ℕ → ℕ → ℕ
max_time a b = if ltb b a then a else b

unfoldable pub overlap_seconds : ℕ → ℕ → ℕ → ℕ → ℕ
unfolding min_time max_time
overlap_seconds a_start a_end b_start b_end =
    let start = max_time a_start b_start in
    let end = min_time a_end b_end in if ltb start end then end - start else 0

unfoldable pub load_window_interval_matches_node : LoadWindowInterval → String → Bool
load_window_interval_matches_node interval node_name =
    if str_eq node_name "" then true else str_eq interval.name node_name

unfoldable pub clip_load_window_interval : LoadWindowInterval → ℕ → ℕ → Option ClippedClockInterval
unfolding min_time max_time
clip_load_window_interval interval window_start window_end =
    let started = max_time interval.started window_start in
    let ended = min_time interval.ended window_end in
    if interval.started == 0 || interval.ended == 0 || not (ltb interval.started interval.ended)
    then none
    else if not (ltb started ended)
    then none
    else some (record { started = started; ended = ended })

-- The order of the sort: by start, then by end.
abbrev pub precedes : ClippedClockInterval → ClippedClockInterval → Bool
precedes a b = if a.started == b.started then ltb a.ended b.ended else ltb a.started b.started

unfoldable pub insert_interval :
    ClippedClockInterval → List ClippedClockInterval → List ClippedClockInterval
insert_interval x [] = x ∷ []
insert_interval x (y ∷ ys) = if precedes y x then y ∷ insert_interval x ys else x ∷ y ∷ ys

-- sort.Slice: intervals that the order does not tell apart are equal, so every sort gives this list.
unfoldable pub sort_intervals : List ClippedClockInterval → List ClippedClockInterval
unfolding insert_interval
sort_intervals [] = []
sort_intervals (x ∷ xs) = insert_interval x (sort_intervals xs)

-- The last merged interval after `interval` was joined to it.
abbrev pub extend_last : ClippedClockInterval → ClippedClockInterval → ClippedClockInterval
extend_last last interval = record {
  started = last.started;
  ended = if ltb last.ended interval.ended then interval.ended else last.ended;
}

-- The loop: `last` is the last interval of `merged`, and the result is what follows it, itself included.
unfoldable pub merge_from :
    ClippedClockInterval → List ClippedClockInterval → List ClippedClockInterval
merge_from last [] = last ∷ []
merge_from last (interval ∷ rest) =
    let joined = not (ltb last.ended interval.started) in
    let merged = merge_from (if joined then extend_last last interval else interval) rest in
    if joined then merged else last ∷ merged

abbrev pub merge_sorted : List ClippedClockInterval → List ClippedClockInterval
merge_sorted [] = []
merge_sorted (first ∷ rest) = merge_from first rest

unfoldable pub merge_clipped_clock_intervals : List ClippedClockInterval → List ClippedClockInterval
unfolding sort_intervals merge_from
merge_clipped_clock_intervals intervals = merge_sorted (sort_intervals intervals)

abbrev pub total_seconds : List ClippedClockInterval → ℕ
total_seconds [] = 0
total_seconds (i ∷ rest) = (i.ended - i.started) + total_seconds rest

unfoldable pub clipped_clock_interval_union_seconds : List ClippedClockInterval → ℕ
unfolding merge_clipped_clock_intervals
clipped_clock_interval_union_seconds intervals =
    total_seconds (merge_clipped_clock_intervals intervals)
