-- ===== src/Report/Tests.antt =====
-- Runs of the functions on intervals, and the theorems at concrete inputs.
use ironbird.Base.{
  ℕ, ◌≡◌, ◌≢◌, refl, ◌≤◌, ◌-◌, String, ◌&&◌, List, [], ◌∷◌, All, map, arith, eq_iff,
}
use ironbird.Report.Merge.{
  LoadWindowInterval, ClippedClockInterval, merge_clipped_clock_intervals,
  clipped_clock_interval_union_seconds,
}
use ironbird.Report.Phases.{
  PhaseSpan, LoadWindowObservation, summarize_load_window_phase_overlaps, IsAccounted,
  summarize-IsAccounted,
}
use ironbird.Report.Attribution.{
  load_window_interval_class_union, summarize_load_window_interval_attributions,
}
use ironbird.Report.Measure.{count, between}
use ironbird.Report.Union.{covers, Separated, merge_lem, union_seconds_lem}
use ironbird.Report.Classes.{attributed, class_union_lem, class_union_bound}
use ironbird.Report.Table.{counts, overlapping, summarize-counts}

abbrev clock : ℕ → ℕ → ClippedClockInterval
clock a b = record { started = a; ended = b }

abbrev three : List ClippedClockInterval
three = clock 20 30 ∷ clock 5 10 ∷ clock 8 12 ∷ []

merged : merge_clipped_clock_intervals three ≡ (clock 5 12 ∷ clock 20 30 ∷ [])
unfolding merge_clipped_clock_intervals
merged = refl

union : clipped_clock_interval_union_seconds three ≡ 17
unfolding clipped_clock_interval_union_seconds
union = refl

abbrev interval : String → String → ℕ → ℕ → LoadWindowInterval
interval class source a b = record {
  name = "node-0";
  class = class;
  method = "scrape";
  source = source;
  provenance = "";
  started = a;
  ended = b;
}

abbrev intervals : List LoadWindowInterval
intervals = interval "flush" "b" 5 15 ∷ interval "flush" "a" 12 25 ∷ interval "commit" "a" 1 30 ∷ []

class_union : load_window_interval_class_union "node-0" 10 20 "flush" intervals ≡ (10, 2, "a, b")
unfolding load_window_interval_class_union
class_union = refl

table :
    map (λ a. a.key.class) (summarize_load_window_interval_attributions intervals "" 10 20)
    ≡ ("commit" ∷ "flush" ∷ "flush" ∷ [])
unfolding summarize_load_window_interval_attributions
table = refl

abbrev window : LoadWindowObservation
window = record { started_at = 10; ended_at = 20 }

abbrev span : ℕ → ℕ → PhaseSpan
span a b = record { name = "launch"; started = a; ended = b; seconds = 0; note = "" }

abbrev spans : List PhaseSpan
spans = span 2 10 ∷ span 5 12 ∷ span 5 30 ∷ span 0 4 ∷ span 12 15 ∷ []

classes :
    map (λ r. r.classification) (summarize_load_window_phase_overlaps spans window)
    ≡ ("before_window" ∷ "crosses_window_start" ∷ "spans_window" ∷ "inside_window" ∷ [])
unfolding summarize_load_window_phase_overlaps
classes = refl

summarize-IsAccounted_example :
    All (IsAccounted window) (summarize_load_window_phase_overlaps spans window)
summarize-IsAccounted_example = summarize-IsAccounted spans window

merge_lem_example :
    ((t : ℕ) → covers (merge_clipped_clock_intervals three) t ≡ covers three t)
    × Separated (merge_clipped_clock_intervals three)
merge_lem_example = merge_lem three

union_seconds_lem_example : clipped_clock_interval_union_seconds three ≡ count (covers three) 40
union_seconds_lem_example =
    union_seconds_lem 40 three
      ((omega arith, omega arith), ((omega arith, omega arith), ((omega arith, omega arith), tt)))

class_union_lem_example :
    (load_window_interval_class_union "node-0" 10 20 "flush" intervals).0
    ≡ count (λ t. between 10 20 t && attributed "node-0" "flush" 10 20 intervals t) 20
class_union_lem_example = class_union_lem "node-0" "flush" 10 20 intervals named refl
  where
    named : ◌≢◌ {A = String} "flush" ""
    named e = ground (arith, eq_iff "flush" "")

class_union_bound_example :
    (load_window_interval_class_union "node-0" 10 20 "flush" intervals).0 ≤ 20 - 10
class_union_bound_example = class_union_bound "node-0" "flush" 10 20 intervals

summarize-counts_example :
    counts (summarize_load_window_interval_attributions intervals "" 10 20)
    ≡ overlapping "" 10 20 intervals
summarize-counts_example = summarize-counts "" 10 20 intervals refl
