-- ===== src/Report/Attribution.antt =====
-- cmd/local-report-runner/main.go: the time of a load window that a class of intervals takes, and the
-- table of all classes. A Go map is a list in the order of the keys' first use, and a set of texts
-- the sorted list of its members; the source sorts both before it shows them.
use Prim.Native.Nat.{Ordering}
use Prim.Native.String.{◌++◌ as append, compare}
use ironbird.Base.{
  ℕ, String, Bool, true, false, not, ◌&&◌, ◌||◌, Option, none, some, List, [], ◌∷◌, ◌++◌, length,
  ltb, ◌==◌, str_eq, if◌then◌else◌,
}
use ironbird.Report.Merge.{
  LoadWindowInterval, ClippedClockInterval, load_window_interval_matches_node,
  clip_load_window_interval, clipped_clock_interval_union_seconds,
}

abbrev pub before_text : String → String → Bool
before_text a b = elim (compare a b) [ Ordering.lt ↦ true | _ ↦ false ]

unfoldable pub insert_text : String → List String → List String
insert_text x [] = x ∷ []
insert_text x (y ∷ ys) =
    if str_eq x y then y ∷ ys else if before_text x y then x ∷ y ∷ ys else y ∷ insert_text x ys

unfoldable pub join_summary : List String → String
join_summary [] = ""
join_summary (x ∷ []) = x
join_summary (x ∷ y ∷ ys) = append x (append ", " (join_summary (y ∷ ys)))

unfoldable pub sorted_set_summary : List String → String
unfolding join_summary
sorted_set_summary values = join_summary values

abbrev pub bad_window : ℕ → ℕ → Bool
bad_window window_start window_end =
    window_start == 0 || window_end == 0 || not (ltb window_start window_end)

abbrev pub cons_some :
    Option ClippedClockInterval → List ClippedClockInterval → List ClippedClockInterval
cons_some none is = is
cons_some (some i) is = i ∷ is

module _ (node_name : String) (window_start window_end : ℕ) where
  abbrev pub counted : String → LoadWindowInterval → Bool
  counted class interval =
      str_eq interval.class class && load_window_interval_matches_node interval node_name

  -- What the loop of `loadWindowIntervalClassUnion` collects.
  unfoldable pub clipped_of_class : String → List LoadWindowInterval → List ClippedClockInterval
  unfolding load_window_interval_matches_node clip_load_window_interval
  clipped_of_class class [] = []
  clipped_of_class class (interval ∷ rest) =
      let others = clipped_of_class class rest in
      if counted class interval
      then cons_some (clip_load_window_interval interval window_start window_end) others
      else others

  abbrev pub provenance_of : LoadWindowInterval → String
  provenance_of interval =
      if str_eq interval.provenance "" then interval.source else interval.provenance

  unfoldable pub provenances : String → List LoadWindowInterval → List String
  unfolding insert_text load_window_interval_matches_node clip_load_window_interval
  provenances class [] = []
  provenances class (interval ∷ rest) =
      let others = provenances class rest in
      if counted class interval
      then elim (clip_load_window_interval interval window_start window_end) [
        | none ↦ others
        | some i ↦
            if str_eq (provenance_of interval) ""
            then others
            else insert_text (provenance_of interval) others
      ]
      else others

  unfoldable pub load_window_interval_class_union :
      String → List LoadWindowInterval → ℕ × ℕ × String
  unfolding clipped_of_class provenances sorted_set_summary clipped_clock_interval_union_seconds
  load_window_interval_class_union class intervals =
      if str_eq class "" || bad_window window_start window_end then (0, 0, "") else (
        clipped_clock_interval_union_seconds (clipped_of_class class intervals),
        length (clipped_of_class class intervals),
        sorted_set_summary (provenances class intervals),
      )

pub record Key : Type 0 where
  pub class : String
  pub method : String
  pub source : String
  pub provenance : String

pub record LoadWindowIntervalAttribution : Type 0 where
  pub key : Key
  pub interval_count : ℕ
  pub union_seconds : ℕ

abbrev pub same_key : Key → Key → Bool
same_key a b =
    str_eq a.class b.class
    && str_eq a.method b.method
    && str_eq a.source b.source
    && str_eq a.provenance b.provenance

-- The comparison of the table's sort.
abbrev pub key_before : Key → Key → Bool
key_before a b =
    if not (str_eq a.class b.class)
    then before_text a.class b.class
    else if not (str_eq a.method b.method)
    then before_text a.method b.method
    else if not (str_eq a.source b.source)
    then before_text a.source b.source
    else before_text a.provenance b.provenance

abbrev pub Groups : Type 0
Groups = List (Key × List ClippedClockInterval)

-- groups[k] = append(groups[k], clipped)
unfoldable pub append_group : Key → ClippedClockInterval → Groups → Groups
append_group k i [] = (k, i ∷ []) ∷ []
append_group k i ((j, is) ∷ rest) =
    if same_key j k then (j, is ++ (i ∷ [])) ∷ rest else (j, is) ∷ append_group k i rest

abbrev pub key_of : LoadWindowInterval → Key
key_of interval = record {
  class = interval.class;
  method = interval.method;
  source = interval.source;
  provenance = interval.provenance;
}

abbrev pub append_some : Key → Option ClippedClockInterval → Groups → Groups
append_some k none groups = groups
append_some k (some i) groups = append_group k i groups

module _ (node_name : String) (window_start window_end : ℕ) where
  unfoldable pub group_intervals : List LoadWindowInterval → Groups → Groups
  unfolding append_group load_window_interval_matches_node clip_load_window_interval
  group_intervals [] groups = groups
  group_intervals (interval ∷ rest) groups = group_intervals rest (
      if load_window_interval_matches_node interval node_name
      then append_some (key_of interval)
          (clip_load_window_interval interval window_start window_end) groups
      else groups)

unfoldable pub attribution_of : Key × List ClippedClockInterval → LoadWindowIntervalAttribution
unfolding clipped_clock_interval_union_seconds
attribution_of (k, is) = record {
  key = k;
  interval_count = length is;
  union_seconds = clipped_clock_interval_union_seconds is;
}

unfoldable pub insert_attribution :
    LoadWindowIntervalAttribution
    → List LoadWindowIntervalAttribution
    → List LoadWindowIntervalAttribution
insert_attribution a [] = a ∷ []
insert_attribution a (b ∷ bs) =
    if key_before b.key a.key then b ∷ insert_attribution a bs else a ∷ b ∷ bs

unfoldable pub sort_attributions : Groups → List LoadWindowIntervalAttribution
unfolding attribution_of insert_attribution
sort_attributions [] = []
sort_attributions (g ∷ gs) = insert_attribution (attribution_of g) (sort_attributions gs)

unfoldable pub summarize_load_window_interval_attributions :
    List LoadWindowInterval → String → ℕ → ℕ → List LoadWindowIntervalAttribution
unfolding group_intervals sort_attributions
summarize_load_window_interval_attributions intervals node_name window_start window_end =
    if bad_window window_start window_end
    then []
    else sort_attributions (group_intervals node_name window_start window_end intervals [])
