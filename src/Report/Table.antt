-- ===== src/Report/Table.antt =====
-- cmd/local-report-runner/main.go: the table of all classes loses no interval.
use ironbird.Base.{
  ℕ, suc, ◌+◌, ◌≡◌, refl, ◌∙◌, String, false, Option, none, some, List, [], ◌∷◌, if◌then◌else◌,
  Bool-cases, inl, inr, arith, length, length-append,
}
use ironbird.Report.Merge.{
  LoadWindowInterval, ClippedClockInterval, load_window_interval_matches_node,
  clip_load_window_interval,
}
use ironbird.Report.Attribution.{
  bad_window, Key, LoadWindowIntervalAttribution, same_key, Groups, append_group, append_some,
  key_of, group_intervals, attribution_of, insert_attribution, sort_attributions,
  summarize_load_window_interval_attributions,
}

abbrev pub counts : List LoadWindowIntervalAttribution → ℕ
counts [] = 0
counts (a ∷ rows) = a.interval_count + counts rows

abbrev sizes : Groups → ℕ
sizes [] = 0
sizes ((k, is) ∷ gs) = length is + sizes gs

abbrev pub one_if_some : Option ClippedClockInterval → ℕ
one_if_some none = 0
one_if_some (some i) = 1

counts-insert :
    (a : LoadWindowIntervalAttribution) (rows : List LoadWindowIntervalAttribution)
    → counts (insert_attribution a rows) ≡ a.interval_count + counts rows
unfolding insert_attribution
counts-insert a [] = refl
counts-insert a (b ∷ bs) = ground (arith, counts-insert a bs)

counts-sort : (gs : Groups) → counts (sort_attributions gs) ≡ sizes gs
unfolding sort_attributions attribution_of
counts-sort [] = refl
counts-sort ((k, is) ∷ gs) =
    counts-insert (attribution_of (k, is)) (sort_attributions gs) ∙ omega (arith, counts-sort gs)

sizes-append_group :
    (k : Key) (i : ClippedClockInterval) (gs : Groups)
    → sizes (append_group k i gs) ≡ suc (sizes gs)
unfolding append_group
sizes-append_group k i [] = refl
sizes-append_group k i ((j, is) ∷ gs) = elim (Bool-cases (same_key j k)) [
  | inl same ↦ rw same (omega (arith, length-append is (i ∷ [])))
  | inr other ↦ rw other (omega (arith, sizes-append_group k i gs))
]

sizes-append_some :
    (k : Key) (o : Option ClippedClockInterval) (gs : Groups)
    → sizes (append_some k o gs) ≡ one_if_some o + sizes gs
sizes-append_some k none gs = omega arith
sizes-append_some k (some i) gs = omega (arith, sizes-append_group k i gs)

module _ (node : String) (ws we : ℕ) where
  -- How many intervals of the node have a part in the window.
  abbrev pub overlapping : List LoadWindowInterval → ℕ
  overlapping [] = 0
  overlapping (i ∷ is) =
      (if load_window_interval_matches_node i node
        then one_if_some (clip_load_window_interval i ws we)
        else 0)
      + overlapping is

  sizes-group_intervals :
      (is : List LoadWindowInterval) (gs : Groups)
      → sizes (group_intervals node ws we is gs) ≡ overlapping is + sizes gs
  unfolding group_intervals
  sizes-group_intervals [] gs = omega arith
  sizes-group_intervals (i ∷ is) gs = elim (Bool-cases (load_window_interval_matches_node i node)) [
    | inl hit ↦ rw hit (
        omega (
          arith,
          sizes-group_intervals is (append_some (key_of i) (clip_load_window_interval i ws we) gs),
          sizes-append_some (key_of i) (clip_load_window_interval i ws we) gs,
        ))
    | inr miss ↦ rw miss (omega (arith, sizes-group_intervals is gs))
  ]

  -- The interval counts of the rows add up to the number of the node's intervals that have a part in
  -- the load window, if the window's times are set and in their order.
  pub summarize-counts :
      (is : List LoadWindowInterval)
      → bad_window ws we ≡ false
      → counts (summarize_load_window_interval_attributions is node ws we) ≡ overlapping is
  unfolding summarize_load_window_interval_attributions
  summarize-counts is good =
      rw (good, counts-sort (group_intervals node ws we is []))
        (omega (arith, sizes-group_intervals is []))
