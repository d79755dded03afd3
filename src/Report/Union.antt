-- ===== src/Report/Union.antt =====
-- cmd/local-report-runner/main.go: merging loses no time and counts none twice.
use ironbird.Base.{
  ℕ, ◌≤◌, ◌<◌, ◌≡◌, refl, sym, ◌∙◌, Bool, true, false, not, ◌&&◌, ◌||◌, List, [], ◌∷◌, ltb,
  if◌then◌else◌, Bool-cases, inl, inr, All, arith, All-impl,
}
use ironbird.Report.Merge.{
  ClippedClockInterval, precedes, insert_interval, sort_intervals, extend_last, merge_from,
  merge_sorted, merge_clipped_clock_intervals, total_seconds, clipped_clock_interval_union_seconds,
}
use ironbird.Report.Measure.{count, between, count_agree, count_either, count_none, count_interval}

-- Is the time in one of the intervals?
abbrev pub covers : List ClippedClockInterval → ℕ → Bool
covers [] t = false
covers (i ∷ is) t = between i.started i.ended t || covers is t

-- An interval that does not end before it starts, and ends by `n`.
abbrev pub Within : ℕ → ClippedClockInterval → Type 0
Within n i = (i.started ≤ i.ended) × (i.ended ≤ n)

-- No interval starts before the one in front of it.
abbrev pub Ascending : List ClippedClockInterval → Type 0
Ascending [] = Unit
Ascending (i ∷ is) = All (λ j. i.started ≤ j.started) is × Ascending is

-- Each interval ends before the next ones start.
abbrev pub Separated : List ClippedClockInterval → Type 0
Separated [] = Unit
Separated (i ∷ is) = All (λ j. i.ended < j.started) is × Separated is

module _ (x : ClippedClockInterval) where
  covers-insert :
      (is : List ClippedClockInterval) (t : ℕ) → covers (insert_interval x is) t ≡ covers (x ∷ is) t
  unfolding insert_interval
  covers-insert [] t = refl
  covers-insert (y ∷ is) t = ground (arith, covers-insert is t)

  All-insert :
      (P : ClippedClockInterval → Type 0) (is : List ClippedClockInterval)
      → P x
      → All P is
      → All P (insert_interval x is)
  unfolding insert_interval
  All-insert P [] p a = (p, tt)
  All-insert P (y ∷ is) p a = elim (Bool-cases (precedes y x)) [
    | inl before ↦ rw before (a.0, All-insert P is p a.1)
    | inr after ↦ rw after (p, a)
  ]

  insert-Ascending :
      (is : List ClippedClockInterval) → Ascending is → Ascending (insert_interval x is)
  unfolding insert_interval
  insert-Ascending [] a = (tt, tt)
  insert-Ascending (y ∷ is) a = elim (Bool-cases (precedes y x)) [
    | inl before ↦
        rw before
          (All-insert (λ j. y.started ≤ j.started) is (ground arith) a.0, insert-Ascending is a.1)
    | inr after ↦
        let first = not_before y after in
        rw after ((first, All-impl is (λ j h. omega (arith, first)) a.0), a)
  ]
    where
      not_before : (y : ClippedClockInterval) → precedes y x ≡ false → x.started ≤ y.started
      not_before y h = ground arith

covers-sort : (is : List ClippedClockInterval) (t : ℕ) → covers (sort_intervals is) t ≡ covers is t
unfolding sort_intervals
covers-sort [] t = refl
covers-sort (x ∷ is) t = rw (covers-insert x (sort_intervals is) t, covers-sort is t) refl

All-sort :
    (P : ClippedClockInterval → Type 0) (is : List ClippedClockInterval)
    → All P is
    → All P (sort_intervals is)
unfolding sort_intervals
All-sort P [] a = tt
All-sort P (x ∷ is) a = All-insert x P (sort_intervals is) a.0 (All-sort P is a.1)

sort-Ascending : (is : List ClippedClockInterval) → Ascending (sort_intervals is)
unfolding sort_intervals
sort-Ascending [] = tt
sort-Ascending (x ∷ is) = insert-Ascending x (sort_intervals is) (sort-Ascending is)

abbrev next_last : ClippedClockInterval → ClippedClockInterval → ClippedClockInterval
next_last last i = if not (ltb last.ended i.started) then extend_last last i else i

module _ (n : ℕ) where
  next_last-Within :
      (last i : ClippedClockInterval) → Within n last → Within n i → Within n (next_last last i)
  next_last-Within last i h k = ground arith

  merge_from-Within :
      (last : ClippedClockInterval) (is : List ClippedClockInterval)
      → Within n last
      → All (Within n) is
      → All (Within n) (merge_from last is)
  unfolding merge_from
  merge_from-Within last [] h a = (h, tt)
  merge_from-Within last (i ∷ is) h a = elim (Bool-cases (not (ltb last.ended i.started))) [
    | inl joined ↦ rw joined (merge_from-Within (extend_last last i) is (ground arith) a.1)
    | inr apart ↦ rw apart (h, merge_from-Within i is a.0 a.1)
  ]

-- What `merge_from` is called with: nothing that is left starts before `last`.
abbrev Follows : ClippedClockInterval → List ClippedClockInterval → Type 0
Follows last is = Ascending (last ∷ is)

covers-merge_from :
    (last : ClippedClockInterval) (is : List ClippedClockInterval) (t : ℕ)
    → Follows last is
    → covers (merge_from last is) t ≡ covers (last ∷ is) t
unfolding merge_from
covers-merge_from last [] t f = refl
covers-merge_from last (i ∷ is) t f = elim (Bool-cases (not (ltb last.ended i.started))) [
  | inl joined ↦ rw joined (
      covers-merge_from (extend_last last i) is t (f.0.1, f.1.1)
      ∙ joined_lem joined f.0.0 (covers is t))
  | inr apart ↦ rw (apart, covers-merge_from i is t f.1) refl
]
  where
    joined_lem :
        not (ltb last.ended i.started) ≡ true
        → last.started ≤ i.started
        → (b : Bool)
        → (between last.started (extend_last last i).ended t || b)
          ≡ (between last.started last.ended t || (between i.started i.ended t || b))
    joined_lem h k b = ground arith

merge_from_starts :
    (m : ℕ) (last : ClippedClockInterval) (is : List ClippedClockInterval)
    → m ≤ last.started
    → All (λ j. m ≤ j.started) is
    → All (λ j. m ≤ j.started) (merge_from last is)
unfolding merge_from
merge_from_starts m last [] h a = (h, tt)
merge_from_starts m last (i ∷ is) h a = elim (Bool-cases (not (ltb last.ended i.started))) [
  | inl joined ↦ rw joined (merge_from_starts m (extend_last last i) is h a.1)
  | inr apart ↦ rw apart (h, merge_from_starts m i is a.0 a.1)
]

merge_from-Separated :
    (last : ClippedClockInterval) (is : List ClippedClockInterval)
    → Follows last is
    → Separated (merge_from last is)
unfolding merge_from
merge_from-Separated last [] f = (tt, tt)
merge_from-Separated last (i ∷ is) f = elim (Bool-cases (not (ltb last.ended i.started))) [
  | inl joined ↦ rw joined (merge_from-Separated (extend_last last i) is (f.0.1, f.1.1))
  | inr apart ↦ rw apart (
    All-impl (merge_from i is) (λ j h. ground arith)
        (merge_from_starts i.started i is (omega arith) f.1.0),
    merge_from-Separated i is f.1,
  )
]

disjoint_lem :
    (i : ClippedClockInterval) (is : List ClippedClockInterval) (t : ℕ)
    → All (λ j. i.ended < j.started) is
    → (between i.started i.ended t && covers is t) ≡ false
disjoint_lem i [] t a = ground arith
disjoint_lem i (j ∷ is) t a = ground (arith, disjoint_lem i is t a.1, a.0)

total-count :
    (n : ℕ) (is : List ClippedClockInterval)
    → All (Within n) is
    → Separated is
    → total_seconds is ≡ count (covers is) n
total-count n [] a s = sym (count_none n)
total-count n (i ∷ is) a s =
    rw
      (
        count_either (between i.started i.ended) (covers is) n (λ t. disjoint_lem i is t s.0),
        count_interval i.started i.ended n a.0.0 a.0.1,
        total-count n is a.1 s.1,
      )
      refl

covers-merge_sorted :
    (is : List ClippedClockInterval) (t : ℕ)
    → Ascending is
    → covers (merge_sorted is) t ≡ covers is t
covers-merge_sorted [] t a = refl
covers-merge_sorted (i ∷ is) t a = covers-merge_from i is t a

merge_sorted-Separated :
    (is : List ClippedClockInterval) → Ascending is → Separated (merge_sorted is)
merge_sorted-Separated [] a = tt
merge_sorted-Separated (i ∷ is) a = merge_from-Separated i is a

merge_sorted-Within :
    (n : ℕ) (is : List ClippedClockInterval) → All (Within n) is → All (Within n) (merge_sorted is)
merge_sorted-Within n [] a = tt
merge_sorted-Within n (i ∷ is) a = merge_from-Within n i is a.0 a.1

-- A time lies in one of the merged intervals exactly when it lies in one of the given ones, and each
-- merged interval ends strictly before all later ones start; for every list of intervals.
pub merge_lem :
    (is : List ClippedClockInterval)
    → ((t : ℕ) → covers (merge_clipped_clock_intervals is) t ≡ covers is t)
      × Separated (merge_clipped_clock_intervals is)
unfolding merge_clipped_clock_intervals
merge_lem is =
    let sorted = sort-Ascending is in
    (
      λ t. covers-merge_sorted (sort_intervals is) t sorted ∙ covers-sort is t,
      merge_sorted-Separated (sort_intervals is) sorted,
    )

-- The union of intervals that end no earlier than they start and no later than `n` is the number of
-- times below `n` that lie in at least one of them: overlaps count once.
pub union_seconds_lem :
    (n : ℕ) (is : List ClippedClockInterval)
    → All (Within n) is
    → clipped_clock_interval_union_seconds is ≡ count (covers is) n
unfolding clipped_clock_interval_union_seconds merge_clipped_clock_intervals
union_seconds_lem n is a =
    total-count n (merge_sorted (sort_intervals is))
      (merge_sorted-Within n (sort_intervals is) (All-sort (Within n) is a)) (merge_lem is).1
    ∙ count_agree _ _ n (merge_lem is).0
