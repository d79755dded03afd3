-- ===== src/Report/Classes.antt =====
-- cmd/local-report-runner/main.go: what the time of a class is, and how much it can be.
use ironbird.Base.{
  ℕ, ◌-◌, ◌≤◌, ◌≡◌, refl, ◌∙◌, String, Bool, true, false, not, ◌&&◌, ◌||◌, eq_iff, ◌≢◌, List, [],
  ◌∷◌, ◌==◌, Bool-cases, inl, inr, All, arith, str_eq,
}
use ironbird.Report.Merge.{
  LoadWindowInterval, ClippedClockInterval, clip_load_window_interval, min_time, max_time,
}
use ironbird.Report.Measure.{count, between, count_agree, count_within}
use ironbird.Report.Union.{covers, Within, union_seconds_lem}
use ironbird.Report.Attribution.{
  bad_window, cons_some, counted, clipped_of_class, load_window_interval_class_union,
}

-- The interval has both its times, in their order, and covers `t`.
abbrev pub lasts_at : LoadWindowInterval → ℕ → Bool
lasts_at i t = not (i.started == 0) && not (i.ended == 0) && between i.started i.ended t

module _ (ws we : ℕ) where
  clip-Within :
      (i : LoadWindowInterval) (is : List ClippedClockInterval)
      → All (Within we) is
      → All (Within we) (cons_some (clip_load_window_interval i ws we) is)
  unfolding clip_load_window_interval min_time max_time
  clip-Within i is a = ground (arith, a)

  covers-clip :
      (i : LoadWindowInterval) (is : List ClippedClockInterval) (t : ℕ)
      → covers (cons_some (clip_load_window_interval i ws we) is) t
        ≡ (between ws we t && lasts_at i t || covers is t)
  unfolding clip_load_window_interval min_time max_time
  covers-clip i is t = ground arith

module _ (node class : String) (ws we : ℕ) where
  -- Some interval of the class and the node covers `t`.
  abbrev pub attributed : List LoadWindowInterval → ℕ → Bool
  attributed [] t = false
  attributed (i ∷ is) t = (counted node ws we class i && lasts_at i t) || attributed is t

  clipped-Within :
      (is : List LoadWindowInterval) → All (Within we) (clipped_of_class node ws we class is)
  unfolding clipped_of_class
  clipped-Within [] = tt
  clipped-Within (i ∷ is) = elim (Bool-cases (counted node ws we class i)) [
    | inl hit ↦ rw hit (clip-Within ws we i _ (clipped-Within is))
    | inr miss ↦ rw miss (clipped-Within is)
  ]

  covers-clipped :
      (is : List LoadWindowInterval) (t : ℕ)
      → covers (clipped_of_class node ws we class is) t ≡ (between ws we t && attributed is t)
  unfolding clipped_of_class
  covers-clipped [] t = ground arith
  covers-clipped (i ∷ is) t = elim (Bool-cases (counted node ws we class i)) [
    | inl hit ↦ rw hit (
        covers-clip ws we i (clipped_of_class node ws we class is) t
        ∙ rw (covers-clipped is t) (spread (between ws we t) _ _))
    | inr miss ↦ rw (miss, covers-clipped is t) refl
  ]
    where
      spread : (b x y : Bool) → (b && x || b && y) ≡ (b && (x || y))
      spread true x y = refl
      spread false x y = refl

  -- The time that a load window attributes to a class on a node is the number of nanoseconds of the
  -- window in which at least one interval of that class and node lasts, if the class has a name and
  -- the window's times are set and in their order.
  pub class_union_lem :
      (is : List LoadWindowInterval)
      → class ≢ ""
      → bad_window ws we ≡ false
      → (load_window_interval_class_union node ws we class is).0
        ≡ count (λ t. between ws we t && attributed is t) we
  unfolding load_window_interval_class_union
  class_union_lem is named good =
      rw (unnamed_lem named, good)
        (union_seconds_lem we _ (clipped-Within is) ∙ count_agree _ _ we (covers-clipped is))
    where
      unnamed_lem : class ≢ "" → str_eq class "" ≡ false
      unnamed_lem h = ground (arith, eq_iff class "")

  -- No class takes more than the whole load window, whatever the intervals are and however they overlap.
  pub class_union_bound :
      (is : List LoadWindowInterval)
      → (load_window_interval_class_union node ws we class is).0 ≤ we - ws
  unfolding load_window_interval_class_union
  class_union_bound is = elim (Bool-cases (str_eq class "" || bad_window ws we)) [
    | inl bad ↦ rw bad (omega arith)
    | inr good ↦
        rw
          (good, union_seconds_lem we _ (clipped-Within is), count_agree _ _ we (covers-clipped is))
          (count_within (attributed is) we (good_lem good))
  ]
    where
      good_lem : (str_eq class "" || bad_window ws we) ≡ false → ws ≤ we
      good_lem h = ground arith
