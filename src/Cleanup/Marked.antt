-- ===== src/Cleanup/Marked.antt =====
-- cmd/cleanup/main.go: which prefixes are skipped, and what is chosen for deletion.
use mathlib.Core.Path.{subst}
use text.Mathlib.Text.{starts_with}
use ironbird.Base.{
  ℕ, ◌+◌, ◌<◌, ◌≡◌, refl, sym, ◌⊎◌, inl, inr, String, true, false, none, some, List, [], ◌∷◌, arith,
  ltb_iff, str_eq, eq_iff, Bool-cases, In, All,
}
use ironbird.Cleanup.{
  Droplet, Firewall, Settings, half_hour, extract_prefix, has, should_skip, doomed_droplets,
  doomed_firewalls, is_fresh, is_kept, mark, skipped_prefixes,
}

-- The droplet is one of the program's kind, and there is a reason to keep its testnet.
pub record Protected (s : Settings) (d : Droplet) : Type 0 where
  pub kind : starts_with d.name s.name_prefix ≡ true
  pub reason :
      In s.long_running d.tags
      ⊎ ((s.parse_time d.created ≡ none)
          ⊎ ((t : ℕ) × (s.parse_time d.created ≡ some t) × (s.now < t + half_hour)))

has_lem : (key : String) (keys : List String) → In key keys → has key keys ≡ true
unfolding has
has_lem key [] h = elim h [ ]
has_lem key (k ∷ keys) (inl e) = rw ((eq_iff k key).1 (sym e)) refl
has_lem key (k ∷ keys) (inr h) = elim (Bool-cases (str_eq k key)) [
  | inl same ↦ rw same refl
  | inr other ↦ rw other (has_lem key keys h)
]

module _ (s : Settings) where
  is_kept_lem : (d : Droplet) → Protected s d → is_kept s d ≡ true
  unfolding is_kept is_fresh
  is_kept_lem d p = elim (Bool-cases (has s.long_running d.tags)) [
    | inl tagged ↦ rw tagged refl
    | inr untagged ↦ rw untagged (elim p.reason [
      | inl h ↦ ground (arith, has_lem s.long_running d.tags h)
      | inr (inl unread) ↦ rw unread refl
      | inr (inr (t, read, late)) ↦ rw read ((ltb_iff s.now (t + half_hour)).1 late)
    ])
  ]

  mark_keeps :
      (key : String) (keys : List String) (d : Droplet)
      → has key keys ≡ true
      → has key (mark s keys d) ≡ true
  unfolding mark has
  mark_keeps key keys d h = ground arith

  mark_lem :
      (keys : List String) (d : Droplet)
      → Protected s d
      → has (extract_prefix d.name) (mark s keys d) ≡ true
  unfolding mark has
  mark_lem keys d p =
      ground
        (arith, is_kept_lem d p, p.kind, eq_iff (extract_prefix d.name) (extract_prefix d.name))

  skipped_prefixes_keeps :
      (key : String) (keys : List String) (ds : List Droplet)
      → has key keys ≡ true
      → has key (skipped_prefixes s keys ds) ≡ true
  unfolding skipped_prefixes
  skipped_prefixes_keeps key keys [] h = h
  skipped_prefixes_keeps key keys (d ∷ ds) h =
      skipped_prefixes_keeps key (mark s keys d) ds (mark_keeps key keys d h)

  pub skipped_prefixes_lem :
      (keys : List String) (ds : List Droplet) (d : Droplet)
      → In d ds
      → Protected s d
      → has (extract_prefix d.name) (skipped_prefixes s keys ds) ≡ true
  unfolding skipped_prefixes
  skipped_prefixes_lem keys [] d i p = elim i [ ]
  skipped_prefixes_lem keys (e ∷ ds) d (inl same) p =
      skipped_prefixes_keeps (extract_prefix d.name) (mark s keys e) ds
        (subst (λ x. has (extract_prefix d.name) (mark s keys x) ≡ true) same (mark_lem keys d p))
  skipped_prefixes_lem keys (e ∷ ds) d (inr i) p = skipped_prefixes_lem (mark s keys e) ds d i p

-- The name is of the program's kind, and its prefix is not skipped.
abbrev pub Doomed : Settings → List String → String → Type 0
Doomed s keys name = (starts_with name s.name_prefix ≡ true) × (should_skip name keys ≡ false)

module _ (s : Settings) (keys : List String) where
  pub doomed_droplets_lem :
      (P : Droplet → Type 0) (ds : List Droplet)
      → All P ds
      → All (λ d. P d × Doomed s keys d.name) (doomed_droplets s keys ds)
  unfolding doomed_droplets
  doomed_droplets_lem P [] h = tt
  doomed_droplets_lem P (d ∷ ds) h = elim (Bool-cases (starts_with d.name s.name_prefix)) [
    | inr other ↦ rw other (doomed_droplets_lem P ds h.1)
    | inl kind ↦ elim (Bool-cases (should_skip d.name keys)) [
      | inl skip ↦ rw (kind, skip) (doomed_droplets_lem P ds h.1)
      | inr go ↦ rw (kind, go) ((h.0, (kind, go)), doomed_droplets_lem P ds h.1)
    ]
  ]

  pub doomed_firewalls_lem :
      (P : Firewall → Type 0) (fs : List Firewall)
      → All P fs
      → All (λ f. P f × Doomed s keys f.name) (doomed_firewalls s keys fs)
  unfolding doomed_firewalls
  doomed_firewalls_lem P [] h = tt
  doomed_firewalls_lem P (f ∷ fs) h = elim (Bool-cases (starts_with f.name s.name_prefix)) [
    | inr other ↦ rw other (doomed_firewalls_lem P fs h.1)
    | inl kind ↦ elim (Bool-cases (should_skip f.name keys)) [
      | inl skip ↦ rw (kind, skip) (doomed_firewalls_lem P fs h.1)
      | inr go ↦ rw (kind, go) ((h.0, (kind, go)), doomed_firewalls_lem P fs h.1)
    ]
  ]
