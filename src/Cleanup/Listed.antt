-- ===== src/Cleanup/Listed.antt =====
-- cmd/cleanup/main.go: what justifies a call of a run, and what the listings find.
use text.Mathlib.Text.{starts_with}
use ironbird.Base.{
  ℕ, zero, suc, ◌≡◌, ◌≢◌, refl, inl, inr, String, true, false, List, [], ◌∷◌, ◌++◌, length, ltb,
  Bool-cases, In, All, All-append, All-impl,
}
use ironbird.Base.Action.{Result, ok, err, pure, raise}
use ironbird.Base.Triple.{Post, Ensures, Ensures-bind}
use ironbird.Cleanup.{
  Droplet, Firewall, Request, list_droplets, list_firewalls, delete_droplet, delete_firewall, Error,
  Log, Client, Settings, per_page, extract_prefix, call, all_droplets, all_firewalls,
}
use ironbird.Cleanup.Marked.{Protected}

-- An answer that the log holds names the droplet, or the firewall.
abbrev pub ListedDroplet : Droplet → Log → Type 0
ListedDroplet d log =
    (page : ℕ) × (ds : List Droplet) × In (list_droplets page, ok ds) log × In d ds

abbrev pub ListedFirewall : Firewall → Log → Type 0
ListedFirewall f log =
    (page : ℕ) × (fs : List Firewall) × In (list_firewalls page, ok fs) log × In f fs

-- The run is no dry run, and the name is of the program's kind, but shares its prefix with no protected
-- droplet of the listing `r`.
pub record Spares (s : Settings) (r : Result Error (List Droplet)) (name : String) : Type 0 where
  pub wet : s.dry_run ≡ false
  pub kind : starts_with name s.name_prefix ≡ true
  pub examined : List Droplet
  pub answer : r ≡ ok examined
  pub spared :
      (p : Droplet) → In p examined → Protected s p → extract_prefix p.name ≢ extract_prefix name

-- What justifies a call, given the calls before it.
abbrev pub Justified : Settings → Result Error (List Droplet) → Request → Log → Type 0
Justified s r (list_droplets page) log = Unit
Justified s r (list_firewalls page) log = Unit
Justified s r (delete_droplet id) log =
    (d : Droplet) × (d.id ≡ id) × ListedDroplet d log × Spares s r d.name
Justified s r (delete_firewall id) log =
    (f : Firewall) × (f.id ≡ id) × ListedFirewall f log × Spares s r f.name

abbrev pub Sound : Settings → Result Error (List Droplet) → Log → Type 0
Sound s r [] = Unit
Sound s r (e ∷ log) = Justified s r e.0 log × Sound s r log

-- The log is sound, and names what was found.
abbrev pub Found :
    Settings
    → Result Error (List Droplet)
    → {A : Type 0} → (A → Log → Type 0)
    → List A
    → Log
    → Type 0
Found s r Listed xs log = Sound s r log × All (λ x. Listed x log) xs

members : {A : Type 0} (xs : List A) → All (λ x. In x xs) xs
members [] = tt
members (x ∷ xs) = (inl refl, All-impl xs (λ y i. inr i) (members xs))

module _ (c : Client) (s : Settings) (r : Result Error (List Droplet)) where
  list_droplets-Found :
      (page : ℕ) (found : List Droplet)
      → Ensures
          (Sound s r)
          (Found s r ListedDroplet found)
          (call c (list_droplets page))
          (λ ds. Found s r ListedDroplet (found ++ ds))
  unfolding call
  list_droplets-Found page found = record { at = λ w h. answered w h (c w (list_droplets page)) }
    where
      answered :
          (w : Log)
          → Found s r ListedDroplet found w
          → (a : Result Error (List Droplet))
          → Post
              (Sound s r)
              (λ ds. Found s r ListedDroplet (found ++ ds))
              a
              ((list_droplets page, a) ∷ w)
      answered w h (err e) = (tt, h.0)
      answered w h (ok ds) = (
        (tt, h.0),
        All-append _ found ds (All-impl found (λ d l. (l.0, l.1, inr l.2, l.3)) h.1)
            (All-impl ds (λ d i. (page, ds, inl refl, i)) (members ds)),
      )

  pub all_droplets-Found :
      (fuel page : ℕ) (found : List Droplet)
      → Ensures
          (Sound s r)
          (Found s r ListedDroplet found)
          (all_droplets c fuel page found)
          (Found s r ListedDroplet)
  unfolding all_droplets raise pure
  all_droplets-Found zero page found = record { at = λ w h. h.0 }
  all_droplets-Found (suc fuel) page found =
      Ensures-bind _ _ (list_droplets-Found page found) (λ ds.
        elim (Bool-cases (ltb (length ds) per_page)) [
          | inl last ↦ rw last (record { at = λ w h. h })
          | inr more ↦ rw more (all_droplets-Found fuel (suc page) (found ++ ds))
        ])

  list_firewalls-Found :
      (page : ℕ) (found : List Firewall)
      → Ensures
          (Sound s r)
          (Found s r ListedFirewall found)
          (call c (list_firewalls page))
          (λ fs. Found s r ListedFirewall (found ++ fs))
  unfolding call
  list_firewalls-Found page found = record { at = λ w h. answered w h (c w (list_firewalls page)) }
    where
      answered :
          (w : Log)
          → Found s r ListedFirewall found w
          → (a : Result Error (List Firewall))
          → Post
              (Sound s r)
              (λ fs. Found s r ListedFirewall (found ++ fs))
              a
              ((list_firewalls page, a) ∷ w)
      answered w h (err e) = (tt, h.0)
      answered w h (ok fs) = (
        (tt, h.0),
        All-append _ found fs (All-impl found (λ f l. (l.0, l.1, inr l.2, l.3)) h.1)
            (All-impl fs (λ f i. (page, fs, inl refl, i)) (members fs)),
      )

  pub all_firewalls-Found :
      (fuel page : ℕ) (found : List Firewall)
      → Ensures
          (Sound s r)
          (Found s r ListedFirewall found)
          (all_firewalls c fuel page found)
          (Found s r ListedFirewall)
  unfolding all_firewalls raise pure
  all_firewalls-Found zero page found = record { at = λ w h. h.0 }
  all_firewalls-Found (suc fuel) page found =
      Ensures-bind _ _ (list_firewalls-Found page found) (λ fs.
        elim (Bool-cases (ltb (length fs) per_page)) [
          | inl last ↦ rw last (record { at = λ w h. h })
          | inr more ↦ rw more (all_firewalls-Found fuel (suc page) (found ++ fs))
        ])
