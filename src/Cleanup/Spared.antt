-- ===== src/Cleanup/Spared.antt =====
-- cmd/cleanup/main.go: what a run deletes.
use mathlib.Core.Path.{subst}
use ironbird.Base.{
  ℕ, ◌≡◌, refl, sym, inr, String, Bool, true, false, List, [], ◌∷◌, arith, if◌then◌else◌, In, All,
  All-impl,
}
use ironbird.Base.Action.{Result, ok, err, pure, continue, ◌>>=◌}
use ironbird.Base.Triple.{Post, Ensures, Ensures-bind}
use ironbird.Cleanup.{
  Droplet, Firewall, Error, Log, Client, Settings, extract_prefix, has, should_skip,
  doomed_droplets, doomed_firewalls, skipped_prefixes, attempt, all_droplets,
  get_skipped_droplet_prefixes, delete_droplets, delete_firewalls, cleanup_droplets,
  cleanup_firewalls, main,
}
use ironbird.Cleanup.Listed.{
  ListedDroplet, ListedFirewall, Spares, Sound, Found, all_droplets-Found, all_firewalls-Found,
}
use ironbird.Cleanup.Marked.{
  Protected, skipped_prefixes_lem, Doomed, doomed_droplets_lem, doomed_firewalls_lem,
}

-- The skipped prefixes cover the protected droplets of the listing.
pub record Covers (s : Settings) (r : Result Error (List Droplet)) (keys : List String)
    : Type 0 where
  pub examined : List Droplet
  pub answer : r ≡ ok examined
  pub covered :
      (p : Droplet) → In p examined → Protected s p → has (extract_prefix p.name) keys ≡ true

Covers-Spares :
    (s : Settings) (r : Result Error (List Droplet)) (keys : List String) (name : String)
    → s.dry_run ≡ false
    → Covers s r keys
    → Doomed s keys name
    → Spares s r name
unfolding should_skip
Covers-Spares s r keys name wet c d = record {
  wet = wet;
  kind = d.0;
  examined = c.examined;
  answer = c.answer;
  spared = λ p i h same.
      clash (has (extract_prefix name) keys) (subst (λ x. has x keys ≡ true) same (c.covered p i h))
        d.1;
}
  where
    clash : (b : Bool) → b ≡ true → b ≡ false → ⊥
    clash b x y = ground arith

-- What may go: it is listed, and its name is spared by nothing.
abbrev MayGo :
    Settings
    → Result Error (List Droplet)
    → {A : Type 0} → (A → Log → Type 0)
    → (A → String)
    → List A
    → Log
    → Type 0
MayGo s r Listed name xs log = Sound s r log × All (λ x. Listed x log × Spares s r (name x)) xs

module _ (c : Client) (s : Settings) (r : Result Error (List Droplet)) where
  delete_droplets-Sound :
      (ds : List Droplet)
      → Ensures
          (Sound s r)
          (MayGo s r ListedDroplet (λ d. d.name) ds)
          (delete_droplets c ds)
          (λ _. (Sound s r))
  unfolding delete_droplets attempt pure ◌>>=◌
  delete_droplets-Sound [] = record { at = λ w h. h.0 }
  delete_droplets-Sound (d ∷ ds) = record {
    at = λ w h. (delete_droplets-Sound ds).at _ (
      ((d, refl, h.1.0.0, h.1.0.1), h.0),
      All-impl ds (λ x l. ((l.0.0, l.0.1, inr l.0.2, l.0.3), l.1)) h.1.1,
    );
  }

  delete_firewalls-Sound :
      (fs : List Firewall)
      → Ensures
          (Sound s r)
          (MayGo s r ListedFirewall (λ f. f.name) fs)
          (delete_firewalls c fs)
          (λ _. (Sound s r))
  unfolding delete_firewalls attempt pure ◌>>=◌
  delete_firewalls-Sound [] = record { at = λ w h. h.0 }
  delete_firewalls-Sound (f ∷ fs) = record {
    at = λ w h. (delete_firewalls-Sound fs).at _ (
      ((f, refl, h.1.0.0, h.1.0.1), h.0),
      All-impl fs (λ x l. ((l.0.0, l.0.1, inr l.0.2, l.0.3), l.1)) h.1.1,
    );
  }

  cleanup_droplets-Sound :
      (fuel : ℕ) (keys : List String)
      → Covers s r keys
      → Ensures (Sound s r) (Sound s r) (cleanup_droplets c fuel s keys) (λ _. (Sound s r))
  unfolding cleanup_droplets pure
  cleanup_droplets-Sound fuel keys covers = record {
    at = λ w h.
        (Ensures-bind _ _ (all_droplets-Found c s r fuel 1 []) (delete s.dry_run refl)).at w
          (h, tt);
  }
    where
      delete :
          (dry : Bool)
          → s.dry_run ≡ dry
          → (ds : List Droplet)
          → Ensures
              (Sound s r)
              (Found s r ListedDroplet ds)
              (if dry then pure tt else delete_droplets c (doomed_droplets s keys ds))
              (λ _. (Sound s r))
      delete true e ds = record { at = λ w h. h.0 }
      delete false wet ds = record {
        at = λ w h. (delete_droplets-Sound (doomed_droplets s keys ds)).at w (
          h.0,
          All-impl (doomed_droplets s keys ds)
              (λ d l. (l.0, Covers-Spares s r keys d.name wet covers l.1))
              (doomed_droplets_lem s keys (λ d. ListedDroplet d w) ds h.1),
        );
      }

  cleanup_firewalls-Sound :
      (fuel : ℕ) (keys : List String)
      → Covers s r keys
      → Ensures (Sound s r) (Sound s r) (cleanup_firewalls c fuel s keys) (λ _. (Sound s r))
  unfolding cleanup_firewalls pure
  cleanup_firewalls-Sound fuel keys covers = record {
    at = λ w h.
        (Ensures-bind _ _ (all_firewalls-Found c s r fuel 1 []) (delete s.dry_run refl)).at w
          (h, tt);
  }
    where
      delete :
          (dry : Bool)
          → s.dry_run ≡ dry
          → (fs : List Firewall)
          → Ensures
              (Sound s r)
              (Found s r ListedFirewall fs)
              (if dry then pure tt else delete_firewalls c (doomed_firewalls s keys fs))
              (λ _. (Sound s r))
      delete true e fs = record { at = λ w h. h.0 }
      delete false wet fs = record {
        at = λ w h. (delete_firewalls-Sound (doomed_firewalls s keys fs)).at w (
          h.0,
          All-impl (doomed_firewalls s keys fs)
              (λ f l. (l.0, Covers-Spares s r keys f.name wet covers l.1))
              (doomed_firewalls_lem s keys (λ f. ListedFirewall f w) fs h.1),
        );
      }

-- The first listing of droplets of a run.
abbrev pub first_listing : Client → ℕ → Result Error (List Droplet)
first_listing c fuel = (all_droplets c fuel 1 [] []).0

module _ (c : Client) (fuel : ℕ) (s : Settings) where
  get_skipped-Covers :
      Ensures
        (Sound s (first_listing c fuel))
        (λ log. log ≡ [])
        (get_skipped_droplet_prefixes c fuel s)
        (λ keys log. Covers s (first_listing c fuel) keys × Sound s (first_listing c fuel) log)
  unfolding get_skipped_droplet_prefixes pure ◌>>=◌
  get_skipped-Covers = record {
    at = λ w e.
        subst
          (λ x.
            Post (Sound s (first_listing c fuel))
              (λ keys log.
                Covers s (first_listing c fuel) keys × Sound s (first_listing c fuel) log)
              (get_skipped_droplet_prefixes c fuel s x).0
              (get_skipped_droplet_prefixes c fuel s x).1)
          (sym e)
          (answered (all_droplets c fuel 1 [] []).0 refl
            ((all_droplets-Found c s (first_listing c fuel) fuel 1 []).at [] (tt, tt)));
  }
    where
      answered :
          (a : Result Error (List Droplet))
          → first_listing c fuel ≡ a
          → Post
              (Sound s (first_listing c fuel))
              (λ ds log. Sound s (first_listing c fuel) log × All (λ d. ListedDroplet d log) ds)
              a
              (all_droplets c fuel 1 [] []).1
          → Post
              (Sound s (first_listing c fuel))
              (λ keys log.
                Covers s (first_listing c fuel) keys × Sound s (first_listing c fuel) log)
              (continue a (λ ds. pure (skipped_prefixes s [] ds)) (all_droplets c fuel 1 [] []).1).0
              (continue a (λ ds. pure (skipped_prefixes s [] ds)) (all_droplets c fuel 1 [] []).1).1
      answered (err e) same h = h
      answered (ok ds) same h =
          (record { examined = ds; answer = same; covered = skipped_prefixes_lem s [] ds }, h.0)

  main-Ensures :
      Ensures
        (Sound s (first_listing c fuel))
        (λ log. log ≡ [])
        (main c fuel s)
        (λ _. Sound s (first_listing c fuel))
  unfolding main
  main-Ensures = Ensures-bind _ _ get_skipped-Covers (λ keys. record {
    at = λ w h.
        (Ensures-bind _ _ (cleanup_droplets-Sound c s (first_listing c fuel) fuel keys h.0)
            (λ u. cleanup_firewalls-Sound c s (first_listing c fuel) fuel keys h.0)).at
          w h.1;
  })

  -- Each droplet or firewall that a run deletes was named by an answer before; its name has the
  -- configured prefix; the run is no dry run; and in the first listing, which was answered, no droplet
  -- of that kind that is tagged as long running, has a creation time that cannot be read or was
  -- created less than half an hour ago has the same three-part prefix.
  pub main-Sound : Sound s (first_listing c fuel) (main c fuel s []).1
  main-Sound = finished (main c fuel s []).0 (main-Ensures.at [] refl)
    where
      finished :
          (a : Result Error (Unit {0}))
          → Post
              (Sound s (first_listing c fuel))
              (λ _. Sound s (first_listing c fuel))
              a
              (main c fuel s []).1
          → Sound s (first_listing c fuel) (main c fuel s []).1
      finished (ok u) h = h
      finished (err e) h = h
