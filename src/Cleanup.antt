-- ===== src/Cleanup.antt =====
-- cmd/cleanup/main.go: the program that deletes the droplets and firewalls that testnets left behind.
-- The state is the log of the calls to DigitalOcean, newest first, and what answers them is a
-- parameter. A loop over pages takes fuel, one unit for each page. Flags are fields of `Settings`, with
-- the time of the run and `time.Parse`, in nanoseconds; the failures that are only logged are dropped.
pub mod Marked
pub mod Listed
pub mod Spared
mod Tests
use Prim.Native.Char.{code}
use Prim.Native.String.{◌++◌ as append}
use text.Mathlib.Text.{starts_with}
use ironbird.Base.{
  ℕ, zero, suc, ◌+◌, ◌*◌, ◌==◌, String, Bool, true, false, not, Option, none, some, List, [], ◌∷◌,
  ◌++◌, length, ltb, str_eq, if◌then◌else◌,
}
use ironbird.Base.Action.{Result, ok, err, Action, pure, raise, ◌>>=◌, ◌>>◌}

pub record Droplet : Type 0 where
  pub id : ℕ
  pub name : String
  pub tags : List String
  pub created : String

pub record Firewall : Type 0 where
  pub id : String
  pub name : String

pub data Request : Type 0 where
  list_droplets list_firewalls delete_droplet : ℕ → Request
  delete_firewall : String → Request

abbrev pub Answer : Request → Type 0
Answer (list_droplets page) = List Droplet
Answer (list_firewalls page) = List Firewall
Answer (delete_droplet id) = Unit
Answer (delete_firewall id) = Unit

pub data Error : Type 0 where
  failed : String → Error
  out_of_fuel : Error

-- The calls with their answers.
abbrev pub Log : Type 0
Log = List ((q : Request) × Result Error (Answer q))

-- What answers a call; it may depend on all calls made before.
abbrev pub Client : Type 0
Client = Log → (q : Request) → Result Error (Answer q)

abbrev pub Cleanup : Type 0 → Type 0
Cleanup A = Action Log Error A

pub record Settings : Type 0 where
  pub name_prefix : String
  pub long_running : String
  pub dry_run : Bool
  pub now : ℕ
  pub parse_time : String → Option ℕ

abbrev pub per_page : ℕ
per_page = 200

-- 30*time.Minute
abbrev pub half_hour : ℕ
half_hour = 1800000000000

-- strings.Split(s, "-")
unfoldable pub extend : String → List String → List String
extend c [] = c ∷ []
extend c (part ∷ parts) = append c part ∷ parts

unfoldable pub split_dash : String → List String
unfolding extend
split_dash String.[] = "" ∷ []
split_dash (String.◌∷◌ c rest) =
    let parts = split_dash rest in
    if code c == 45 then "" ∷ parts else extend (String.◌∷◌ c String.[]) parts

-- The first three parts, joined again, or the whole name if there are fewer.
unfoldable pub first_three : String → List String → String
first_three name (a ∷ b ∷ c ∷ parts) = append a (append "-" (append b (append "-" c)))
first_three name _ = name

unfoldable pub extract_prefix : String → String
unfolding split_dash first_three
extract_prefix name = first_three name (split_dash name)

unfoldable pub has : String → List String → Bool
has key [] = false
has key (k ∷ keys) = if str_eq k key then true else has key keys

unfoldable pub should_skip : String → List String → Bool
unfolding has extract_prefix
should_skip name skipped = has (extract_prefix name) skipped

-- The droplets and firewalls that are to go.
unfoldable pub doomed_droplets : Settings → List String → List Droplet → List Droplet
unfolding should_skip
doomed_droplets s skipped [] = []
doomed_droplets s skipped (d ∷ ds) =
    let rest = doomed_droplets s skipped ds in
    if not (starts_with d.name s.name_prefix)
    then rest
    else if should_skip d.name skipped
    then rest
    else d ∷ rest

unfoldable pub doomed_firewalls : Settings → List String → List Firewall → List Firewall
unfolding should_skip
doomed_firewalls s skipped [] = []
doomed_firewalls s skipped (f ∷ fs) =
    let rest = doomed_firewalls s skipped fs in
    if not (starts_with f.name s.name_prefix)
    then rest
    else if should_skip f.name skipped
    then rest
    else f ∷ rest

-- Whether the loop finds a reason to keep the droplet's testnet: its tag, or a time that cannot be
-- read or is less than half an hour ago.
unfoldable pub is_fresh : Settings → Option ℕ → Bool
is_fresh s none = true
is_fresh s (some created) = ltb s.now (created + half_hour)

unfoldable pub is_kept : Settings → Droplet → Bool
unfolding has is_fresh
is_kept s d = if has s.long_running d.tags then true else is_fresh s (s.parse_time d.created)

-- One round of the loop over all droplets.
unfoldable pub mark : Settings → List String → Droplet → List String
unfolding has extract_prefix is_kept
mark s skipped d =
    if not (starts_with d.name s.name_prefix)
    then skipped
    else if has (extract_prefix d.name) skipped
    then skipped
    else if is_kept s d
    then extract_prefix d.name ∷ skipped
    else skipped

unfoldable pub skipped_prefixes : Settings → List String → List Droplet → List String
unfolding mark
skipped_prefixes s skipped [] = skipped
skipped_prefixes s skipped (d ∷ ds) = skipped_prefixes s (mark s skipped d) ds

module _ (c : Client) where
  unfoldable pub call : (q : Request) → Cleanup (Answer q)
  call q log = (c log q, (q, c log q) ∷ log)

  -- A call whose failure is only logged.
  unfoldable pub attempt : (q : Request) → Cleanup (Unit {0})
  attempt q log = (ok tt, (q, c log q) ∷ log)

  unfoldable pub all_droplets : ℕ → ℕ → List Droplet → Cleanup (List Droplet)
  unfolding call
  all_droplets zero page found = raise out_of_fuel
  all_droplets (suc fuel) page found = do
    let rest = all_droplets fuel (suc page)
    ds ← call (list_droplets page)
    (if ltb (length ds) per_page then pure (found ++ ds) else rest (found ++ ds))

  unfoldable pub all_firewalls : ℕ → ℕ → List Firewall → Cleanup (List Firewall)
  unfolding call
  all_firewalls zero page found = raise out_of_fuel
  all_firewalls (suc fuel) page found = do
    let rest = all_firewalls fuel (suc page)
    fs ← call (list_firewalls page)
    (if ltb (length fs) per_page then pure (found ++ fs) else rest (found ++ fs))

  unfoldable pub get_skipped_droplet_prefixes : ℕ → Settings → Cleanup (List String)
  unfolding all_droplets skipped_prefixes
  get_skipped_droplet_prefixes fuel s = do
    ds ← all_droplets fuel 1 []
    pure (skipped_prefixes s [] ds)

  unfoldable pub delete_droplets : List Droplet → Cleanup (Unit {0})
  unfolding attempt
  delete_droplets [] = pure tt
  delete_droplets (d ∷ ds) = attempt (delete_droplet d.id) >> delete_droplets ds

  unfoldable pub delete_firewalls : List Firewall → Cleanup (Unit {0})
  unfolding attempt
  delete_firewalls [] = pure tt
  delete_firewalls (f ∷ fs) = attempt (delete_firewall f.id) >> delete_firewalls fs

  unfoldable pub cleanup_droplets : ℕ → Settings → List String → Cleanup (Unit {0})
  unfolding all_droplets doomed_droplets delete_droplets
  cleanup_droplets fuel s skipped = do
    ds ← all_droplets fuel 1 []
    (if s.dry_run then pure tt else delete_droplets (doomed_droplets s skipped ds))

  unfoldable pub cleanup_firewalls : ℕ → Settings → List String → Cleanup (Unit {0})
  unfolding all_firewalls doomed_firewalls delete_firewalls
  cleanup_firewalls fuel s skipped = do
    fs ← all_firewalls fuel 1 []
    (if s.dry_run then pure tt else delete_firewalls (doomed_firewalls s skipped fs))

  -- The three steps of `main`; a failure of one ends the program.
  unfoldable pub main : ℕ → Settings → Cleanup (Unit {0})
  unfolding get_skipped_droplet_prefixes cleanup_droplets cleanup_firewalls
  main fuel s = do
    skipped ← get_skipped_droplet_prefixes fuel s
    cleanup_droplets fuel s skipped
    cleanup_firewalls fuel s skipped
