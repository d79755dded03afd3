-- ===== src/Cleanup/Tests.antt =====
-- Runs on an account with a long-running testnet, a finished one and a droplet of another kind.
use ironbird.Base.{ℕ, ◌≡◌, refl, String, false, none, some, List, [], ◌∷◌, str_eq, if◌then◌else◌}
use ironbird.Base.Action.{ok, ◌>>=◌}
use ironbird.Cleanup.{
  Droplet, list_droplets, list_firewalls, delete_droplet, delete_firewall, Log, Client, Settings,
  extract_prefix, main,
}
use ironbird.Cleanup.Listed.{Sound}
use ironbird.Cleanup.Spared.{first_listing, main-Sound}

abbrev settings : Settings
settings = record {
  name_prefix = "petri";
  long_running = "LONG_RUNNING";
  dry_run = false;
  now = 9000000000000;
  parse_time = λ text. if str_eq text "long ago" then some 1000 else none;
}

abbrev droplet : ℕ → String → List String → Droplet
droplet id name tags = record { id = id; name = name; tags = tags; created = "long ago" }

abbrev account : Client
account log (list_droplets page) = ok (
    droplet 1 "petri-ib-aaaaaa-validator-0" []
    ∷ droplet 2 "petri-ib-bbbbbb-validator-0" []
    ∷ droplet 3 "petri-ib-aaaaaa-node-0" ("LONG_RUNNING" ∷ [])
    ∷ droplet 4 "bastion" []
    ∷ [])
account log (list_firewalls page) = ok (
    (record { id = "fa"; name = "petri-ib-aaaaaa" })
    ∷ (record { id = "fb"; name = "petri-ib-bbbbbb" })
    ∷ [])
account log (delete_droplet id) = ok tt
account log (delete_firewall id) = ok tt

extract_prefix_example : extract_prefix "petri-ib-aaaaaa-validator-0" ≡ "petri-ib-aaaaaa"
unfolding extract_prefix
extract_prefix_example = refl

extract_prefix_short : extract_prefix "bastion" ≡ "bastion"
unfolding extract_prefix
extract_prefix_short = refl

-- Only the finished testnet's droplet and firewall are deleted.
abbrev deletions : Log → List String
deletions [] = []
deletions ((delete_droplet id, r) ∷ log) = "droplet" ∷ deletions log
deletions ((delete_firewall id, r) ∷ log) = id ∷ deletions log
deletions ((_, r) ∷ log) = deletions log

main_example : deletions (main account 3 settings []).1 ≡ "fb" ∷ "droplet" ∷ []
unfolding main ◌>>=◌
main_example = refl

main-Sound_example : Sound settings (first_listing account 3) (main account 3 settings []).1
main-Sound_example = main-Sound account 3 settings
