-- ===== src/DigitalOcean/Config.antt =====
-- petri/core/provider/digitalocean/types.go, tailscale.go, util.go, firewall.go and droplet.go: the
-- configuration of a droplet, and the requests that are built from it.
use Prim.Native.Char.{code}
use Prim.Native.String.{◌++◌ as append}
use ironbird.Base.{
  ℕ, ◌+◌, ◌^◌, ◌==◌, String, Bool, true, false, not, Option, none, some, List, [], ◌∷◌, ltb, str_eq,
  if◌then◌else◌,
}
use ironbird.Base.Texts.{join}
use ironbird.Base.Action.{Result, ok, err}
use ironbird.Definition.{TaskDefinition, digits}
use ironbird.Docker.Provider.{value_of}
use ironbird.DigitalOcean.Types.{
  Error, no_auth_key, no_server, no_local_client, no_tags, no_region, no_size, no_image_id,
  bad_image_id, TailscaleSettings, DropletRequest, FirewallRule, FirewallRequest, ProviderState,
}

abbrev pub within : ℕ → Option ℕ → Bool
within bound none = false
within bound (some n) = ltb n bound

-- Whether strconv.ParseInt(s, 10, 64) succeeds: an optional sign, digits, and 64 bits.
unfoldable pub is_int : String → Bool
unfolding digits
is_int String.[] = false
is_int (String.◌∷◌ c rest) =
    if code c == 45
    then if str_eq rest "" then false else within (2 ^ 63 + 1) (digits 0 rest)
    else if code c == 43
    then if str_eq rest "" then false else within (2 ^ 63) (digits 0 rest)
    else within (2 ^ 63) (digits 0 (String.◌∷◌ c rest))

abbrev pub reject : Bool → Error → Result Error (Unit {0}) → Result Error (Unit {0})
reject true e rest = err e
reject false e rest = rest

-- A key that is missing reads as the empty text.
unfoldable pub validate_config : List (String × String) → Result Error (Unit {0})
unfolding is_int value_of
validate_config d = reject (str_eq (value_of "region" d) "") no_region (
    reject (str_eq (value_of "size" d) "") no_size (
      reject (str_eq (value_of "image_id" d) "") no_image_id
        (reject (not (is_int (value_of "image_id" d))) bad_image_id (ok tt))))

unfoldable pub validate_tailscale : TailscaleSettings → Result Error (Unit {0})
validate_tailscale t = reject (str_eq t.auth_key "") no_auth_key (
    reject (not t.has_server) no_server (
      reject (not t.has_local_client) no_local_client
        (elim t.tags [ [] ↦ err no_tags | ◌∷◌ x xs ↦ ok tt ])))

unfoldable pub prefix_tags : List String → List String
prefix_tags [] = []
prefix_tags (t ∷ ts) = append "tag:" t ∷ prefix_tags ts

abbrev pub advertise : List String → List String
advertise [] = []
advertise (t ∷ ts) = "--advertise-tags" ∷ join "," (t ∷ ts) ∷ []

unfoldable pub get_command : TailscaleSettings → String → String
unfolding prefix_tags join
get_command t hostname = join " " (
    "tailscale"
    ∷ "up"
    ∷ "--ssh"
    ∷ "--authkey"
    ∷ append "\"" (append t.auth_key "\"")
    ∷ "--hostname"
    ∷ hostname
    ∷ advertise (prefix_tags t.tags))

unfoldable pub command_lines : List String → String
command_lines [] = ""
command_lines (c ∷ cs) = append "\n- " (append c (command_lines cs))

unfoldable pub format_user_data : List String → String
unfolding command_lines
format_user_data commands = append "#cloud-config\nruncmd:" (command_lines commands)

abbrev pub inbound_rule : String → String → FirewallRule
inbound_rule protocol ports = record {
  inbound = true;
  protocol = protocol;
  port_range = ports;
  address = "0.0.0.0/0";
}

abbrev pub outbound_rule : String → FirewallRule
outbound_rule protocol = record {
  inbound = false;
  protocol = protocol;
  port_range = "0";
  address = "0.0.0.0/0";
}

unfoldable pub firewall_request : ProviderState → FirewallRequest
firewall_request p = record {
  name = p.petri_tag;
  tags = p.petri_tag ∷ [];
  rules =
      inbound_rule "tcp" "80"
      ∷ inbound_rule "tcp" "443"
      ∷ inbound_rule "tcp" "26656"
      ∷ inbound_rule "udp" "26656"
      ∷ outbound_rule "tcp"
      ∷ outbound_rule "udp"
      ∷ outbound_rule "icmp"
      ∷ [];
}

unfoldable pub resource_name : ProviderState → TaskDefinition → String
resource_name p d = append p.petri_tag (append "-" d.name)

unfoldable pub droplet_request :
    ProviderState → TaskDefinition → List (String × String) → List String → DropletRequest
unfolding resource_name format_user_data
droplet_request p d config commands = record {
  name = resource_name p d;
  region = value_of "region" config;
  size = value_of "size" config;
  ssh_key = 50241382;
  image = value_of "image_id" config;
  tags = p.petri_tag ∷ [];
  user_data = format_user_data commands;
}
