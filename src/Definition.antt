-- ===== src/Definition.antt =====
-- petri/core/provider/definitions.go and provider.go: task definitions, their validation, and the
-- status of a task. A text is walked by its characters; ECR images are recognised by a substring.
pub mod Valid
mod Tests
use Prim.Native.Char.{code}
use ironbird.Base.{
  ℕ, ◌+◌, ◌-◌, ◌*◌, ◌^◌, String, Bool, true, false, ◌&&◌, Option, none, some, List, [], ◌∷◌, ltb,
  leb, str_eq, if◌then◌else◌,
}
use text.Mathlib.Text.{find?}
use ironbird.Base.Action.{Result, ok, err}

pub record VolumeDefinition : Type 0 where
  pub name : String
  pub mount_path : String
  pub size : String

pub record ImageDefinition : Type 0 where
  pub image : String
  pub uid : String
  pub gid : String

pub record TaskDefinition : Type 0 where
  pub name : String
  pub image : ImageDefinition
  pub ports : List String
  pub environment : List (String × String)
  pub data_dir : String
  pub entrypoint : List String
  pub command : List String
  pub args : List String
  pub provider_specific_config : Option (List (String × String))

pub data TaskStatus : Type 0 where
  undefined running stopped paused restarting : TaskStatus

pub data DefinitionError : Type 0 where
  volume_name_empty mount_path_empty size_empty : DefinitionError
  name_empty image_empty uid_empty uid_not_unsigned gid_empty gid_not_unsigned : DefinitionError
  port_empty port_not_unsigned port_too_large : DefinitionError

-- strconv.ParseUint(s, 10, 64): one digit or more, and a value of 64 bits.
unfoldable pub digits : ℕ → String → Option ℕ
digits n String.[] = some n
digits n (String.◌∷◌ c rest) =
    let k = code c in if leb 48 k && leb k 57 then digits (n * 10 + (k - 48)) rest else none

in_range : Option ℕ → Option ℕ
in_range none = none
in_range (some n) = if ltb n (2 ^ 64) then some n else none

unfoldable pub parse_uint : String → Option ℕ
unfolding digits in_range
parse_uint s = if str_eq s "" then none else in_range (digits 0 s)

abbrev pub check :
    Bool → DefinitionError → Result DefinitionError (Unit {0}) → Result DefinitionError (Unit {0})
check bad e rest = if bad then err e else rest

abbrev pub is_none {ℓ} : {A : Type ℓ} → Option A → Bool
is_none none = true
is_none (some a) = false

unfoldable pub validate_volume : VolumeDefinition → Result DefinitionError (Unit {0})
validate_volume v =
    check (str_eq v.name "") volume_name_empty (
      check (str_eq v.mount_path "") mount_path_empty (check (str_eq v.size "") size_empty (ok tt)))

unfoldable pub validate_image : ImageDefinition → Result DefinitionError (Unit {0})
validate_image i = check (str_eq i.image "") image_empty (
    check (str_eq i.uid "") uid_empty (
      check (is_none (parse_uint i.uid)) uid_not_unsigned (
        check (str_eq i.gid "") gid_empty
          (check (is_none (parse_uint i.gid)) gid_not_unsigned (ok tt)))))

unfoldable pub validate_port : String → Result DefinitionError (Unit {0})
validate_port port = if str_eq port "" then err port_empty else elim (parse_uint port) [
  | none ↦ err port_not_unsigned
  | some n ↦ if ltb 65535 n then err port_too_large else ok tt
]

unfoldable pub validate_ports : List String → Result DefinitionError (Unit {0})
validate_ports [] = ok tt
validate_ports (port ∷ rest) =
    let others = validate_ports rest in elim (validate_port port) [ err e ↦ err e | ok u ↦ others ]

unfoldable pub validate_task : TaskDefinition → Result DefinitionError (Unit {0})
validate_task t =
    check (str_eq t.name "") name_empty
      (elim (validate_image t.image) [ err e ↦ err e | ok u ↦ validate_ports t.ports ])

unfoldable pub is_ecr_image : String → Bool
is_ecr_image name = elim (find? name ".amazonaws.com") [ none ↦ false | some i ↦ true ]
