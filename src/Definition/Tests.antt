-- ===== src/Definition/Tests.antt =====
-- A task definition with the largest port.
use ironbird.Base.{◌≡◌, refl, none, [], ◌∷◌}
use ironbird.Base.Action.{err}
use ironbird.Definition.{
  TaskDefinition, port_too_large, parse_uint, validate_image, validate_port, validate_ports,
  validate_task,
}
use ironbird.Definition.Valid.{IsValidTask, validate_task_iff}

abbrev node : TaskDefinition
node = record {
  name = "node";
  image = record { image = "simapp"; uid = "1000"; gid = "0" };
  ports = "26657" ∷ "65535" ∷ [];
  environment = [];
  data_dir = "";
  entrypoint = [];
  command = [];
  args = [];
  provider_specific_config = none;
}

too_large : validate_port "65536" ≡ err port_too_large
unfolding validate_port parse_uint
too_large = refl

validate_task_iff_example : IsValidTask node
unfolding validate_task validate_image validate_ports validate_port parse_uint
validate_task_iff_example = (validate_task_iff node).0 refl
