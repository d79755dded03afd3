-- ===== src/Definition/Valid.antt =====
-- petri/core/provider/definitions.go: which task definitions are valid.
use ironbird.Base.{
  ℕ, ◌≤◌, ◌≡◌, ◌≢◌, ◌↔◌, refl, inl, inr, String, false, Option, none, some, List, [], ◌∷◌, arith,
  All, str_eq, eq_iff, Option-cases,
}
use ironbird.Base.Action.{ok, Result-cases}
use ironbird.Definition.{
  ImageDefinition, TaskDefinition, name_empty, parse_uint, check, is_none, validate_image,
  validate_port, validate_ports, validate_task,
}

-- The text is the decimal form of a port.
abbrev pub IsPort : String → Type 0
IsPort port = (port ≢ "") × (n : ℕ) × (parse_uint port ≡ some n) × (n ≤ 65535)

abbrev pub IsNumber : String → Type 0
IsNumber s = (s ≢ "") × (n : ℕ) × (parse_uint s ≡ some n)

pub record IsValidTask (t : TaskDefinition) : Type 0 where
  pub named : t.name ≢ ""
  pub image : t.image.image ≢ ""
  pub uid : IsNumber t.image.uid
  pub gid : IsNumber t.image.gid
  pub ports : All IsPort t.ports

is_none_lem : (o : Option ℕ) → is_none o ≡ false → (n : ℕ) × (o ≡ some n)
is_none_lem none h = ground arith
is_none_lem (some n) h = (n, refl)

validate_port-IsPort : (port : String) → validate_port port ≡ ok tt → IsPort port
unfolding validate_port
validate_port-IsPort port h = elim (Option-cases (parse_uint port)) [
  | inl e ↦ ground (arith, e, eq_iff port "")
  | inr (n, e) ↦ (ground (arith, e, eq_iff port ""), n, e, ground (arith, e, eq_iff port ""))
]

IsPort-validate_port : (port : String) → IsPort port → validate_port port ≡ ok tt
unfolding validate_port
IsPort-validate_port port (h, n, e, k) = ground (arith, e, eq_iff port "")

validate_ports-IsPort : (ports : List String) → validate_ports ports ≡ ok tt → All IsPort ports
unfolding validate_ports
validate_ports-IsPort [] h = tt
validate_ports-IsPort (p ∷ ports) h = elim (Result-cases (validate_port p)) [
  | inl (u, e) ↦
      (validate_port-IsPort p e, validate_ports-IsPort ports (rw (e, validate_ports) at h))
  | inr (x, e) ↦ ground (arith, e)
]

IsPort-validate_ports : (ports : List String) → All IsPort ports → validate_ports ports ≡ ok tt
unfolding validate_ports
IsPort-validate_ports [] a = refl
IsPort-validate_ports (p ∷ ports) a =
    rw (IsPort-validate_port p a.0, validate_ports, IsPort-validate_ports ports a.1) refl

-- The parts of an image that are tested.
abbrev pub IsValidImage : ImageDefinition → Type 0
IsValidImage i = (i.image ≢ "") × IsNumber i.uid × IsNumber i.gid

validate_image-IsValidImage : (i : ImageDefinition) → validate_image i ≡ ok tt → IsValidImage i
unfolding validate_image
validate_image-IsValidImage i h =
    let u =
      is_none_lem (parse_uint i.uid)
        (ground (arith, eq_iff i.image "", eq_iff i.uid "", eq_iff i.gid "")) in
    let g =
      is_none_lem (parse_uint i.gid)
        (ground (arith, eq_iff i.image "", eq_iff i.uid "", eq_iff i.gid "")) in
    (
      ground (arith, eq_iff i.image ""),
      (ground (arith, eq_iff i.image "", eq_iff i.uid ""), u.0, u.1),
      (ground (arith, eq_iff i.image "", eq_iff i.uid "", eq_iff i.gid ""), g.0, g.1),
    )

IsValidImage-validate_image : (i : ImageDefinition) → IsValidImage i → validate_image i ≡ ok tt
unfolding validate_image
IsValidImage-validate_image i (h, (hu, n, u), (hg, m, g)) =
    ground (arith, u, g, eq_iff i.image "", eq_iff i.uid "", eq_iff i.gid "")

module _ (t : TaskDefinition) where
  validate_task-IsValidTask : validate_task t ≡ ok tt → IsValidTask t
  unfolding validate_task
  validate_task-IsValidTask h = elim (Result-cases (validate_image t.image)) [
    | inr (x, e) ↦ ground (arith, e)
    | inl (u, e) ↦
        let image = validate_image-IsValidImage t.image e in
        record {
          named = ground (arith, eq_iff t.name "");
          image = image.0;
          uid = image.1;
          gid = image.2;
          ports = validate_ports-IsPort t.ports (ground (arith, e, eq_iff t.name ""));
        }
  ]

  IsValidTask-validate_task : IsValidTask t → validate_task t ≡ ok tt
  unfolding validate_task
  IsValidTask-validate_task v =
      rw
        (
          IsValidImage-validate_image t.image (v.image, v.uid, v.gid),
          IsPort-validate_ports t.ports v.ports,
        )
        (named_lem v.named)
    where
      named_lem : t.name ≢ "" → check (str_eq t.name "") name_empty (ok tt) ≡ ok tt
      named_lem h = ground (arith, eq_iff t.name "")

  -- A task definition passes `ValidateBasic` exactly when its name and image are given, its user and
  -- group are decimal numbers of 64 bits, and each of its ports is a decimal number up to 65535.
  pub validate_task_iff : (validate_task t ≡ ok tt) ↔ IsValidTask t
  validate_task_iff = (validate_task-IsValidTask, IsValidTask-validate_task)
