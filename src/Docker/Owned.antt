-- ===== src/Docker/Owned.antt =====
-- petri/core/provider/docker: the addresses of the provider's tasks, and the invariant on them.
use ironbird.Base.{
  ℕ, suc, ◌<◌, ◌≡◌, ◌≢◌, refl, sym, ap, ◌∙◌, inl, inr, String, List, [], ◌∷◌, arith, All, All-impl,
  In, NotIn, Distinct, str_eq, Bool-cases,
}
use mathlib.Core.Path.{subst, subst₂}
use ironbird.Definition.{TaskStatus}
use ironbird.Docker.Types.{World, TaskState, update, insert, delete}
use ironbird.Docker.Task.{set_status, remove_task}
use ironbird.Docker.Provider.{register}
use ironbird.Docker.Quiet.{taken, SameState}

abbrev pub ips : (ℕ → TaskState) → List (String × ℕ) → List String
ips cells [] = []
ips cells ((k, r) ∷ m) = (cells r).ip_address ∷ ips cells m

-- The gateway's address and those of all tasks.
abbrev pub addresses : World → List String
addresses w = w.provider.network_gateway ∷ ips w.cells w.provider.task_states

abbrev pub Older : ℕ → List (String × ℕ) → Type 0
Older n = All (λ e. e.1 < n)

-- All addresses are different, every one was given out by the allocator, and no task is in a cell
-- that is still to come.
pub record IsOwned (w : World) : Type 0 where
  pub distinct : Distinct (addresses w)
  pub owned : All (λ ip. In ip (taken w.log)) (addresses w)
  pub older : Older w.next w.provider.task_states

module _ {A : Type 0} where
  ne_of_notin : {x y : A} (ys : List A) → NotIn x ys → In y ys → x ≢ y
  ne_of_notin [] n m e = m
  ne_of_notin (z ∷ ys) n (inl p) e = n.0 (e ∙ p)
  ne_of_notin (z ∷ ys) n (inr m) e = ne_of_notin ys n.1 m e

addresses-SameState : {v w : World} → SameState v w → addresses w ≡ addresses v
addresses-SameState s =
    λ i. (s.provider i).network_gateway ∷ ips (s.cells i) (s.provider i).task_states

pub SameState-IsOwned : {v w : World} → SameState v w → IsOwned v → IsOwned w
SameState-IsOwned {v} {w} s o = record {
  distinct = subst Distinct (sym (addresses-SameState s)) o.distinct;
  owned =
      subst (All (λ ip. In ip (taken w.log))) (sym (addresses-SameState s))
        (All-impl (addresses v) s.grows o.owned);
  older = subst₂ Older (sym s.next) (λ i. (sym s.provider i).task_states) o.older;
}

-- An address that the allocator has not given out before is no task's.
pub fresh_lem :
    (ip : String) (taken_ips xs : List String)
    → NotIn ip taken_ips
    → All (λ x. In x taken_ips) xs
    → NotIn ip xs
fresh_lem ip taken_ips xs n = All-impl xs (λ x m. ne_of_notin taken_ips n m)

module _ (cells : ℕ → TaskState) (n : ℕ) (t : TaskState) where
  ips-update : (m : List (String × ℕ)) → Older n m → ips (update cells n t) m ≡ ips cells m
  unfolding update
  ips-update [] o = refl
  ips-update ((k, r) ∷ m) o = ground (arith, ips-update m o.1)

  update_old : (r : ℕ) → r < n → update cells n t r ≡ cells r
  unfolding update
  update_old r h = ground arith

  update_self : update cells n t n ≡ t
  unfolding update
  update_self = ground arith

  All-insert :
      (P : String → Type 0) (k : String) (m : List (String × ℕ))
      → Older n m
      → P t.ip_address
      → All P (ips cells m)
      → All P (ips (update cells n t) (insert k n m))
  unfolding insert
  All-insert P k [] o p a = (rw update_self p, tt)
  All-insert P k ((j, r) ∷ m) o p a = elim (Bool-cases (str_eq j k)) [
    | inl same ↦ rw (same, insert, update_self, ips-update m o.1) (p, a.1)
    | inr other ↦
        rw (other, insert)
          (
            subst (λ (u : TaskState). P u.ip_address) (sym (update_old r o.0)) a.0,
            All-insert P k m o.1 p a.1,
          )
  ]

  Distinct-insert :
      (k : String) (m : List (String × ℕ))
      → Older n m
      → NotIn t.ip_address (ips cells m)
      → Distinct (ips cells m)
      → Distinct (ips (update cells n t) (insert k n m))
  unfolding insert
  Distinct-insert k [] o f d = (tt, tt)
  Distinct-insert k ((j, r) ∷ m) o f d = elim (Bool-cases (str_eq j k)) [
    | inl same ↦ rw (same, insert, update_self, ips-update m o.1) (f.1, d.1)
    | inr other ↦
        rw (other, insert)
          (
            subst (λ (u : TaskState). NotIn u.ip_address (ips (update cells n t) (insert k n m)))
                (sym (update_old r o.0))
                (All-insert (λ y. (cells r).ip_address ≢ y) k m o.1 (λ e. f.0 (sym e)) d.0),
            Distinct-insert k m o.1 f.1 d.1,
          )
  ]

Older-insert :
    (k : String) (n : ℕ) (m : List (String × ℕ)) → Older n m → Older (suc n) (insert k n m)
unfolding insert
Older-insert k n [] o = (omega arith, tt)
Older-insert k n ((j, r) ∷ m) o = elim (Bool-cases (str_eq j k)) [
  | inl same ↦ rw (same, insert) (omega arith, All-impl m (λ e h. omega arith) o.1)
  | inr other ↦ rw (other, insert) (omega arith, Older-insert k n m o.1)
]

All-delete :
    (P : String → Type 0) (cells : ℕ → TaskState) (k : String) (m : List (String × ℕ))
    → All P (ips cells m)
    → All P (ips cells (delete k m))
unfolding delete
All-delete P cells k [] a = tt
All-delete P cells k ((j, r) ∷ m) a = elim (Bool-cases (str_eq j k)) [
  | inl same ↦ rw (same, delete) (All-delete P cells k m a.1)
  | inr other ↦ rw (other, delete) (a.0, All-delete P cells k m a.1)
]

Distinct-delete :
    (cells : ℕ → TaskState) (k : String) (m : List (String × ℕ))
    → Distinct (ips cells m)
    → Distinct (ips cells (delete k m))
unfolding delete
Distinct-delete cells k [] d = tt
Distinct-delete cells k ((j, r) ∷ m) d = elim (Bool-cases (str_eq j k)) [
  | inl same ↦ rw (same, delete) (Distinct-delete cells k m d.1)
  | inr other ↦ rw (other, delete) (All-delete _ cells k m d.0, Distinct-delete cells k m d.1)
]

Older-delete : (k : String) (n : ℕ) (m : List (String × ℕ)) → Older n m → Older n (delete k m)
unfolding delete
Older-delete k n [] o = tt
Older-delete k n ((j, r) ∷ m) o = elim (Bool-cases (str_eq j k)) [
  | inl same ↦ rw (same, delete) (Older-delete k n m o.1)
  | inr other ↦ rw (other, delete) (o.0, Older-delete k n m o.1)
]

ips-set_status :
    (t : ℕ) (s : TaskStatus) (w : World) (m : List (String × ℕ))
    → ips (set_status t s w).cells m ≡ ips w.cells m
unfolding set_status
ips-set_status t s w [] = refl
ips-set_status t s w ((k, r) ∷ m) = ground (arith, ips-set_status t s w m)

pub set_status-IsOwned :
    (t : ℕ) (s : TaskStatus) {w : World} → IsOwned w → IsOwned (set_status t s w)
unfolding set_status
set_status-IsOwned t s {w} o =
    let e =
      ap (λ xs. w.provider.network_gateway ∷ xs) (ips-set_status t s w w.provider.task_states) in
    record {
      distinct = subst Distinct (sym e) o.distinct;
      owned = subst (All (λ ip. In ip (taken w.log))) (sym e) o.owned;
      older = o.older;
    }

pub remove_task-IsOwned : (id : String) {w : World} → IsOwned w → IsOwned (remove_task id w)
unfolding remove_task
remove_task-IsOwned id {w} o =
    let m = w.provider.task_states in
    record {
      distinct =
          (All-delete _ w.cells id m o.distinct.0, Distinct-delete w.cells id m o.distinct.1);
      owned = (o.owned.0, All-delete _ w.cells id m o.owned.1);
      older = Older-delete id w.next m o.older;
    }

-- The address of a task that is about to be stored.
pub record Ready (ip : String) (w : World) : Type 0 where
  pub known : IsOwned w
  pub given : In ip (taken w.log)
  pub unused : NotIn ip (addresses w)

pub SameState-Ready : (ip : String) {v w : World} → SameState v w → Ready ip v → Ready ip w
SameState-Ready ip s r = record {
  known = SameState-IsOwned s r.known;
  given = s.grows ip r.given;
  unused = subst (NotIn ip) (sym (addresses-SameState s)) r.unused;
}

pub register-IsOwned : (t : TaskState) {w : World} → Ready t.ip_address w → IsOwned (register t w)
unfolding register
register-IsOwned t {w} r =
    let o = r.known in
    let m = w.provider.task_states in
    record {
      distinct = (
        All-insert w.cells w.next t _ t.id m o.older (λ e. r.unused.0 (sym e)) o.distinct.0,
        Distinct-insert w.cells w.next t t.id m o.older r.unused.1 o.distinct.1,
      );
      owned = (o.owned.0, All-insert w.cells w.next t _ t.id m o.older r.given o.owned.1);
      older = Older-insert t.id w.next m o.older;
    }
