-- ===== src/DigitalOcean/Kept.antt =====
-- petri/core/provider/digitalocean: what every operation keeps: the droplets carry the provider's tag,
-- and the provider knows the domains that it created.
use ironbird.Base.{
  ℕ, ◌≡◌, sym, ap, ◌∙◌, String, Bool, true, false, Option, none, some, List, [], ◌∷◌, ◌++◌,
  if◌then◌else◌,
}
use ironbird.Base.Action.{Result, ok, err, pure, raise, lift, gets, modify, ◌>>=◌}
use ironbird.Base.Triple.{Ensures, Ensures-bind, Post-constant}
use ironbird.DigitalOcean.Types.{
  World, DigitalOcean, Cloud, Error, Request, create_droplet, create_domain, Answer, Log, request,
}

-- The droplets that are asked for have the tag and no other.
abbrev pub TaggedBy : String → Request → Type 0
TaggedBy tag (create_droplet r) = r.tags ≡ tag ∷ []
TaggedBy tag _ = Unit

abbrev pub AllTagged : String → Log → Type 0
AllTagged tag [] = Unit
AllTagged tag (e ∷ log) = TaggedBy tag e.0 × AllTagged tag log

-- The domain that an answer names.
abbrev pub value : Result Error ℕ → Option ℕ
value (ok id) = some id
value (err e) = none

abbrev pub domain_answer : (q : Request) → Result Error (Answer q) → Option ℕ
domain_answer (create_domain root name ip) r = value r
domain_answer _ r = none

abbrev pub append_some : List ℕ → Option ℕ → List ℕ
append_some ids none = ids
append_some ids (some id) = ids ++ (id ∷ [])

-- The domains that were created, oldest first.
abbrev pub created_domains : Log → List ℕ
created_domains [] = []
created_domains (e ∷ log) = append_some (created_domains log) (domain_answer e.0 e.1)

pub record Kept (tag : String) (w : World) : Type 0 where
  pub tag_is : w.provider.petri_tag ≡ tag
  pub tagged : AllTagged tag w.log
  pub domains : w.provider.domain_ids ≡ created_domains w.log

-- A request that creates no domain, and no droplet without the tag.
pub record Plain (tag : String) (q : Request) : Type 0 where
  pub no_domain : (r : Result Error (Answer q)) → domain_answer q r ≡ none
  pub tagged : TaggedBy tag q

module _ (c : Cloud) (tag : String) where
  abbrev pub Steady : {A : Type 0} → DigitalOcean A → Type 0
  Steady m = Ensures (Kept tag) (Kept tag) m (λ _. Kept tag)

  pub after :
      {A B : Type 0} {m : DigitalOcean A} {f : A → DigitalOcean B}
      → Steady m
      → ((a : A) → Steady (f a))
      → Steady (m >>= f)
  after hm hf = Ensures-bind _ _ hm hf

  pub Kept-request :
      (q : Request) (w : World) → Plain tag q → Kept tag w → Kept tag (request c q w).1
  unfolding request
  Kept-request q w p k = record {
    tag_is = k.tag_is;
    tagged = (p.tagged, k.tagged);
    domains =
        k.domains ∙ sym (ap (append_some (created_domains w.log)) (p.no_domain (c.answer w.log q)));
  }

  pub asking : (q : Request) → Plain tag q → Steady (request c q)
  asking q p = record {
    at = λ w k.
        Post-constant (Kept tag) (Kept tag) (request c q w).0 (request c q w).1 (λ h. h)
          (Kept-request q w p k);
  }

  pub done : {A : Type 0} (a : A) → Steady (pure a)
  unfolding pure
  done a = record { at = λ w k. k }

  pub lifting : {A : Type 0} (r : Result Error A) → Steady (lift r)
  unfolding lift
  lifting r = record { at = λ w k. Post-constant (Kept tag) (Kept tag) r w (λ h. h) k }

  pub raising : {A : Type 0} (e : Error) → Steady {A = A} (raise e)
  unfolding raise
  raising e = record { at = λ w k. k }

  pub reading : {A : Type 0} (f : World → A) → Steady (gets f)
  unfolding gets
  reading f = record { at = λ w k. k }

  pub changing :
      (f : World → World) → ((w : World) → Kept tag w → Kept tag (f w)) → Steady (modify f)
  unfolding modify
  changing f h = record { at = h }

  pub either :
      {A : Type 0} (b : Bool) (m k : DigitalOcean A)
      → Steady m
      → Steady k
      → Steady (if b then m else k)
  either true m k hm hk = hm
  either false m k hm hk = hk
