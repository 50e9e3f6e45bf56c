-- ===== src/Prometheus/Collectors.antt =====
-- The collectors of plugins/application/prometheus/main.go, by their number of labels, with the entries
-- that would expire them and the calls of the registry for them.
use sg_core.Prelude.{
  is_some, ℕ, ◌==◌, ==_iff, ◌≡◌, refl, Bool, true, false, ◌&&◌, not, List, [], ◌∷◌, ◌++◌, map, none,
  some, if◌then◌else◌, arith,
}
use sg_core.Prometheus.Collector.{PromCollector}
use sg_core.Prometheus.Application.{
  RegistryCall, registers, unregisters, Prometheus, load, store, delete, is_empty,
}

module _ {V : Type 0} where
  pub load-store :
      (k j : ℕ) (v : V) (m : List (ℕ × V))
      → load j (store k v m) ≡ (if k == j then some v else load j m)
  unfolding load store
  load-store k j v [] = refl
  load-store k j v ((i, w) ∷ m) = ground (arith, load-store k j v m)

  pub load-delete :
      (k j : ℕ) (m : List (ℕ × V)) → load j (delete k m) ≡ (if k == j then none else load j m)
  unfolding load delete
  load-delete k j [] = ground arith
  load-delete k j ((i, w) ∷ m) = ground (arith, load-delete k j m)

abbrev pub among : ℕ → List ℕ → Bool
among d [] = false
among d (k ∷ ks) = if k == d then true else among d ks

abbrev pub OnceEach : List ℕ → Type 0
OnceEach [] = Unit
OnceEach (k ∷ ks) = (among k ks ≡ false) × OnceEach ks

pub among-append :
    (d k : ℕ) (ks : List ℕ) → among d (ks ++ k ∷ []) ≡ (if k == d then true else among d ks)
among-append d k [] = refl
among-append d k (j ∷ ks) = ground (arith, among-append d k ks)

pub OnceEach-append :
    (k : ℕ) (ks : List ℕ) → among k ks ≡ false → OnceEach ks → OnceEach (ks ++ k ∷ [])
OnceEach-append k [] h o = (refl, tt)
OnceEach-append k (j ∷ ks) h o =
    (ground (arith, among-append j k ks, o.0, h), OnceEach-append k ks (ground (arith, h)) o.1)

-- Whether the last call for a number of labels is MustRegister. It is no statement of what the library then
-- keeps: a collector that has no metric when it is registered describes nothing, and is not unregistered.
unfoldable pub requested : ℕ → Bool → List RegistryCall → Bool
requested d now [] = now
requested d now (registers k ∷ cs) = requested d (if k == d then true else now) cs
requested d now (unregisters k ∷ cs) = requested d (if k == d then false else now) cs

unfoldable pub after_call : ℕ → Bool → RegistryCall → Bool
after_call d now (registers k) = if k == d then true else now
after_call d now (unregisters k) = if k == d then false else now

pub requested-append :
    (d : ℕ) (now : Bool) (cs : List RegistryCall) (c : RegistryCall)
    → requested d now (cs ++ c ∷ []) ≡ after_call d (requested d now cs) c
unfolding requested after_call
requested-append d now [] (registers k) = refl
requested-append d now [] (unregisters k) = refl
requested-append d now (registers k ∷ cs) c = requested-append d (if k == d then true else now) cs c
requested-append d now (unregisters k ∷ cs) c =
    requested-append d (if k == d then false else now) cs c

module _ {F : Type 0} where
  -- The entries that expire collectors are the collectors, each once, and these are the numbers of labels
  -- for which the last call of the registry is MustRegister.
  pub record Enlisted (p : Prometheus F) : Type 0 where
    pub dims : List ℕ
    pub listed : p.collector_expiry_proc.entries ≡ map some dims
    pub once_each : OnceEach dims
    pub matching : (d : ℕ) → among d dims ≡ is_some (load d p.collectors)
    pub requests : (d : ℕ) → requested d false p.registry_calls ≡ is_some (load d p.collectors)

  -- The numbers of labels whose collectors stay.
  unfoldable pub staying : List (ℕ × PromCollector F) → List ℕ → List ℕ
  staying cs [] = []
  staying cs (d ∷ ds) = let rest = staying cs ds in if is_empty (load d cs) then rest else d ∷ rest

  pub among-staying :
      (cs : List (ℕ × PromCollector F)) (d : ℕ) (ds : List ℕ)
      → among d (staying cs ds) ≡ (among d ds && not (is_empty (load d cs)))
  unfolding staying
  among-staying cs d [] = refl
  among-staying cs d (k ∷ ds) = ground (arith, ==_iff k d, among-staying cs d ds)

  pub OnceEach-staying :
      (cs : List (ℕ × PromCollector F)) (ds : List ℕ) → OnceEach ds → OnceEach (staying cs ds)
  unfolding staying
  OnceEach-staying cs [] o = o
  OnceEach-staying cs (k ∷ ds) o =
      ground (arith, OnceEach-staying cs ds o.1, among-staying cs k ds, o.0)
