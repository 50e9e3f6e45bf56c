-- ===== src/Prometheus/Expiry.antt =====
-- plugins/application/prometheus/expiry.go: a process that checks its entries for staleness. What an
-- entry is, and what Expired and Delete do to the state that the entries share, are arguments.
use sg_core.Prelude.{
  Bool, true, false, ◌&&◌, Option, none, some, List, [], ◌∷◌, ◌++◌, if◌then◌else◌, ℤ, pos, lebℤ,
}

-- expiryProc; a list element without a value is `none`.
pub record ExpiryProc {ℓ} (E : Type ℓ) : Type ℓ where
  pub entries : List (Option E)
  pub interval : ℤ

unfoldable pub new_expiry_proc {ℓ} : {E : Type ℓ} → ℤ → ExpiryProc E
new_expiry_proc interval = record { entries = []; interval = interval }

unfoldable pub register {ℓ} : {E : Type ℓ} → E → ExpiryProc E → ExpiryProc E
register e ep = record ep { entries = ep.entries ++ some e ∷ [] }

module _ {ℓ κ} {E : Type ℓ} {S : Type κ} (expired : ℤ → E → S → Bool)
    (delete : E → S → S × Bool) where
  -- Whether an entry leaves the list, and the shared state after its turn.
  unfoldable pub check_entry : ℤ → Option E → S → S × Bool
  check_entry interval none s = (s, true)
  check_entry interval (some e) s = if expired interval e s then delete e s else (s, false)

  -- The loop from the element `e = ep.entries.Front()` on.
  unfoldable pub check_loop : ℤ → List (Option E) → S → List (Option E) × S
  check_loop interval [] s = ([], s)
  check_loop interval (e ∷ es) s =
      let (s', removed) = check_entry interval e s in
      let (es', s'') = check_loop interval es s' in if removed then (es', s'') else (e ∷ es', s'')

  unfoldable pub check : ExpiryProc E → S → ExpiryProc E × S
  unfolding check_loop check_entry
  check ep s =
      let (es, s') = check_loop ep.interval ep.entries s in (record ep { entries = es }, s')

  -- run: with an interval of 0 the process returns at once; else it makes one check whenever its
  -- timer fires. What the others do to the entries and the state before each check is given.
  unfoldable pub run :
      List (ExpiryProc E × S → ExpiryProc E × S) → ExpiryProc E × S → ExpiryProc E × S
  unfolding check
  run [] (ep, s) = (ep, s)
  run (others ∷ rounds) (ep, s) =
      let (ep', s') = others (ep, s) in
      let next = run rounds (check ep' s') in
      if lebℤ ep.interval (pos 0) && lebℤ (pos 0) ep.interval then (ep, s) else next
