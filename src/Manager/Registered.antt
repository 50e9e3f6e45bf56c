-- ===== src/Manager/Registered.antt =====
-- What SetTransportHandlers of cmd/manager/manager.go registers.
use sg_core.Prelude.{
  ◌≡◌, refl, sym, ap, ◌∙◌, String, str_eq, eq_iff, eq_refl, List, [], ◌∷◌, ◌++◌, append-nil,
  append_assoc, Option, none, some, lookup-insert, inl, inr, if◌then◌else◌, Bool-cases, Sum-cases,
}
use sg_core.Manager.Plugins.{Plugins, Manager}
use sg_core.Manager.Load.{
  LoadError, Block, handlers_of, add_handler, make_handler, set_transport_handlers,
}

module _ {T H A : Type 0} where
  handlers_of-add_handler :
      (name k : String) (h : H) (m : Manager T H A)
      → handlers_of k (add_handler name h m)
        ≡ (if str_eq name k then handlers_of name m ++ h ∷ [] else handlers_of k m)
  unfolding handlers_of add_handler
  handlers_of-add_handler name k h m = elim (Bool-cases (str_eq name k)) [
    | inl same ↦
        rw
          (handlers_of, add_handler, lookup-insert name k (handlers_of name m ++ h ∷ []) m.handlers)
          (rw same refl)
    | inr other ↦
        rw
          (handlers_of, add_handler, lookup-insert name k (handlers_of name m ++ h ∷ []) m.handlers)
          (rw other refl)
  ]

module _ {T H A C : Type 0} (p : Plugins T H A C) where
  -- The handlers that the blocks make, up to the first that fails, and the error of that one.
  abbrev pub made : String → List (Block C) → List H
  made path [] = []
  made path (b ∷ bs) = elim (make_handler p b path) [ inl err ↦ [] | inr h ↦ h ∷ made path bs ]

  abbrev pub first_error : String → List (Block C) → Option LoadError
  first_error path [] = none
  first_error path (b ∷ bs) = elim (make_handler p b path) [
    | inl err ↦ some err
    | inr h ↦ first_error path bs
  ]

  pub record Registered (name : String) (bs : List (Block C)) (m : Manager T H A)
      (r : Manager T H A × Option LoadError) : Type 0 where
    pub handlers :
        (k : String)
        → handlers_of k r.0
          ≡ (if str_eq name k then handlers_of name m ++ made m.plugin_path bs else handlers_of k m)
    pub failed : r.1 ≡ first_error m.plugin_path bs
    pub transports : r.0.transports ≡ m.transports

  same_name :
      (name k : String) (m : Manager T H A)
      → handlers_of k m ≡ (if str_eq name k then handlers_of name m ++ [] else handlers_of k m)
  same_name name k m = elim (Bool-cases (str_eq name k)) [
    | inl same ↦ rw same (
        ap (λ j. handlers_of j m) (sym ((eq_iff name k).0 same))
        ∙ sym (append-nil (handlers_of name m)))
    | inr other ↦ rw other refl
  ]

  added :
      (name k : String) (h : H) (hs : List H) (m : Manager T H A)
      → (if str_eq name k
          then handlers_of name (add_handler name h m) ++ hs
          else handlers_of k (add_handler name h m))
        ≡ (if str_eq name k then handlers_of name m ++ h ∷ hs else handlers_of k m)
  added name k h hs m = elim (Bool-cases (str_eq name k)) [
    | inl same ↦ rw same (
        rw (handlers_of-add_handler name name h m)
          (rw (eq_refl name) (append_assoc (handlers_of name m) (h ∷ []) hs)))
    | inr other ↦ rw other (rw (handlers_of-add_handler name k h m) (rw other refl))
  ]

  -- A transport gets the handlers of its blocks, in order and behind those that it has, up to the first
  -- block that fails, whose error is returned; the handlers of the others and the transports stay.
  pub set_transport_handlers-Registered :
      (name : String) (bs : List (Block C)) (m : Manager T H A)
      → Registered name bs m (set_transport_handlers p name bs m)
  unfolding set_transport_handlers add_handler
  set_transport_handlers-Registered name [] m = record {
    handlers = λ k. same_name name k m;
    failed = refl;
    transports = refl;
  }
  set_transport_handlers-Registered name (b ∷ bs) m =
      elim (Sum-cases (make_handler p b m.plugin_path)) [
        | inl (err, fails) ↦ record {
          handlers = λ k. rw (set_transport_handlers, made, fails) (same_name name k m);
          failed = rw (set_transport_handlers, first_error, fails) refl;
          transports = rw (set_transport_handlers, fails) refl;
        }
        | inr (h, makes) ↦
            let rest = set_transport_handlers-Registered name bs (add_handler name h m) in
            record {
              handlers = λ k.
                  rw (set_transport_handlers, made, makes)
                    (rest.handlers k ∙ added name k h (made m.plugin_path bs) m);
              failed = rw (set_transport_handlers, first_error, makes) rest.failed;
              transports = rw (set_transport_handlers, makes) rest.transports;
            }
      ]
