-- ===== src/Ceilometer/Filled.antt =====
-- The steps of genLabels of plugins/handler/ceilometer-metrics/main.go, on arrays with room.
use Prim.Native.String.{◌++◌ as ◌+++◌}
use text.Mathlib.TextLemmas.{append-eq-nil_iff}
use sg_core.Prelude.{
  ℕ, zero, suc, ◌+◌, ◌≤◌, ◌≡◌, refl, sym, ap, ◌∙◌, arith, false, String, str_eq, List, [], ◌∷◌,
  ◌++◌, map, append_assoc, append-nil, length, take, if◌then◌else◌, Dict, Outcome, returns, ◌>>=◌,
  index, inl, inr, Bool-cases, eq_iff,
}
use sg_core.Ceilometer.Labels.{
  blanks, set_at, Slots, write, put, put_if, write_display_name, write_name, close_name, put_all,
}

-- The arrays with some labels written and room for others.
abbrev pub filled : Dict String → ℕ → Slots
filled done room = record {
  keys = map (λ l. l.0) done ++ blanks room;
  vals = map (λ l. l.1) done ++ blanks room;
  slot = length done;
}

set_at-append :
    (f : String × String → String) (done : Dict String) (old : String) (rest : List String)
    (s : String)
    → set_at (map f done ++ old ∷ rest) (length done) s ≡ returns (map f done ++ s ∷ rest)
set_at-append f [] old rest s = refl
set_at-append f (l ∷ done) old rest s = rw (set_at-append f done old rest s) refl

index-append :
    (f : String × String → String) (done : Dict String) (s : String) (rest : List String)
    → index (map f done ++ s ∷ rest) (length done) ≡ returns s
index-append f [] s rest = refl
index-append f (l ∷ done) s rest = index-append f done s rest

pub take-append :
    (f : String × String → String) (done : Dict String) (rest : List String)
    → take (length done) (map f done ++ rest) ≡ map f done
take-append f [] [] = refl
take-append f [] (s ∷ rest) = refl
take-append f (l ∷ done) rest = ap (λ k. f l ∷ k) (take-append f done rest)

map-snoc :
    (f : String × String → String) (done : Dict String) (l : String × String) (rest : List String)
    → map f done ++ f l ∷ rest ≡ map f (done ++ l ∷ []) ++ rest
map-snoc f [] l rest = refl
map-snoc f (k ∷ done) l rest = ap (λ m. f k ∷ m) (map-snoc f done l rest)

length-snoc : (done : Dict String) (l : String × String) → length done + 1 ≡ length (done ++ l ∷ [])
length-snoc [] l = refl
length-snoc (k ∷ done) l = grind (arith, length-snoc done l)

put-filled :
    (key val : String) (done : Dict String) (room : ℕ)
    → put key val (filled done (suc room)) ≡ returns (filled (done ++ (key, val) ∷ []) room)
unfolding put write
put-filled key val done room = rw (set_at-append (λ l. l.0) done "" (blanks room) key) (
    rw (set_at-append (λ l. l.1) done "" (blanks room) val) (
      rw (map-snoc (λ l. l.0) done (key, val) (blanks room)) (
        rw (map-snoc (λ l. l.1) done (key, val) (blanks room))
          (rw (length-snoc done (key, val)) refl))))

-- The arrays with one more label written and the index not moved.
abbrev pending : Dict String → String → String → ℕ → Slots
pending done key val room = record {
  keys = map (λ l. l.0) done ++ key ∷ blanks room;
  vals = map (λ l. l.1) done ++ val ∷ blanks room;
  slot = length done;
}

write-pending :
    (key val k v : String) (done : Dict String) (room : ℕ)
    → write key val (pending done k v room) ≡ returns (pending done key val room)
unfolding write
write-pending key val k v done room =
    rw (set_at-append (λ l. l.0) done k (blanks room) key)
      (rw (set_at-append (λ l. l.1) done v (blanks room) val) refl)

close_name-filled :
    (done : Dict String) (room : ℕ)
    → close_name (filled done (suc room)) ≡ returns (filled done (suc room))
unfolding close_name
close_name-filled done room = rw (index-append (λ l. l.1) done "" (blanks room)) refl

close_name-pending :
    (key val : String) (done : Dict String) (room : ℕ)
    → str_eq val "" ≡ false
    → close_name (pending done key val room) ≡ returns (filled (done ++ (key, val) ∷ []) room)
unfolding close_name
close_name-pending key val done room h = rw (index-append (λ l. l.1) done val (blanks room)) (
    rw h (
      rw (map-snoc (λ l. l.0) done (key, val) (blanks room)) (
        rw (map-snoc (λ l. l.1) done (key, val) (blanks room))
          (rw (length-snoc done (key, val)) refl))))

joined_not_empty : (d n : String) → str_eq d "" ≡ false → str_eq (d +++ n) "" ≡ false
joined_not_empty d n h = elim (Bool-cases (str_eq (d +++ n) "")) [
  | inl same ↦ absurd (
      grind (
        arith,
        h,
        (eq_iff d "").1 (((append-eq-nil_iff {p = d} {q = n}).0 ((eq_iff (d +++ n) "").0 same)).0),
      ))
  | inr other ↦ other
]

-- The labels that a field makes, and those of the two names of the resource.
abbrev pub label_if : String → String → Dict String
label_if key val = if str_eq val "" then [] else (key, val) ∷ []

abbrev pub resource_name : String → String → Dict String
resource_name display_name name =
    if str_eq display_name ""
    then label_if "resource_name" name
    else ("resource_name", if str_eq name "" then display_name else display_name +++ (":" +++ name))
      ∷ []

-- The labels `done` are written and there is room for some more.
pub record Fits (more : ℕ) (done : Dict String) (o : Outcome Slots) : Type 0 where
  pub room : ℕ
  pub result : o ≡ returns (filled done room)
  pub enough : more ≤ room

put_room-Fits :
    {more : ℕ} (done : Dict String) {o : Outcome Slots} (key val : String) (room : ℕ)
    → o ≡ returns (filled done room)
    → suc more ≤ room
    → Fits more (done ++ (key, val) ∷ []) (o >>= put key val)
put_room-Fits done key val zero result enough = absurd (omega (arith, enough))
put_room-Fits done key val (suc room) result enough = record {
  room = room;
  result = rw result (put-filled key val done room);
  enough = omega (arith, enough);
}

pub put-Fits :
    {more : ℕ} {done : Dict String} {o : Outcome Slots} (key val : String)
    → Fits (suc more) done o
    → Fits more (done ++ (key, val) ∷ []) (o >>= put key val)
put-Fits {done} key val f = put_room-Fits done key val f.room f.result f.enough

pub put_if-Fits :
    {more : ℕ} {done : Dict String} {o : Outcome Slots} (key val : String)
    → Fits (suc more) done o
    → Fits more (done ++ label_if key val) (o >>= put_if key val)
unfolding put_if
put_if-Fits {done} key val f = elim (Bool-cases (str_eq val "")) [
  | inl h ↦ record {
    room = f.room;
    result = rw f.result (rw h (rw (append-nil done) refl));
    enough = omega (arith, f.enough);
  }
  | inr h ↦
      let g = put-Fits key val f in
      record {
        room = g.room;
        result = rw f.result (rw h (sym (ap (λ o. o >>= put key val) f.result) ∙ g.result));
        enough = g.enough;
      }
]

-- The three steps for the names of the resource.
name_steps : String → String → Slots → Outcome Slots
name_steps display_name name s =
    write_display_name display_name s >>= write_name name >>= close_name

name_steps-filled :
    (d n : String) (done : Dict String) (room : ℕ)
    → (r : ℕ) × (name_steps d n (filled done (suc room))
        ≡ returns (filled (done ++ resource_name d n) r))
      × (room ≤ r)
unfolding write_display_name write_name name_steps
name_steps-filled d n done room = elim (Bool-cases (str_eq d "")) [
  | inl no_display ↦ elim (Bool-cases (str_eq n "")) [
    | inl no_name ↦ (
      suc room,
      rw no_display (rw no_name (rw (append-nil done) (close_name-filled done room))),
      omega arith,
    )
    | inr name ↦ (
      room,
      rw no_display (
          rw name (
            rw (index-append (λ l. l.1) done "" (blanks room)) (
              rw (write-pending "resource_name" n "" "" done room)
                (close_name-pending "resource_name" n done room name)))),
      omega arith,
    )
  ]
  | inr display ↦ elim (Bool-cases (str_eq n "")) [
    | inl no_name ↦ (
      room,
      rw display (
          rw (write-pending "resource_name" d "" "" done room)
            (rw no_name (close_name-pending "resource_name" d done room display))),
      omega arith,
    )
    | inr name ↦ (
      room,
      rw display (
          rw (write-pending "resource_name" d "" "" done room) (
            rw name (
              rw (index-append (λ l. l.1) done d (blanks room)) (
                rw display (
                  rw (write-pending "resource_name" (d +++ (":" +++ n)) "resource_name" d done room)
                    (close_name-pending "resource_name" (d +++ (":" +++ n)) done room
                      (joined_not_empty d (":" +++ n) display))))))),
      omega arith,
    )
  ]
]

name_room-Fits :
    {more : ℕ} (done : Dict String) {o : Outcome Slots} (d n : String) (room : ℕ)
    → o ≡ returns (filled done room)
    → suc more ≤ room
    → Fits more
        (done ++ resource_name d n)
        (o >>= write_display_name d >>= write_name n >>= close_name)
unfolding name_steps
name_room-Fits done d n zero result enough = absurd (omega (arith, enough))
name_room-Fits done d n (suc room) result enough =
    let named = name_steps-filled d n done room in
    record { room = named.0; result = rw result named.1; enough = omega (arith, enough, named.2) }

pub name_steps-Fits :
    {more : ℕ} {done : Dict String} {o : Outcome Slots} (d n : String)
    → Fits (suc more) done o
    → Fits more
        (done ++ resource_name d n)
        (o >>= write_display_name d >>= write_name n >>= close_name)
unfolding name_steps
name_steps-Fits {done} d n f = name_room-Fits done d n f.room f.result f.enough

pub put_all-Fits :
    (users done : Dict String) (room : ℕ)
    → length users ≤ room
    → (r : ℕ) × (put_all users (filled done room) ≡ returns (filled (done ++ users) r))
unfolding put_all
put_all-Fits [] done room h = (room, rw (append-nil done) refl)
put_all-Fits ((key, val) ∷ users) done zero h = absurd (omega (arith, h))
put_all-Fits ((key, val) ∷ users) done (suc room) h =
    let rest = put_all-Fits users (done ++ (key, val) ∷ []) room (omega (arith, h)) in
    (
      rest.0,
      rw (put-filled key val done room)
          (rest.1 ∙ (rw (append_assoc done ((key, val) ∷ []) users) refl)),
    )
